-- ===== src/System/Delivery/Process.antt =====
-- From the memory of a process in a guest to the pages that the driver of the privileged domain holds.
use maitland.Base.{ℕ, ◌<◌, ◌^◌, ◌≡◌, ◌≢◌, ◌==◌, false, List, [], ◌∷◌, All, tens, to_unsigned}
use maitland.XenStore.{XenStore}
use maitland.Monitor.State.{State}
use maitland.Malpage.Walk.{Vma}
use maitland.Malpage.Walk.Probes.{all_mapped}
use maitland.Malpage.Report.{Task, Kernel}
use maitland.Malpage.Report.Shared.{distinct, grants}

-- No grant is given twice.
abbrev pub Unrepeated : List ℕ → Type 0
Unrepeated [] = Unit
Unrepeated (g ∷ gs) = All (λ h. (h == g) ≡ false) gs × Unrepeated gs

module _ (k : Kernel) (task : Task) (v : Vma) (vs : List Vma) (domid : ℕ) where
  -- What the reported process needs: numbers that fit the buffers, and grants that differ.
  pub record IsSendable : Type 0 where
    pub domid_lt : domid < tens 5
    pub process_id : to_unsigned task.pid < tens 6
    pub process_id_ne : to_unsigned task.pid ≢ 0
    pub grefs : All (λ g. g < tens 6) (grants k 0 (distinct (all_mapped task.mm (v ∷ vs))))
    pub pfns : All (λ p. p < 2 ^ 64) (distinct (all_mapped task.mm (v ∷ vs)))
    pub once : Unrepeated (grants k 0 (distinct (all_mapped task.mm (v ∷ vs))))
