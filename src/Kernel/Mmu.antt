-- ===== src/Kernel/Mmu.antt =====
-- linux-2.6-pvops.git/arch/x86/xen/mmu.c, the updates of one page table entry, and which of them
-- call the hook kmalpage_multi_mmu_update: xen_set_domain_pte and xen_ptep_modify_prot_commit do,
-- xen_set_pte and xen_set_pte_at do not. The multicall buffer is the list of its calls of
-- mmu_update, oldest first; when it is flushed, and tracing, are left out.
pub mod Hooked
use maitland.Base.{
  ℕ, ◌+◌, ◌==◌, Bool, true, false, if◌then◌else◌, Option, none, some, List, [], ◌∷◌, ◌++◌, Run, ok,
  ◌>>=◌,
}
use maitland.Malpage.Hooks.{has_bit}

-- `struct mmu_update`, and a call of mmu_update in the buffer: the domain, and the updates.
pub record MmuUpdate : Type 0 where
  pub ptr : ℕ
  pub val : ℕ

pub record MultiCall : Type 0 where
  pub domid : ℕ
  pub updates : List MmuUpdate

-- DOMID_SELF
abbrev pub domid_self : ℕ
domid_self = 0x7FF0

-- What virt_to_machine, pte_val_ma, paravirt_get_lazy_mode and xen_mc_extend_args say: `extends` if the last call
-- of the buffer takes one more update.
pub record MmuEnv : Type 0 where
  pub machine : ℕ → ℕ
  pub val_ma : ℕ → ℕ
  pub lazy_mmu : Bool
  pub extends : Bool

-- `x | MMU_PT_UPDATE_PRESERVE_AD`
abbrev pub preserve_ad : ℕ → ℕ
preserve_ad x = if has_bit x 1 then x else x + 2

-- The last call with one more update.
unfoldable pub extend_last : MmuUpdate → List MultiCall → List MultiCall
extend_last u [] = []
extend_last u (c ∷ []) = record c { updates = c.updates ++ (u ∷ []) } ∷ []
extend_last u (c ∷ d ∷ calls) = c ∷ extend_last u (d ∷ calls)

unfoldable pub extend_mmu_update : MmuEnv → MmuUpdate → List MultiCall → List MultiCall
unfolding extend_last
extend_mmu_update env u calls =
    if env.extends
    then extend_last u calls
    else calls ++ (record { domid = domid_self; updates = u ∷ [] } ∷ [])

-- The buffer, the entries that are written directly, and what the hook changes.
pub record Mmu {ℓ} (S : Type ℓ) : Type ℓ where
  pub calls : List MultiCall
  pub entries : ℕ → ℕ
  pub hooked : S

module _ {ℓ} {S : Type ℓ} where
  -- `hook` is NULL until malpage is loaded.
  unfoldable pub call_hook : Option (ℕ → ℕ → S → Run S) → ℕ → ℕ → S → Run S
  call_hook none ptep pteval s = ok s
  call_hook (some hook) ptep pteval s = hook ptep pteval s

  pub set_domain_pte : Option (ℕ → ℕ → S → Run S) → MmuEnv → ℕ → ℕ → ℕ → Mmu S → Run (Mmu S)
  unfolding call_hook
  set_domain_pte hook env ptep pteval domid m = do
    s ← call_hook hook ptep pteval m.hooked
    let u : MmuUpdate = record { ptr = env.machine ptep; val = env.val_ma pteval }
    ok (record m {
      calls = m.calls ++ (record { domid = domid; updates = u ∷ [] } ∷ []);
      hooked = s;
    })

  pub ptep_modify_prot_commit : Option (ℕ → ℕ → S → Run S) → MmuEnv → ℕ → ℕ → Mmu S → Run (Mmu S)
  unfolding call_hook extend_mmu_update
  ptep_modify_prot_commit hook env ptep pte m = do
    s ← call_hook hook ptep pte m.hooked
    let u : MmuUpdate = record { ptr = preserve_ad (env.machine ptep); val = env.val_ma pte }
    ok (record m { calls = extend_mmu_update env u m.calls; hooked = s })

  -- xen_batched_set_pte
  batched_set_pte : MmuEnv → ℕ → ℕ → Mmu S → Mmu S × Bool
  unfolding extend_mmu_update
  batched_set_pte env ptep pteval m =
      let u : MmuUpdate = record { ptr = env.machine ptep; val = env.val_ma pteval } in
      if env.lazy_mmu
      then (record m { calls = extend_mmu_update env u m.calls }, true)
      else (m, false)

  native_set_pte : ℕ → ℕ → Mmu S → Mmu S
  native_set_pte ptep pteval m = record m {
    entries = λ p. if p == ptep then pteval else m.entries p;
  }

  -- xen_set_pte, and xen_set_pte_at, which leaves the address space and the address unread.
  pub set_pte : MmuEnv → ℕ → ℕ → Mmu S → Mmu S
  unfolding batched_set_pte native_set_pte
  set_pte env ptep pteval m =
      let (m', batched) = batched_set_pte env ptep pteval m in
      if batched then m' else native_set_pte ptep pteval m'
