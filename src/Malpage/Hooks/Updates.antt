-- ===== src/Malpage/Hooks/Updates.antt =====
-- Which page table updates of the guest become requests.
use maitland.Base.{
  ℕ, ◌+◌, ◌*◌, ◌%◌, ◌^◌, ◌≡◌, refl, Bool, true, false, if◌then◌else◌, some, ℤ, pos, to_unsigned, ok,
  arith, ap,
}
use maitland.Ring.{Macros, MacroLaws}
use maitland.Wire.{Message}
use maitland.Wire.Malpage
use maitland.Malpage.Guest.{Guest}
use maitland.Malpage.Hooks.{AddrEnv, arb_virt_to_machine, multi_mmu_update}
use maitland.Malpage.Hooks.Requests.{requested, send_request-requested}

-- The request of an update.
abbrev pub mmuupdate : ℤ → ℕ → ℕ → Guest → Message → Message
mmuupdate pid ptep pte g req = record req {
  operation = Malpage.ring_mmuupdate;
  mmu_ptr = ptep;
  mmu_val = pte;
  domid = pos g.domid;
  process_id = to_unsigned pid;
}

-- The address of the entry has a machine address, at the same offset in its page.
pub data Translated (env : AddrEnv) (vaddr : ℕ) : Type 0 where
  linear : env.valid ≡ true → env.machine % 4096 ≡ vaddr % 4096 → Translated env vaddr
  walked : (mfn : ℕ) → env.valid ≡ false → env.walked_mfn ≡ some mfn → Translated env vaddr

arb_virt_to_machine-offset :
    (env : AddrEnv) (vaddr : ℕ)
    → Translated env vaddr
    → (maddr : ℕ) × (arb_virt_to_machine env vaddr ≡ ok maddr) × (maddr % 4096 ≡ vaddr % 4096)
unfolding arb_virt_to_machine
arb_virt_to_machine-offset env vaddr (linear valid same) = (env.machine, ground arith, same)
arb_virt_to_machine-offset env vaddr (walked mfn invalid found) =
    ((mfn * 2 ^ 12) % 2 ^ 64 + vaddr % 2 ^ 12, ground (arith, found), omega arith)

-- An entry is eight bytes long and aligned, and its address can be translated. Then the hook does not
-- fault, and the type bits that it reads from the machine address never keep an update back: it
-- sends one request, with the entry, its new value, the domain and the process, exactly if the entry
-- is dirty.
pub multi_mmu_update-requested :
    (m : Macros) (dirty : Bool) (env : AddrEnv) (pid : ℤ) (ptep pte : ℕ) (g : Guest)
    → MacroLaws m
    → ptep % 8 ≡ 0
    → Translated env ptep
    → multi_mmu_update m dirty env pid ptep pte g
      ≡ ok (if dirty then requested m (mmuupdate pid ptep pte g) g else g)
unfolding multi_mmu_update
multi_mmu_update-requested m false env pid ptep pte g laws aligned there = refl
multi_mmu_update-requested m true env pid ptep pte g laws aligned there =
    let (maddr, found, offset) = arb_virt_to_machine-offset env ptep there in
    let plain : maddr % 8 ≡ 0 = omega (arith, offset, aligned) in
    rw (found, plain) (ap ok (send_request-requested m laws (mmuupdate pid ptep pte g) g))
