-- ===== src/Tests/Kernel.antt =====
-- The kernel's handlers with the hooks of malpage.
use maitland.Base.{
  ℕ, ◌+◌, ◌^◌, ◌≡◌, refl, true, false, none, some, inl, [], ◌∷◌, pos, Run, ok, arith,
}
use maitland.Malpage.Guest.{Guest}
use maitland.Malpage.Hooks.{AddrEnv}
use maitland.Malpage.Hooks.Requests.{error_code, requested, nxviolation}
use maitland.Malpage.Hooks.Updates.{mmuupdate, linear}
use maitland.Kernel.Fault.{VmArea, Attempt, FaultEnv, do_page_fault}
use maitland.Kernel.Fault.Hooked as FaultHook
use maitland.Kernel.Mmu.Hooked as MmuHook
use maitland.Kernel.Fault.Calls.{IsOrdinary}
use maitland.Kernel.Fault.Hooked.{do_page_fault-reported, do_page_fault-unreported}
use maitland.Kernel.Mmu.{MmuEnv, Mmu, set_pte, set_domain_pte, ptep_modify_prot_commit}
use maitland.Kernel.Mmu.Hooked.{all_updates, entry_updates-requested}
use maitland.Tests.{xen_ring, xen_ring-laws, guest, fetch}

abbrev pub text_area : VmArea
text_area = record {
  vm_start = 4096;
  vm_read = true;
  vm_write = false;
  vm_exec = true;
  vm_growsdown = false;
}

abbrev pub mapped : Attempt
mapped = record {
  vma = some text_area;
  stack_fails = false;
  retry = false;
  error = false;
  error_handled = false;
}

-- The first attempt has to be repeated.
abbrev pub fault_env : FaultEnv
fault_env = record {
  kmmio_fault = false;
  task_size_max = 2 ^ 47;
  vmalloc_handled = false;
  kmemcheck_fault = false;
  spurious_fault = false;
  notify_page_fault = false;
  user_mode = true;
  in_atomic = false;
  has_mm = true;
  down_read_trylock = true;
  in_exception_table = false;
  sp = 2 ^ 40;
  first = record mapped { retry = true };
  second = mapped;
}

-- No attempt has to be repeated.
abbrev pub calm_env : FaultEnv
calm_env = record fault_env { first = mapped }

pub calm_env-IsOrdinary : IsOrdinary calm_env 8192
calm_env-IsOrdinary = record {
  unclaimed = refl;
  below = omega arith;
  unnotified = refl;
  steady = refl;
  has_mm = refl;
  user = refl;
  first = record { area = text_area; found = refl; start = omega arith; allowed = refl };
  second = record { area = text_area; found = refl; start = omega arith; allowed = refl };
}

fault_env-IsOrdinary : IsOrdinary fault_env 8192
fault_env-IsOrdinary = record {
  unclaimed = refl;
  below = omega arith;
  unnotified = refl;
  steady = refl;
  has_mm = refl;
  user = refl;
  first = record { area = text_area; found = refl; start = omega arith; allowed = refl };
  second = record { area = text_area; found = refl; start = omega arith; allowed = refl };
}

do_page_fault-reported_example :
    (do_page_fault
      (some (FaultHook.hook xen_ring (pos 42)))
      fault_env
      8192
      (error_code fetch)
      guest).0
    ≡ (let once = requested xen_ring (nxviolation (pos 42) 8192 guest) guest in
        requested xen_ring (nxviolation (pos 42) 8192 once) once)
do_page_fault-reported_example =
    do_page_fault-reported xen_ring xen_ring-laws (pos 42) fault_env 8192 fetch guest
      fault_env-IsOrdinary refl refl

-- The page is present, and not executable.
do_page_fault-unreported_example :
    (do_page_fault
      (some (FaultHook.hook xen_ring (pos 42)))
      fault_env
      8192
      (error_code (record fetch { prot = true }))
      guest).0
    ≡ guest
do_page_fault-unreported_example =
    do_page_fault-unreported xen_ring xen_ring-laws (pos 42) fault_env 8192
      (record fetch { prot = true }) guest refl

-- An entry at address 4104, in the linear range.
abbrev entry : AddrEnv
entry = record { valid = true; machine = 12296; walked_mfn = none }

abbrev mmu_env : MmuEnv
mmu_env = record { machine = λ p. p + 8192; val_ma = λ v. v + 1; lazy_mmu = false; extends = false }

abbrev mmu : Mmu Guest
mmu = record { calls = []; entries = λ p. 0; hooked = guest }

abbrev update_hook : ℕ → ℕ → Guest → Run Guest
update_hook = MmuHook.hook xen_ring (λ p. true) entry (pos 42)

abbrev update_sent : Guest
update_sent = requested xen_ring (mmuupdate (pos 42) 4104 99 guest) guest

entry_updates-requested_example :
    ((s' : Mmu Guest) × (ptep_modify_prot_commit (some update_hook) mmu_env 4104 99 mmu ≡ ok s')
      × (s'.hooked ≡ update_sent)
      × (s'.entries ≡ mmu.entries)
      × (all_updates s'.calls ≡ record { ptr = 12298; val = 100 } ∷ []))
    × ((s' : Mmu Guest) × (set_domain_pte (some update_hook) mmu_env 4104 99 5 mmu ≡ ok s')
        × (s'.hooked ≡ update_sent)
        × (s'.entries ≡ mmu.entries)
        × (all_updates s'.calls ≡ record { ptr = 12296; val = 100 } ∷ []))
    × (((set_pte mmu_env 4104 99 mmu).hooked ≡ guest)
        × (all_updates (set_pte mmu_env 4104 99 mmu).calls ≡ [])
        × ((set_pte mmu_env 4104 99 mmu).entries 4104 ≡ 99))
entry_updates-requested_example =
    entry_updates-requested xen_ring xen_ring-laws (λ p. true) entry (pos 42) mmu_env 4104 99 5 mmu
      refl (linear refl refl) (inl refl)
