-- ===== src/Kernel/Fault/Calls.antt =====
-- How often do_page_fault calls its hook.
use maitland.Base.{
  ℕ, ◌<◌, ◌≤◌, ◌≡◌, refl, ap, ◌∙◌, Bool, true, false, not, ◌&&◌, ◌||◌, if◌then◌else◌, leb, some,
  inl, inr, ◌⊎◌, Bool-cases, arith,
}
use maitland.Malpage.Hooks.Requests.{Fault, error_code}
use maitland.Kernel.Fault.{
  VmArea, Attempt, FaultEnv, Outcome, bad_area_access_error, mm_fault_error, completed,
  access_error, has_area, as_user, good_area, attempt, attempts, kernel_fault, call_hook,
  do_page_fault,
}
use maitland.Kernel.Fault.Bits.{prot_bit, write_bit, user_bit, as_user-marked}

-- An area that can be read, executed or written holds the address.
pub record Holds (address : ℕ) (t : Attempt) : Type 0 where
  pub area : VmArea
  pub found : t.vma ≡ some area
  pub start : area.vm_start ≤ address
  pub allowed : (area.vm_read || (area.vm_exec || area.vm_write)) ≡ true

-- A fault of a user's process at an address that an area holds.
pub record IsOrdinary (env : FaultEnv) (address : ℕ) : Type 0 where
  pub unclaimed : env.kmmio_fault ≡ false
  pub below : address < env.task_size_max
  pub unnotified : env.notify_page_fault ≡ false
  pub steady : env.in_atomic ≡ false
  pub has_mm : env.has_mm ≡ true
  pub user : env.user_mode ≡ true
  pub first : Holds address env.first
  pub second : Holds address env.second

-- handle_mm_fault asks to try again, and mm_fault_error does not end the fault.
abbrev pub is_repeated : FaultEnv → Bool
is_repeated env = env.first.retry && not env.first.error_handled

has_area-start :
    (sp address code : ℕ) (t : Attempt) (vma : VmArea)
    → vma.vm_start ≤ address
    → has_area sp address code t vma ≡ true
unfolding has_area
has_area-start sp address code t vma h = ground (arith, h)

access_error-read :
    (f : Fault) (vma : VmArea)
    → f.write ≡ false
    → (vma.vm_read || (vma.vm_exec || vma.vm_write)) ≡ true
    → access_error (error_code f) vma ≡ f.prot
unfolding access_error
access_error-read f vma reads allowed = rw (prot_bit f, write_bit f, reads, allowed) (either f.prot)
  where
    either : (b : Bool) → (if b then true else not true) ≡ b
    either true = refl
    either false = refl

module _ {ℓ} {S : Type ℓ} where
  attempt-Holds :
      (hook : S → S) (again : S → S × Outcome) (allow : Bool) (sp address : ℕ) (f : Fault)
      (t : Attempt) (s : S)
      → Holds address t
      → f.write ≡ false
      → attempt hook again allow sp address (error_code f) t s ≡ (
          if f.prot
          then (s, bad_area_access_error)
          else if (t.retry || t.error) && t.error_handled
          then (hook s, mm_fault_error)
          else if allow && t.retry
          then again (hook s)
          else (hook s, completed))
  unfolding attempt good_area
  attempt-Holds hook again allow sp address f t s holds reads =
      rw
        (
          holds.found,
          has_area-start sp address (error_code f) t holds.area holds.start,
          access_error-read f holds.area reads holds.allowed,
        )
        refl

  do_page_fault-entered :
      (hook : ℕ → ℕ → S → S) (env : FaultEnv) (address : ℕ) (f : Fault) (s : S)
      → IsOrdinary env address
      → let code = error_code (record f { user = true }) in
        do_page_fault (some hook) env address (error_code f) s
        ≡ attempts (hook address code) env address code s
  unfolding do_page_fault call_hook
  do_page_fault-entered hook env address f s ordinary =
      let below : leb env.task_size_max address ≡ false = ground (arith, ordinary.below) in
      rw
        (
          ordinary.unclaimed,
          below,
          ordinary.unnotified,
          ordinary.steady,
          ordinary.has_mm,
          ordinary.user,
          as_user-marked f,
          user_bit (record f { user = true }),
        )
        (elim (Bool-cases env.down_read_trylock) [ inl e ↦ rw e refl | inr e ↦ rw e refl ])

  pub do_page_fault-hooked :
      (hook : ℕ → ℕ → S → S) (env : FaultEnv) (address : ℕ) (f : Fault) (s : S)
      → IsOrdinary env address
      → f.write ≡ false
      → let call = hook address (error_code (record f { user = true })) in
        (do_page_fault (some hook) env address (error_code f) s).0
        ≡ (if f.prot then s else if is_repeated env then call (call s) else call s)
  unfolding attempts
  do_page_fault-hooked hook env address f s ordinary reads =
      let g = record f { user = true } in
      let call = hook address (error_code g) in
      let twice =
        attempt-Holds call (λ t. (t, completed)) false env.sp address g env.second (call s)
          ordinary.second reads in
      let once =
        attempt-Holds call
          (attempt call (λ t. (t, completed)) false env.sp address (error_code g) env.second) true
          env.sp address g env.first s ordinary.first reads in
      ap (λ r. r.0) (do_page_fault-entered hook env address f s ordinary)
      ∙ ground (arith, once, twice)

  attempt-idle :
      (hook : S → S) (again : S → S × Outcome) (allow : Bool) (sp address code : ℕ) (t : Attempt)
      (s : S)
      → hook s ≡ s
      → (again s).0 ≡ s
      → (attempt hook again allow sp address code t s).0 ≡ s
  unfolding attempt good_area
  attempt-idle hook again allow sp address code t s idle still = ground (arith, idle, still)

  kernel_fault-idle : (env : FaultEnv) (code : ℕ) (s : S) → (kernel_fault env code s).0 ≡ s
  unfolding kernel_fault
  kernel_fault-idle env code s = ground arith

  -- At a kernel's address, or with a hook that does nothing, nothing changes.
  pub do_page_fault-idle :
      (hook : ℕ → ℕ → S → S) (env : FaultEnv) (address code : ℕ) (s : S)
      → (leb env.task_size_max address ≡ true)
        ⊎ (hook address (if env.user_mode then as_user code else code) s ≡ s)
      → (do_page_fault (some hook) env address code s).0 ≡ s
  unfolding do_page_fault attempts call_hook
  do_page_fault-idle hook env address code s (inl high) =
      ground (arith, high, kernel_fault-idle env code s)
  do_page_fault-idle hook env address code s (inr idle) =
      let seen_code = if env.user_mode then as_user code else code in
      let call = hook address seen_code in
      let second =
        attempt-idle call (λ t. (t, completed)) false env.sp address seen_code env.second s idle
          refl in
      let first =
        attempt-idle call
          (attempt call (λ t. (t, completed)) false env.sp address seen_code env.second) true env.sp
          address seen_code env.first s idle second in
      ground (arith, kernel_fault-idle env code s, first)
