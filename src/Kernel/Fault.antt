-- ===== src/Kernel/Fault.antt =====
-- linux-2.6-pvops.git/arch/x86/mm/fault.c, do_page_fault with access_error: which faults reach the
-- hook kmalpage_do_page_fault, and how often. What the functions that it calls return is an
-- argument; statistics, tracing and the locks themselves are left out. pgtable_bad is taken to
-- return.
pub mod Bits
pub mod Calls
pub mod Hooked
use maitland.Base.{
  ℕ, ◌+◌, ◌*◌, ◌%◌, ◌^◌, ◌&&◌, ◌||◌, not, Bool, true, false, if◌then◌else◌, ltb, leb, Option, none,
  some,
}
use maitland.Malpage.Hooks.{has_bit, pf_prot, pf_user}

-- PF_WRITE and PF_RSVD
abbrev pub pf_write : ℕ
pf_write = 1

abbrev pub pf_rsvd : ℕ
pf_rsvd = 3

-- `struct vm_area_struct`, with the bits of `vm_flags` that are tested.
pub record VmArea : Type 0 where
  pub vm_start : ℕ
  pub vm_read : Bool
  pub vm_write : Bool
  pub vm_exec : Bool
  pub vm_growsdown : Bool

-- What find_vma, expand_stack, handle_mm_fault and mm_fault_error return in one attempt. `retry`
-- and `error` are VM_FAULT_RETRY and VM_FAULT_ERROR in the result of handle_mm_fault.
pub record Attempt : Type 0 where
  pub vma : Option VmArea
  pub stack_fails : Bool
  pub retry : Bool
  pub error : Bool
  pub error_handled : Bool

-- What the other functions return, the registers, and the two attempts.
pub record FaultEnv : Type 0 where
  pub kmmio_fault : Bool
  pub task_size_max : ℕ
  pub vmalloc_handled : Bool
  pub kmemcheck_fault : Bool
  pub spurious_fault : Bool
  pub notify_page_fault : Bool
  pub user_mode : Bool
  pub in_atomic : Bool
  pub has_mm : Bool
  pub down_read_trylock : Bool
  pub in_exception_table : Bool
  pub sp : ℕ
  pub first : Attempt
  pub second : Attempt

-- How do_page_fault ends.
pub data Outcome : Type 0 where
  returned : Outcome
  bad_area_nosemaphore : Outcome
  bad_area : Outcome
  bad_area_access_error : Outcome
  mm_fault_error : Outcome
  completed : Outcome

pub access_error : ℕ → VmArea → Bool
access_error error_code vma =
    if has_bit error_code pf_write
    then not vma.vm_write
    else if has_bit error_code pf_prot
    then true
    else not (vma.vm_read || (vma.vm_exec || vma.vm_write))

-- `address + 65536 + 32 * sizeof(unsigned long) < regs->sp`
abbrev below_stack : ℕ → ℕ → Bool
below_stack address sp = ltb ((address + 65536 + 32 * 8) % 2 ^ 64) sp

-- From `retry` to `good_area`: whether the address lies in an area, or its stack can grow to it.
has_area : ℕ → ℕ → ℕ → Attempt → VmArea → Bool
has_area sp address error_code t vma =
    if leb vma.vm_start address
    then true
    else if not vma.vm_growsdown
    then false
    else if has_bit error_code pf_user && below_stack address sp
    then false
    else not t.stack_fails

-- `error_code |= PF_USER`
abbrev pub as_user : ℕ → ℕ
as_user error_code = if has_bit error_code pf_user then error_code else error_code + 4

module _ {ℓ} {S : Type ℓ} where
  -- From `good_area` on. `hook` is the call of kmalpage_do_page_fault, `again` the jump to `retry`.
  good_area : (S → S) → (S → S × Outcome) → Bool → ℕ → Attempt → VmArea → S → S × Outcome
  good_area hook again allow_retry error_code t vma s =
      let retried = again (hook s) in
      if access_error error_code vma
      then (s, bad_area_access_error)
      else if (t.retry || t.error) && t.error_handled
      then (hook s, mm_fault_error)
      else if allow_retry && t.retry
      then retried
      else (hook s, completed)

  -- From `retry` on.
  attempt : (S → S) → (S → S × Outcome) → Bool → ℕ → ℕ → ℕ → Attempt → S → S × Outcome
  unfolding has_area good_area
  attempt hook again allow_retry sp address error_code t s = elim t.vma [
    | none ↦ (s, bad_area)
    | some vma ↦
        if has_area sp address error_code t vma
        then good_area hook again allow_retry error_code t vma s
        else (s, bad_area)
  ]

  -- The first attempt clears FAULT_FLAG_ALLOW_RETRY before it jumps back, so that the second does
  -- not.
  attempts : (S → S) → FaultEnv → ℕ → ℕ → S → S × Outcome
  unfolding attempt
  attempts hook env address error_code =
      attempt hook (attempt hook (λ s. (s, completed)) false env.sp address error_code env.second)
        true env.sp address error_code env.first

  -- A fault at a kernel address.
  kernel_fault : FaultEnv → ℕ → S → S × Outcome
  kernel_fault env error_code s =
      let on_demand = not (
        has_bit error_code pf_rsvd || (has_bit error_code pf_user || has_bit error_code pf_prot)) in
      if on_demand && (env.vmalloc_handled || env.kmemcheck_fault)
      then (s, returned)
      else if env.spurious_fault || env.notify_page_fault
      then (s, returned)
      else (s, bad_area_nosemaphore)

  -- `hook` is NULL until malpage is loaded.
  call_hook : Option (ℕ → ℕ → S → S) → ℕ → ℕ → S → S
  call_hook none address error_code s = s
  call_hook (some hook) address error_code s = hook address error_code s

  pub do_page_fault : Option (ℕ → ℕ → S → S) → FaultEnv → ℕ → ℕ → S → S × Outcome
  unfolding attempts kernel_fault call_hook
  do_page_fault hook env address error_code s =
      let code = if env.user_mode then as_user error_code else error_code in
      if env.kmmio_fault
      then (s, returned)
      else if leb env.task_size_max address
      then kernel_fault env error_code s
      else if env.notify_page_fault
      then (s, returned)
      else if env.in_atomic || not env.has_mm
      then (s, bad_area_nosemaphore)
      else if not env.down_read_trylock
          && (not (has_bit code pf_user) && not env.in_exception_table)
      then (s, bad_area_nosemaphore)
      else attempts (call_hook hook address code) env address code s
