-- ===== src/Kernel/Fault/Bits.antt =====
-- The bits of an error code that do_page_fault tests and sets.
use maitland.Base.{◌+◌, ◌/◌, ◌%◌, ◌^◌, ◌≡◌, refl, ap, Bool, true, false, if◌then◌else◌, arith}
use maitland.Malpage.Hooks.{has_bit, pf_prot, pf_user}
use maitland.Malpage.Hooks.Requests.{Fault, bit, bit_lt, bit_test, error_code}
use maitland.Kernel.Fault.{FaultEnv, pf_write, as_user}

pub prot_bit : (f : Fault) → has_bit (error_code f) pf_prot ≡ f.prot
prot_bit f =
    let e : (error_code f / 2 ^ 0) % 2 ≡ bit f.prot = omega (arith, bit_lt f.prot) in
    rw (e, bit_test f.prot) refl

pub write_bit : (f : Fault) → has_bit (error_code f) pf_write ≡ f.write
write_bit f =
    let e : (error_code f / 2 ^ 1) % 2 ≡ bit f.write =
      omega (arith, bit_lt f.prot, bit_lt f.write) in
    rw (e, bit_test f.write) refl

pub user_bit : (f : Fault) → has_bit (error_code f) pf_user ≡ f.user
user_bit f =
    let e : (error_code f / 2 ^ 2) % 2 ≡ bit f.user =
      omega (arith, bit_lt f.prot, bit_lt f.write, bit_lt f.user) in
    rw (e, bit_test f.user) refl

-- The error code that the hook gets: in user mode, that of a user's fault.
abbrev pub seen : FaultEnv → Fault → Fault
seen env f = if env.user_mode then record f { user = true } else f

pub as_user-marked : (f : Fault) → as_user (error_code f) ≡ error_code (record f { user = true })
as_user-marked f = rw (user_bit f) (marked f.user refl)
  where
    marked :
        (u : Bool)
        → u ≡ f.user
        → (if u then error_code f else error_code f + 4) ≡ error_code (record f { user = true })
    marked true e = omega (arith, ap bit e)
    marked false e = omega (arith, ap bit e)

pub seen_lem :
    (env : FaultEnv) (f : Fault)
    → (if env.user_mode then as_user (error_code f) else error_code f) ≡ error_code (seen env f)
seen_lem env f = either env.user_mode
  where
    either :
        (b : Bool)
        → (if b then as_user (error_code f) else error_code f)
          ≡ error_code (if b then record f { user = true } else f)
    either true = as_user-marked f
    either false = refl
