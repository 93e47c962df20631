-- ===== src/Malpage/Register/Written.antt =====
-- What malpage_register writes, if the ring is set up and if it is not.
use maitland.Base.{
  ℕ, zero, suc, ◌+◌, ◌-◌, ◌<◌, ◌≤◌, ◌^◌, ◌%◌, ◌≡◌, ◌≢◌, refl, ap, ◌==◌, ◌⊎◌, inl, inr,
  if◌then◌else◌, none, some, List, [], ◌∷◌, ◌++◌, length, length-append, take, ℤ, pos, negsuc, ok,
  Text, length-before, Option-cases, lt→ltb, decimal, length-decimal, arith,
}
use maitland.Ring.{Sring}
use maitland.XenStore.{Op, write}
use maitland.Malpage.Send.Sent.{sprintf-ok, sprintf-decimal}
use maitland.Malpage.Register.{
  ShareInfo, RegisterEnv, xenstore_register_path, free_ring, alloc_evtchn, bind_ring, connect,
  setup_ring, get_uuid, get_domid, registration, register,
}

abbrev pub magnitude : ℤ → ℕ
magnitude (pos n) = n
magnitude (negsuc n) = suc n

-- What can be read, and the widths of the numbers.
pub record IsReadable (env : RegisterEnv) (d : ℕ) : Type 0 where
  pub narrow : d < 2 ^ 16
  pub domid : env.domid ≡ some (decimal d)
  pub parsed : env.strtoul (decimal d) ≡ d
  pub uuid : (bytes : Text) → env.uuid ≡ some bytes → length bytes ≤ 37
  pub gref : magnitude (env.grant 0) < 2 ^ 32
  pub port : (env.alloc_unbound 0).1 < 2 ^ 32

-- A step of the set-up fails: there is no page, or it cannot be granted, or there is no event channel,
-- or it cannot be bound.
abbrev pub Fails : RegisterEnv → Type 0
Fails env =
    (env.page ≡ none)
    ⊎ (((e : ℕ) × (env.grant 0 ≡ negsuc e))
        ⊎ (((env.alloc_unbound 0).0 ≢ pos 0)
            ⊎ ((env.bound ≡ pos 0) ⊎ ((e : ℕ) × (env.bound ≡ negsuc e)))))

pub record Succeeds (env : RegisterEnv) (p : Sring) (gref port irq : ℕ) : Type 0 where
  pub page : env.page ≡ some p
  pub grant : env.grant 0 ≡ pos gref
  pub alloc : env.alloc_unbound 0 ≡ (pos 0, port)
  pub bound : env.bound ≡ pos irq
  pub real : 0 < irq

abbrev pub cleared : ShareInfo
cleared = record {
  domid = 0;
  gref = 0;
  evtchn = 0;
  irq = 0;
  ring_mfn = pos 0;
  uuid = [];
  fring = record { req_prod_pvt = 0; rsp_cons = 0 };
  sring = none;
}

setup_ring-failed :
    (env : RegisterEnv)
    → Fails env
    → ((setup_ring env cleared).0.evtchn ≡ 0) × ((setup_ring env cleared).0.irq ≡ 0)
unfolding setup_ring connect bind_ring alloc_evtchn free_ring
setup_ring-failed env h = ground (arith, h)

pub setup_ring-gref :
    (env : RegisterEnv) (d : ℕ) → IsReadable env d → (setup_ring env cleared).0.gref < 2 ^ 32
unfolding setup_ring connect bind_ring alloc_evtchn free_ring
setup_ring-gref env d h = ground (arith, h.gref)

pub setup_ring-evtchn :
    (env : RegisterEnv) (d : ℕ) → IsReadable env d → (setup_ring env cleared).0.evtchn < 2 ^ 32
unfolding setup_ring connect bind_ring alloc_evtchn free_ring
setup_ring-evtchn env d h = ground (arith, h.port)

pub setup_ring-connected :
    (env : RegisterEnv) (page : Sring) (gref port irq : ℕ)
    → Succeeds env page gref port irq
    → setup_ring env cleared ≡ (
      record cleared { gref = gref; evtchn = port; irq = irq; fring = env.ring; sring = some page },
      pos 0,
    )
unfolding setup_ring connect bind_ring alloc_evtchn free_ring
setup_ring-connected env page gref port irq h =
    let err = ap (λ (q : ℤ × ℕ). q.0) h.alloc in
    let new = ap (λ (q : ℤ × ℕ). q.1) h.alloc in
    ground (arith, h.page, h.grant, err, new, h.bound, h.real)

length-take : (n : ℕ) (s : Text) → length (take n s) ≤ n
length-take zero s = omega arith
length-take (suc n) [] = omega arith
length-take (suc n) (c ∷ s) = omega (arith, length-take n s)

length-uuid :
    (bytes : Text)
    → length bytes ≤ 37
    → length (if length bytes == 37 then take (length bytes - 1) bytes else bytes) ≤ 36
length-uuid bytes h = ground (arith, length-take (length bytes - 1) bytes)

length-get_uuid : (env : RegisterEnv) (d : ℕ) → IsReadable env d → length (get_uuid env) ≤ 36
unfolding get_uuid
length-get_uuid env d h = elim (Option-cases env.uuid) [
  | inl e ↦ rw (get_uuid, e) (omega arith)
  | inr (bytes, e) ↦
      rw (get_uuid, e)
        (let read = if length bytes == 37 then take (length bytes - 1) bytes else bytes in
          omega (arith, length-before 0 read, length-uuid bytes (h.uuid bytes e)))
]

-- The info structure that malpage_register leaves.
abbrev pub registered : RegisterEnv → ℕ → ShareInfo
registered env d =
    let (info, ring_mfn) = setup_ring env cleared in
    record info { ring_mfn = ring_mfn; uuid = get_uuid env; domid = d }

length-registration :
    (env : RegisterEnv) (d : ℕ) → IsReadable env d → length (registration (registered env d)) ≤ 64
unfolding registration
length-registration env d h =
    let info = registered env d in
    let gref = decimal info.gref in
    let evtchn = decimal info.evtchn in
    omega (
      arith,
      length-append (decimal d) (b':' ∷ (gref ++ (b':' ∷ (evtchn ++ (b':' ∷ info.uuid))))),
      length-append gref (b':' ∷ (evtchn ++ (b':' ∷ info.uuid))),
      length-append evtchn (b':' ∷ info.uuid),
      length-decimal 4 d (omega (arith, h.narrow)),
      length-decimal 9 info.gref (omega (arith, setup_ring-gref env d h)),
      length-decimal 9 info.evtchn (omega (arith, setup_ring-evtchn env d h)),
      length-get_uuid env d h,
    )

get_domid-pos :
    (room : ℕ → ℕ) (env : RegisterEnv) (d : ℕ)
    → ((n : ℕ) → n + 3 ≤ room n)
    → IsReadable env d
    → get_domid room env ≡ ok (pos d)
unfolding get_domid
get_domid-pos room env d slack h =
    let long =
      lt→ltb (length (decimal d)) (room (length (decimal d)))
        (omega (arith, slack (length (decimal d)))) in
    rw (get_domid, h.domid, long, h.parsed) refl

-- The one transaction of a registration.
abbrev pub register_sent : ShareInfo → List (List Op)
register_sent info =
    (write xenstore_register_path (decimal info.domid) (registration info) ∷ []) ∷ []

pub register-written :
    (room : ℕ → ℕ) (env : RegisterEnv) (d : ℕ)
    → ((n : ℕ) → n + 3 ≤ room n)
    → IsReadable env d
    → register room env ≡ ok (registered env d, register_sent (registered env d))
unfolding register
register-written room env d slack h =
    let kept : d % 2 ^ 16 ≡ d = omega (arith, h.narrow) in
    let info = registered env d in
    rw
      (
        get_domid-pos room env d slack h,
        kept,
        sprintf-ok room 63 (registration info)
            (omega (arith, slack 63, length-registration env d h)),
        sprintf-decimal room 4 d slack (omega (arith, h.narrow)),
      )
      refl

-- If the domain id can be read, allocations have three bytes to spare and the numbers have their
-- widths, but a step of the set-up of the ring fails (there is no page, it cannot be granted, no
-- event channel can be allocated, or it cannot be bound): malpage_register does not notice it. It
-- writes the registration all the same, for event channel 0, and returns an info structure without
-- an event channel and an irq.
pub register-failed :
    (room : ℕ → ℕ) (env : RegisterEnv) (d : ℕ)
    → ((n : ℕ) → n + 3 ≤ room n)
    → IsReadable env d
    → Fails env
    → (info : ShareInfo) × (register room env ≡ ok (info, register_sent info))
      × (info.domid ≡ d)
      × (info.evtchn ≡ 0)
      × (info.irq ≡ 0)
register-failed room env d slack h fails =
    let (no_evtchn, no_irq) = setup_ring-failed env fails in
    (registered env d, register-written room env d slack h, refl, no_evtchn, no_irq)
