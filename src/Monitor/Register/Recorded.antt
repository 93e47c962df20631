-- ===== src/Monitor/Register/Recorded.antt =====
-- What monitor_register does to the store of watched processes, whatever it returns, if it ends
-- without a fault.
use maitland.Base.{
  ℕ, ◌≡◌, refl, ◌==◌, Bool, Bool-cases, true, false, not, ◌&&◌, ltb, inl, inr, if◌then◌else◌, some,
  none, ℤ, pos, negsuc, IfOk, arith,
}
use maitland.Ring.{Macros}
use maitland.Monitor.Watch.{DomList, max_vms}
use maitland.Monitor.Watch.Checks.{is_watched}
use maitland.Monitor.Watch.Recorded.{is_registered}
use maitland.Monitor.State.{ShareInfo}
use maitland.Monitor.Register.{RegisterEnv, register, bind, add_domain, unmap}

abbrev pub is_bound : ℤ → Bool
is_bound (pos irq) = true
is_bound (negsuc e) = false

-- All calls of monitor_register that it tests succeed.
abbrev pub succeeded : RegisterEnv → Bool
succeeded env = env.has_area && ((env.hypercall == 0) && ((env.status == 0) && is_bound env.bound))

-- If the calls succeed, the domain is registered if there is an array, and not if there is none; none
-- of its processes is watched.
pub record Added (done has_array : Bool) (domid : ℕ) (doms doms' : DomList) : Type 0 where
  pub registered_lem :
      (d : ℕ)
      → is_registered doms' d ≡ (if done && (d == domid) then has_array else is_registered doms d)
  pub watched_lem :
      (d p : ℕ) → is_watched doms' d p ≡ (not (done && (d == domid)) && is_watched doms d p)

added : Bool → DomList → ℕ → DomList
added has_array doms e = λ d. if d == e then (if has_array then some (λ p. 0) else none) else doms d

added-Added :
    (has_array : Bool) (doms : DomList) (e : ℕ)
    → Added true has_array e doms (added has_array doms e)
unfolding added
added-Added has_array doms e = record {
  registered_lem = known has_array;
  watched_lem = watched has_array;
}
  where
    known :
        (b : Bool) (d : ℕ)
        → is_registered (added b doms e) d ≡ (if true && (d == e) then b else is_registered doms d)
    known true d = elim (Bool-cases (d == e)) [ inl h ↦ rw h refl | inr h ↦ rw h refl ]
    known false d = elim (Bool-cases (d == e)) [ inl h ↦ rw h refl | inr h ↦ rw h refl ]

    watched :
        (b : Bool) (d p : ℕ)
        → is_watched (added b doms e) d p ≡ (not (true && (d == e)) && is_watched doms d p)
    watched true d p = elim (Bool-cases (d == e)) [
      | inl h ↦ rw h (ground arith)
      | inr h ↦ rw h refl
    ]
    watched false d p = elim (Bool-cases (d == e)) [
      | inl h ↦ rw h (ground arith)
      | inr h ↦ rw h refl
    ]

bind-recorded :
    (env : RegisterEnv) (doms : DomList) (info : ShareInfo)
    → IfOk
        (λ (doms', i, r). Added (is_bound env.bound) env.has_array info.domid doms doms')
        (bind env doms info)
unfolding bind add_domain unmap added
bind-recorded env doms info = by_bound env.bound
  where
    by_bound :
        (b : ℤ)
        → IfOk
            (λ (doms', i, r). Added (is_bound b) env.has_array info.domid doms doms')
            (bind (record env { bound = b }) doms info)
    by_bound (negsuc e) = record { registered_lem = λ d. refl; watched_lem = λ d p. refl }
    by_bound (pos irq) = elim (Bool-cases (ltb info.domid max_vms)) [
      | inr e ↦ rw e tt
      | inl e ↦ rw e (added-Added env.has_array doms info.domid)
    ]

pub register-recorded :
    (m : Macros) (env : RegisterEnv) (doms : DomList) (info : ShareInfo)
    → IfOk
        (λ (doms', i, r). Added (succeeded env) env.has_array info.domid doms doms')
        (register m env doms info)
unfolding register
register-recorded m env doms info = elim (Bool-cases env.has_area) [
  | inr a ↦ rw a tt
  | inl a ↦ elim (Bool-cases (env.hypercall == 0)) [
    | inr b ↦ rw (a, b) nothing
    | inl b ↦ elim (Bool-cases (env.status == 0)) [
      | inr c ↦ rw (a, b, c) nothing
      | inl c ↦
          rw (a, b, c)
            (bind-recorded env doms
              (record info { bring = m.back_ring_init env.page; sring = some env.page }))
    ]
  ]
]
  where
    nothing : Added false env.has_array info.domid doms doms
    nothing = record { registered_lem = λ d. refl; watched_lem = λ d p. refl }
