-- ===== src/Monitor/Watch/Recorded.antt =====
-- What monitor_watch does to the store, whatever it returns, if it ends without a fault.
use maitland.Base.{
  ℕ, ◌≡◌, refl, sym, ap, ◌∙◌, not, if◌then◌else◌, ==_iff, ◌==◌, Bool, Bool-cases, true, false, ◌&&◌,
  ◌||◌, ltb, inl, inr, Option, Option-cases, none, some, IfOk, arith,
}
use maitland.Monitor.Watch.{DomList, WatchReport, watch, max_vms, max_procs, dom_cursor, mark, put}
use maitland.Monitor.Watch.Checks.{is_watched}

abbrev pub is_there : Option (ℕ → ℕ) → Bool
is_there none = false
is_there (some procs) = true

abbrev pub is_registered : DomList → ℕ → Bool
is_registered doms d = is_there (doms d)

-- Every domain is registered as before, and the process is watched if its domain is registered.
pub record Watched (doms : DomList) (rep : WatchReport) (doms' : DomList) : Type 0 where
  pub registered_lem : (d : ℕ) → is_registered doms' d ≡ is_registered doms d
  pub watched_lem :
      (d p : ℕ)
      → is_watched doms' d p ≡ (
          is_registered doms rep.domid && ((d == rep.domid) && (p == rep.process_id))
          || is_watched doms d p)

put-registered :
    (doms : DomList) (e d : ℕ) (procs procs' : ℕ → ℕ)
    → doms e ≡ some procs
    → is_registered (put doms e (some procs')) d ≡ is_registered doms d
unfolding put
put-registered doms e d procs procs' there = elim (Bool-cases (d == e)) [
  | inr h ↦ rw h refl
  | inl h ↦ let same = ap doms ((==_iff d e).0 h) ∙ there in rw (h, same) refl
]

put-watched :
    (doms : DomList) (e q d p : ℕ) (procs : ℕ → ℕ)
    → doms e ≡ some procs
    → ltb q max_procs ≡ true
    → is_watched (put doms e (some (mark procs q))) d p
      ≡ (is_registered doms e && ((d == e) && (p == q)) || is_watched doms d p)
unfolding put mark
put-watched doms e q d p procs there small = elim (Bool-cases (d == e)) [
  | inr h ↦ rw (h, there) refl
  | inl h ↦
      let same = ap doms ((==_iff d e).0 h) ∙ there in rw (h, same, there) (marks (p == q) refl)
]
  where
    marks :
        (b : Bool)
        → (p == q) ≡ b
        → (ltb p max_procs && not ((if b then 1 else procs p) == 0))
          ≡ (b || (ltb p max_procs && not (procs p == 0)))
    marks true h = ground arith
    marks false h = refl

pub watch-recorded :
    (doms : DomList) (rep : WatchReport)
    → IfOk (λ (doms', r). Watched doms rep doms') (watch doms rep)
unfolding watch dom_cursor
watch-recorded doms rep = elim (Bool-cases (ltb rep.domid max_vms)) [
  | inr e ↦ rw e tt
  | inl e ↦ elim (Option-cases (doms rep.domid)) [
    | inl f ↦
        rw (e, f)
          (record {
            registered_lem = λ d. refl;
            watched_lem = λ d p.
                ap
                  (λ o.
                    is_there o && ((d == rep.domid) && (p == rep.process_id))
                    || is_watched doms d p)
                  (sym f);
          })
    | inr (procs, f) ↦ elim (Bool-cases (ltb rep.process_id max_procs)) [
      | inr g ↦ rw (e, f, g) tt
      | inl g ↦
          rw (e, f, g)
            (record {
              registered_lem =
                  λ d. put-registered doms rep.domid d procs (mark procs rep.process_id) f;
              watched_lem = λ d p. put-watched doms rep.domid rep.process_id d p procs f g;
            })
    ]
  ]
]
