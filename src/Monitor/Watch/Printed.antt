-- ===== src/Monitor/Watch/Printed.antt =====
-- What monitor_print_watched prints.
use maitland.Base.{
  ℕ, zero, suc, ◌+◌, ◌≡◌, ◌∙◌, ◌==◌, Bool, false, not, ◌&&◌, ◌||◌, ltb, leb, some, Option-cases,
  inl, inr, List, [], ◌∷◌, has, arith,
}
use maitland.Monitor.Watch.{DomList, max_vms, max_procs, marked, print_doms, print_watched}
use maitland.Monitor.Watch.Checks.{is_marked, is_watched}

-- A process is printed below a domain.
abbrev pub is_printed : List (ℕ × List ℕ) → ℕ → ℕ → Bool
is_printed [] d p = false
is_printed ((i, pids) ∷ lines) d p = (d == i) && has p pids || is_printed lines d p

has-marked :
    (procs : ℕ → ℕ) (rounds j p : ℕ)
    → has p (marked procs rounds j) ≡ (leb j p && ltb p (j + rounds) && not (procs p == 0))
unfolding marked
has-marked procs zero j p = ground arith
has-marked procs (suc rounds) j p = ground (arith, has-marked procs rounds (j + 1) p)

has-is_marked :
    (procs : ℕ → ℕ) (p : ℕ) → has p (marked procs max_procs 0) ≡ is_marked (some procs) p
has-is_marked procs p = ground (arith, has-marked procs max_procs 0 p)

is_printed-print_doms :
    (doms : DomList) (rounds i d p : ℕ)
    → is_printed (print_doms doms rounds i) d p
      ≡ (leb i d && ltb d (i + rounds) && is_watched doms d p)
unfolding print_doms
is_printed-print_doms doms zero i d p = ground arith
is_printed-print_doms doms (suc rounds) i d p =
    let rest = is_printed-print_doms doms rounds (i + 1) d p in
    elim (Option-cases (doms i)) [
      | inl e ↦ ground (arith, rest, e)
      | inr (procs, e) ↦ ground (arith, rest, e, has-is_marked procs p)
    ]

-- The dump of the store prints a process below a domain exactly if the domain is one of the 256 of
-- the store, and the process is watched there.
pub print_watched-is_watched :
    (doms : DomList) (d p : ℕ)
    → is_printed (print_watched doms) d p ≡ (ltb d max_vms && is_watched doms d p)
unfolding print_watched
print_watched-is_watched doms d p = is_printed-print_doms doms max_vms 0 d p ∙ ground arith
