-- ===== src/Malpage/Reporter/Order.antt =====
-- In which order the reporter thread acts, and when it gives up.
use mathlib.Core.List.{append_assoc}
use maitland.Base.{
  ℕ, ◌+◌, ◌≡◌, refl, sym, ap, ◌∙◌, Bool, true, false, List, [], ◌∷◌, ◌++◌, length, length-append, ℤ,
  arith, subst,
}
use maitland.Malpage.Reporter.{
  Place, waiting, locked, reporting, resuming, bailed, Action, halted, reported, resumed, Reporter,
  Step, enqueue, acquire, interrupted, bail, take, halt, report, resume, Reach, here, next,
}

-- The reports in the queue that no count of the semaphore stands for.
abbrev pub owed : Place → ℕ
owed locked = 1
owed p = 0

abbrev pub is_bailed : Place → Bool
is_bailed bailed = true
is_bailed p = false

-- Full rounds: a process is halted, reported and resumed, and then the next.
pub data Rounds : List Action → Type 0 where
  none_yet : Rounds []
  round : {t : List Action} (p : ℤ) → Rounds t → Rounds (resumed p ∷ reported p ∷ halted p ∷ t)

-- The actions at each place: full rounds, and the part of the present one.
abbrev pub Ordered : Place → List Action → Type 0
Ordered (reporting p) t = (before : List Action) × (t ≡ halted p ∷ before) × Rounds before
Ordered (resuming p) t =
    (before : List Action) × (t ≡ reported p ∷ halted p ∷ before) × Rounds before
Ordered q t = Rounds t

pub record Balanced (s : Reporter) : Type 0 where
  pub count : length s.queue ≡ s.sem + owed s.place
  pub alive : is_bailed s.place ≡ false

Step-Balanced : {s u : Reporter} → Step false s u → Balanced s → Balanced u
Step-Balanced {s} (enqueue p free e) b = ground (arith, length-append s.queue (p ∷ []))
Step-Balanced (acquire n at e f) b = ground arith
Step-Balanced (interrupted h at e) b = cc
Step-Balanced (bail at empty e) b = ground arith
Step-Balanced (take p rest at some_left e) b = ground arith
Step-Balanced (halt p at e) b = ground arith
Step-Balanced (report p at e) b = ground arith
Step-Balanced (resume p at e) b = ground arith

-- While no signal ends a wait early, the queue holds one report for each count of the semaphore, and
-- one more while the thread is in its critical section. So the thread never finds the queue empty
-- and never gives up.
pub Reach-Balanced : {s : Reporter} → Reach false s → Balanced s
Reach-Balanced here = record { count = refl; alive = refl }
Reach-Balanced (next r st) = Step-Balanced st (Reach-Balanced r)

bailed-stuck : {signals : Bool} {u v : Reporter} → u.place ≡ bailed → ¬ Step signals u v
bailed-stuck at (enqueue p free e) = ground arith
bailed-stuck at (acquire n at' e f) = ground arith
bailed-stuck at (interrupted h at' e) = ground arith
bailed-stuck at (bail at' empty e) = ground arith
bailed-stuck at (take p rest at' some_left e) = ground arith
bailed-stuck at (halt p at' e) = ground arith
bailed-stuck at (report p at' e) = ground arith
bailed-stuck at (resume p at' e) = ground arith

-- A wait that a signal ends early while the queue is empty makes the thread give up in two steps.
-- The lock is held from then on: no step is possible any more, not even the arrival of a report.
pub interrupted-stuck :
    (s : Reporter)
    → s.place ≡ waiting
    → s.queue ≡ []
    → (t : Reporter) × (u : Reporter) × Step true s t
      × Step true t u
      × (u.place ≡ bailed)
      × ((v : Reporter) → ¬ Step true u v)
interrupted-stuck s at empty = (
  record s { place = locked },
  record s { place = bailed },
  interrupted refl at refl,
  bail refl empty refl,
  refl,
  λ v st. bailed-stuck refl st,
)

-- What holds also when signals end waits early.
pub record Served (s : Reporter) : Type 0 where
  pub fifo : s.arrived ≡ s.taken ++ s.queue
  pub ordered : Ordered s.place s.trace

Ordered-at : {q q' : Place} (t : List Action) → q ≡ q' → Ordered q t → Ordered q' t
Ordered-at t e o = subst (λ q. Ordered q t) e o

module _ {signals : Bool} where
  Step-Served : {s u : Reporter} → Step signals s u → Served s → Served u
  Step-Served {s} (enqueue p free e) v = rw e (record {
    fifo = ap (λ l. l ++ (p ∷ [])) v.fifo ∙ append_assoc s.taken s.queue (p ∷ []);
    ordered = v.ordered;
  })
  Step-Served {s} (acquire n at e f) v =
      rw f (record { fifo = v.fifo; ordered = Ordered-at s.trace at v.ordered })
  Step-Served {s} (interrupted h at e) v =
      rw e (record { fifo = v.fifo; ordered = Ordered-at s.trace at v.ordered })
  Step-Served {s} (bail at empty e) v =
      rw e (record { fifo = v.fifo; ordered = Ordered-at s.trace at v.ordered })
  Step-Served {s} (take p rest at some_left e) v = rw e (record {
    fifo = v.fifo ∙ ap (λ q. s.taken ++ q) some_left ∙ sym (append_assoc s.taken (p ∷ []) rest);
    ordered = Ordered-at s.trace at v.ordered;
  })
  Step-Served {s} (halt p at e) v =
      rw e (record { fifo = v.fifo; ordered = (s.trace, refl, Ordered-at s.trace at v.ordered) })
  Step-Served {s} (report p at e) v =
      let (before, same, rounds) = Ordered-at s.trace at v.ordered in
      rw e (record { fifo = v.fifo; ordered = (before, ap (λ t. reported p ∷ t) same, rounds) })
  Step-Served {s} (resume p at e) v =
      let (before, same, rounds) = Ordered-at s.trace at v.ordered in
      rw e (record {
        fifo = v.fifo;
        ordered = subst Rounds (ap (λ t. resumed p ∷ t) (sym same)) (round p rounds);
      })

  -- In every reachable state, reports leave the queue in the order in which they arrived, and none is
  -- lost. The actions of the thread are full rounds of halting one process, reporting it and
  -- resuming it, followed by the part of the present round that its place in the code tells.
  pub Reach-Served : {s : Reporter} → Reach signals s → Served s
  Reach-Served here = record { fifo = refl; ordered = none_yet }
  Reach-Served (next r st) = Step-Served st (Reach-Served r)
