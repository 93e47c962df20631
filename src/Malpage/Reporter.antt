-- ===== src/Malpage/Reporter.antt =====
-- drivers/xen/malpage/malpage.c, malpage_report_thread, interleaved with the handler's enqueuing of
-- reports. A step is one action of the thread, from one call that can wait to the next, or the
-- arrival of a report. malpage_report itself is one action here. The thread holds report_queue_lock
-- from the end of down_interruptible to spin_unlock; the handler can enqueue only while the lock is
-- free. `down_interruptible` may also return early, without a count, when a signal arrives; the
-- code does not look at its result.
pub mod Order
use maitland.Base.{ℕ, suc, ◌+◌, ◌≡◌, Bool, true, false, List, [], ◌∷◌, ◌++◌, ℤ}

-- Where the thread stands: before the semaphore, in the critical section, at each of the three
-- calls that follow, or returned by "Bailing out".
pub data Place : Type 0 where
  waiting : Place
  locked : Place
  halting : ℤ → Place
  reporting : ℤ → Place
  resuming : ℤ → Place
  bailed : Place

-- What the thread did, newest first.
pub data Action : Type 0 where
  halted : ℤ → Action
  reported : ℤ → Action
  resumed : ℤ → Action

-- `taken` and `arrived` record the reports that left and that entered the queue, oldest first.
pub record Reporter : Type 0 where
  pub place : Place
  pub queue : List ℤ
  pub sem : ℕ
  pub trace : List Action
  pub taken : List ℤ
  pub arrived : List ℤ

-- After malpage_init.
abbrev pub spawned : Reporter
spawned = record { place = waiting; queue = []; sem = 0; trace = []; taken = []; arrived = [] }

-- report_queue_lock is held; the early return does not release it.
abbrev pub is_locked : Place → Bool
is_locked locked = true
is_locked bailed = true
is_locked p = false

-- `signals` says whether a signal can end the wait early.
pub data Step (signals : Bool) (s u : Reporter) : Type 0 where
  enqueue :
      (p : ℤ)
      → is_locked s.place ≡ false
      → u
        ≡ record s { queue = s.queue ++ (p ∷ []); sem = s.sem + 1; arrived = s.arrived ++ (p ∷ []) }
      → Step signals s u
  acquire :
      (n : ℕ)
      → s.place ≡ waiting
      → s.sem ≡ suc n
      → u ≡ record s { place = locked; sem = n }
      → Step signals s u
  interrupted :
      signals ≡ true → s.place ≡ waiting → u ≡ record s { place = locked } → Step signals s u
  bail : s.place ≡ locked → s.queue ≡ [] → u ≡ record s { place = bailed } → Step signals s u
  take :
      (p : ℤ) (rest : List ℤ)
      → s.place ≡ locked
      → s.queue ≡ p ∷ rest
      → u ≡ record s { place = halting p; queue = rest; taken = s.taken ++ (p ∷ []) }
      → Step signals s u
  halt :
      (p : ℤ)
      → s.place ≡ halting p
      → u ≡ record s { place = reporting p; trace = halted p ∷ s.trace }
      → Step signals s u
  report :
      (p : ℤ)
      → s.place ≡ reporting p
      → u ≡ record s { place = resuming p; trace = reported p ∷ s.trace }
      → Step signals s u
  resume :
      (p : ℤ)
      → s.place ≡ resuming p
      → u ≡ record s { place = waiting; trace = resumed p ∷ s.trace }
      → Step signals s u

pub data Reach (signals : Bool) : Reporter → Type 0 where
  here : Reach signals spawned
  next : {s u : Reporter} → Reach signals s → Step signals s u → Reach signals u
