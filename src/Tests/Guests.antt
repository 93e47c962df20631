-- ===== src/Tests/Guests.antt =====
-- The guest driver: signals, hooks and the reporter thread.
use maitland.Base.{◌≡◌, refl, true, false, [], ◌∷◌, pos}
use maitland.Wire.Malpage
use maitland.Malpage.Process.{sigkill, op_process}
use maitland.Malpage.Process.Signals.{op_process-signalled}
use maitland.Malpage.Reporter.{
  Reporter, spawned, Step, Reach, here, next, enqueue, acquire, take, halt, bailed, halted,
  reporting,
}
use maitland.Malpage.Reporter.Order.{
  Balanced, Served, Reach-Balanced, Reach-Served, interrupted-stuck,
}
use maitland.Tests.{guest}

op_process-signalled_example :
    op_process guest.tasks Malpage.ring_kill 42 ≡ ((sigkill, pos 42) ∷ [], pos 1)
op_process-signalled_example = op_process-signalled guest.tasks Malpage.ring_kill 42 refl

-- One report has arrived, and the thread has taken it and halted the process.
abbrev after_halt : Reporter
after_halt = record {
  place = reporting (pos 42);
  queue = [];
  sem = 0;
  trace = halted (pos 42) ∷ [];
  taken = pos 42 ∷ [];
  arrived = pos 42 ∷ [];
}

halted-Reach : Reach false after_halt
halted-Reach =
    next
      (next (next (next here (enqueue (pos 42) refl refl)) (acquire 0 refl refl refl))
        (take (pos 42) [] refl refl refl))
      (halt (pos 42) refl refl)

Reach-Balanced_example : Balanced after_halt
Reach-Balanced_example = Reach-Balanced halted-Reach

Reach-Served_example : Served after_halt
Reach-Served_example = Reach-Served halted-Reach

interrupted-stuck_example :
    (t : Reporter) × (u : Reporter) × Step true spawned t
    × Step true t u
    × (u.place ≡ bailed)
    × ((v : Reporter) → ¬ Step true u v)
interrupted-stuck_example = interrupted-stuck spawned refl refl
