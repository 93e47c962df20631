-- ===== src/Malpage/Process/Signals.antt =====
-- Which process malpage_op_process signals.
use maitland.Base.{
  ℕ, ◌≡◌, refl, ◌==◌, Bool, true, false, ◌&&◌, ◌||◌, if◌then◌else◌, Option, none, some, List, [],
  ◌∷◌, ℤ, pos, negsuc, is_pos, int_eq, to_int, arith,
}
use maitland.Wire.Malpage
use maitland.Malpage.Process.{
  Signal, sigstop, sigcont, sigkill, Tasks, find_task, op_task, op_process,
}

abbrev pub has_pid : List ℤ → ℤ → Bool
has_pid [] pid = false
has_pid (p ∷ pids) pid = int_eq p pid || has_pid pids pid

int_eq→eq : (a b : ℤ) → int_eq a b ≡ true → a ≡ b
int_eq→eq (pos m) (pos n) h = ground arith
int_eq→eq (pos m) (negsuc n) h = ground arith
int_eq→eq (negsuc m) (pos n) h = ground arith
int_eq→eq (negsuc m) (negsuc n) h = ground arith

find_task_lem :
    (pids : List ℤ) (at_end : Option ℤ) (pid : ℤ)
    → find_task pids at_end pid ≡ (if has_pid pids pid then some pid else at_end)
unfolding find_task
find_task_lem [] at_end pid = refl
find_task_lem (p ∷ pids) at_end pid = ground (arith, find_task_lem pids at_end pid, int_eq→eq p pid)

-- The signal for an operation.
abbrev pub signal_of : ℕ → Option Signal
signal_of op =
    if op == Malpage.ring_kill
    then some sigkill
    else if op == Malpage.ring_resume
    then some sigcont
    else if op == Malpage.ring_halt
    then some sigstop
    else none

abbrev pub signalled : Bool → Option Signal → ℤ → List (Signal × ℤ)
signalled true (some sig) pid = (sig, pid) ∷ []
signalled true none pid = []
signalled false sig pid = []

-- If the task list's cursor ends at the idle task, whose process id is 0, then an operation sends
-- its signal to the process with the given id if there is one with a positive id, and sends no
-- signal otherwise. The result tells the operations KILL, RESUME and HALT from the others, and not
-- whether the process was found.
pub op_process-signalled :
    (tasks : Tasks) (op pid : ℕ)
    → tasks.at_end ≡ some (pos 0)
    → op_process tasks op pid ≡ (
      signalled
          (has_pid tasks.pids (to_int pid) && is_pos (to_int pid))
          (signal_of op)
          (to_int pid),
      elim (signal_of op) [ none ↦ negsuc 0 | some _ ↦ pos 1 ],
    )
unfolding op_process
op_process-signalled tasks op pid e =
    rw (find_task_lem tasks.pids tasks.at_end (to_int pid), e)
      (signals (has_pid tasks.pids (to_int pid)) (to_int pid))
  where
    signals :
        (found : Bool) (p : ℤ)
        → op_task op (if found then some p else some (pos 0)) ≡ (
          signalled (found && is_pos p) (signal_of op) p,
          elim (signal_of op) [ none ↦ negsuc 0 | some _ ↦ pos 1 ],
        )
    signals true p = ground arith
    signals false p = ground arith
