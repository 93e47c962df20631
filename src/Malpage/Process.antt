-- ===== src/Malpage/Process.antt =====
-- drivers/xen/malpage/malpage.c, signals: malpage_op_process with malpage_halt_process,
-- malpage_resume_process and malpage_kill_process. The kernel's task list is not part of the
-- repository: `Tasks` holds the process ids in the order of for_each_process, and what its cursor
-- holds when the loop runs to the end.
pub mod Signals
use maitland.Base.{
  ℕ, ◌==◌, if◌then◌else◌, Option, none, some, List, [], ◌∷◌, ℤ, pos, negsuc, is_pos, int_eq, to_int,
}
use maitland.Wire.Malpage

pub data Signal : Type 0 where
  sigstop sigcont sigkill : Signal

pub record Tasks : Type 0 where
  pub pids : List ℤ
  pub at_end : Option ℤ

-- The cursor of `for_each_process(task) { if (task->pid == pid) break; }`; `none` is NULL.
pub find_task : List ℤ → Option ℤ → ℤ → Option ℤ
find_task [] at_end pid = at_end
find_task (p ∷ pids) at_end pid =
    let rest = find_task pids at_end pid in if int_eq p pid then some p else rest

-- `if (task->pid > 0) force_sig(sig, task)`
force_sig : Signal → ℤ → List (Signal × ℤ)
force_sig sig task = if is_pos task then (sig, task) ∷ [] else []

halt_process : ℤ → List (Signal × ℤ)
unfolding force_sig
halt_process task = force_sig sigstop task

resume_process : ℤ → List (Signal × ℤ)
unfolding force_sig
resume_process task = force_sig sigcont task

kill_process : ℤ → List (Signal × ℤ)
unfolding force_sig
kill_process task = force_sig sigkill task

-- The signals that were sent, and the result.
op_task : ℕ → Option ℤ → List (Signal × ℤ) × ℤ
unfolding halt_process resume_process kill_process
op_task op none = ([], negsuc 0)
op_task op (some task) =
    if op == Malpage.ring_kill
    then (kill_process task, pos 1)
    else if op == Malpage.ring_resume
    then (resume_process task, pos 1)
    else if op == Malpage.ring_halt
    then (halt_process task, pos 1)
    else ([], negsuc 0)

pub op_process : Tasks → ℕ → ℕ → List (Signal × ℤ) × ℤ
unfolding op_task find_task
op_process tasks op pid = op_task op (find_task tasks.pids tasks.at_end (to_int pid))
