-- ===== src/System/Delivery.antt =====
-- The daemon's commands on their way to the driver: doMonitorOp of dom0/python_server/main.py calls
-- monitor_ioctl with the number of the command and its packed argument, once for each command.
pub mod Reported
pub mod Judged
pub mod Process
pub mod Whole
use maitland.Base.{ℕ, ◌+◌, List, [], ◌∷◌, ℤ, Run, ok, ◌>>=◌}
use maitland.Ring.{Macros}
use maitland.Monitor.State.{State}
use maitland.Monitor.Ioctl.{
  Arg, Env, cmd_report, cmd_register, cmd_watch, cmd_resume, cmd_kill, ioctl,
}
use maitland.Daemon.{
  Command, monitor_register, monitor_report, monitor_watch, monitor_resume, monitor_kill,
}

-- The number of a command in main.py.
pub command_number : Command → ℕ
command_number (monitor_register info) = cmd_register
command_number (monitor_report rep) = cmd_report
command_number (monitor_watch rep) = cmd_watch
command_number monitor_resume = cmd_resume
command_number monitor_kill = cmd_kill

-- What the user's pointer points to; `arg` are the words that the command does not use.
pub packed : Arg → Command → Arg
packed arg (monitor_register info) = record arg { info = info }
packed arg (monitor_report rep) = record arg { report = rep }
packed arg (monitor_watch rep) = record arg { watch = rep }
packed arg monitor_resume = arg
packed arg monitor_kill = arg

-- The commands one after the other, their results unread; `env i` is the environment of call `i`.
pub deliver : Macros → (ℕ → Env) → Arg → ℕ → List Command → State → Run State
unfolding command_number packed
deliver m env arg i [] s = ok s
deliver m env arg i (c ∷ cs) s = do
  (s', result) ← ioctl m (env i) (command_number c) (packed arg c) s
  deliver m env arg (i + 1) cs s'
