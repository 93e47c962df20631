-- ===== src/Monitor/Ioctl/Watched.antt =====
-- The command WATCH.
use maitland.Base.{◌≡◌, refl, ℤ, pos, ok}
use maitland.Ring.{Macros}
use maitland.Monitor.Watch.{DomList, watch}
use maitland.Monitor.State.{State}
use maitland.Monitor.Ioctl.{Arg, Env, cmd_watch, ioctl, watch_process}

-- The store becomes what monitor_watch makes of it.
pub ioctl_watch-watch :
    (m : Macros) (env : Env) (arg : Arg) (s : State) (doms : DomList) (result : ℤ)
    → watch s.dom_list arg.watch ≡ ok (doms, result)
    → ioctl m env cmd_watch arg s ≡ ok (record s { dom_list = doms }, pos 0)
unfolding ioctl watch_process
ioctl_watch-watch m env arg s doms result e = rw e refl
