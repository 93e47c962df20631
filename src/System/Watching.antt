-- ===== src/System/Watching.antt =====
-- From a request to watch a process, made in the guest, to the monitor's store.
use maitland.Base.{
  ℕ, ◌<◌, ◌≡◌, ◌==◌, ◌&&◌, ◌||◌, ◌+◌, ◌≤◌, Bool, true, false, some, List, [], ◌∷◌, pos, ok, codes,
  arith,
}
use maitland.XenStore.{XenStore, IsLawful, Op, join, is_some, transact}
use maitland.Ring.{Macros}
use maitland.Wire.{ProcessReport}
use maitland.Malpage.Send
use maitland.Malpage.Send.Sent.{watch_dir, watch_sent, malpage_ioctl-watch}
use maitland.Daemon.{monitor_watch, watch_domain_watchreport}
use maitland.Daemon.Watching.{request, watch_domain_watchreport-received}
use maitland.Monitor.Watch.{WatchReport, max_vms, max_procs}
use maitland.Monitor.Watch.Checks.{is_watched, watch-marks}
use maitland.Monitor.State.{State}
use maitland.Monitor.Ioctl.{Arg, Env, cmd_watch, ioctl}
use maitland.Monitor.Ioctl.Watched.{ioctl_watch-watch}

-- A process id below 65536 is given to WATCH of malpage_ioctl in a domain that is registered with the
-- monitor, allocations have three bytes to spare, the store is lawful, the domain's directory for
-- such requests is there, and the one transaction commits. Then the daemon sends the monitor
-- the command WATCH with that process and that domain, and the driver returns 0 and watches that
-- process from then on; for every other process it answers as before.
pub malpage_watch-watched :
    (x : XenStore)
    → IsLawful x
    → (room : ℕ → ℕ) (garbage : ProcessReport) (domid pid : ℕ) (xs : x.State) (commits : ℕ → Bool)
      (m : Macros) (env : Env) (arg : Arg) (s : State) (procs : ℕ → ℕ)
    → ((n : ℕ) → n + 3 ≤ room n)
    → is_some (x.read xs (watch_dir domid)) ≡ true
    → commits 0 ≡ true
    → domid < max_vms
    → pid < max_procs
    → s.dom_list domid ≡ some procs
    → (sent : List (List Op)) × (xs' : x.State) × (rep : WatchReport) × (s' : State)
      × (Send.malpage_ioctl room garbage domid Send.cmd_watch (pos pid) ≡ ok (sent, pos 0))
      × (watch_domain_watchreport x
            (join (watch_dir domid) (codes "ready"))
            (transact x commits 0 sent xs)
          ≡ some (xs', monitor_watch rep ∷ [], false))
      × (ioctl m env cmd_watch (record arg { watch = rep }) s ≡ ok (s', pos 0))
      × ((d p : ℕ)
          → is_watched s'.dom_list d p ≡ ((d == domid) && (p == pid) || is_watched s.dom_list d p))
malpage_watch-watched x law room garbage domid pid xs commits m env arg s procs slack opened first
      hd hp registered =
    let rep = request domid pid in
    let (xs', e) =
      watch_domain_watchreport-received x law xs commits domid pid (omega arith) (omega arith)
        opened first in
    let (doms, marks, answers) = watch-marks s.dom_list rep procs hd hp registered in
    (
      watch_sent domid pid,
      xs',
      rep,
      record s { dom_list = doms },
      malpage_ioctl-watch room garbage domid pid slack (omega arith) (omega arith),
      e,
      ioctl_watch-watch m env (record arg { watch = rep }) s doms (pos 0) marks,
      answers,
    )
