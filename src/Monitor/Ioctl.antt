-- ===== src/Monitor/Ioctl.antt =====
-- drivers/xen/monitor/monitor.c, monitor_ioctl: the commands of the daemon, on the whole state of
-- the driver, and the event channel's handler on that state.
pub mod Reach
pub mod Kill
pub mod Watched
pub mod Reported
pub mod History
use maitland.Base.{
  ℕ, ◌+◌, ◌==◌, if◌then◌else◌, Option, none, some, Bool, List, [], ◌∷◌, ◌++◌, length, get_elem?,
  set, ℤ, pos, negsuc, Run, ok, fault, ◌>>=◌,
}
use maitland.Ring.{Sring, Back, Macros}
use maitland.Wire.{Message, ProcessReport}
use maitland.Wire.Monitor
use maitland.Monitor.Watch.{WatchReport, watch}
use maitland.Monitor.Handler.{irq_handle, op_process, resume_process, kill_process}
use maitland.Monitor.State.{State, ShareInfo}
use maitland.Monitor.Grants.{MapEnv, populate_report, report}
use maitland.Monitor.Register.{UspaceInfo, RegisterEnv, populate_info, register}

-- MONITOR_IOC_MAGIC and the commands.
abbrev pub ioc_magic : ℕ
ioc_magic = 270

abbrev pub cmd_report : ℕ
cmd_report = ioc_magic + 1

abbrev pub cmd_register : ℕ
cmd_register = ioc_magic + 8

abbrev pub cmd_deregister : ℕ
cmd_deregister = ioc_magic + 9

abbrev pub cmd_watch : ℕ
cmd_watch = ioc_magic + 10

abbrev pub cmd_dump : ℕ
cmd_dump = ioc_magic + 11

abbrev pub cmd_resume : ℕ
cmd_resume = ioc_magic + 12

abbrev pub cmd_kill : ℕ
cmd_kill = ioc_magic + 13

abbrev pub cmd_done_report : ℕ
cmd_done_report = ioc_magic + 14

-- `-10`
abbrev pub badcmd : ℤ
badcmd = negsuc 9

-- What the user's pointer points to, at the type that each command reads it at.
pub record Arg : Type 0 where
  pub info : UspaceInfo
  pub report : ProcessReport
  pub watch : WatchReport

-- The environment's part in a call, where `kzalloc i n` is whether the `i`-th call of kzalloc gives `n`
-- bytes, and the first value of an uninitialised response.
pub record Env : Type 0 where
  pub register : RegisterEnv
  pub map : ℕ → MapEnv
  pub copy : List ℕ → ℕ → List ℕ
  pub kzalloc : ℕ → ℕ → Bool
  pub garbage : Message

module _ (m : Macros) where
  register_guest : Env → UspaceInfo → State → Run State
  register_guest env uspace s = do
    (doms, info, result) ← register m env.register s.dom_list (populate_info uspace)
    ok (record s {
      dom_list = doms;
      infos = s.infos ++ (info ∷ []);
      share_info = some (length s.infos);
    })

  -- A command to the guest that monitor_share_info points to; `send` is monitor_resume_process or
  -- monitor_kill_process.
  send_info : (Back × Sring → Back × Sring) → ℕ → Option ShareInfo → State → Run State
  send_info send i none s = fault
  send_info send i (some info) s = elim info.sring [
    | none ↦ fault
    | some page ↦
        let (bring, page') = send (info.bring, page) in
        ok (record s { infos = set s.infos i (record info { bring = bring; sring = some page' }) })
  ]

  send_command : (Back × Sring → Back × Sring) → State → Run State
  unfolding send_info
  send_command send s = elim s.share_info [
    | none ↦ fault
    | some i ↦ send_info send i (get_elem? s.infos i) s
  ]

  -- The cases MONITOR_RESUME and MONITOR_KILL.
  finish_process : (Back × Sring → Back × Sring) → State → Run State
  unfolding send_command
  finish_process send s =
      if s.curr_proc == 0
      then ok s
      else (do s' ← send_command send s; ok (record s' { curr_proc = 0 }))

  watch_process : WatchReport → State → Run State
  watch_process rep s = do (doms, result) ← watch s.dom_list rep; ok (record s { dom_list = doms })

  -- The case MONITOR_REPORT.
  pub report_process : Env → ProcessReport → State → Run State
  report_process env tmp_rep s = do
    rep ← populate_report env.kzalloc env.copy tmp_rep
    report (env.kzalloc 3) env.map rep s

  -- The `switch`, where a recognised command returns 0 whatever its handler returned.
  dispatch : Env → ℕ → Arg → State → Run State
  unfolding register_guest finish_process watch_process report_process
  dispatch env cmd arg s =
      if cmd == cmd_register
      then register_guest env arg.info s
      else if cmd == cmd_report
      then report_process env arg.report s
      else if cmd == cmd_resume
      then finish_process (resume_process m s.curr_proc env.garbage) s
      else if cmd == cmd_kill
      then finish_process (kill_process m s.curr_proc env.garbage) s
      else if cmd == cmd_watch
      then watch_process arg.watch s
      else ok s

  is_command : ℕ → ℤ
  is_command cmd =
      if cmd == cmd_register
      then pos 0
      else if cmd == cmd_report
      then pos 0
      else if cmd == cmd_dump
      then pos 0
      else if cmd == cmd_done_report
      then pos 0
      else if cmd == cmd_resume
      then pos 0
      else if cmd == cmd_kill
      then pos 0
      else if cmd == cmd_watch
      then pos 0
      else if cmd == cmd_deregister
      then pos 0
      else badcmd

  pub ioctl : Env → ℕ → Arg → State → Run (State × ℤ)
  unfolding dispatch is_command
  ioctl env cmd arg s = do s' ← dispatch env cmd arg s; ok (s', is_command cmd)

  -- monitor_irq_handle for the guest with info structure `i`.
  irq_info : Message → ℕ → Option ShareInfo → State → Run State
  irq_info garbage i none s = fault
  irq_info garbage i (some info) s = elim info.sring [
    | none ↦ fault
    | some page ↦ (do
      h ← irq_handle m s.dom_list s.report_in_progress info.bring page garbage
      ok (record s {
        infos = set s.infos i (record info { bring = h.bring; sring = some h.sring });
      }))
  ]

  pub irq : Message → ℕ → State → Run State
  unfolding irq_info
  irq garbage i s = irq_info garbage i (get_elem? s.infos i) s
