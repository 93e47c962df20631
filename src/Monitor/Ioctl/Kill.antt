-- ===== src/Monitor/Ioctl/Kill.antt =====
-- Which guest a KILL or RESUME command of the daemon reaches.
use maitland.Base.{
  ℕ, ◌≡◌, ◌≢◌, none, some, get_elem?, set, [], ◌∷◌, ◌++◌, length, ℤ, pos, ok, fault, arith,
}
use maitland.Ring.{Sring, Macros, MacroLaws, inc, write_entry}
use maitland.Wire.{Message}
use maitland.Wire.Monitor
use maitland.Monitor.Handler.{kill_process, resume_process}
use maitland.Monitor.Watch.{DomList}
use maitland.Monitor.Register.{register, populate_info}
use maitland.Monitor.State.{State, ShareInfo}
use maitland.Monitor.Ioctl.{Arg, Env, cmd_kill, cmd_register, cmd_resume, ioctl, send_command}

-- An info structure with one more response on its ring: the operation for the process.
abbrev pub commanded : Macros → ℕ → ℕ → Message → ShareInfo → Sring → ShareInfo
commanded m op pid garbage info page = record info {
  bring = record info.bring { rsp_prod_pvt = inc info.bring.rsp_prod_pvt };
  sring =
      some
        (record (write_entry (m.slot info.bring.rsp_prod_pvt)
          (record garbage { operation = op; process_id = pid }) page) {
            rsp_prod = inc info.bring.rsp_prod_pvt;
          });
}

module _ (m : Macros) (laws : MacroLaws m) (env : Env) (arg : Arg) (s : State) where
  -- If monitor_share_info points to an info structure whose ring is mapped, a KILL while a process is
  -- current is published, with that process id, on that ring and on no other, and returns 0. No
  -- process is current then.
  pub ioctl_kill-current :
      (i : ℕ) (info : ShareInfo) (page : Sring)
      → s.share_info ≡ some i
      → get_elem? s.infos i ≡ some info
      → info.sring ≡ some page
      → s.curr_proc ≢ 0
      → ioctl m env cmd_kill arg s
        ≡ ok (
          record s {
            infos = set s.infos i (commanded m Monitor.ring_kill s.curr_proc env.garbage info page);
            curr_proc = 0;
          },
          pos 0,
        )
  unfolding ioctl kill_process send_command
  ioctl_kill-current i info page newest found mapped current = ground (
    arith,
    laws.check_notify_lem (record info.bring { rsp_prod_pvt = inc info.bring.rsp_prod_pvt })
        (write_entry (m.slot info.bring.rsp_prod_pvt)
          (record env.garbage { operation = Monitor.ring_kill; process_id = s.curr_proc }) page),
  )

  -- Likewise of a RESUME.
  pub ioctl_resume-current :
      (i : ℕ) (info : ShareInfo) (page : Sring)
      → s.share_info ≡ some i
      → get_elem? s.infos i ≡ some info
      → info.sring ≡ some page
      → s.curr_proc ≢ 0
      → ioctl m env cmd_resume arg s
        ≡ ok (
          record s {
            infos =
                set s.infos i (commanded m Monitor.ring_resume s.curr_proc env.garbage info page);
            curr_proc = 0;
          },
          pos 0,
        )
  unfolding ioctl resume_process send_command
  ioctl_resume-current i info page newest found mapped current = ground (
    arith,
    laws.check_notify_lem (record info.bring { rsp_prod_pvt = inc info.bring.rsp_prod_pvt })
        (write_entry (m.slot info.bring.rsp_prod_pvt)
          (record env.garbage { operation = Monitor.ring_resume; process_id = s.curr_proc }) page),
  )

  -- A REGISTER for which monitor_register returns, with whatever result, makes the new info structure
  -- the last one and the one that commands are sent to; the result of the command is 0.
  pub ioctl_register-current :
      (doms' : DomList) (info' : ShareInfo) (result : ℤ)
      → register m env.register s.dom_list (populate_info arg.info) ≡ ok (doms', info', result)
      → ioctl m env cmd_register arg s
        ≡ ok (
          record s {
            dom_list = doms';
            infos = s.infos ++ (info' ∷ []);
            share_info = some (length s.infos);
          },
          pos 0,
        )
  unfolding ioctl
  ioctl_register-current doms' info' result e = ground (arith, e)

  -- With no process current, KILL and RESUME change nothing.
  pub ioctl_kill-none :
      s.curr_proc ≡ 0
      → (ioctl m env cmd_kill arg s ≡ ok (s, pos 0))
        × (ioctl m env cmd_resume arg s ≡ ok (s, pos 0))
  unfolding ioctl
  ioctl_kill-none e = ground arith

  -- A KILL before any guest is registered dereferences NULL.
  pub ioctl_kill-unregistered :
      s.share_info ≡ none → s.curr_proc ≢ 0 → ioctl m env cmd_kill arg s ≡ fault
  unfolding ioctl send_command
  ioctl_kill-unregistered e current = ground arith
