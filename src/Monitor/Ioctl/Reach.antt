-- ===== src/Monitor/Ioctl/Reach.antt =====
-- What holds of the driver's variables after any sequence of commands and events.
use maitland.Base.{
  ℕ, Option-cases, Bool-cases, inl, inr, get_elem?, zero, suc, sym, ◌∙◌, length-set, ◌≡◌, refl,
  ◌==◌, Option, none, some, List, [], ◌∷◌, ◌++◌, length, set, ℤ, ok, IfOk, IfOk-bind, IfOk-if,
  IfOk-mono, ap, IfOk-ok, arith, length-append,
}
use maitland.Ring.{Sring, Back, Macros}
use maitland.Wire.{Message, ProcessReport}
use maitland.Monitor.Watch.{WatchReport, watch}
use maitland.Monitor.State.{State, ShareInfo}
use maitland.Monitor.Handler.{irq_handle, kill_process, resume_process}
use maitland.Monitor.Grants.{report, populate_report}
use maitland.Monitor.Grants.Mapped.{report-keeps}
use maitland.Monitor.Register.{init, register, populate_info, UspaceInfo}
use maitland.Monitor.Ioctl.{
  Arg, Env, cmd_register, cmd_report, cmd_resume, cmd_kill, cmd_watch, is_command, ioctl, dispatch,
  register_guest, finish_process, send_command, send_info, watch_process, report_process, irq_info,
  irq,
}

-- One event that the driver handles without a fault.
pub data Step (m : Macros) : State → State → Type 0 where
  by_ioctl :
      {s s' : State} (env : Env) (cmd : ℕ) (arg : Arg) (r : ℤ)
      → ioctl m env cmd arg s ≡ ok (s', r)
      → Step m s s'
  by_irq : {s s' : State} (garbage : Message) (i : ℕ) → irq m garbage i s ≡ ok s' → Step m s s'

pub data Reach (m : Macros) : State → Type 0 where
  booted : Reach m init
  stepped : {s s' : State} → Reach m s → Step m s s' → Reach m s'

-- The number of the info structure allocated last.
abbrev pub newest : List ShareInfo → Option ℕ
newest [] = none
newest (x ∷ xs) = some (length xs)

pub record Inv (s : State) : Type 0 where
  pub idle : s.report_in_progress ≡ 0
  pub current : s.share_info ≡ newest s.infos

newest-append : (xs : List ShareInfo) (x : ShareInfo) → newest (xs ++ (x ∷ [])) ≡ some (length xs)
newest-append [] x = refl
newest-append (y ∷ xs) x = ground (arith, length-append xs (x ∷ []))

newest-set : (xs : List ShareInfo) (i : ℕ) (x : ShareInfo) → newest (set xs i x) ≡ newest xs
newest-set [] i x = refl
newest-set (y ∷ ys) zero x = refl
newest-set (y ∷ ys) (suc i) x = ground (arith, length-set ys i x)

set-Inv : (s : State) (i : ℕ) (x : ShareInfo) → Inv s → Inv (record s { infos = set s.infos i x })
set-Inv s i x v = record { idle = v.idle; current = v.current ∙ sym (newest-set s.infos i x) }

module _ (m : Macros) where
  register_guest-Inv :
      (env : Env) (uspace : UspaceInfo) (s : State)
      → Inv s
      → IfOk Inv (register_guest m env uspace s)
  unfolding register_guest
  register_guest-Inv env uspace s v =
      IfOk-bind Inv (register m env.register s.dom_list (populate_info uspace))
        (λ (doms, info, result). ok (record s {
          dom_list = doms;
          infos = s.infos ++ (info ∷ []);
          share_info = some (length s.infos);
        }))
        λ (doms, info, result) e. record {
          idle = v.idle;
          current = sym (newest-append s.infos info);
        }

  send_info-Inv :
      (send : Back × Sring → Back × Sring) (i : ℕ) (o : Option ShareInfo) (s : State)
      → Inv s
      → IfOk Inv (send_info m send i o s)
  unfolding send_info
  send_info-Inv send i none s v = tt
  send_info-Inv send i (some info) s v = elim (Option-cases info.sring) [
    | inl e ↦ rw (e, send_info) tt
    | inr (page, e) ↦ rw (e, send_info) (set-Inv s i _ v)
  ]

  finish_process-Inv :
      (send : Back × Sring → Back × Sring) (s : State) → Inv s → IfOk Inv (finish_process m send s)
  unfolding finish_process send_command
  finish_process-Inv send s v = elim (Bool-cases (s.curr_proc == 0)) [
    | inl e ↦ rw e v
    | inr e ↦ rw e (
        IfOk-bind Inv (send_command m send s) (λ s'. ok (record s' { curr_proc = 0 }))
          λ s' e'.
            let v' = IfOk-ok Inv (send_command m send s) s' (sent s.share_info refl) e' in
            record { idle = v'.idle; current = v'.current })
  ]
    where
      sent : (o : Option ℕ) → s.share_info ≡ o → IfOk Inv (send_command m send s)
      sent none e = rw (e, send_command) tt
      sent (some i) e = rw (e, send_command) (send_info-Inv send i (get_elem? s.infos i) s v)

  report-Inv :
      (env : Env) (rep : ProcessReport) (s : State) → Inv s → IfOk Inv (report_process m env rep s)
  unfolding report_process
  report-Inv env rep s v = IfOk-bind Inv (populate_report env.kzalloc env.copy rep) _ λ rep' e.
      IfOk-mono (report (env.kzalloc 3) env.map rep' s)
        (λ s' (idle, current, infos, doms). record {
          idle = idle ∙ v.idle;
          current = current ∙ v.current ∙ ap newest (sym infos);
        })
        (report-keeps (env.kzalloc 3) env.map rep' s)

  watch_process-Inv : (rep : WatchReport) (s : State) → Inv s → IfOk Inv (watch_process m rep s)
  unfolding watch_process
  watch_process-Inv rep s v =
      IfOk-bind Inv (watch s.dom_list rep) (λ (doms, result). ok (record s { dom_list = doms }))
        λ (doms, result) e. record { idle = v.idle; current = v.current }

  dispatch-Inv :
      (env : Env) (cmd : ℕ) (arg : Arg) (s : State) → Inv s → IfOk Inv (dispatch m env cmd arg s)
  unfolding dispatch
  dispatch-Inv env cmd arg s v =
      IfOk-if Inv (cmd == cmd_register) _ _ (register_guest-Inv env arg.info s v) (
        IfOk-if Inv (cmd == cmd_report) _ _ (report-Inv env arg.report s v) (
          IfOk-if Inv (cmd == cmd_resume) _ _
            (finish_process-Inv (resume_process m s.curr_proc env.garbage) s v)
            (IfOk-if Inv (cmd == cmd_kill) _ _
              (finish_process-Inv (kill_process m s.curr_proc env.garbage) s v)
              (IfOk-if Inv (cmd == cmd_watch) _ _ (watch_process-Inv arg.watch s v) v))))

  irq_info-Inv :
      (garbage : Message) (i : ℕ) (o : Option ShareInfo) (s : State)
      → Inv s
      → IfOk Inv (irq_info m garbage i o s)
  unfolding irq_info
  irq_info-Inv garbage i none s v = tt
  irq_info-Inv garbage i (some info) s v = elim (Option-cases info.sring) [
    | inl e ↦ rw (e, irq_info) tt
    | inr (page, e) ↦
        rw (e, irq_info)
          (IfOk-bind Inv (irq_handle m s.dom_list s.report_in_progress info.bring page garbage)
            (λ h. ok (record s {
              infos = set s.infos i (record info { bring = h.bring; sring = some h.sring });
            }))
            λ h e'. set-Inv s i _ v)
  ]

  Step-Inv : {s s' : State} → Step m s s' → Inv s → Inv s'
  unfolding ioctl irq
  Step-Inv {s} {s'} (by_ioctl env cmd arg r e) v =
      IfOk-ok (λ (p : State × ℤ). Inv p.0) (ioctl m env cmd arg s) (s', r)
        (IfOk-bind (λ (p : State × ℤ). Inv p.0) (dispatch m env cmd arg s)
          (λ t. ok (t, is_command m cmd))
          λ t d. IfOk-ok Inv (dispatch m env cmd arg s) t (dispatch-Inv env cmd arg s v) d)
        e
  Step-Inv {s} {s'} (by_irq garbage i e) v =
      IfOk-ok Inv (irq m garbage i s) s' (irq_info-Inv garbage i (get_elem? s.infos i) s v) e

  -- After any sequence of commands and events without a fault, `report_in_progress` is 0, and
  -- monitor_share_info points to the info structure that was allocated last.
  pub Reach-Inv : {s : State} → Reach m s → Inv s
  unfolding init
  Reach-Inv booted = record { idle = refl; current = refl }
  Reach-Inv (stepped r st) = Step-Inv st (Reach-Inv r)
