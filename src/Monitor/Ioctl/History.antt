-- ===== src/Monitor/Ioctl/History.antt =====
-- The driver against its history: a list of the registrations and the requests to watch.
use maitland.Base.{
  ℕ, ◌<◌, ◌≡◌, refl, sym, ap, ◌∙◌, subst, ◌==◌, Bool, Bool-cases, true, false, not, ◌&&◌, ◌||◌, inl,
  inr, if◌then◌else◌, Option, Option-cases, none, some, get_elem?, List, [], ◌∷◌, ℤ, pos, negsuc,
  Run, ok, IfOk, IfOk-bind, IfOk-if, IfOk-mono, IfOk-ok, arith,
}
use maitland.Ring.{Sring, Back, Macros}
use maitland.Wire.{Message, ProcessReport}
use maitland.Monitor.Watch.{DomList, WatchReport, watch, max_vms, check_page_fault}
use maitland.Monitor.Watch.Checks.{is_marked, is_watched, check_answer, check_page_fault_lem}
use maitland.Monitor.State.{State, ShareInfo}
use maitland.Monitor.Handler.{irq_handle, kill_process, resume_process}
use maitland.Monitor.Grants.{report, populate_report}
use maitland.Monitor.Grants.Mapped.{report-keeps}
use maitland.Monitor.Register.{init, register, populate_info}
use maitland.Monitor.Ioctl.{
  Arg, Env, cmd_register, cmd_report, cmd_resume, cmd_kill, cmd_watch, is_command, ioctl, dispatch,
  register_guest, finish_process, send_command, send_info, watch_process, report_process, irq_info,
  irq,
}
use maitland.Monitor.Watch.Recorded.{is_there, is_registered, Watched, watch-recorded}
use maitland.Monitor.Register.Recorded.{succeeded, Added, register-recorded}

-- The abstract driver keeps only what it was told, latest first: that a domain registered, that one
-- did for which there was no array, and that a process is to be watched.
pub data Event : Type 0 where
  registered : ℕ → Event
  cleared : ℕ → Event
  requested : ℕ → ℕ → Event

-- A domain is known if there was an array for it when it last registered.
abbrev pub known : List Event → ℕ → Bool
known [] d = false
known (registered e ∷ h) d = (d == e) || known h d
known (cleared e ∷ h) d = not (d == e) && known h d
known (requested e q ∷ h) d = known h d

-- A process is watched if its domain was known when it was requested, and did not register since.
abbrev pub watched_in : List Event → ℕ → ℕ → Bool
watched_in [] d p = false
watched_in (registered e ∷ h) d p = not (d == e) && watched_in h d p
watched_in (cleared e ∷ h) d p = not (d == e) && watched_in h d p
watched_in (requested e q ∷ h) d p = known h e && ((d == e) && (p == q)) || watched_in h d p

-- What a registration adds to the history.
abbrev pub entered : Bool → Bool → ℕ → List Event → List Event
entered false has_array d h = h
entered true true d h = registered d ∷ h
entered true false d h = cleared d ∷ h

-- What the driver is told by a command.
abbrev pub told : Env → ℕ → Arg → List Event → List Event
told env cmd arg h =
    if cmd == cmd_register
    then entered (succeeded env.register) env.register.has_array (populate_info arg.info).domid h
    else if cmd == cmd_watch
    then requested arg.watch.domid arg.watch.process_id ∷ h
    else h

-- The driver's runs without a fault, from its start on, with their histories.
pub data Trace (m : Macros) : List Event → State → Type 0 where
  booted : Trace m [] init
  by_ioctl :
      {h : List Event} {s s' : State} (env : Env) (cmd : ℕ) (arg : Arg) (r : ℤ)
      → Trace m h s
      → ioctl m env cmd arg s ≡ ok (s', r)
      → Trace m (told env cmd arg h) s'
  by_irq :
      {h : List Event} {s s' : State} (garbage : Message) (i : ℕ)
      → Trace m h s
      → irq m garbage i s ≡ ok s'
      → Trace m h s'

-- The store agrees with a history.
pub record Refines (h : List Event) (doms : DomList) : Type 0 where
  pub known_lem : (d : ℕ) → is_registered doms d ≡ known h d
  pub watched_lem : (d p : ℕ) → is_watched doms d p ≡ watched_in h d p

-- A step that leaves the store as it is.
abbrev Keeps : State → State → Type 0
Keeps s s' = s'.dom_list ≡ s.dom_list

kept-Refines :
    (h : List Event) (s : State) (r : Run State)
    → Refines h s.dom_list
    → IfOk (Keeps s) r
    → IfOk (λ s'. Refines h s'.dom_list) r
kept-Refines h s r v = IfOk-mono r (λ s' e. subst (Refines h) (sym e) v)

Added-Refines :
    (done has_array : Bool) (e : ℕ) (h : List Event) (doms doms' : DomList)
    → Added done has_array e doms doms'
    → Refines h doms
    → Refines (entered done has_array e h) doms'
Added-Refines true true e h doms doms' a v = record {
  known_lem = λ d.
      a.registered_lem d
      ∙ ap (λ b. if d == e then true else b) (v.known_lem d)
      ∙ there (d == e) (known h d);
  watched_lem = λ d p. a.watched_lem d p ∙ ap (λ b. not (d == e) && b) (v.watched_lem d p);
}
  where
    there : (b c : Bool) → (if b then true else c) ≡ (b || c)
    there true c = refl
    there false c = refl
Added-Refines true false e h doms doms' a v = record {
  known_lem = λ d.
      a.registered_lem d
      ∙ ap (λ b. if d == e then false else b) (v.known_lem d)
      ∙ not_there (d == e) (known h d);
  watched_lem = λ d p. a.watched_lem d p ∙ ap (λ b. not (d == e) && b) (v.watched_lem d p);
}
  where
    not_there : (b c : Bool) → (if b then false else c) ≡ (not b && c)
    not_there true c = refl
    not_there false c = refl
Added-Refines false has_array e h doms doms' a v = record {
  known_lem = λ d. a.registered_lem d ∙ v.known_lem d;
  watched_lem = λ d p. a.watched_lem d p ∙ v.watched_lem d p;
}

module _ (m : Macros) where
  send_info-Keeps :
      (send : Back × Sring → Back × Sring) (i : ℕ) (o : Option ShareInfo) (s : State)
      → IfOk (Keeps s) (send_info m send i o s)
  unfolding send_info
  send_info-Keeps send i none s = tt
  send_info-Keeps send i (some info) s = elim (Option-cases info.sring) [
    | inl e ↦ rw (e, send_info) tt
    | inr (page, e) ↦ rw (e, send_info) refl
  ]

  send_command-Keeps :
      (send : Back × Sring → Back × Sring) (s : State) → IfOk (Keeps s) (send_command m send s)
  unfolding send_command
  send_command-Keeps send s = elim (Option-cases s.share_info) [
    | inl e ↦ rw (e, send_command) tt
    | inr (i, e) ↦ rw (e, send_command) (send_info-Keeps send i (get_elem? s.infos i) s)
  ]

  finish_process-Keeps :
      (send : Back × Sring → Back × Sring) (s : State) → IfOk (Keeps s) (finish_process m send s)
  unfolding finish_process
  finish_process-Keeps send s = IfOk-if (Keeps s) (s.curr_proc == 0) _ _ refl (
      IfOk-bind (Keeps s) (send_command m send s) (λ s'. ok (record s' { curr_proc = 0 }))
        λ s' e. IfOk-ok (Keeps s) (send_command m send s) s' (send_command-Keeps send s) e)

  irq_info-Keeps :
      (garbage : Message) (i : ℕ) (o : Option ShareInfo) (s : State)
      → IfOk (Keeps s) (irq_info m garbage i o s)
  unfolding irq_info
  irq_info-Keeps garbage i none s = tt
  irq_info-Keeps garbage i (some info) s = elim (Option-cases info.sring) [
    | inl e ↦ rw (e, irq_info) tt
    | inr (page, e) ↦
        rw (e, irq_info)
          (IfOk-bind (Keeps s)
            (irq_handle m s.dom_list s.report_in_progress info.bring page garbage) _ λ h e'. refl)
  ]

  register_guest-Refines :
      (env : Env) (arg : Arg) (h : List Event) (s : State)
      → Refines h s.dom_list
      → IfOk
          (λ s'.
            Refines
              (entered
                (succeeded env.register)
                env.register.has_array
                (populate_info arg.info).domid
                h)
              s'.dom_list)
          (register_guest m env arg.info s)
  unfolding register_guest
  register_guest-Refines env arg h s v =
      IfOk-bind _ (register m env.register s.dom_list (populate_info arg.info)) _
        λ (doms, info, result) e.
          Added-Refines (succeeded env.register) env.register.has_array
            (populate_info arg.info).domid h s.dom_list doms
            (IfOk-ok
              (λ ((doms', i, r) : DomList × ShareInfo × ℤ).
                Added (succeeded env.register) env.register.has_array (populate_info arg.info).domid
                  s.dom_list doms')
              (register m env.register s.dom_list (populate_info arg.info)) (doms, info, result)
              (register-recorded m env.register s.dom_list (populate_info arg.info)) e)
            v

  watch_process-Refines :
      (rep : WatchReport) (h : List Event) (s : State)
      → Refines h s.dom_list
      → IfOk
          (λ s'. Refines (requested rep.domid rep.process_id ∷ h) s'.dom_list)
          (watch_process m rep s)
  unfolding watch_process
  watch_process-Refines rep h s v =
      let here = λ (d p : ℕ). (d == rep.domid) && (p == rep.process_id) in
      IfOk-bind _ (watch s.dom_list rep) _ λ (doms, result) e.
        let w =
          IfOk-ok (λ ((doms', r) : DomList × ℤ). Watched s.dom_list rep doms')
            (watch s.dom_list rep) (doms, result) (watch-recorded s.dom_list rep) e in
        record {
          known_lem = λ d. w.registered_lem d ∙ v.known_lem d;
          watched_lem = λ d p.
              w.watched_lem d p
              ∙ ap (λ b. b && here d p || is_watched s.dom_list d p) (v.known_lem rep.domid)
              ∙ ap (λ b. known h rep.domid && here d p || b) (v.watched_lem d p);
        }

  report_process-Keeps :
      (env : Env) (rep : ProcessReport) (s : State) → IfOk (Keeps s) (report_process m env rep s)
  unfolding report_process
  report_process-Keeps env rep s =
      IfOk-bind (Keeps s) (populate_report env.kzalloc env.copy rep) _ λ rep' e.
        IfOk-mono (report (env.kzalloc 3) env.map rep' s) (λ s' (idle, current, infos, doms). doms)
          (report-keeps (env.kzalloc 3) env.map rep' s)

  dispatch-Refines :
      (env : Env) (cmd : ℕ) (arg : Arg) (h : List Event) (s : State)
      → Refines h s.dom_list
      → IfOk (λ s'. Refines (told env cmd arg h) s'.dom_list) (dispatch m env cmd arg s)
  unfolding dispatch
  dispatch-Refines env cmd arg h s v = elim (Bool-cases (cmd == cmd_register)) [
    | inl e ↦ rw e (register_guest-Refines env arg h s v)
    | inr e ↦ elim (Bool-cases (cmd == cmd_watch)) [
      | inl w ↦
          let not_report : (cmd == cmd_report) ≡ false = ground (arith, w) in
          let not_resume : (cmd == cmd_resume) ≡ false = ground (arith, w) in
          let not_kill : (cmd == cmd_kill) ≡ false = ground (arith, w) in
          rw (e, not_report, not_resume, not_kill, w) (watch_process-Refines arg.watch h s v)
      | inr w ↦
          rw (e, w)
            (kept-Refines h s _ v (
              IfOk-if (Keeps s) (cmd == cmd_report) _ _ (report_process-Keeps env arg.report s) (
                IfOk-if (Keeps s) (cmd == cmd_resume) _ _
                  (finish_process-Keeps (resume_process m s.curr_proc env.garbage) s)
                  (IfOk-if (Keeps s) (cmd == cmd_kill) _ _
                    (finish_process-Keeps (kill_process m s.curr_proc env.garbage) s) refl))))
    ]
  ]

  Trace-Refines : {h : List Event} {s : State} → Trace m h s → Refines h s.dom_list
  unfolding init ioctl irq
  Trace-Refines booted = record { known_lem = λ d. refl; watched_lem = λ d p. refl }
  Trace-Refines (by_ioctl {h} {s} {s'} env cmd arg r t e) =
      IfOk-ok (λ (p : State × ℤ). Refines (told env cmd arg h) p.0.dom_list) (ioctl m env cmd arg s)
        (s', r)
        (IfOk-bind (λ (p : State × ℤ). Refines (told env cmd arg h) p.0.dom_list)
          (dispatch m env cmd arg s) (λ t. ok (t, is_command m cmd))
          λ t' d.
            IfOk-ok (λ s2. Refines (told env cmd arg h) s2.dom_list) (dispatch m env cmd arg s) t'
              (dispatch-Refines env cmd arg h s (Trace-Refines t)) d)
        e
  Trace-Refines (by_irq {h} {s} {s'} garbage i t e) =
      IfOk-ok (λ s2. Refines h s2.dom_list) (irq m garbage i s) s'
        (kept-Refines h s (irq m garbage i s) (Trace-Refines t)
          (irq_info-Keeps garbage i (get_elem? s.infos i) s))
        e

  -- The driver refines its history. After any sequence of commands, with whatever arguments and
  -- results, and of events of any guest, as long as none of them faults: for a domain id below 256,
  -- the driver's check of a page fault answers -1 if the domain never registered successfully, or if
  -- there was no memory for its array of processes when it last did; else 1 if the process was
  -- requested to be watched while its domain was registered and the domain did not register again
  -- since, and 0 otherwise.
  pub check_page_fault-history :
      {h : List Event} {s : State} (d p : ℕ)
      → Trace m h s
      → d < max_vms
      → check_page_fault s.dom_list d p
        ≡ ok (if known h d then (if watched_in h d p then pos 1 else pos 0) else negsuc 0)
  check_page_fault-history {h} {s} d p t hd =
      let v = Trace-Refines t in
      let answer = λ (b c : Bool). if b then (if c then pos 1 else pos 0) else negsuc 0 in
      check_page_fault_lem s.dom_list d p hd
      ∙ ap ok (
          answered (s.dom_list d)
          ∙ ap (λ b. answer b (is_watched s.dom_list d p)) (v.known_lem d)
          ∙ ap (answer (known h d)) (v.watched_lem d p))
    where
      answered :
          (o : Option (ℕ → ℕ))
          → check_answer o p
            ≡ (if is_there o then (if is_marked o p then pos 1 else pos 0) else negsuc 0)
      answered none = refl
      answered (some procs) = refl
