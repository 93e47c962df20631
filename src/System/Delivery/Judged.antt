-- ===== src/System/Delivery/Judged.antt =====
-- From the command that the driver publishes to the signal in the guest (malpage.c,
-- malpage_irq_handle). The response that asked for the report is still pending then: it set `skip`.
use mathlib.Core.List.{append-nil}
use maitland.Base.{
  ℕ, ◌<◌, ◌≡◌, ◌==◌, refl, Bool, ℤ, List, ◌∙◌, subst, sym, true, false, ◌&&◌, some, [], ◌∷◌, ◌++◌,
  pos, to_int, is_pos, Returns, returns, ==_refl, arith,
}
use maitland.Ring.{Sring, Macros, MacroLaws, idx_mod, inc, gap, write_entry}
use maitland.Wire.{Message}
use maitland.Wire.Malpage
use maitland.Monitor.State.{ShareInfo}
use maitland.Monitor.Ioctl.Kill.{commanded}
use maitland.System.Delivery.Reported.{verdict}
use maitland.Malpage.Guest.{Guest}
use maitland.Malpage.Process.{Signal, sigkill}
use maitland.Malpage.Process.Signals.{has_pid, op_process-signalled}
use maitland.Malpage.Irq.{Handling, handle_response, irq_handle}
use maitland.Malpage.Irq.Responses.{pending, handle_all, settled, irq_handle-settled}

-- The page of an info structure to which a command was published.
abbrev pub published : Macros → ℕ → ℕ → Message → ShareInfo → Sring → Sring
published m op pid garbage info page =
    record (write_entry (m.slot info.bring.rsp_prod_pvt)
      (record garbage { operation = op; process_id = pid }) page) {
        rsp_prod = inc info.bring.rsp_prod_pvt;
      }

-- The signals to a process of which the search string is found, or not.
abbrev pub sentence : Bool → ℕ → List (Signal × ℤ)
sentence true pid = (sigkill, to_int pid) ∷ []
sentence false pid = []

-- A guest that has sent SIGKILL to the process if the search string is found, and no signal if not,
-- has queued the process once more, and has consumed all responses.
abbrev pub Judged : Guest → Bool → ℕ → Guest → Type 0
Judged g found pid g' =
    (g'.signals ≡ g.signals ++ sentence found pid)
    × (g'.report_queue ≡ g.report_queue ++ (to_int pid ∷ []))
    × (g'.fring.rsp_cons ≡ g'.sring.rsp_prod)

-- The guest's front end stands at the REPORT of a process, the last response of the monitor.
pub record Awaits (m : Macros) (g : Guest) (info : ShareInfo) (page : Sring) (pid : ℕ)
    : Type 0 where
  pub cons_lt : g.fring.rsp_cons < idx_mod
  pub last : info.bring.rsp_prod_pvt ≡ inc g.fring.rsp_cons
  pub report : (page.entries (m.slot g.fring.rsp_cons)).operation ≡ Malpage.ring_report
  pub process : (page.entries (m.slot g.fring.rsp_cons)).process_id ≡ pid

-- A report and the verdict on one process, in this order.
handle_all-Judged :
    (m : Macros) (found : Bool) (resp final : Message) (h : Handling) (pid : ℕ)
    → resp.operation ≡ Malpage.ring_report
    → resp.process_id ≡ pid
    → final.operation ≡ verdict found
    → final.process_id ≡ pid
    → h.guest.tasks.at_end ≡ some (pos 0)
    → (has_pid h.guest.tasks.pids (to_int pid) && is_pos (to_int pid)) ≡ true
    → ((settled m (handle_all (resp ∷ final ∷ []) h)).signals
        ≡ h.guest.signals ++ sentence found pid)
      × ((settled m (handle_all (resp ∷ final ∷ []) h)).report_queue
          ≡ h.guest.report_queue ++ (to_int pid ∷ []))
      × ((settled m (handle_all (resp ∷ final ∷ []) h)).fring.rsp_cons ≡ h.guest.sring.rsp_prod)
      × ((settled m (handle_all (resp ∷ final ∷ []) h)).sring.rsp_prod ≡ h.guest.sring.rsp_prod)
unfolding handle_all handle_response
handle_all-Judged m true resp final h pid op of kop kof idle there =
    rw (op, kop, of, kof, op_process-signalled h.guest.tasks Malpage.ring_kill pid idle, there)
      (refl, refl, refl, refl)
handle_all-Judged m false resp final h pid op of kop kof idle there =
    rw (op, kop, of) (sym (append-nil h.guest.signals), refl, refl, refl)

module _ (m : Macros) (laws : MacroLaws m) (found : Bool) (g : Guest) (info : ShareInfo)
    (page : Sring) (pid : ℕ) (garbage : Message) (roomy : 1 < m.size)
    (waits : Awaits m g info page pid) where
  abbrev received : Guest
  received = record g { sring = published m (verdict found) pid garbage info page }

  responses-two :
      pending m received.sring (gap received.sring.rsp_prod g.fring.rsp_cons) g.fring.rsp_cons
      ≡ page.entries (m.slot g.fring.rsp_cons)
        ∷ record garbage { operation = verdict found; process_id = pid }
        ∷ []
  unfolding pending write_entry
  responses-two =
      let c = g.fring.rsp_cons in
      let two : gap (inc (inc c)) c ≡ 2 = omega (arith, waits.cons_lt) in
      let apart : (m.slot c == m.slot (inc c)) ≡ false =
        ground (arith, laws.slot_lem c 1 (omega arith) roomy) in
      rw (waits.last, two, apart, ==_refl (m.slot (inc c))) refl

  signals-Judged :
      (skip : ℕ)
      → g.tasks.at_end ≡ some (pos 0)
      → (has_pid g.tasks.pids (to_int pid) && is_pos (to_int pid)) ≡ true
      → Returns (Judged g found pid) (irq_handle m skip received)
  signals-Judged skip idle there =
      let settles =
        irq_handle-settled m laws skip
          (record g { sring = published m (verdict found) pid garbage info page }) waits.cons_lt
          (omega arith) in
      let (signals, queue, cons, prod) =
        handle_all-Judged m found (page.entries (m.slot g.fring.rsp_cons))
          (record garbage { operation = verdict found; process_id = pid })
          (record {
            skip = skip;
            guest = record g { sring = published m (verdict found) pid garbage info page };
          })
          pid waits.report waits.process refl refl idle there in
      rw (settles, responses-two) (returns (signals, queue, cons ∙ sym prod))

  -- A guest stands at the REPORT of a process, the last response of the monitor; the process is
  -- found in its task list, with a positive id, and the ring has more than one place. When the driver
  -- publishes a KILL or a RESUME for that process on the guest's ring, the guest's handler ends: it
  -- sends the process SIGKILL on a KILL and no signal on a RESUME, after it has queued the same process
  -- for a report once more, and consumes all responses.
  pub irq_handle-Judged :
      (skip : ℕ) (page' : Sring)
      → (commanded m (verdict found) pid garbage info page).sring ≡ some page'
      → g.tasks.at_end ≡ some (pos 0)
      → (has_pid g.tasks.pids (to_int pid) && is_pos (to_int pid)) ≡ true
      → Returns (Judged g found pid) (irq_handle m skip (record g { sring = page' }))
  irq_handle-Judged skip page' sent idle there =
      let same : received.sring ≡ page' = cc in
      subst (λ p. Returns (Judged g found pid) (irq_handle m skip (record g { sring = p }))) same
        (signals-Judged skip idle there)
