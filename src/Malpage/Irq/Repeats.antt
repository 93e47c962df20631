-- ===== src/Malpage/Irq/Repeats.antt =====
-- What one pending response makes the guest do, and what a second run of the handler does then.
use maitland.Base.{ℕ, zero, suc, ◌+◌, ◌<◌, ◌≡◌, [], ◌∷◌, ◌++◌, to_int, ok, arith, ◌>>=◌, ◌∙◌}
use maitland.Ring.{Macros, MacroLaws, idx_mod, inc, gap}
use maitland.Wire.Malpage
use maitland.Malpage.Guest.{Guest}
use maitland.Malpage.Irq.{handle_response, irq_handle}
use maitland.Malpage.Irq.Responses.{pending, handle_all, settled, irq_handle-settled}

module _ (m : Macros) (laws : MacroLaws m) where
  -- With one response pending, a run of the handler is one case of its `switch`.
  pub irq_handle-single :
      (skip : ℕ) (g : Guest)
      → g.fring.rsp_cons < idx_mod
      → g.sring.rsp_prod ≡ inc g.fring.rsp_cons
      → irq_handle m skip g
        ≡ ok (
            settled m (
              handle_response
                (g.sring.entries (m.slot g.fring.rsp_cons))
                (record { skip = skip; guest = g })))
  unfolding pending handle_all
  irq_handle-single skip g cons_lt one =
      let n : gap g.sring.rsp_prod g.fring.rsp_cons ≡ suc zero = omega arith in
      let run = irq_handle-settled m laws skip g cons_lt (omega arith) in rw n at run

  -- A guest with one more report queued.
  abbrev pub queued : ℕ → Guest → Guest
  queued pid g = record g {
    report_queue = g.report_queue ++ (to_int pid ∷ []);
    report_sem = g.report_sem + 1;
  }

  -- With a REPORT as the only response pending, a run of the handler queues the process and raises
  -- the semaphore, and leaves the response on the ring.
  pub irq_handle-report :
      (skip : ℕ) (g : Guest)
      → g.fring.rsp_cons < idx_mod
      → g.sring.rsp_prod ≡ inc g.fring.rsp_cons
      → (g.sring.entries (m.slot g.fring.rsp_cons)).operation ≡ Malpage.ring_report
      → irq_handle m skip g ≡ ok (queued (g.sring.entries (m.slot g.fring.rsp_cons)).process_id g)
  unfolding handle_response
  irq_handle-report skip g cons_lt one op =
      irq_handle-single skip g cons_lt one ∙ ground (arith, op)

  -- With a REPORT as the only response pending, two runs of the handler, the second on whatever
  -- event, queue the process of that response twice and raise the semaphore twice.
  pub irq_handle-report_again :
      (skip skip' : ℕ) (g : Guest)
      → g.fring.rsp_cons < idx_mod
      → g.sring.rsp_prod ≡ inc g.fring.rsp_cons
      → (g.sring.entries (m.slot g.fring.rsp_cons)).operation ≡ Malpage.ring_report
      → let pid = (g.sring.entries (m.slot g.fring.rsp_cons)).process_id in
        (irq_handle m skip g >>= irq_handle m skip') ≡ ok (queued pid (queued pid g))
  irq_handle-report_again skip skip' g cons_lt one op =
      rw (irq_handle-report skip g cons_lt one op) (irq_handle-report skip' _ cons_lt one op)
