-- ===== src/Monitor/Handler.antt =====
-- drivers/xen/monitor/monitor.c, the event channel: monitor_irq_handle, which answers the requests
-- of a guest, and monitor_op_process, which sends it a command. The handler is given the place of
-- the shared page as the two halves `bring` and `sring`, and its local `resp` is not initialised in
-- C, so its first value is an argument. One round of the loop answers one request; the indices are
-- 32 bits wide, so `gap rp rc` rounds reach `rp`, and the handler is given one more.
pub mod Verdict
pub mod Progress
pub mod Commands
pub mod Batch
use maitland.Base.{
  ℕ, zero, suc, ◌+◌, ◌==◌, Bool, true, false, ◌&&◌, if◌then◌else◌, ltb, ℤ, pos, negsuc, is_pos,
  to_int, to_unsigned, Run, ok, out_of_fuel, ◌>>=◌,
}
use maitland.Ring.{Sring, Back, Macros, inc, gap, write_entry}
use maitland.Wire.{Message}
use maitland.Wire.Monitor
use maitland.Monitor.Watch.{DomList, max_vms, check_mmuupdate, check_page_fault}

-- `domid > 0 && domid < MONITOR_MAX_VMS`
abbrev pub in_range : ℤ → Bool
in_range (pos d) = ltb 0 d && ltb d max_vms
in_range (negsuc d) = false

-- The case MONITOR_RING_MMUUPDATE.
answer_mmuupdate : DomList → Message → Message → Run Message
answer_mmuupdate doms req resp =
    if in_range req.domid
    then (do
      r ← check_mmuupdate doms req.domid req.process_id
      ok (
          if is_pos r
          then record resp {
            process_id = req.process_id;
            domid = req.domid;
            mmu_ptr = req.mmu_ptr;
            mmu_val = req.mmu_val;
            operation = Monitor.ring_nx;
          }
          else resp))
    else ok resp

-- The case MONITOR_RING_NXVIOLATION. While a report is in progress the store is not read.
answer_nxviolation : DomList → ℕ → Message → Message → Run Message
answer_nxviolation doms report_in_progress req resp =
    if in_range req.domid
    then (if report_in_progress == 0
        then (do
          r ← check_page_fault doms (to_unsigned req.domid) req.process_id
          ok (
              if is_pos r
              then record resp {
                process_id = req.process_id;
                domid = req.domid;
                operation = Monitor.ring_report;
              }
              else record resp { operation = Monitor.ring_nonop }))
        else ok (record resp { operation = Monitor.ring_nonop }))
    else ok resp

-- `resp.operation = MONITOR_RING_NONOP; ... switch (req.operation)`
pub answer : DomList → ℕ → Message → Message → Run Message
unfolding answer_mmuupdate answer_nxviolation
answer doms report_in_progress req resp =
    let resp0 = record resp { operation = Monitor.ring_nonop } in
    if req.operation == Monitor.ring_report
    then ok (record resp0 { operation = Monitor.ring_nonop })
    else if req.operation == Monitor.ring_mmuupdate
    then answer_mmuupdate doms req resp0
    else if req.operation == Monitor.ring_nxviolation
    then answer_nxviolation doms report_in_progress req resp0
    else ok (record resp0 { operation = Monitor.ring_nonop })

-- What a run of the handler changes: the two halves of the ring, the local `resp`, and how often
-- notify_remote_via_irq was called.
pub record Handling : Type 0 where
  pub bring : Back
  pub sring : Sring
  pub resp : Message
  pub notified : ℕ

-- At the entry of the handler.
abbrev pub start : Back → Sring → Message → Handling
start bring sring garbage = record { bring = bring; sring = sring; resp = garbage; notified = 0 }

module _ (m : Macros) (doms : DomList) (report_in_progress : ℕ) where
  -- The write of the response at `rsp_prod_pvt`, its publication and the notification.
  respond : Back → Sring → Message → ℕ → Handling
  respond bring sring resp notified =
      let bring' = record bring { rsp_prod_pvt = inc bring.rsp_prod_pvt } in
      record {
        bring = bring';
        sring = m.push_responses bring' (write_entry (m.slot bring.rsp_prod_pvt) resp sring);
        resp = resp;
        notified = notified + 1;
      }

  -- One round of the loop, for the request at index `rc`.
  pub handle_request : ℕ → Handling → Run Handling
  unfolding answer respond
  handle_request rc h = do
    resp ← answer doms report_in_progress (h.sring.entries (m.slot rc)) h.resp
    ok (respond (record h.bring { req_cons = inc rc }) h.sring resp h.notified)

  -- `while (rc != rp)`
  irq_loop : ℕ → ℕ → ℕ → Handling → Run Handling
  unfolding handle_request
  irq_loop rp zero rc h = out_of_fuel
  irq_loop rp (suc rounds) rc h =
      if rc == rp
      then ok h
      else if m.request_cons_overflow h.bring rc
      then ok h
      else (do h' ← handle_request rc h; irq_loop rp rounds (inc rc) h')

  pub irq_handle : Back → Sring → Message → Run Handling
  unfolding irq_loop
  irq_handle bring sring garbage =
      irq_loop sring.req_prod (gap sring.req_prod bring.req_cons + 1) bring.req_cons
        (start bring sring garbage)

-- monitor_op_process, and the wrappers monitor_halt_process, monitor_resume_process and
-- monitor_kill_process. It always notifies the guest.
module _ (m : Macros) where
  pub op_process : ℕ → ℕ → Message → Back × Sring → Back × Sring
  op_process op pid garbage (bring, sring) =
      let resp = record garbage { operation = op; process_id = pid } in
      let bring' = record bring { rsp_prod_pvt = inc bring.rsp_prod_pvt } in
      (
        bring',
        m.push_responses_and_check_notify bring'
            (write_entry (m.slot bring.rsp_prod_pvt) resp sring),
      )

  pub halt_process : ℕ → Message → Back × Sring → Back × Sring
  unfolding op_process
  halt_process pid = op_process Monitor.ring_halt pid

  unfoldable pub resume_process : ℕ → Message → Back × Sring → Back × Sring
  unfolding op_process
  resume_process pid = op_process Monitor.ring_resume pid

  unfoldable pub kill_process : ℕ → Message → Back × Sring → Back × Sring
  unfolding op_process
  kill_process pid = op_process Monitor.ring_kill pid
