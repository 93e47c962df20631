-- ===== src/Malpage/Irq.antt =====
-- drivers/xen/malpage/malpage.c, malpage_irq_handle: the handler of the guest's event channel. It
-- takes the responses from `rsp_cons` on, and may signal a process or queue a report. Its local
-- `skip` is not initialised in C, so its first value is an argument. As in the monitor, the loop
-- is given one round more than there are responses, and the jump back to `again` is given one
-- repetition. The allocation of the queue's node for a report, which is not tested, is taken to
-- succeed.
pub mod Responses
pub mod Repeats
use maitland.Base.{
  ℕ, zero, suc, ◌+◌, ◌==◌, Bool, false, if◌then◌else◌, List, [], ◌∷◌, ◌++◌, to_int, Run, ok,
  out_of_fuel, ◌>>=◌,
}
use maitland.Ring.{Sring, Front, Macros, inc, gap}
use maitland.Wire.{Message}
use maitland.Wire.Malpage
use maitland.Malpage.Process.{op_process}
use maitland.Malpage.Guest.{Guest}

-- malpage_flipnx_page returns before it does anything.
flipnx_page : ℕ → ℕ → Guest → Guest
flipnx_page ptep pte g = g

-- The variables of the loop that outlive a round.
pub record Handling : Type 0 where
  pub skip : ℕ
  pub guest : Guest

-- The `switch` on one response.
unfoldable pub handle_response : Message → Handling → Handling
unfolding flipnx_page
handle_response resp h =
    if resp.operation == Malpage.ring_nonop
    then h
    else if resp.operation == Malpage.ring_kill
    then record {
      skip = 0;
      guest = record h.guest {
        signals = h.guest.signals ++ (op_process h.guest.tasks Malpage.ring_kill resp.process_id).0;
      };
    }
    else if resp.operation == Malpage.ring_resume
    then record h { skip = 0 }
    else if resp.operation == Malpage.ring_halt
    then record h { skip = 1 }
    else if resp.operation == Malpage.ring_nx
    then record { skip = 1; guest = flipnx_page resp.mmu_ptr resp.mmu_val h.guest }
    else if resp.operation == Malpage.ring_report
    then record {
      skip = 1;
      guest = record h.guest {
        report_queue = h.guest.report_queue ++ (to_int resp.process_id ∷ []);
        report_sem = h.guest.report_sem + 1;
      };
    }
    else h

module _ (m : Macros) where
  -- `for (rc = rsp_cons; rc != rp; rc++)`
  responses : ℕ → ℕ → ℕ → Handling → Run Handling
  responses rp zero rc h = out_of_fuel
  responses rp (suc rounds) rc h =
      let rest =
        responses rp rounds (inc rc) (handle_response (h.guest.sring.entries (m.slot rc)) h) in
      if rc == rp then ok h else rest

  -- What follows the loop, up to the test of `notify`, with `rc` at its end.
  finish : ℕ → Guest → Guest
  finish rc g =
      let fring = record g.fring { rsp_cons = rc } in
      if rc == g.fring.req_prod_pvt
      then record g { fring = fring; sring = record g.sring { rsp_event = inc rc } }
      else record g { fring = fring; sring = m.final_check_for_responses fring g.sring }

  repeats : ℕ → Guest → Bool
  repeats rc g =
      if rc == g.fring.req_prod_pvt
      then false
      else m.final_check_notify (record g.fring { rsp_cons = rc }) g.sring

  -- The part behind the loop; `rest` is the code from `again` on.
  after_loop : (Handling → Run Handling) → ℕ → Handling → Run Handling
  unfolding finish repeats
  after_loop rest rc h =
      let h' = record h { guest = finish rc h.guest } in
      if h.skip == 0 then (if repeats rc h.guest then rest h' else ok h') else ok h

  -- From the label `again`.
  again : ℕ → Handling → Run Handling
  unfolding responses after_loop
  again zero h = out_of_fuel
  again (suc times) h =
      let rp = h.guest.sring.rsp_prod in
      let rc = h.guest.fring.rsp_cons in
      responses rp (gap rp rc + 1) rc h >>= after_loop (again times) rp

  pub irq_handle : ℕ → Guest → Run Guest
  unfolding again
  irq_handle skip g = do h ← again 2 (record { skip = skip; guest = g }); ok h.guest
