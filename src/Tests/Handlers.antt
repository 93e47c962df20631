-- ===== src/Tests/Handlers.antt =====
-- The two event handlers, and the answers, on concrete rings.
use maitland.Base.{◌≡◌, refl, [], ◌∷◌, negsuc, ok, Returns, arith}
use maitland.Ring.{Sring}
use maitland.Wire.{Message}
use maitland.Wire.Monitor
use maitland.Monitor.Handler.{start, op_process, answer}
use maitland.Monitor.Handler
use maitland.Monitor.Handler.Verdict.{reply, answer-reply}
use maitland.Monitor.Handler.Progress.{IsIndexed, Drained, irq_handle-Drained}
use maitland.Monitor.Handler.Batch.{window, replies, irq_handle-replies}
use maitland.Monitor.Handler.Commands.{op_process-stalls}
use maitland.Malpage.Irq
use maitland.Malpage.Irq.Responses.{pending, handle_all, settled, irq_handle-settled}
use maitland.Tests.{xen_ring, xen_ring-laws, blank, bring, fresh_page, answered_guest, doms}

-- A request that names a domain outside the store.
abbrev wild : Message
wild = record blank { operation = Monitor.ring_nxviolation; domid = negsuc 4 }

answer-reply_example : answer doms 0 wild blank ≡ ok (reply doms 0 wild blank)
answer-reply_example = answer-reply doms 0 wild blank

-- Two requests pending.
abbrev two_requests : Sring
two_requests = record fresh_page { req_prod = 9; entries = λ k. wild }

abbrev bring-IsIndexed : IsIndexed bring two_requests
bring-IsIndexed = record {
  cons_lt = omega arith;
  prod_lt = omega arith;
  req_lt = omega arith;
  published = refl;
}

irq_handle-Drained_example :
    Returns
      (Drained xen_ring xen_ring-laws doms 0 (start bring two_requests blank) 2)
      (Handler.irq_handle xen_ring doms 0 bring two_requests blank)
irq_handle-Drained_example =
    irq_handle-Drained xen_ring xen_ring-laws doms 0 bring two_requests blank bring-IsIndexed
      (omega arith)

irq_handle-replies_example :
    Returns
      (λ h.
        window xen_ring h.sring.entries 2 7
        ≡ replies xen_ring xen_ring-laws doms 0 blank (wild ∷ wild ∷ []))
      (Handler.irq_handle xen_ring doms 0 bring two_requests blank)
irq_handle-replies_example =
    irq_handle-replies xen_ring xen_ring-laws doms 0 bring two_requests blank refl (omega arith)
      (omega arith) (omega arith)

irq_handle-settled_example :
    Irq.irq_handle xen_ring 0 answered_guest
    ≡ ok (
        settled xen_ring (
          handle_all
            (pending xen_ring answered_guest.sring 1 7)
            (record { skip = 0; guest = answered_guest })))
irq_handle-settled_example =
    irq_handle-settled xen_ring xen_ring-laws 0 answered_guest (omega arith) (omega arith)

op_process-stalls_example :
    let b' = (op_process xen_ring Monitor.ring_kill 42 blank (bring, fresh_page)).0 in
    Handler.irq_handle xen_ring doms 0 b' two_requests blank ≡ ok (start b' two_requests blank)
op_process-stalls_example =
    op_process-stalls xen_ring xen_ring-laws Monitor.ring_kill 42 blank bring fresh_page refl
      (record {
        cons_lt = omega arith;
        prod_lt = omega arith;
        req_lt = omega arith;
        published = refl;
      })
      doms 0 two_requests blank
