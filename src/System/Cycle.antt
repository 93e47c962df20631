-- ===== src/System/Cycle.antt =====
-- From a page fault in a guest to the queue of its reporter.
pub mod Quiet
pub mod Kernel
use maitland.Base.{
  ==_refl, ℕ, ℤ, pos, ◌+◌, ◌^◌, ◌<◌, ◌≡◌, refl, ap, ◌∙◌, sym, ◌==◌, ◌&&◌, Bool, true, false, List,
  [], ◌∷◌, ◌++◌, ok, arith, Returns, returns,
}
use maitland.Ring.{Sring, Back, Macros, MacroLaws, inc, write_entry}
use maitland.Wire.{Message}
use maitland.Wire.Malpage
use maitland.Monitor.Watch.{DomList}
use maitland.Monitor.Watch.Checks.{is_watched}
use maitland.Monitor.Handler.{start, in_range}
use maitland.Monitor.Handler
use maitland.Monitor.Handler.Verdict.{reply}
use maitland.Monitor.Handler.Progress.{IsIndexed, handled, handled-push}
use maitland.Monitor.Handler.Progress
use maitland.Malpage.Guest.{Guest}
use maitland.Malpage.Hooks.{do_page_fault}
use maitland.Malpage.Hooks.Requests.{
  Fault, error_code, requested, nxviolation, do_page_fault-requested,
}
use maitland.Malpage.Irq
use maitland.Malpage.Irq.{Handling, handle_response}
use maitland.Malpage.Irq.Responses.{settled}
use maitland.Malpage.Irq.Repeats
use maitland.System.{InSync, fault_cycle}

-- A user's instruction fetch from a page that is not present.
pub record IsFetch (f : Fault) : Type 0 where
  pub instr : f.instr ≡ true
  pub user : f.user ≡ true
  pub absent : f.prot ≡ false

module _ (m : Macros) (laws : MacroLaws m) (doms : DomList) (busy : ℕ) (garbage : Message) where
  module _ (pid : ℤ) (address : ℕ) (g : Guest) (b : Back) (sync : InSync m g b) where
    -- The guest after the fault, and the request on the page.
    faulted : Guest
    faulted = requested m (nxviolation pid address g) g

    request : Message
    request = nxviolation pid address g (g.sring.entries (m.slot g.fring.req_prod_pvt))

    answered : Sring
    answered =
        record (write_entry (m.slot b.rsp_prod_pvt)
          (reply doms busy (faulted.sring.entries (m.slot b.req_cons)) garbage) faulted.sring) {
            rsp_prod = inc b.rsp_prod_pvt;
          }

    monitor_answers :
        Handler.irq_handle m doms busy b faulted.sring garbage
        ≡ ok (handled m laws doms busy (start b faulted.sring garbage))
    unfolding faulted write_entry
    monitor_answers =
        Progress.irq_handle-single m laws doms busy b faulted.sring garbage
          (record {
            cons_lt = sync.cons_lt;
            prod_lt = sync.prod_lt;
            req_lt = omega arith;
            published = sync.published;
          })
          sync.room (ap inc (sym sync.requests))

    received : Guest
    received = record faulted { sring = answered }

    -- The request that the monitor reads is the one that the guest wrote, and the response that the
    -- guest reads is the one that the monitor wrote.
    read_request : faulted.sring.entries (m.slot b.req_cons) ≡ request
    unfolding faulted request write_entry
    read_request = rw sync.requests (ground arith)

    next_response : faulted.fring.rsp_cons ≡ b.rsp_prod_pvt
    unfolding faulted
    next_response = sym sync.responses

    read_response :
        received.sring.entries (m.slot received.fring.rsp_cons) ≡ reply doms busy request garbage
    unfolding received answered write_entry
    read_response = rw (next_response, read_request, ==_refl (m.slot b.rsp_prod_pvt))

    pushed : (handled m laws doms busy (start b faulted.sring garbage)).sring ≡ answered
    unfolding answered
    pushed = handled-push m laws doms busy (start b faulted.sring garbage)

    hook : (f : Fault) → IsFetch f → do_page_fault m pid address (error_code f) g ≡ faulted
    unfolding faulted
    hook f fetch =
        do_page_fault-requested m pid address f g laws ∙ rw (fetch.instr, fetch.user, fetch.absent)

    consumer : received.fring.rsp_cons ≡ b.rsp_prod_pvt
    unfolding received
    consumer = next_response

    producer : received.sring.rsp_prod ≡ inc b.rsp_prod_pvt
    unfolding received answered
    producer = refl

    guest_reacts :
        (skip : ℕ)
        → Irq.irq_handle m skip received
          ≡ ok (
              settled m (
                handle_response
                  (reply doms busy request garbage)
                  (record { skip = skip; guest = received })))
    guest_reacts skip =
        Repeats.irq_handle-single m laws skip received (omega (arith, consumer, sync.prod_lt))
          (producer ∙ ap inc (sym consumer))
        ∙ ap (λ r. ok (settled m (handle_response r (record { skip = skip; guest = received }))))
            read_response

    cycle-settled :
        (f : Fault) (skip : ℕ)
        → IsFetch f
        → fault_cycle m doms busy garbage skip pid address (error_code f) g b
          ≡ ok (
              settled m (
                handle_response
                  (reply doms busy request garbage)
                  (record { skip = skip; guest = received })))
    unfolding fault_cycle
    cycle-settled f skip fetch =
        rw (hook f fetch, monitor_answers, pushed) (unfold received in guest_reacts skip)

    -- The monitor watches the process, in a domain that it can hold, and is not busy.
    alerts : ℕ → Bool
    alerts p = in_range (pos g.domid) && (is_watched doms g.domid p && (busy == 0))

    reply-report :
        (p : ℕ)
        → pid ≡ pos p
        → alerts p ≡ true
        → ((reply doms busy request garbage).operation ≡ Malpage.ring_report)
          × ((reply doms busy request garbage).process_id ≡ p)
    unfolding request reply alerts
    reply-report p e alert = rw e (ground arith)

    reply-nonop :
        (p : ℕ)
        → pid ≡ pos p
        → alerts p ≡ false
        → (reply doms busy request garbage).operation ≡ Malpage.ring_nonop
    unfolding request reply alerts
    reply-nonop p e quiet = rw e (ground arith)

    -- The guest's variables behind the cycle.
    Outcome : List ℤ → ℕ → Guest → Type 0
    Outcome queue sem g' =
        (g'.report_queue ≡ queue) × (g'.report_sem ≡ sem) × (g'.signals ≡ g.signals)

    settled-report :
        (p skip : ℕ)
        → p < 2 ^ 31
        → pid ≡ pos p
        → alerts p ≡ true
        → Outcome (g.report_queue ++ (pos p ∷ [])) (g.report_sem + 1) (
            settled m (
              handle_response
                (reply doms busy request garbage)
                (record { skip = skip; guest = received })))
    unfolding Outcome handle_response received faulted
    settled-report p skip small e alert =
        let (op, of) = reply-report p e alert in ground (arith, op, of)

    settled-nonop :
        (p skip : ℕ)
        → pid ≡ pos p
        → alerts p ≡ false
        → Outcome g.report_queue g.report_sem (
            settled m (
              handle_response
                (reply doms busy request garbage)
                (record { skip = skip; guest = received })))
    unfolding Outcome handle_response received faulted
    settled-nonop p skip e quiet = ground (arith, reply-nonop p e quiet)

module _ (m : Macros) (laws : MacroLaws m) (doms : DomList) (garbage : Message) (p address skip : ℕ)
    (g : Guest) (b : Back) (f : Fault) where
  -- Detection, from end to end: when a watched process of a domain in 1 to 255 fetches an
  -- instruction from a page that is not present, and the two ends of the ring agree, the cycle ends
  -- with a report of exactly that process queued behind the others, the reporter's semaphore raised
  -- by one, and no process signalled.
  pub fault_cycle-report :
      InSync m g b
      → IsFetch f
      → p < 2 ^ 31
      → in_range (pos g.domid) ≡ true
      → is_watched doms g.domid p ≡ true
      → Returns
          (λ g'.
            (g'.report_queue ≡ g.report_queue ++ (pos p ∷ []))
            × (g'.report_sem ≡ g.report_sem + 1)
            × (g'.signals ≡ g.signals))
          (fault_cycle m doms 0 garbage skip (pos p) address (error_code f) g b)
  unfolding alerts Outcome
  fault_cycle-report sync fetch small inside watched =
      rw (cycle-settled m laws doms 0 garbage (pos p) address g b sync f skip fetch) (
        returns (
          settled-report m laws doms 0 garbage (pos p) address g b sync p skip small refl
            (rw (inside, watched))))

  -- No false alarms: when the two ends of the ring agree, the cycle on an instruction fetch from a
  -- page that is not present, by a process that is not watched, or by any process while a report is
  -- in progress, ends; it queues nothing, leaves the semaphore alone and signals nobody.
  pub fault_cycle-quiet :
      (busy : ℕ)
      → InSync m g b
      → IsFetch f
      → (is_watched doms g.domid p && (busy == 0)) ≡ false
      → Returns
          (λ g'.
            (g'.report_queue ≡ g.report_queue)
            × (g'.report_sem ≡ g.report_sem)
            × (g'.signals ≡ g.signals))
          (fault_cycle m doms busy garbage skip (pos p) address (error_code f) g b)
  unfolding alerts Outcome
  fault_cycle-quiet busy sync fetch quiet =
      rw (cycle-settled m laws doms busy garbage (pos p) address g b sync f skip fetch) (
        returns (
          settled-nonop m laws doms busy garbage (pos p) address g b sync p skip refl
            (ground (arith, quiet))))
