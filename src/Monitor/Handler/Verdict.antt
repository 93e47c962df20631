-- ===== src/Monitor/Handler/Verdict.antt =====
-- What monitor_irq_handle answers, without its loops and nested tests.
use maitland.Base.{
  ℕ, ◌<◌, ◌==◌, ◌≡◌, refl, Bool, true, false, ◌&&◌, if◌then◌else◌, ℤ, pos, negsuc, ok, arith, inl,
  inr, Bool-cases,
}
use maitland.Wire.{Message}
use maitland.Wire.Monitor
use maitland.Monitor.Watch.{DomList, max_vms}
use maitland.Monitor.Watch.Checks.{is_watched, check_mmuupdate_lem, check_page_fault_lem}
use maitland.Monitor.Handler.{in_range, answer}

-- The process of a request is one that the monitor watches.
abbrev pub names_watched : DomList → Message → Bool
names_watched doms req = elim req.domid [
  | pos d ↦ in_range (pos d) && is_watched doms d req.process_id
  | negsuc _ ↦ false
]

-- The response that a request gets, over the response before it.
unfoldable pub reply : DomList → ℕ → Message → Message → Message
reply doms busy req resp =
    if names_watched doms req
    then (if req.operation == Monitor.ring_mmuupdate
        then record resp {
          process_id = req.process_id;
          domid = req.domid;
          mmu_ptr = req.mmu_ptr;
          mmu_val = req.mmu_val;
          operation = Monitor.ring_nx;
        }
        else if (req.operation == Monitor.ring_nxviolation) && (busy == 0)
        then record resp {
          process_id = req.process_id;
          domid = req.domid;
          operation = Monitor.ring_report;
        }
        else record resp { operation = Monitor.ring_nonop })
    else record resp { operation = Monitor.ring_nonop }

in_range_bound : (d : ℕ) → in_range (pos d) ≡ true → d < max_vms
in_range_bound d h = ground arith

-- Whatever a guest writes into a request, the monitor answers it without an access outside its
-- store. The answer asks for a mark of the page exactly for a page table update of a watched
-- process of a domain in 1 to 255, for a report exactly for an execution fault of such a process
-- while no report is in progress, and is otherwise empty. It names the process of the request if it
-- is not empty, and keeps every other field of the response before it.
pub answer-reply :
    (doms : DomList) (busy : ℕ) (req resp : Message)
    → answer doms busy req resp ≡ ok (reply doms busy req resp)
unfolding answer reply
answer-reply doms busy req resp = by_domid req.domid refl
  where
    by_domid : (z : ℤ) → req.domid ≡ z → answer doms busy req resp ≡ ok (reply doms busy req resp)
    by_domid (negsuc n) e = ground arith
    by_domid (pos d) e = elim (Bool-cases (in_range (pos d))) [
      | inl inside ↦
          let update = check_mmuupdate_lem doms d req.process_id (in_range_bound d inside) in
          let access = check_page_fault_lem doms d req.process_id (in_range_bound d inside) in
          ground (arith, update, access)
      | inr outside ↦ ground arith
    ]
