-- ===== src/System/Cycle/Kernel.antt =====
-- The cycle from the kernel's page fault handler on (arch/x86/mm/fault.c, do_page_fault).
use maitland.Base.{
  ℕ, ℤ, pos, ◌+◌, ◌^◌, ◌<◌, ◌≡◌, ◌∙◌, sym, refl, false, true, [], ◌∷◌, ◌++◌, Run, ◌>>=◌, some,
  Returns,
}
use maitland.Ring.{Back, Macros, MacroLaws}
use maitland.Wire.{Message}
use maitland.Monitor.Watch.{DomList}
use maitland.Monitor.Watch.Checks.{is_watched}
use maitland.Monitor.Handler
use maitland.Monitor.Handler.{in_range}
use maitland.Malpage.Guest.{Guest}
use maitland.Malpage.Hooks
use maitland.Malpage.Hooks.Requests.{
  Fault, error_code, requested, nxviolation, do_page_fault-requested,
}
use maitland.Malpage.Irq
use maitland.Kernel.Fault
use maitland.Kernel.Fault.{FaultEnv}
use maitland.Kernel.Fault.Calls.{IsOrdinary, is_repeated}
use maitland.Kernel.Fault.Hooked.{hook, do_page_fault-reported}
use maitland.System.{InSync, fault_cycle}
use maitland.System.Cycle.{IsFetch, fault_cycle-report}

-- The fault as the processor raises it, with malpage loaded.
pub kernel_cycle :
    Macros → DomList → ℕ → Message → ℕ → ℤ → FaultEnv → ℕ → ℕ → Guest → Back → Run Guest
kernel_cycle m doms report_in_progress garbage skip pid env address error_code g b =
    let g1 = (Fault.do_page_fault (some (hook m pid)) env address error_code g).0 in
    do
      h ← Handler.irq_handle m doms report_in_progress b g1.sring garbage
      Irq.irq_handle m skip (record g1 { sring = h.sring })

module _ (m : Macros) (laws : MacroLaws m) (doms : DomList) (garbage : Message) (p address skip : ℕ)
    (env : FaultEnv) (g : Guest) (b : Back) (f : Fault) where
  same_guest :
      IsOrdinary env address
      → IsFetch f
      → f.write ≡ false
      → is_repeated env ≡ false
      → (Fault.do_page_fault (some (hook m (pos p))) env address (error_code f) g).0
        ≡ Hooks.do_page_fault m (pos p) address (error_code f) g
  same_guest ordinary fetch reads once =
      let sent = requested m (nxviolation (pos p) address g) g in
      let called : (Fault.do_page_fault (some (hook m (pos p))) env address (error_code f) g).0
          ≡ sent =
        do_page_fault-reported m laws (pos p) env address f g ordinary fetch.instr reads
        ∙ rw (fetch.absent, once) refl in
      let hooked : Hooks.do_page_fault m (pos p) address (error_code f) g ≡ sent =
        do_page_fault-requested m (pos p) address f g laws
        ∙ rw (fetch.instr, fetch.user, fetch.absent) refl in
      called ∙ sym hooked

  -- Detection, from end to end. The kernel's page fault handler, with the hook installed, runs for an
  -- instruction fetch of a watched process of a domain in 1 to 255, in user mode, from a page that is
  -- not present. It runs outside atomic code, with an address space and no probe that claims the fault;
  -- the address is below the kernel's and lies in an area with some permission, and handle_mm_fault
  -- does not ask to try again without mm_fault_error ending the fault. The two ends of the ring agree. Then the cycle through the monitor and
  -- back ends with a report of exactly that process queued behind the others, the reporter's
  -- semaphore raised by one, and no process signalled.
  pub kernel_cycle-report :
      IsOrdinary env address
      → is_repeated env ≡ false
      → InSync m g b
      → IsFetch f
      → f.write ≡ false
      → p < 2 ^ 31
      → in_range (pos g.domid) ≡ true
      → is_watched doms g.domid p ≡ true
      → Returns
          (λ g'.
            (g'.report_queue ≡ g.report_queue ++ (pos p ∷ []))
            × (g'.report_sem ≡ g.report_sem + 1)
            × (g'.signals ≡ g.signals))
          (kernel_cycle m doms 0 garbage skip (pos p) env address (error_code f) g b)
  unfolding kernel_cycle fault_cycle
  kernel_cycle-report ordinary once sync fetch reads small inside watched =
      rw (same_guest ordinary fetch reads once) (
        fault_cycle-report m laws doms garbage p address skip g b f sync fetch small inside watched)
