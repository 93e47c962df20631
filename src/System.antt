-- ===== src/System.antt =====
-- The two drivers together: a page fault in a guest (malpage.c, malpage_do_page_fault), its answer
-- by the monitor (monitor.c, monitor_irq_handle), and the guest's reaction (malpage.c,
-- malpage_irq_handle), over one shared page. A cycle is one undisturbed pass: no other request is
-- pending, and nobody else writes the page meanwhile.
pub mod Cycle
pub mod Watching
pub mod Registration
pub mod Delivery
use maitland.Base.{ℕ, ℤ, ◌≡◌, ◌<◌, List, [], ◌∷◌, Run, ok, ◌>>=◌}
use maitland.Ring.{Sring, Front, Back, Macros, idx_mod, gap}
use maitland.Wire.{Message}
use maitland.Monitor.Watch.{DomList}
use maitland.Monitor.Handler
use maitland.Malpage.Guest.{Guest}
use maitland.Malpage.Hooks.{do_page_fault}
use maitland.Malpage.Irq

-- The two private halves agree on where the ring stands, all requests are answered and published,
-- and the monitor does not take the ring for overfull.
pub record InSync (m : Macros) (g : Guest) (b : Back) : Type 0 where
  pub requests : b.req_cons ≡ g.fring.req_prod_pvt
  pub responses : b.rsp_prod_pvt ≡ g.fring.rsp_cons
  pub published : g.sring.rsp_prod ≡ b.rsp_prod_pvt
  pub cons_lt : b.req_cons < idx_mod
  pub prod_lt : b.rsp_prod_pvt < idx_mod
  pub room : gap b.req_cons b.rsp_prod_pvt < m.size

-- The page fault of process `pid` at `address`. `garbage` and `skip` are the first values of the
-- handlers' uninitialised locals.
pub fault_cycle : Macros → DomList → ℕ → Message → ℕ → ℤ → ℕ → ℕ → Guest → Back → Run Guest
fault_cycle m doms report_in_progress garbage skip pid address error_code g b =
    let g1 = do_page_fault m pid address error_code g in
    do
      h ← Handler.irq_handle m doms report_in_progress b g1.sring garbage
      Irq.irq_handle m skip (record g1 { sring = h.sring })

-- The same cycle with the monitor's private half as it is left, and one cycle after the other. A fault
-- is the process, the address and the error code.
pub cycle : Macros → DomList → ℕ → Message → ℕ → ℤ → ℕ → ℕ → Guest → Back → Run (Guest × Back)
cycle m doms report_in_progress garbage skip pid address error_code g b =
    let g1 = do_page_fault m pid address error_code g in
    do
      h ← Handler.irq_handle m doms report_in_progress b g1.sring garbage
      g2 ← Irq.irq_handle m skip (record g1 { sring = h.sring })
      ok (g2, h.bring)

pub cycles :
    Macros → DomList → ℕ → Message → ℕ → List (ℤ × ℕ × ℕ) → Guest → Back → Run (Guest × Back)
unfolding cycle
cycles m doms report_in_progress garbage skip [] g b = ok (g, b)
cycles m doms report_in_progress garbage skip ((pid, address, error_code) ∷ faults) g b = do
  (g', b') ← cycle m doms report_in_progress garbage skip pid address error_code g b
  cycles m doms report_in_progress garbage skip faults g' b'
