-- ===== src/Malpage/Guest.antt =====
-- drivers/xen/malpage/malpage.h and malpage.c: the variables of the guest driver that its hooks, its
-- event handler and its reporter share. malpage_share_info is set before any of these can run.
use maitland.Base.{ℕ, List, ℤ}
use maitland.Ring.{Sring, Front}
use maitland.Malpage.Process.{Signal, Tasks}

-- `domid`, `fring` and the page behind it are of malpage_share_info; `report_queue` holds the
-- process ids of the list in order, `report_sem` the count of thread_report_sem. `signals` lists
-- what force_sig was called with and `notified` counts the calls of notify_remote_via_irq.
pub record Guest : Type 0 where
  pub domid : ℕ
  pub fring : Front
  pub sring : Sring
  pub tasks : Tasks
  pub report_queue : List ℤ
  pub report_sem : ℕ
  pub signals : List (Signal × ℤ)
  pub notified : ℕ
