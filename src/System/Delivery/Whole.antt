-- ===== src/System/Delivery/Whole.antt =====
-- The whole way of a report: from the process in the guest through
-- XenStore, the daemon and the driver to the signal.
use maitland.Base.{ℕ, ◌≡◌, some, get_elem?}
use maitland.XenStore.{XenStore}
use maitland.Ring.{Sring}
use maitland.Monitor.State.{State, ShareInfo}
use maitland.Malpage.Guest.{Guest}
use maitland.System.Delivery.Judged.{Judged}

-- The page of an info structure of the driver.
abbrev pub PageOf : State → ℕ → Sring → Type 0
PageOf s i page = (info : ShareInfo) × (get_elem? s.infos i ≡ some info) × (info.sring ≡ some page)
