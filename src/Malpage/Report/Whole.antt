-- ===== src/Malpage/Report/Whole.antt =====
-- malpage_report of drivers/xen/malpage/malpage.c as a whole: the report, and its way to XenStore.
use maitland.Base.{ℕ, Option, none, some, List, [], ℤ, pos, negsuc, Run, ok, ◌>>=◌}
use maitland.Wire.{ProcessReport}
use maitland.XenStore.{Op}
use maitland.Malpage.PfnList.{Heap}
use maitland.Malpage.Report.{Task, Kernel, report}
use maitland.Malpage.Send.{xs_report}

-- Sends what there is to send; the result of malpage_xs_report is not read.
unfoldable pub send_report : (ℕ → ℕ) → Option ProcessReport → Run (List (List Op) × ℤ)
send_report room none = ok ([], negsuc 0)
send_report room (some rep) = do (sent, result) ← xs_report room rep; ok (sent, pos 0)

-- The heap, the transactions, and the return value.
unfoldable pub malpage_report :
    (ℕ → ℕ) → Kernel → List Task → ℤ → ℕ → Heap → Run (Heap × List (List Op) × ℤ)
unfolding report send_report
malpage_report room k tasks procID domid h = do
  (h', rep) ← report k tasks procID domid h
  (sent, result) ← send_report room rep
  ok (h', sent, result)
