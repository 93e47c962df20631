-- ===== src/Wire/Malpage.antt =====
-- drivers/xen/malpage/malpage.h: the operations for the ring communication.
use maitland.Base.{ℕ}

abbrev pub ring_report : ℕ
ring_report = 1

abbrev pub ring_nonop : ℕ
ring_nonop = 2

abbrev pub ring_kill : ℕ
ring_kill = 3

abbrev pub ring_resume : ℕ
ring_resume = 4

abbrev pub ring_halt : ℕ
ring_halt = 5

abbrev pub ring_mmuupdate : ℕ
ring_mmuupdate = 6

abbrev pub ring_nx : ℕ
ring_nx = 7

abbrev pub ring_nxviolation : ℕ
ring_nxviolation = 8
