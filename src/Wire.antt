-- ===== src/Wire.antt =====
-- drivers/xen/malpage/malpage.h and drivers/xen/monitor/monitor.h: the structures that the guest
-- driver and the monitor driver exchange; the children hold each header's operation codes.
-- `struct request_t` and `struct response_t` have the same fields in the same order and share the
-- entries of the ring, as the two arms of a union, so one record stands for both.
-- process_report_t has a narrower domid and one more field, first_gref, in malpage.h; no code uses
-- that field, and on x86-64 the two structures have the same size.
-- A pointer or a page table entry is its bit pattern, an array a list.
pub mod Malpage
pub mod Monitor
use maitland.Base.{ℕ, List, ℤ}

pub record ProcessReport : Type 0 where
  pub process_id : ℕ
  pub domid : ℕ
  pub process_age : ℕ
  pub pfn_list : List ℕ
  pub gref_list : List ℕ
  pub pfn_list_length : ℕ

pub record Message : Type 0 where
  pub operation : ℕ
  pub pfn_gref : ℕ
  pub pfn : ℕ
  pub report : ProcessReport
  pub process_id : ℕ
  pub domid : ℤ
  pub mmu_ptr : ℕ
  pub fault_addr : ℕ
  pub mmu_val : ℕ
