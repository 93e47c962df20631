-- ===== src/Monitor/State.antt =====
-- drivers/xen/monitor/monitor.h and monitor.c: the variables of the driver and their types.
-- A pointer to an info structure is its number in the order of registration.
use maitland.Base.{ℕ, Option, List}
use maitland.Ring.{Back, Sring}
use maitland.Monitor.Watch.{DomList}

-- monitor_share_info_t, with the shared page that its back ring points to; `none` is NULL.
pub record ShareInfo : Type 0 where
  pub domid : ℕ
  pub gref : ℕ
  pub evtchn : ℕ
  pub irq : ℕ
  pub bring : Back
  pub sring : Option Sring

-- `struct vm_struct`, an area of kernel addresses.
pub record VmStruct : Type 0 where
  pub addr : ℕ
  pub size : ℕ

-- The variables of the driver. `infos` are the info structures allocated so far, oldest first, and
-- `vm_structs` the entries of vm_struct_list below vm_struct_list_size.
pub record State : Type 0 where
  pub dom_list : DomList
  pub infos : List ShareInfo
  pub share_info : Option ℕ
  pub curr_proc : ℕ
  pub report_in_progress : ℕ
  pub vm_structs : List VmStruct
