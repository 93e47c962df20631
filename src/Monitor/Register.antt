-- ===== src/Monitor/Register.antt =====
-- drivers/xen/monitor/monitor.c, registration of a guest: monitor_populate_info and
-- monitor_register, and the initial state of monitor_init. The memory and grant table calls and
-- bind_interdomain_evtchn_to_irqhandler are not part of the repository: what they return is an
-- argument.
pub mod Store
pub mod Recorded
use maitland.Base.{
  ℕ, ◌+◌, ◌%◌, ◌^◌, ◌==◌, if◌then◌else◌, ltb, Bool, true, false, Option, none, some, List, [], ◌∷◌,
  ◌++◌, length, set, ℤ, pos, negsuc, Run, ok, fault, ◌>>=◌,
}
use maitland.Ring.{Sring, Back, Macros}
use maitland.Monitor.Watch.{DomList, max_vms}
use maitland.Monitor.State.{State, ShareInfo}

-- The state after monitor_init.
unfoldable pub init : State
init = record {
  dom_list = λ d. none;
  infos = [];
  share_info = none;
  curr_proc = 0;
  report_in_progress = 0;
  vm_structs = [];
}

-- monitor_uspace_info_t, less the uuid, which is not read.
pub record UspaceInfo : Type 0 where
  pub domid : ℕ
  pub gref : ℕ
  pub evtchn : ℕ

-- kzalloc clears the rest, and `domid_t` has 16 bits.
unfoldable pub populate_info : UspaceInfo → ShareInfo
populate_info tmp_info = record {
  domid = tmp_info.domid % 2 ^ 16;
  gref = tmp_info.gref;
  evtchn = tmp_info.evtchn;
  irq = 0;
  bring = record { rsp_prod_pvt = 0; req_cons = 0 };
  sring = none;
}

-- The environment's part in monitor_register: whether there was an area, the result of the mapping
-- and its status, the guest's page, the event channel's irq or an error, the result of the unmapping,
-- and whether kzalloc gave the array of the domain's processes.
pub record RegisterEnv : Type 0 where
  pub has_area : Bool
  pub hypercall : ℕ
  pub status : ℕ
  pub page : Sring
  pub bound : ℤ
  pub unmapping : ℕ
  pub has_array : Bool

-- `-EFAULT`
abbrev pub efault : ℤ
efault = negsuc 13

-- `monitor_dom_list[info->domid] = kzalloc(...)`, of which NULL is stored as well.
add_domain : Bool → DomList → ℕ → Run DomList
add_domain has_array doms domid =
    let procs = if has_array then some (λ p. 0) else none in
    if ltb domid max_vms then ok (λ d. if d == domid then procs else doms d) else fault

-- The ring's pointer when the page behind it is unmapped, where every access faults.
unmap : RegisterEnv → ShareInfo → ShareInfo
unmap env info = if env.unmapping == 0 then record info { sring = none } else info

-- The last steps, behind the ring's initialisation.
bind : RegisterEnv → DomList → ShareInfo → Run (DomList × ShareInfo × ℤ)
unfolding add_domain unmap
bind env doms info = elim env.bound [
  | negsuc e ↦ ok (doms, unmap env info, efault)
  | pos irq ↦ (do
    doms' ← add_domain env.has_array doms info.domid
    ok (doms', record info { evtchn = irq }, pos 0))
]

-- The store, the info structure as it is left, and the result. Without an area, free_vm_area reads the
-- address behind a NULL.
pub register : Macros → RegisterEnv → DomList → ShareInfo → Run (DomList × ShareInfo × ℤ)
unfolding bind
register m env doms info =
    if env.has_area
    then (if env.hypercall == 0
        then (if env.status == 0
            then bind env doms
                (record info { bring = m.back_ring_init env.page; sring = some env.page })
            else ok (doms, info, efault))
        else ok (doms, info, efault))
    else fault
