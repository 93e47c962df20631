-- ===== src/Tests.antt =====
-- Test data: a ring of 32 entries with the macros of Xen's ring.h as functions, a guest, and a store
-- in which process 42 of domain 3 is watched. The children apply the library's theorems to them.
mod Cycle
mod Handlers
mod Store
mod Commands
mod Guests
mod Frames
mod Tables
mod Clients
mod Kernel
mod Delivery
mod Service
mod Dumps
mod History
mod Stores
mod Reports
use maitland.Base.{
  ℕ, ◌%◌, ◌≡◌, refl, ◌==◌, not, true, false, if◌then◌else◌, leb, Option, none, some, [], ◌∷◌, pos,
  arith,
}
use maitland.Ring.{Sring, Front, Back, Macros, MacroLaws, inc, gap}
use maitland.Wire.{ProcessReport, Message}
use maitland.Wire.Malpage
use maitland.Monitor.Watch.{DomList}
use maitland.Malpage.Guest.{Guest}
use maitland.Malpage.Hooks.Requests.{Fault}

abbrev pub xen_ring : Macros
xen_ring = record {
  size = 32;
  slot = λ i. i % 32;
  back_ring_init = λ s. record { rsp_prod_pvt = 0; req_cons = 0 };
  push_requests = λ f s. record s { req_prod = f.req_prod_pvt };
  push_responses = λ b s. record s { rsp_prod = b.rsp_prod_pvt };
  push_responses_and_check_notify = λ b s. record s { rsp_prod = b.rsp_prod_pvt };
  request_cons_overflow = λ b c. leb 32 (gap c b.rsp_prod_pvt);
  final_check_for_responses =
      λ f s. if s.rsp_prod == f.rsp_cons then record s { rsp_event = inc f.rsp_cons } else s;
  final_check_notify = λ f s. not (s.rsp_prod == f.rsp_cons);
}

pub xen_ring-laws : MacroLaws xen_ring
xen_ring-laws = record {
  size_pos = omega arith;
  size_le = omega arith;
  slot_lem = λ i d pos small. ground (arith, pos, small);
  back_ring_init_lem = λ s. refl;
  push_requests_lem = λ f s. refl;
  push_responses_lem = λ b s. refl;
  check_notify_lem = λ b s. refl;
  overflow_lem = λ b c. refl;
  final_check_lem = λ f s. refl;
  final_notify_lem = λ f s. refl;
}

abbrev pub no_report : ProcessReport
no_report = record {
  process_id = 0;
  domid = 0;
  process_age = 0;
  pfn_list = [];
  gref_list = [];
  pfn_list_length = 0;
}

abbrev pub blank : Message
blank = record {
  operation = 0;
  pfn_gref = 0;
  pfn = 0;
  report = no_report;
  process_id = 0;
  domid = pos 0;
  mmu_ptr = 0;
  fault_addr = 0;
  mmu_val = 0;
}

-- The monitor's answer that asks for a report of process 42.
abbrev pub report_42 : Message
report_42 = record blank { operation = Malpage.ring_report; process_id = 42 }

abbrev pub fresh_page : Sring
fresh_page = record { req_prod = 7; rsp_prod = 7; rsp_event = 8; entries = λ k. blank }

abbrev pub bring : Back
bring = record { rsp_prod_pvt = 7; req_cons = 7 }

abbrev pub guest : Guest
guest = record {
  domid = 3;
  fring = record { req_prod_pvt = 7; rsp_cons = 7 };
  sring = fresh_page;
  tasks = record { pids = pos 1 ∷ pos 42 ∷ []; at_end = some (pos 0) };
  report_queue = [];
  report_sem = 0;
  signals = [];
  notified = 0;
}

-- The guest with that answer as the only response pending.
abbrev pub answered_guest : Guest
answered_guest = record guest {
  sring = record { req_prod = 8; rsp_prod = 8; rsp_event = 8; entries = λ k. report_42 };
}

abbrev pub fetch : Fault
fetch = record { prot = false; write = false; user = true; rsvd = false; instr = true; rest = 0 }

abbrev pub procs_3 : ℕ → ℕ
procs_3 p = if p == 42 then 1 else 0

abbrev pub doms : DomList
doms d = if d == 3 then some procs_3 else none
