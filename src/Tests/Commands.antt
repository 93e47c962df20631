-- ===== src/Tests/Commands.antt =====
-- The daemon's commands: reports, reads, and the KILL of the current process.
use maitland.Base.{
  ℕ, ◌*◌, ◌==◌, true, if◌then◌else◌, ◌≡◌, ◌<◌, refl, some, [], ◌∷◌, length, ◌++◌, pos, ok, Returns,
  arith,
}
use maitland.Wire.{ProcessReport}
use maitland.Monitor.Watch.{DomList, max_vms}
use maitland.Monitor.State.{State, ShareInfo, VmStruct}
use maitland.Monitor.Grants.{MapEnv, report}
use maitland.Monitor.Grants.Mapped.{report-granted}
use maitland.Monitor.Read.{read}
use maitland.Monitor.Read.Bounds.{Copied, read-Copied, read-total}
use maitland.Monitor.Register.{init, populate_info, register}
use maitland.Monitor.Register.Store.{register-fresh}
use maitland.Monitor.Ioctl.{Arg, Env, cmd_register}
use maitland.Monitor.Ioctl.Kill.{ioctl_register-current}
use maitland.Monitor.Ioctl.Reach.{Reach, booted, stepped, by_ioctl, Inv, Reach-Inv}
use maitland.Tests.{xen_ring, xen_ring-laws, blank, bring, fresh_page, no_report, doms}

-- The second copy of the second area fails by 100 bytes.
read-Copied_example :
    Returns
      (Copied (λ i n. if i == 1 then 100 else 0) 3 20000)
      (read (λ i n. if i == 1 then 100 else 0) 3 20000 1)
read-Copied_example =
    read-Copied (λ i n. if i == 1 then 100 else 0) 3 20000 1 (omega arith) (omega arith)

read-total_example : Returns (λ r. r.1 ≡ 10000) (read (λ i n. 0) 3 10000 8192)
read-total_example =
    read-total (λ i n. 0) 3 (λ i n. refl) 10000 1 (omega arith) (omega arith) (omega arith)

-- The areas, and a hypervisor that refuses the second call.
abbrev pub area : ℕ → VmStruct
area i = record { addr = 8192 * i; size = 8192 }

abbrev pub map_env : ℕ → MapEnv
map_env i = record { area = some (area i); hypercall = 0; status = if i == 1 then 1 else 0 }

abbrev pub three_grants : ProcessReport
three_grants = record no_report {
  process_id = 42;
  gref_list = 8 ∷ 9 ∷ 10 ∷ [];
  pfn_list_length = 3;
}

abbrev pub info : ShareInfo
info = record { domid = 3; gref = 9; evtchn = 11; irq = 0; bring = bring; sring = some fresh_page }

abbrev pub idle_state : State
idle_state = record {
  dom_list = doms;
  infos = info ∷ [];
  share_info = some 0;
  curr_proc = 0;
  report_in_progress = 0;
  vm_structs = [];
}

report-granted_example :
    report (λ n. true) map_env three_grants idle_state
    ≡ ok (record idle_state { vm_structs = area 0 ∷ area 2 ∷ []; curr_proc = 42 })
report-granted_example =
    report-granted map_env area (record { found = λ i. refl; filled = λ i. omega arith })
      (λ n. true) three_grants idle_state refl

abbrev pub env : Env
env = record {
  register = record {
    has_area = true;
    hypercall = 0;
    status = 0;
    page = fresh_page;
    bound = pos 7;
    unmapping = 0;
    has_array = true;
  };
  map = map_env;
  copy = λ xs n. xs;
  kzalloc = λ i n. true;
  garbage = blank;
}

abbrev pub arg : Arg
arg = record {
  info = record { domid = 3; gref = 9; evtchn = 11 };
  report = three_grants;
  watch = record { process_id = 42; domid = 3; process_age = 0 };
}

abbrev reported_state : State
reported_state = record idle_state { curr_proc = 42 }

pub guest-small : (populate_info arg.info).domid < max_vms
unfolding populate_info
guest-small = omega arith

-- What the registration of that guest leaves.
abbrev pub registered_info : ShareInfo
registered_info = record (populate_info arg.info) {
  bring = record { rsp_prod_pvt = 0; req_cons = 0 };
  sring = some fresh_page;
  evtchn = 7;
}

-- A first guest registers, and every call succeeds.
abbrev pub first_registration :
    (doms' : DomList) × (register xen_ring env.register init.dom_list (populate_info arg.info)
      ≡ ok (doms', registered_info, pos 0))
first_registration =
    let (doms', run, rest, marks) =
      register-fresh xen_ring xen_ring-laws env.register init.dom_list (populate_info arg.info) 7
        (record { area = refl; mapped = refl; status = refl; bound = refl; array = refl })
        guest-small in
    (doms', run)

abbrev pub registered : State
registered = record init {
  dom_list = first_registration.0;
  infos = init.infos ++ (registered_info ∷ []);
  share_info = some (length init.infos);
}

registered-Reach : Reach xen_ring registered
registered-Reach = stepped booted (
    by_ioctl env cmd_register arg (pos 0) (
      ioctl_register-current xen_ring xen_ring-laws env arg init first_registration.0
        registered_info (pos 0) first_registration.1))

Reach-Inv_example : Inv registered
Reach-Inv_example = Reach-Inv xen_ring registered-Reach
