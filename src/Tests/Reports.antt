-- ===== src/Tests/Reports.antt =====
-- Reports, requests and registrations, from the guest through the store to the daemon and on.
use maitland.Base.{
  ℕ, ◌+◌, ◌≡◌, refl, ◌==◌, ◌&&◌, ◌||◌, not, inl, inr, Bool, true, false, none, some, Option, List,
  [], ◌∷◌, ◌++◌, length, pos, negsuc, ok, fault, Text, codes, decimal, digits, number,
  number-decimal, arith,
}
use maitland.XenStore.{Op, join, is_some, transact}
use maitland.Wire.{ProcessReport}
use maitland.Monitor.Watch.{WatchReport}
use maitland.Monitor.Watch.Checks.{is_watched}
use maitland.Monitor.State.{State}
use maitland.Monitor.Register.{UspaceInfo}
use maitland.Monitor.Ioctl.{cmd_register, cmd_watch, ioctl}
use maitland.Malpage.Send
use maitland.Malpage.Send.{xs_report}
use maitland.Malpage.Send.Sent.{IsPrintable, report_dir, watch_dir, xs_report-overflow}
use maitland.Malpage.Register.{ShareInfo, RegisterEnv, xenstore_register_path, register}
use maitland.Malpage.Init.{InitEnv, Module, init, exit}
use maitland.Malpage.Init.Hooked.{init-hooked}
use maitland.Malpage.Register.Written.{Fails, IsReadable, register_sent, register-failed}
use maitland.Daemon.{
  monitor_report, monitor_watch, monitor_register, monitor_kill, watch_domain_report,
  watch_domain_watchreport, watch_domain_register,
}
use maitland.Daemon.Received.{Reports, watch_domain_report-received}
use maitland.System.Watching.{malpage_watch-watched}
use maitland.System.Registration.{connected, register-registered}
use maitland.Tests.{xen_ring, xen_ring-laws, no_report, fresh_page, doms, procs_3}
use maitland.Tests.Commands.{env, arg, registered}
use maitland.Tests.Stores.{list_store, list_store-IsLawful}

-- An allocator that rounds up.
abbrev pub room : ℕ → ℕ
room n = n + 3

-- Process 42 of domain 3, with two frames.
abbrev pub rep : ProcessReport
rep = record {
  process_id = 42;
  domid = 3;
  process_age = 0;
  pfn_list = 1000 ∷ 2000 ∷ [];
  gref_list = 8 ∷ 9 ∷ [];
  pfn_list_length = 2;
}

pub rep-IsPrintable : IsPrintable rep
rep-IsPrintable = record {
  domid = omega arith;
  process_id = omega arith;
  grefs = (omega arith, (omega arith, tt));
  pfns = (omega arith, (omega arith, tt));
  granted = refl;
  counted = refl;
}

-- The daemon made the directories of domain 3.
abbrev pub store : List (Text × Text)
store = (codes "/malpage/report/3", []) ∷ (codes "/malpage/watch/3", []) ∷ []

-- The transaction of the second frame does not commit.
abbrev pub commits : ℕ → Bool
commits i = not (i == 2)

abbrev always : ℕ → Bool
always i = true

-- An allocator that gives as much as it is asked for.
xs_report-overflow_example : xs_report (λ n. n) rep ≡ fault
unfolding decimal digits
xs_report-overflow_example = xs_report-overflow (λ n. n) rep (omega arith)

watch_domain_report-received_example :
    (sent : List (List Op)) × (s' : List (Text × Text)) × (got : ProcessReport) × (xs_report room
        rep
      ≡ ok (sent, pos 0))
    × (watch_domain_report list_store true true
          (join (report_dir 3) (codes "ready"))
          (transact list_store commits 0 sent store)
        ≡ some (s', monitor_report got ∷ monitor_kill ∷ [], true))
    × Reports 3 42 ((8, 1000) ∷ []) got
unfolding decimal digits
watch_domain_report-received_example =
    watch_domain_report-received list_store list_store-IsLawful room rep store commits true true
      (λ m. omega arith) rep-IsPrintable refl (λ node. refl) refl refl

-- The monitor's driver when domain 3 is registered.
abbrev driver : State
driver = record registered { dom_list = doms }

malpage_watch-watched_example :
    (sent : List (List Op)) × (s' : List (Text × Text)) × (got : WatchReport) × (driver' : State)
    × (Send.malpage_ioctl room no_report 3 Send.cmd_watch (pos 43) ≡ ok (sent, pos 0))
    × (watch_domain_watchreport list_store
          (join (watch_dir 3) (codes "ready"))
          (transact list_store always 0 sent store)
        ≡ some (s', monitor_watch got ∷ [], false))
    × (ioctl xen_ring env cmd_watch (record arg { watch = got }) driver ≡ ok (driver', pos 0))
    × ((d p : ℕ) → is_watched driver'.dom_list d p ≡ ((d == 3) && (p == 43) || is_watched doms d p))
unfolding decimal digits
malpage_watch-watched_example =
    malpage_watch-watched list_store list_store-IsLawful room no_report 3 43 store always xen_ring
      env arg driver procs_3 (λ n. omega arith) refl refl (omega arith) (omega arith) refl

abbrev number_or_0 : Option ℕ → ℕ
number_or_0 none = 0
number_or_0 (some n) = n

-- What the guest's kernel and Xen answer: the page has grant 9, and the event channel port 11.
abbrev guest_env : RegisterEnv
guest_env = record {
  page = some fresh_page;
  ring = record { req_prod_pvt = 0; rsp_cons = 0 };
  grant = λ domid. pos 9;
  alloc_unbound = λ domid. (pos 0, 11);
  bound = pos 77;
  domid = some (decimal 5);
  strtoul = λ s. number_or_0 (number s);
  uuid = some (codes "a");
}

guest_env-IsReadable : IsReadable guest_env 5
guest_env-IsReadable = record {
  narrow = omega arith;
  domid = refl;
  parsed = rw (number-decimal 5 (omega arith)) refl;
  uuid = λ bytes e. ground (arith, e);
  gref = omega arith;
  port = omega arith;
}

register-registered_example :
    (info : ShareInfo) × (sent : List (List Op)) × (s' : List (Text × Text)) × (uspace : UspaceInfo)
    × (driver' : State) × (register room guest_env ≡ ok (info, sent))
    × (info.irq ≡ 77)
    × (watch_domain_register list_store
          (join xenstore_register_path (decimal 5))
          (transact list_store always 0 sent [])
        ≡ some (s', monitor_register uspace ∷ [], false))
    × (uspace ≡ record { domid = 5; gref = 9; evtchn = 11 })
    × (is_some (list_store.read s' (report_dir 5)) ≡ true)
    × (is_some (list_store.read s' (watch_dir 5)) ≡ true)
    × (ioctl xen_ring env cmd_register (record arg { info = uspace }) driver ≡ ok (driver', pos 0))
    × (driver'.infos ≡ driver.infos ++ (connected uspace env.register.page 7 ∷ []))
    × (driver'.share_info ≡ some (length driver.infos))
    × (driver'.dom_list 5 ≡ some (λ p. 0))
    × ((d p : ℕ) → is_watched driver'.dom_list d p ≡ (not (d == 5) && is_watched doms d p))
register-registered_example =
    register-registered list_store list_store-IsLawful xen_ring xen_ring-laws room guest_env
      fresh_page 5 9 11 77 7 [] always env arg driver (λ n. omega arith) guest_env-IsReadable
      (record { page = refl; grant = refl; alloc = refl; bound = refl; real = omega arith })
      (omega arith) refl
      (record { area = refl; mapped = refl; status = refl; bound = refl; array = refl })

-- Xen has no event channel left.
abbrev failing_env : RegisterEnv
failing_env = record guest_env { alloc_unbound = λ domid. (negsuc 27, 0) }

failing_env-IsReadable : IsReadable failing_env 5
failing_env-IsReadable = record {
  narrow = omega arith;
  domid = refl;
  parsed = guest_env-IsReadable.parsed;
  uuid = guest_env-IsReadable.uuid;
  gref = omega arith;
  port = omega arith;
}

failing_env-Fails : Fails failing_env
failing_env-Fails = inr (inr (inl λ e. ground (arith, e)))

register-failed_example :
    (info : ShareInfo) × (register room failing_env ≡ ok (info, register_sent info))
    × (info.domid ≡ 5)
    × (info.evtchn ≡ 0)
    × (info.irq ≡ 0)
register-failed_example =
    register-failed room failing_env 5 (λ n. omega arith) failing_env-IsReadable failing_env-Fails

-- The calls for the character device succeed.
abbrev init_env : InitEnv
init_env = record {
  xen_domain = true;
  major = pos 250;
  cdev_add = pos 0;
  no_device = false;
  register = failing_env;
}

init-hooked_example :
    (s : Module) × (info : ShareInfo) × (init room init_env ≡ ok (s, register_sent info, pos 0))
    × (s.share_info ≡ some info)
    × (info.evtchn ≡ 0)
    × (info.irq ≡ 0)
    × ((exit s).hooks ≡ true)
    × ((exit s).reporter ≡ true)
init-hooked_example =
    init-hooked room init_env 250 5 (λ n. omega arith) refl refl refl refl failing_env-IsReadable
      failing_env-Fails
