-- ===== src/Tests/History.antt =====
-- The driver's history: a guest registers, and one of its processes is watched.
use maitland.Base.{◌≡◌, some, [], pos, ok, refl, arith}
use maitland.Monitor.Watch.{DomList, watch, check_page_fault}
use maitland.Monitor.Watch.Checks.{watch-marks}
use maitland.Monitor.Register.{init, populate_info}
use maitland.Monitor.Register.Store.{register-fresh}
use maitland.Monitor.Ioctl.{Arg, cmd_register, cmd_watch}
use maitland.Monitor.Ioctl.Kill.{ioctl_register-current}
use maitland.Monitor.Ioctl.Watched.{ioctl_watch-watch}
use maitland.Monitor.Ioctl.History.{Trace, booted, by_ioctl, told, check_page_fault-history}
use maitland.Tests.{xen_ring, xen_ring-laws}
use maitland.Tests.Commands.{env, arg, guest-small, first_registration, registered, registered_info}

first_domain : first_registration.0 3 ≡ some (λ p. 0)
unfolding populate_info
first_domain =
    let (doms', run, rest, marks) =
      register-fresh xen_ring xen_ring-laws env.register init.dom_list (populate_info arg.info) 7
        (record { area = refl; mapped = refl; status = refl; bound = refl; array = refl })
        guest-small in
    rest

-- Process 42 of the first guest is then watched.
abbrev watch_arg : Arg
watch_arg = record arg { watch = record { process_id = 42; domid = 3; process_age = 0 } }

abbrev first_watch :
    (doms' : DomList) × (watch registered.dom_list watch_arg.watch ≡ ok (doms', pos 0))
first_watch =
    let (doms', run, marks) =
      watch-marks registered.dom_list watch_arg.watch (λ p. 0) (omega arith) (omega arith)
        first_domain in
    (doms', run)

watched-Trace :
    Trace xen_ring
      (told env cmd_watch watch_arg (told env cmd_register arg []))
      (record registered { dom_list = first_watch.0 })
watched-Trace =
    by_ioctl env cmd_watch watch_arg (pos 0)
      (by_ioctl env cmd_register arg (pos 0) booted (
        ioctl_register-current xen_ring xen_ring-laws env arg init first_registration.0
          registered_info (pos 0) first_registration.1))
      (ioctl_watch-watch xen_ring env watch_arg registered first_watch.0 (pos 0) first_watch.1)

check_page_fault-history_example : check_page_fault first_watch.0 3 42 ≡ ok (pos 1)
unfolding populate_info
check_page_fault-history_example =
    check_page_fault-history xen_ring 3 42 watched-Trace (omega arith)
