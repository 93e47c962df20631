-- ===== src/Tests/Delivery.antt =====
-- A report on its way from the guest to the command for its process, and to the signal.
use maitland.Base.{
  ℕ, ◌<◌, ◌^◌, ◌≡◌, refl, true, none, some, List, [], ◌∷◌, pos, ok, Text, length, ◌>>=◌, codes,
  decimal, digits, arith,
}
use maitland.XenStore.{Op, join, transact}
use maitland.Wire.Monitor
use maitland.Monitor.Ioctl.{Env}
use maitland.Malpage.Send.{xs_report}
use maitland.Malpage.Send.Sent.{report_dir}
use maitland.Daemon.{Command, watch_domain_report}
use maitland.Daemon.Frames.{frame_of, is_value, has_pair}
use maitland.System.Delivery.{deliver}
use maitland.System.Delivery.Reported.{concluded, xs_report-commanded}
use maitland.System.Delivery.Judged.{Judged}
use maitland.Monitor.State.{State, ShareInfo}
use maitland.Monitor.Ioctl.Reported.{outcome}
use maitland.Monitor.Grants.Mapped.{granted_areas}
use maitland.Tests.{xen_ring, xen_ring-laws, answered_guest, fresh_page}
use maitland.Tests.Commands.{area, arg, env, map_env, info, idle_state}
use maitland.Tests.Reports.{commits, rep, rep-IsPrintable, room, store}
use maitland.Tests.Stores.{list_store, list_store-IsLawful}

abbrev envs : ℕ → Env
envs i = env

xs_report-commanded_example :
    (sent : List (List Op)) × (xs' : List (Text × Text)) × (cs : List Command) × (grefs : List ℕ)
    × (pfns : List ℕ) × (xs_report room rep ≡ ok (sent, pos 0))
    × (watch_domain_report list_store true true
          (join (report_dir 3) (codes "ready"))
          (transact list_store commits 0 sent store)
        ≡ some (xs', cs, true))
    × ((g q : ℕ)
        → g < 2 ^ 32
        → has_pair g q grefs pfns ≡ is_value (frame_of ((8, 1000) ∷ []) g none) q)
    × (deliver xen_ring envs arg 0 cs idle_state ≡ (
        outcome env (length grefs) (granted_areas map_env area 0 grefs) >>= λ areas.
        ok (concluded xen_ring env areas Monitor.ring_kill 42 0 info fresh_page idle_state)))
unfolding decimal digits
xs_report-commanded_example =
    xs_report-commanded list_store list_store-IsLawful room rep store commits true xen_ring
      xen_ring-laws envs arg idle_state area 0 info fresh_page (λ n. omega arith) rep-IsPrintable
      refl (λ node. refl) refl refl (λ xs n e. refl)
      (record { found = λ i. refl; filled = λ i. omega arith }) refl refl refl (ground arith)

-- The driver whose last response on the ring is the REPORT of process 42.
abbrev reporting : ShareInfo
reporting = record info {
  bring = record { rsp_prod_pvt = 8; req_cons = 8 };
  sring = some answered_guest.sring;
}

abbrev reporting_state : State
reporting_state = record idle_state { infos = reporting ∷ [] }
