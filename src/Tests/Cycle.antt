-- ===== src/Tests/Cycle.antt =====
-- The cycle on one fault of process 42, which is watched, and of process 43, which is not.
use maitland.Base.{◌≡◌, refl, [], ◌∷◌, pos, Returns, arith}
use maitland.Malpage.Hooks.Requests.{error_code}
use maitland.System.{InSync, fault_cycle, cycles}
use maitland.System.Cycle.Quiet.{cycles-report}
use maitland.System.Cycle.Kernel.{kernel_cycle, kernel_cycle-report}
use maitland.System.Cycle.{IsFetch, fault_cycle-quiet}
use maitland.Tests.Kernel.{calm_env, calm_env-IsOrdinary}
use maitland.Tests.{xen_ring, xen_ring-laws, blank, bring, guest, fetch, doms}

abbrev in_sync : InSync xen_ring guest bring
in_sync = record {
  requests = refl;
  responses = refl;
  published = refl;
  cons_lt = omega arith;
  prod_lt = omega arith;
  room = omega arith;
}

abbrev fetch-IsFetch : IsFetch fetch
fetch-IsFetch = record { instr = refl; user = refl; absent = refl }

kernel_cycle-report_example :
    Returns
      (λ g'. (g'.report_queue ≡ pos 42 ∷ []) × (g'.report_sem ≡ 1) × (g'.signals ≡ []))
      (kernel_cycle xen_ring doms 0 blank 1 (pos 42) calm_env 8192 (error_code fetch) guest bring)
kernel_cycle-report_example =
    kernel_cycle-report xen_ring xen_ring-laws doms blank 42 8192 1 calm_env guest bring fetch
      calm_env-IsOrdinary refl in_sync fetch-IsFetch refl (omega arith) refl refl

fault_cycle-quiet_example :
    Returns
      (λ g'. (g'.report_queue ≡ []) × (g'.report_sem ≡ 0) × (g'.signals ≡ []))
      (fault_cycle xen_ring doms 0 blank 1 (pos 43) 4096 (error_code fetch) guest bring)
fault_cycle-quiet_example =
    fault_cycle-quiet xen_ring xen_ring-laws doms blank 43 4096 1 guest bring fetch 0 in_sync
      fetch-IsFetch refl

-- Two faults of process 43, then one of process 42.
cycles-report_example :
    Returns
      (λ (g', b'). (g'.report_queue ≡ pos 42 ∷ []) × (g'.report_sem ≡ 1) × (g'.signals ≡ []))
      (cycles xen_ring doms 0 blank 0
        ((pos 43, 4096, error_code fetch)
          ∷ (pos 43, 8192, error_code fetch)
          ∷ (pos 42, 4096, error_code fetch)
          ∷ [])
        guest
        bring)
cycles-report_example =
    cycles-report xen_ring xen_ring-laws doms blank
      ((pos 43, 4096, error_code fetch) ∷ (pos 43, 8192, error_code fetch) ∷ []) guest bring 42 4096
      fetch in_sync
      (
        (43, fetch, refl, refl, fetch-IsFetch, refl),
        ((43, fetch, refl, refl, fetch-IsFetch, refl), tt),
      )
      fetch-IsFetch (omega arith) refl refl
