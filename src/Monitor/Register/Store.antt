-- ===== src/Monitor/Register/Store.antt =====
-- What monitor_register leaves behind, on success and on each error.
use maitland.Base.{
  ℕ, ◌<◌, ◌≡◌, ◌≢◌, ◌⊎◌, ◌==◌, ◌&&◌, not, true, if◌then◌else◌, some, pos, negsuc, ok, fault, arith,
}
use maitland.Ring.{Macros, MacroLaws}
use maitland.Monitor.Watch.{DomList, max_vms}
use maitland.Monitor.Watch.Checks.{is_watched}
use maitland.Monitor.State.{ShareInfo}
use maitland.Monitor.Register.{RegisterEnv, efault, add_domain, unmap, bind, register}

-- The calls on the way to a bound event channel all succeed.
pub record Succeeds (env : RegisterEnv) (irq : ℕ) : Type 0 where
  pub area : env.has_area ≡ true
  pub mapped : env.hypercall ≡ 0
  pub status : env.status ≡ 0
  pub bound : env.bound ≡ pos irq
  pub array : env.has_array ≡ true

module _ (m : Macros) (laws : MacroLaws m) (env : RegisterEnv) (doms : DomList)
    (info : ShareInfo) where
  -- A registration whose calls succeed, for a domain id below 256, returns 0 and stores the irq. It
  -- starts the back ring at index 0 on the guest's page. From then on the domain is registered and
  -- none of its processes is watched, and the processes of the other domains are watched as before.
  pub register-fresh :
      (irq : ℕ)
      → Succeeds env irq
      → info.domid < max_vms
      → (doms' : DomList) × (register m env doms info
          ≡ ok (
            doms',
            record info {
              bring = record { rsp_prod_pvt = 0; req_cons = 0 };
              sring = some env.page;
              evtchn = irq;
            },
            pos 0,
          ))
        × (doms' info.domid ≡ some (λ p. 0))
        × ((d p : ℕ) → is_watched doms' d p ≡ (not (d == info.domid) && is_watched doms d p))
  unfolding register bind add_domain
  register-fresh irq w h = (
    λ d. if d == info.domid then some (λ p. 0) else doms d,
    ground (arith, laws.back_ring_init_lem env.page),
    ground arith,
    λ d p. ground arith,
  )

  -- If the mapping or the event channel fails, the result is -EFAULT and the store of watched
  -- processes is unchanged; without an area, the call faults.
  pub register-error :
      (env.hypercall ≢ 0) ⊎ ((env.status ≢ 0) ⊎ ((e : ℕ) × (env.bound ≡ negsuc e)))
      → (info' : ShareInfo) × (register m env doms info
          ≡ (if env.has_area then ok (doms, info', efault) else fault))
  unfolding register bind unmap
  register-error h = (
    if (env.hypercall == 0) && (env.status == 0)
        then unmap env (record info { bring = m.back_ring_init env.page; sring = some env.page })
        else info,
    ground arith,
  )
