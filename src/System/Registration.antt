-- ===== src/System/Registration.antt =====
-- From a guest's registration to the monitor's store.
use maitland.Base.{
  ℕ, ◌+◌, ◌<◌, ◌≤◌, ◌%◌, ◌^◌, ◌≡◌, refl, sym, ap, ◌∙◌, not, ◌==◌, ◌&&◌, false, true, Bool, some,
  List, [], ◌∷◌, ◌++◌, length, pos, ok, decimal, arith,
}
use maitland.XenStore.{XenStore, IsLawful, Op, join, is_some, transact}
use maitland.Ring.{Sring, Macros, MacroLaws}
use maitland.Malpage.Send.Sent.{report_dir, watch_dir}
use maitland.Malpage.Register
use maitland.Malpage.Register.{xenstore_register_path}
use maitland.Malpage.Register.Written
use maitland.Malpage.Register.Written.{
  IsReadable, registered, register_sent, register-written, setup_ring-connected, setup_ring-gref,
  setup_ring-evtchn,
}
use maitland.Daemon.{monitor_register, watch_domain_register}
use maitland.Daemon.Registered.{announced, watch_domain_register-received}
use maitland.Monitor.Watch.{max_vms}
use maitland.Monitor.Watch.Checks.{is_watched}
use maitland.Monitor.State.{State, ShareInfo}
use maitland.Monitor.Register.{UspaceInfo, populate_info}
use maitland.Monitor.Register.Store
use maitland.Monitor.Register.Store.{register-fresh}
use maitland.Monitor.Ioctl.{Arg, Env, cmd_register, ioctl}
use maitland.Monitor.Ioctl.Kill.{ioctl_register-current}

-- The monitor's info structure for a guest, with the page that it mapped and the irq.
abbrev pub connected : UspaceInfo → Sring → ℕ → ShareInfo
connected uspace page irq = record {
  domid = uspace.domid;
  gref = uspace.gref;
  evtchn = irq;
  irq = 0;
  bring = record { rsp_prod_pvt = 0; req_cons = 0 };
  sring = some page;
}

module _ (x : XenStore) (law : IsLawful x) (m : Macros) (laws : MacroLaws m) where
  -- A guest whose domain id, below 256, can be read, whose numbers have their widths and whose set-up
  -- of the ring succeeds runs malpage_register; allocations have three bytes to spare, the store is
  -- lawful, the one transaction commits, and the calls of monitor_register succeed, the
  -- allocation of the domain's array included. Then the guest has
  -- its irq, and the daemon sends the monitor the command REGISTER with the domain id, the grant of
  -- the page and the port that the guest got; it makes the directories for reports and for requests
  -- to watch. The driver returns 0, adds an info structure with the mapped page and the irq, which
  -- is the one that commands go to from then on, and watches no process of that domain and the
  -- processes of the other domains as before.
  pub register-registered :
      (room : ℕ → ℕ) (guest : Register.RegisterEnv) (page : Sring) (d gref port irq back : ℕ)
      (xs : x.State) (commits : ℕ → Bool) (env : Env) (arg : Arg) (s : State)
      → ((n : ℕ) → n + 3 ≤ room n)
      → IsReadable guest d
      → Written.Succeeds guest page gref port irq
      → d < max_vms
      → commits 0 ≡ true
      → Store.Succeeds env.register back
      → (info : Register.ShareInfo) × (sent : List (List Op)) × (xs' : x.State)
        × (uspace : UspaceInfo) × (s' : State) × (Register.register room guest ≡ ok (info, sent))
        × (info.irq ≡ irq)
        × (watch_domain_register x
              (join xenstore_register_path (decimal d))
              (transact x commits 0 sent xs)
            ≡ some (xs', monitor_register uspace ∷ [], false))
        × (uspace ≡ record { domid = d; gref = gref; evtchn = port })
        × (is_some (x.read xs' (report_dir d)) ≡ true)
        × (is_some (x.read xs' (watch_dir d)) ≡ true)
        × (ioctl m env cmd_register (record arg { info = uspace }) s ≡ ok (s', pos 0))
        × (s'.infos ≡ s.infos ++ (connected uspace env.register.page back ∷ []))
        × (s'.share_info ≡ some (length s.infos))
        × (s'.dom_list d ≡ some (λ p. 0))
        × ((d' p : ℕ) → is_watched s'.dom_list d' p ≡ (not (d' == d) && is_watched s.dom_list d' p))
  unfolding populate_info
  register-registered room guest page d gref port irq back xs commits env arg s slack readable
        connects hd first succeeds =
      let info = registered guest d in
      let ring = setup_ring-connected guest page gref port irq connects in
      let uspace : UspaceInfo = record { domid = d; gref = gref; evtchn = port } in
      let same : announced info ≡ uspace =
        ap
          (λ (q : Register.ShareInfo × _). record {
            domid = d;
            gref = q.0.gref;
            evtchn = q.0.evtchn;
          })
          ring in
      let (xs', e, there, there') =
        watch_domain_register-received x law xs commits info (omega (arith, hd))
          (setup_ring-gref guest d readable) (setup_ring-evtchn guest d readable) first in
      let narrow : d % 2 ^ 16 ≡ d = omega (arith, hd) in
      let (doms, r, fresh, others) =
        register-fresh m laws env.register s.dom_list (populate_info uspace) back succeeds
          (omega arith) in
      (
        info,
        register_sent info,
        xs',
        uspace,
        _,
        register-written room guest d slack readable,
        ap (λ (q : Register.ShareInfo × _). q.0.irq) ring,
        e ∙ ap (λ u. some (xs', monitor_register u ∷ [], false)) same,
        refl,
        there,
        there',
        ioctl_register-current m laws env (record arg { info = uspace }) s doms _ (pos 0) r,
        ap (λ k. s.infos ++ (record (connected uspace env.register.page back) { domid = k } ∷ []))
            narrow,
        refl,
        ap doms (sym narrow) ∙ fresh,
        λ d' p. others d' p ∙ ap (λ k. not (d' == k) && is_watched s.dom_list d' p) narrow,
      )
