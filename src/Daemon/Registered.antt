-- ===== src/Daemon/Registered.antt =====
-- What the daemon makes of a registration that malpage_register wrote.
use maitland.Base.{
  ℕ, ◌<◌, ◌^◌, ◌≡◌, refl, sym, subst, Bool, true, false, inr, some, [], ◌∷◌, ◌++◌, length,
  length-append, ltb, lt→ltb, before, split, split-append, split-last, decimal, number-decimal,
  has-decimal, arith,
}
use maitland.XenStore.{XenStore, IsLawful, join, is_some, apply_all, apply, write, transact}
use maitland.Monitor.Register.{UspaceInfo}
use maitland.Malpage.Send.Sent.{report_dir, watch_dir}
use maitland.Malpage.Register.{ShareInfo, xenstore_register_path, registration}
use maitland.Malpage.Register.Written.{register_sent}
use maitland.Daemon.{monitor_register, open_domain, watch_domain_register}
use maitland.Daemon.Frames.{unsigned_int-small}
use maitland.Daemon.Stored.{transact-commits}

abbrev pub announced : ShareInfo → UspaceInfo
announced info = record { domid = info.domid; gref = info.gref; evtchn = info.evtchn }

-- The fields of a registration.
split-registration :
    (info : ShareInfo)
    → split 4 b':' (registration info)
      ≡ decimal info.domid ∷ decimal info.gref ∷ decimal info.evtchn ∷ before b':' info.uuid ∷ []
unfolding registration
split-registration info =
    let plain = λ (n : ℕ). has-decimal b':' n (inr (omega arith)) in
    rw
      (
        split-append 3 b':' (decimal info.domid)
            (decimal info.gref ++ (b':' ∷ (decimal info.evtchn ++ (b':' ∷ info.uuid))))
            (plain info.domid),
        split-append 2 b':' (decimal info.gref) (decimal info.evtchn ++ (b':' ∷ info.uuid))
            (plain info.gref),
        split-append 1 b':' (decimal info.evtchn) info.uuid (plain info.evtchn),
        split-last b':' info.uuid,
      )
      refl

length-registration_pos : (info : ShareInfo) → ltb 0 (length (registration info)) ≡ true
unfolding registration
length-registration_pos info =
    let rest = b':' ∷ (decimal info.gref ++ (b':' ∷ (decimal info.evtchn ++ (b':' ∷ info.uuid)))) in
    lt→ltb 0 _ (omega (arith, length-append (decimal info.domid) rest))

module _ (x : XenStore) (law : IsLawful x) where
  opened : x.State → ℕ → x.State
  opened s domid = x.mkdir (x.mkdir s (report_dir domid)) (watch_dir domid)

  received :
      (s : x.State) (info : ShareInfo)
      → info.domid < 2 ^ 32
      → info.gref < 2 ^ 32
      → info.evtchn < 2 ^ 32
      → (let path = join xenstore_register_path (decimal info.domid) in
          let s1 = x.write s path (registration info) in
          watch_domain_register x path s1
          ≡ some (opened (x.rm s1 path) info.domid, monitor_register (announced info) ∷ [], false))
  unfolding watch_domain_register open_domain opened
  received s info hd hg he =
      let path = join xenstore_register_path (decimal info.domid) in
      rw
        (
          watch_domain_register,
          law.write_own s path (registration info),
          length-registration_pos info,
          split-registration info,
          number-decimal info.domid (omega arith),
          unsigned_int-small info.domid hd,
          number-decimal info.gref (omega arith),
          unsigned_int-small info.gref hg,
          number-decimal info.evtchn (omega arith),
          unsigned_int-small info.evtchn he,
        )
        refl

  -- The monitor is told the domain, the grant and the event channel, and the directories for the
  -- domain's reports are there.
  pub watch_domain_register-received :
      (s : x.State) (commits : ℕ → Bool) (info : ShareInfo)
      → info.domid < 2 ^ 32
      → info.gref < 2 ^ 32
      → info.evtchn < 2 ^ 32
      → commits 0 ≡ true
      → (s' : x.State) × (watch_domain_register x
            (join xenstore_register_path (decimal info.domid))
            (transact x commits 0 (register_sent info) s)
          ≡ some (s', monitor_register (announced info) ∷ [], false))
        × (is_some (x.read s' (report_dir info.domid)) ≡ true)
        × (is_some (x.read s' (watch_dir info.domid)) ≡ true)
  unfolding transact apply_all apply opened
  watch_domain_register-received s commits info hd hg he first =
      let path = join xenstore_register_path (decimal info.domid) in
      let s1 = x.write s path (registration info) in
      let removed = x.rm s1 path in
      (
        opened removed info.domid,
        subst
            (λ t.
              watch_domain_register x path t
              ≡ some (opened removed info.domid, monitor_register (announced info) ∷ [], false))
            (sym (
              transact-commits x law commits 0
                (write xenstore_register_path (decimal info.domid) (registration info) ∷ []) [] s
                first))
            (received s info hd hg he),
        law.mkdir_kept (x.mkdir removed (report_dir info.domid)) (watch_dir info.domid)
            (report_dir info.domid) (law.mkdir_own removed (report_dir info.domid)),
        law.mkdir_own (x.mkdir removed (report_dir info.domid)) (watch_dir info.domid),
      )
