-- ===== src/Daemon/Watching.antt =====
-- What the daemon receives of a request to watch that malpage_xs_watch sent.
use maitland.Base.{
  ℕ, ◌<◌, ◌^◌, ◌≡◌, refl, sym, subst, Bool, true, false, some, [], ◌∷◌, Text, codes, decimal,
  parent-append, arith,
}
use maitland.XenStore.{XenStore, IsLawful, join, is_some, apply_all, transact}
use maitland.Monitor.Watch.{WatchReport}
use maitland.Malpage.Send.{finish}
use maitland.Malpage.Send.Sent.{watch_dir, watch_sent}
use maitland.Daemon.{monitor_watch, collect_watch, watch_domain_watchreport}
use maitland.Daemon.Frames.{read_int-some, unsigned_int-small}
use maitland.Daemon.Stored.{transact-commits}
use maitland.Daemon.Delivered.{finish-node}

abbrev pub request : ℕ → ℕ → WatchReport
request domid pid = record { process_id = pid; domid = domid; process_age = 0 }

module _ (x : XenStore) (law : IsLawful x) where
  received :
      (s : x.State) (domid pid : ℕ)
      → domid < 2 ^ 32
      → pid < 2 ^ 32
      → is_some (x.read s (watch_dir domid)) ≡ true
      → (let s1 = apply_all x (finish (watch_dir domid) (decimal domid) (decimal pid)) s in
          watch_domain_watchreport x (join (watch_dir domid) (codes "ready")) s1
          ≡ some (x.rm s1 (watch_dir domid), monitor_watch (request domid pid) ∷ [], false))
  unfolding watch_domain_watchreport collect_watch
  received s domid pid hd hp opened =
      let dir = watch_dir domid in
      let s1 = apply_all x (finish dir (decimal domid) (decimal pid)) s in
      let at = λ (node : Text). finish-node x law s dir (decimal domid) (decimal pid) node opened in
      rw
        (
          watch_domain_watchreport,
          at (codes "ready"),
          parent-append dir (codes "ready") refl,
          read_int-some x s1 (join dir (codes "domid")) domid (at (codes "domid")) (omega arith),
          unsigned_int-small domid hd,
          read_int-some x s1 (join dir (codes "pid")) pid (at (codes "pid")) (omega arith),
          unsigned_int-small pid hp,
        )
        refl

  pub watch_domain_watchreport-received :
      (s : x.State) (commits : ℕ → Bool) (domid pid : ℕ)
      → domid < 2 ^ 32
      → pid < 2 ^ 32
      → is_some (x.read s (watch_dir domid)) ≡ true
      → commits 0 ≡ true
      → (s' : x.State) × (watch_domain_watchreport x
            (join (watch_dir domid) (codes "ready"))
            (transact x commits 0 (watch_sent domid pid) s)
          ≡ some (s', monitor_watch (request domid pid) ∷ [], false))
  unfolding transact
  watch_domain_watchreport-received s commits domid pid hd hp opened first =
      let s1 = apply_all x (finish (watch_dir domid) (decimal domid) (decimal pid)) s in
      subst
        (λ t.
          (s' : x.State) × (watch_domain_watchreport x (join (watch_dir domid) (codes "ready")) t
            ≡ some (s', monitor_watch (request domid pid) ∷ [], false)))
        (sym (
          transact-commits x law commits 0 (finish (watch_dir domid) (decimal domid) (decimal pid))
            [] s first))
        (x.rm s1 (watch_dir domid), received s domid pid hd hp opened)
