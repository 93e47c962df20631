-- ===== src/System/Delivery/Reported.antt =====
-- From a report in a guest to the command that the driver publishes for it.
use maitland.Base.{
  ◌∙◌, ℕ, subst, ◌+◌, ◌≤◌, ◌<◌, ◌^◌, ◌≡◌, ◌≢◌, refl, Bool, true, false, if◌then◌else◌, some, none,
  get_elem?, set, List, [], ◌∷◌, length, pos, ok, Text, codes, ◌>>=◌, >>=-assoc, >>=-cong,
}
use maitland.XenStore.{XenStore, IsLawful, join, is_some, Op, transact}
use maitland.Wire.{ProcessReport}
use maitland.Wire.Monitor
use maitland.Ring.{Sring, Macros, MacroLaws}
use maitland.Monitor.State.{State, ShareInfo, VmStruct}
use maitland.Monitor.Grants.Mapped.{Allocates, granted_areas}
use maitland.Monitor.Ioctl.{Arg, Env}
use maitland.Monitor.Ioctl.Reported.{Copies, outcome, ioctl_report-granted}
use maitland.Monitor.Ioctl.Kill.{commanded, ioctl_kill-current, ioctl_resume-current}
use maitland.Malpage.Send.{xs_report}
use maitland.Malpage.Send.Sent.{zip, report_dir, IsPrintable}
use maitland.Daemon.{Command, monitor_report, monitor_kill, monitor_resume, watch_domain_report}
use maitland.Daemon.Stored.{committed}
use maitland.Daemon.Frames.{frame_of, is_value, has_pair}
use maitland.Daemon.Received.{watch_domain_report-received}
use maitland.System.Delivery.{deliver}

-- The operation for a process of which the search string is found, or not.
abbrev pub verdict : Bool → ℕ
verdict found = if found then Monitor.ring_kill else Monitor.ring_resume

-- The driver's state when it has mapped a report's pages, published the operation for its process
-- on the ring of info structure `i`, and forgotten the process.
abbrev pub concluded : Macros → Env → List VmStruct → ℕ → ℕ → ℕ → ShareInfo → Sring → State → State
concluded m sending areas op pid i info page s = record s {
  vm_structs = areas;
  infos = set s.infos i (commanded m op pid sending.garbage info page);
  curr_proc = 0;
}

module _ (m : Macros) (laws : MacroLaws m) (env : ℕ → Env) (arg : Arg) (s : State) where
  -- The second command, when the areas are kept.
  deliver-verdict :
      (found : Bool) (areas : List VmStruct) (pid i : ℕ) (info : ShareInfo) (page : Sring)
      → s.share_info ≡ some i
      → get_elem? s.infos i ≡ some info
      → info.sring ≡ some page
      → pid ≢ 0
      → deliver m env arg 1
          ((if found then monitor_kill else monitor_resume) ∷ [])
          (record s { vm_structs = areas; curr_proc = pid })
        ≡ ok (concluded m (env 1) areas (verdict found) pid i info page s)
  unfolding deliver
  deliver-verdict true areas pid i info page newest there mapped current =
      rw
        (ioctl_kill-current m laws (env 1) arg (record s { vm_structs = areas; curr_proc = pid }) i
          info page newest there mapped current)
        refl
  deliver-verdict false areas pid i info page newest there mapped current =
      rw
        (ioctl_resume-current m laws (env 1) arg (record s { vm_structs = areas; curr_proc = pid })
          i info page newest there mapped current)
        refl

  deliver-concluded :
      (area : ℕ → VmStruct) (found : Bool) (rep : ProcessReport) (i : ℕ) (info : ShareInfo)
      (page : Sring)
      → Copies (env 0)
      → Allocates (env 0).map area
      → rep.pfn_list_length ≡ length rep.gref_list
      → s.share_info ≡ some i
      → get_elem? s.infos i ≡ some info
      → info.sring ≡ some page
      → rep.process_id ≢ 0
      → deliver m env arg 0
          (monitor_report rep ∷ (if found then monitor_kill else monitor_resume) ∷ [])
          s
        ≡ (outcome (env 0) (length rep.gref_list) (granted_areas (env 0).map area 0 rep.gref_list)
            >>= λ areas.
                ok (concluded m (env 1) areas (verdict found) rep.process_id i info page s))
  unfolding deliver
  deliver-concluded area found rep i info page copies allocates counted newest there mapped
        current =
      let kept =
        outcome (env 0) (length rep.gref_list) (granted_areas (env 0).map area 0 rep.gref_list) in
      rw (ioctl_report-granted m (env 0) arg s area rep copies allocates counted) (
        >>=-assoc kept _ _
        ∙ >>=-cong kept _ _ λ areas.
          deliver-verdict found areas rep.process_id i info page newest there mapped current)

-- The store is lawful, the report's numbers fit the buffers, text buffers have three bytes to spare,
-- the domain's directory for reports is there, without frames, and the first and the last
-- transaction commit; the copy of the memory ends. copy_from_user copies what the daemon gives, each
-- page gets an area, monitor_share_info points to an info structure whose ring is mapped, and the
-- reported process is not 0. Then malpage_xs_report sends a report for which the daemon sends the
-- driver two commands, with `grefs` and `pfns` the grants and frames that it received: the last frame
-- whose transaction committed under each grant, and no other pair. The driver faults if an allocation
-- for the report fails, except that the list of areas is not needed if no grant is mapped. Else it
-- holds the areas of exactly those of `grefs` that are valid and that the hypervisor mapped, and has
-- published, on the ring of that info structure and on no other, the operation KILL for the reported
-- process if the search string was found, and RESUME if not; no process is current any more, and
-- nothing else is changed.
pub xs_report-commanded :
    (x : XenStore)
    → IsLawful x
    → (room : ℕ → ℕ) (rep : ProcessReport) (xs : x.State) (commits : ℕ → Bool) (found : Bool)
      (m : Macros)
    → MacroLaws m
    → (env : ℕ → Env) (arg : Arg) (s : State) (area : ℕ → VmStruct) (i : ℕ) (info : ShareInfo)
      (page : Sring)
    → ((n : ℕ) → n + 3 ≤ room n)
    → IsPrintable rep
    → is_some (x.read xs (report_dir rep.domid)) ≡ true
    → ((node : Text) → x.read xs (join (join (report_dir rep.domid) (codes "grefs")) node) ≡ none)
    → commits 0 ≡ true
    → commits (length rep.gref_list + 1) ≡ true
    → Copies (env 0)
    → Allocates (env 0).map area
    → s.share_info ≡ some i
    → get_elem? s.infos i ≡ some info
    → info.sring ≡ some page
    → rep.process_id ≢ 0
    → (sent : List (List Op)) × (xs' : x.State) × (cs : List Command) × (grefs pfns : List ℕ)
      × (xs_report room rep ≡ ok (sent, pos 0))
      × (watch_domain_report x true found
            (join (report_dir rep.domid) (codes "ready"))
            (transact x commits 0 sent xs)
          ≡ some (xs', cs, true))
      × ((g q : ℕ)
          → g < 2 ^ 32
          → has_pair g q grefs pfns
            ≡ is_value (frame_of (committed commits 1 (zip rep.gref_list rep.pfn_list)) g none) q)
      × (deliver m env arg 0 cs s ≡ (
          outcome (env 0) (length grefs) (granted_areas (env 0).map area 0 grefs) >>= λ areas.
          ok (concluded m (env 1) areas (verdict found) rep.process_id i info page s)))
xs_report-commanded x law room rep xs commits found m laws env arg s area i info page slack fits
      opened empty first last copies allocates newest there mapped current =
    let (sent, xs', got, send, receive, r) =
      watch_domain_report-received x law room rep xs commits true found slack fits opened empty
        first last in
    (
      sent,
      xs',
      monitor_report got ∷ (if found then monitor_kill else monitor_resume) ∷ [],
      got.gref_list,
      got.pfn_list,
      send,
      receive,
      r.frames,
      subst
          (λ n.
            deliver m env arg 0
              (monitor_report got ∷ (if found then monitor_kill else monitor_resume) ∷ []) s
            ≡ (outcome (env 0) (length got.gref_list)
                  (granted_areas (env 0).map area 0 got.gref_list)
                >>= λ areas. ok (concluded m (env 1) areas (verdict found) n i info page s)))
          r.process_id
          (deliver-concluded m laws env arg s area found got i info page copies allocates r.counted
            newest there mapped (rw r.process_id current)),
    )
