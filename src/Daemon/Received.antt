-- ===== src/Daemon/Received.antt =====
-- What the daemon receives of a report that malpage_xs_report sent.
use maitland.Base.{
  ℕ, ◌+◌, ◌<◌, ◌≤◌, ◌^◌, ◌≡◌, refl, sym, ap, ◌∙◌, Bool, true, false, not, ◌&&◌, inl, if◌then◌else◌,
  Option, none, some, List, [], ◌∷◌, All, length, pos, ok, Text, codes, text_eq, decimal,
  length-decimal_pos, has-decimal, parent-append, tens, arith,
}
use maitland.XenStore.{XenStore, IsLawful, join, is_some, Op, transact}
use maitland.Wire.{ProcessReport}
use maitland.Malpage.Send.{xs_report}
use maitland.Malpage.Send.Sent.{zip, report_dir, report_sent, IsPrintable, xs_report-sent}
use maitland.Daemon.{report_commands, collect, remove_all, is_set, watch_domain_report}
use maitland.Daemon.Stored.{committed, latest}
use maitland.Daemon.Frames.{
  frame_of, printed, latest-frame_of, is_value, has_pair, Bounded, All-member, read_int-some,
  read_frames-pairs, unsigned_int-small,
}
use maitland.Daemon.Delivered.{Delivered, report_sent-Delivered}

zip-Bounded :
    (gs ps : List ℕ) → All (λ g. g < tens 6) gs → All (λ p. p < 2 ^ 64) ps → All Bounded (zip gs ps)
zip-Bounded [] ps hg hp = tt
zip-Bounded (g ∷ gs) [] hg hp = tt
zip-Bounded (g ∷ gs) (p ∷ ps) (h, hg) (k, hp) = ((omega arith, k), zip-Bounded gs ps hg hp)

committed-Bounded :
    (commits : ℕ → Bool) (i : ℕ) (fs : List (ℕ × ℕ))
    → All Bounded fs
    → All Bounded (committed commits i fs)
committed-Bounded commits i [] small = tt
committed-Bounded commits i (f ∷ fs) (h, small) =
    either (commits i) (committed-Bounded commits (i + 1) fs small)
  where
    either :
        (b : Bool)
        → All Bounded (committed commits (i + 1) fs)
        → All Bounded (if b then f ∷ committed commits (i + 1) fs else committed commits (i + 1) fs)
    either true rest = (h, rest)
    either false rest = rest

both : (a b : Bool) → (a && b) ≡ true → b ≡ true
both true b h = h
both false true h = refl
both false false h = h

decimal-named : (n : ℕ) → text_eq (decimal n) [] ≡ false
decimal-named n = nonempty (decimal n) (length-decimal_pos n)
  where
    nonempty : (t : Text) → 0 < length t → text_eq t [] ≡ false
    nonempty [] h = absurd (omega arith)
    nonempty (c ∷ t) h = refl

-- A grant is listed exactly if it has a frame.
listed-value :
    (fs : List (ℕ × ℕ)) (g p : ℕ)
    → All Bounded fs
    → g < 2 ^ 32
    → (is_some (latest fs (decimal g) none) && is_value (frame_of fs g none) p)
      ≡ is_value (frame_of fs g none) p
listed-value fs g p small hg = rw (latest-frame_of fs g none small hg) (shown (frame_of fs g none))
  where
    shown : (o : Option ℕ) → (is_some (printed o) && is_value o p) ≡ is_value o p
    shown none = refl
    shown (some q) = refl

-- What is sent to the driver for a report of process `p` of domain `d`, with frames `fs`.
pub record Reports (d p : ℕ) (fs : List (ℕ × ℕ)) (rep : ProcessReport) : Type 0 where
  pub domid : rep.domid ≡ d
  pub process_id : rep.process_id ≡ p
  pub counted : rep.pfn_list_length ≡ length rep.gref_list
  pub frames :
      (g q : ℕ)
      → g < 2 ^ 32
      → has_pair g q rep.gref_list rep.pfn_list ≡ is_value (frame_of fs g none) q

module _ (x : XenStore) (law : IsLawful x) where
  collect-Reports :
      (s : x.State) (dir : Text) (d pid : ℕ) (fs : List (ℕ × ℕ))
      → All Bounded fs
      → d < 2 ^ 32
      → pid < 2 ^ 32
      → Delivered x s dir (decimal d) (decimal pid) fs
      → (s' : x.State) × (rep : ProcessReport) × (collect x s dir ≡ some (s', rep))
        × Reports d pid fs rep
  unfolding collect
  collect-Reports s dir d pid fs small hd hp there =
      let gref_dir = join dir (codes "grefs") in
      let (nodes, listed, plain, each) = law.ls-read s gref_dir there.grefs in
      let (names, at_dir, plain', each') = law.ls-read s dir there.there in
      let named =
        All-member {P = λ node. is_some (latest fs node none) ≡ true} nodes plain λ node h e.
          ap is_some (sym (there.frames node))
          ∙ both (not (text_eq node [])) (is_some (x.read s (join gref_dir node)))
              (sym (each node h) ∙ e) in
      let (gs, ps, r, pairs) = read_frames-pairs x s gref_dir fs small there.frames nodes named in
      (
        remove_all x s dir names,
        record {
          process_id = pid;
          domid = d;
          process_age = 0;
          pfn_list = ps;
          gref_list = gs;
          pfn_list_length = length gs;
        },
        rw
            (
              listed,
              r,
              read_int-some x s (join dir (codes "domid")) d there.domid (omega arith),
              unsigned_int-small d hd,
              read_int-some x s (join dir (codes "pid")) pid there.pid (omega arith),
              unsigned_int-small pid hp,
              at_dir,
            )
            refl,
        record {
          domid = refl;
          process_id = refl;
          counted = refl;
          frames = λ g p hg.
              pairs g p hg
              ∙ ap (λ b. b && is_value (frame_of fs g none) p)
                  (each (decimal g) (has-decimal b'/' g (inl (omega arith))))
              ∙ rw (decimal-named g, there.frames (decimal g)) (listed-value fs g p small hg);
        },
      )

  -- The store is lawful, the report's numbers fit the buffers, allocations have three bytes to spare,
  -- and the directory that the daemon made for the domain is there, without frames. Then, if the
  -- first and the last transaction commit, the daemon receives the report without an exception: the
  -- domain and the process that malpage_xs_report was given, and under each grant the last frame
  -- whose transaction committed, and no other pair. It passes the report to the monitor. If the copy
  -- of the memory ends, the command to kill the process follows if the search string was found, and
  -- the command to resume it if not; else no command follows.
  pub watch_domain_report-received :
      (room : ℕ → ℕ) (rep : ProcessReport) (s : x.State) (commits : ℕ → Bool) (copied found : Bool)
      → ((m : ℕ) → m + 3 ≤ room m)
      → IsPrintable rep
      → is_some (x.read s (report_dir rep.domid)) ≡ true
      → ((node : Text) → x.read s (join (join (report_dir rep.domid) (codes "grefs")) node) ≡ none)
      → commits 0 ≡ true
      → commits (length rep.gref_list + 1) ≡ true
      → (sent : List (List Op)) × (s' : x.State) × (got : ProcessReport) × (xs_report room rep
          ≡ ok (sent, pos 0))
        × (watch_domain_report x copied found
              (join (report_dir rep.domid) (codes "ready"))
              (transact x commits 0 sent s)
            ≡ some (s', report_commands copied found got, true))
        × Reports rep.domid rep.process_id
            (committed commits 1 (zip rep.gref_list rep.pfn_list))
            got
  unfolding watch_domain_report is_set
  watch_domain_report-received room rep s commits copied found slack fits opened empty first last =
      let dir = report_dir rep.domid in
      let s1 = transact x commits 0 (report_sent rep) s in
      let there = report_sent-Delivered x law rep s commits opened empty first fits.granted last in
      let fs = committed commits 1 (zip rep.gref_list rep.pfn_list) in
      let small =
        committed-Bounded commits 1 (zip rep.gref_list rep.pfn_list)
          (zip-Bounded rep.gref_list rep.pfn_list fits.grefs fits.pfns) in
      let (s', got, e, reports) =
        collect-Reports s1 dir rep.domid rep.process_id fs small (omega (arith, fits.domid))
          (omega (arith, fits.process_id)) there in
      (
        report_sent rep,
        s',
        got,
        xs_report-sent room rep slack fits,
        rw (there.ready, parent-append dir (codes "ready") refl, e) refl,
        reports,
      )
