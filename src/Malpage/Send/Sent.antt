-- ===== src/Malpage/Send/Sent.antt =====
-- What malpage_xs_report and malpage_xs_watch send, and when their buffers are too small.
use mathlib.Core.List.{append_assoc}
use maitland.Base.{
  ℕ, suc, ◌+◌, ◌<◌, ◌≤◌, ◌^◌, ◌≡◌, refl, ℤ, ◌==◌, if◌then◌else◌, sym, ap, ◌∙◌, some, List, [], ◌∷◌,
  ◌++◌, All, length, length-append, get_elem?, get_elem?-append, pos, ok, fault, ◌>>=◌, Text,
  decimal, length-decimal, tens, arith, ltb, false, Bool-cases, ◌⊎◌, inl, inr,
}
use maitland.XenStore.{join, Op, mkdir, write}
use maitland.Wire.{ProcessReport}
use maitland.Malpage.Send.{
  xs_report_path, xs_report_gref_path, xs_watchreport_path, sprintf, send_frames, finish, send_all,
  xs_report, xs_watch, malpage_watch, malpage_ioctl, cmd_watch, cmd_test, cmd_report, badcmd,
}

-- Frames, each with its grant: the directory's nodes and their values.
abbrev pub zip : List ℕ → List ℕ → List (ℕ × ℕ)
zip [] ps = []
zip (g ∷ gs) [] = []
zip (g ∷ gs) (p ∷ ps) = (g, p) ∷ zip gs ps

abbrev pub frame_ops : Text → List (ℕ × ℕ) → List (List Op)
frame_ops path [] = []
frame_ops path ((g, p) ∷ fs) = (write path (decimal g) (decimal p) ∷ []) ∷ frame_ops path fs

-- The directories of a domain.
abbrev pub report_dir : ℕ → Text
report_dir domid = join xs_report_path (decimal domid)

abbrev pub watch_dir : ℕ → Text
watch_dir domid = join xs_watchreport_path (decimal domid)

-- The numbers that the buffers of malpage_xs_report are meant for.
pub record IsPrintable (rep : ProcessReport) : Type 0 where
  pub domid : rep.domid < tens 5
  pub process_id : rep.process_id < tens 6
  pub grefs : All (λ g. g < tens 6) rep.gref_list
  pub pfns : All (λ p. p < 2 ^ 64) rep.pfn_list
  pub granted : length rep.gref_list ≡ length rep.pfn_list
  pub counted : rep.pfn_list_length ≡ length rep.pfn_list

pub sprintf-ok : (room : ℕ → ℕ) (n : ℕ) (s : Text) → length s < room n → sprintf room n s ≡ ok s
unfolding sprintf
sprintf-ok room n s h = ground arith

sprintf-short : (room : ℕ → ℕ) (n : ℕ) (s : Text) → room n ≤ length s → sprintf room n s ≡ fault
unfolding sprintf
sprintf-short room n s h = ground arith

-- A number of few digits, printed to a buffer with three bytes to spare.
pub sprintf-decimal :
    (room : ℕ → ℕ) (d n : ℕ)
    → ((m : ℕ) → m + 3 ≤ room m)
    → n < tens (suc d)
    → sprintf room (suc d) (decimal n) ≡ ok (decimal n)
sprintf-decimal room d n slack small =
    sprintf-ok room (suc d) (decimal n) (omega (arith, slack (suc d), length-decimal d n small))

length-join : (dir node : Text) → length (join dir node) ≡ length dir + length node + 1
length-join dir node = omega (arith, length-append dir (b'/' ∷ node))

sprintf-join :
    (room : ℕ → ℕ) (n : ℕ) (dir node : Text)
    → ((m : ℕ) → m + 3 ≤ room m)
    → length dir + length node ≤ n + 1
    → sprintf room n (join dir node) ≡ ok (join dir node)
sprintf-join room n dir node slack h =
    sprintf-ok room n (join dir node) (omega (arith, slack n, length-join dir node))

module _ (room : ℕ → ℕ) (rep : ProcessReport) (slack : (m : ℕ) → m + 3 ≤ room m) where
  send_frames-suc :
      (path : Text) (rounds i p g : ℕ)
      → get_elem? rep.pfn_list i ≡ some p
      → get_elem? rep.gref_list i ≡ some g
      → p < tens 20
      → g < tens 6
      → send_frames room rep path (suc rounds) i ≡ (
          send_frames room rep path rounds (i + 1) >>= λ fs.
          ok ((write path (decimal g) (decimal p) ∷ []) ∷ fs))
  unfolding send_frames
  send_frames-suc path rounds i p g at_p at_g wide small =
      rw
        (
          send_frames,
          at_p,
          at_g,
          sprintf-decimal room 19 p slack wide,
          sprintf-decimal room 5 g slack small,
        )
        refl

  send_frames-frame_ops :
      (path : Text) (pb ps gb gs : List ℕ) (i : ℕ)
      → rep.pfn_list ≡ pb ++ ps
      → rep.gref_list ≡ gb ++ gs
      → i ≡ length pb
      → i ≡ length gb
      → length gs ≡ length ps
      → All (λ g. g < tens 6) gs
      → All (λ p. p < 2 ^ 64) ps
      → send_frames room rep path (length ps) i ≡ ok (frame_ops path (zip gs ps))
  unfolding send_frames
  send_frames-frame_ops path pb [] gb [] i ep eg ip ig same small wide = refl
  send_frames-frame_ops path pb [] gb (g ∷ gs) i ep eg ip ig same small wide = absurd (omega arith)
  send_frames-frame_ops path pb (p ∷ ps) gb [] i ep eg ip ig same small wide = absurd (omega arith)
  send_frames-frame_ops path pb (p ∷ ps) gb (g ∷ gs) i ep eg ip ig same (sg, small) (wp, wide) =
      let at_p : get_elem? rep.pfn_list i ≡ some p =
        ap (λ l. get_elem? l i) ep
        ∙ ap (get_elem? (pb ++ (p ∷ ps))) ip
        ∙ get_elem?-append pb p ps in
      let at_g : get_elem? rep.gref_list i ≡ some g =
        ap (λ l. get_elem? l i) eg
        ∙ ap (get_elem? (gb ++ (g ∷ gs))) ig
        ∙ get_elem?-append gb g gs in
      let rest =
        send_frames-frame_ops path (pb ++ (p ∷ [])) ps (gb ++ (g ∷ [])) gs (i + 1)
          (ep ∙ sym (append_assoc pb (p ∷ []) ps)) (eg ∙ sym (append_assoc gb (g ∷ []) gs))
          (omega (arith, ip, length-append pb (p ∷ [])))
          (omega (arith, ig, length-append gb (g ∷ []))) (omega arith) small wide in
      send_frames-suc path (length ps) i p g at_p at_g (omega arith) sg
      ∙ ap (λ r. r >>= λ fs. ok ((write path (decimal g) (decimal p) ∷ []) ∷ fs)) rest

-- The transactions of a whole report, and of a request to watch.
abbrev pub report_sent : ProcessReport → List (List Op)
report_sent rep =
    let dir = report_dir rep.domid in
    (mkdir dir xs_report_gref_path ∷ [])
    ∷ (frame_ops (join dir xs_report_gref_path) (zip rep.gref_list rep.pfn_list)
        ++ (finish dir (decimal rep.domid) (decimal rep.process_id) ∷ []))

abbrev pub watch_sent : ℕ → ℕ → List (List Op)
watch_sent domid pid = finish (watch_dir domid) (decimal domid) (decimal pid) ∷ []

-- A path is never empty.
ltb-join : (dir node : Text) → ltb (length (join dir node)) 1 ≡ false
ltb-join dir node = ground (arith, length-join dir node)

-- For numbers that fit the buffers but for the terminating zero, and an allocator that leaves three
-- bytes to spare: malpage_xs_report ends without a fault and returns 0. It makes the directory of
-- the frames in a first transaction, then writes each frame under its grant in one of its own, and
-- the domain, the process and the sign that the report is ready in a last one.
pub xs_report-sent :
    (room : ℕ → ℕ) (rep : ProcessReport)
    → ((m : ℕ) → m + 3 ≤ room m)
    → IsPrintable rep
    → xs_report room rep ≡ ok (report_sent rep, pos 0)
unfolding xs_report send_all
xs_report-sent room rep slack fits =
    let dir = report_dir rep.domid in
    let frames =
      send_frames-frame_ops room rep slack (join dir xs_report_gref_path) [] rep.pfn_list []
        rep.gref_list 0 refl refl refl refl fits.granted fits.grefs fits.pfns in
    rw
      (
        sprintf-decimal room 4 rep.domid slack fits.domid,
        sprintf-decimal room 5 rep.process_id slack fits.process_id,
        sprintf-join room (15 + length (decimal rep.domid)) xs_report_path (decimal rep.domid) slack
            (omega arith),
        sprintf-join room (15 + length (decimal rep.domid) + 5) dir xs_report_gref_path slack
            (omega (arith, length-join xs_report_path (decimal rep.domid))),
        ltb-join xs_report_path (decimal rep.domid),
        ltb-join dir xs_report_gref_path,
        fits.counted,
        frames,
      )
      refl

-- A part that faults makes the whole fault, if what comes before does not run out of fuel.
sprintf-cases :
    (room : ℕ → ℕ) (n : ℕ) (s : Text) → (sprintf room n s ≡ ok s) ⊎ (sprintf room n s ≡ fault)
unfolding sprintf
sprintf-cases room n s = elim (Bool-cases (ltb (length s) (room n))) [
  | inl h ↦ inl (rw h refl)
  | inr h ↦ inr (rw h refl)
]

-- malpage_xs_report asks for as many bytes as the path has without its slash and terminating zero:
-- if an allocation has no room for two bytes more than asked, it writes beyond its end, whatever
-- the report is.
pub xs_report-overflow :
    (room : ℕ → ℕ) (rep : ProcessReport)
    → (let n = length xs_report_path + length (decimal rep.domid) in room n < n + 2)
    → xs_report room rep ≡ fault
unfolding xs_report
xs_report-overflow room rep short =
    let path =
      sprintf-short room (15 + length (decimal rep.domid)) (report_dir rep.domid)
        (omega (arith, length-join xs_report_path (decimal rep.domid))) in
    elim (sprintf-cases room 5 (decimal rep.domid)) [
      | inr e ↦ rw e refl
      | inl e ↦ elim (sprintf-cases room 6 (decimal rep.process_id)) [
        | inr f ↦ rw (e, f) refl
        | inl f ↦ rw (e, f, path) refl
      ]
    ]

pub malpage_ioctl-watch :
    (room : ℕ → ℕ) (rep : ProcessReport) (domid pid : ℕ)
    → ((m : ℕ) → m + 3 ≤ room m)
    → domid < tens 5
    → pid < tens 6
    → malpage_ioctl room rep domid cmd_watch (pos pid) ≡ ok (watch_sent domid pid, pos 0)
unfolding malpage_ioctl malpage_watch xs_watch
malpage_ioctl-watch room rep domid pid slack hd hp =
    rw
      (
        sprintf-decimal room 4 domid slack hd,
        sprintf-decimal room 5 pid slack hp,
        sprintf-join room (14 + length (decimal domid)) xs_watchreport_path (decimal domid) slack
            (omega arith),
        ltb-join xs_watchreport_path (decimal domid),
      )
      refl

-- Commands other than WATCH and TEST do nothing, and only REPORT is no error.
pub malpage_ioctl-ignored :
    (room : ℕ → ℕ) (rep : ProcessReport) (domid cmd : ℕ) (procID : ℤ)
    → (cmd == cmd_watch) ≡ false
    → (cmd == cmd_test) ≡ false
    → malpage_ioctl room rep domid cmd procID ≡ ok ([], if cmd == cmd_report then pos 0 else badcmd)
unfolding malpage_ioctl
malpage_ioctl-ignored room rep domid cmd procID not_watch not_test =
    elim (Bool-cases (cmd == cmd_report)) [
      | inl e ↦ rw e refl
      | inr e ↦ rw (e, not_watch, not_test) refl
    ]
