-- ===== src/Daemon/Delivered.antt =====
-- The store after the transactions of malpage_xs_report.
use maitland.Base.{
  ℕ, suc, ◌+◌, ◌≡◌, refl, sym, ap, subst, ◌∙◌, Bool, true, false, if◌then◌else◌, Option, none, some,
  List, [], ◌∷◌, ◌++◌, length, Text, codes, text_eq, text_eq_refl, decimal, arith,
}
use maitland.XenStore.{
  XenStore, IsLawful, join, is_some, made-some, if-made, mkdir, apply, apply_all, transact,
}
use maitland.Wire.{ProcessReport}
use maitland.Malpage.Send.{finish}
use maitland.Malpage.Send.Sent.{zip, frame_ops, report_dir, report_sent}
use maitland.Daemon.Stored.{
  text_eq-join, join_assoc, text_eq-below, committed, latest, finish-read, transact-append,
  transact-commits, frames-Kept, frames-latest,
}

-- A report of a domain, complete in the store.
pub record Delivered (x : XenStore) (s : x.State) (dir d p : Text) (fs : List (ℕ × ℕ))
    : Type 0 where
  pub ready : x.read s (join dir (codes "ready")) ≡ some (codes "1")
  pub domid : x.read s (join dir (codes "domid")) ≡ some d
  pub pid : x.read s (join dir (codes "pid")) ≡ some p
  pub frames : (node : Text) → x.read s (join (join dir (codes "grefs")) node) ≡ latest fs node none
  pub there : is_some (x.read s dir) ≡ true
  pub grefs : is_some (x.read s (join dir (codes "grefs"))) ≡ true

if-some :
    (b : Bool) (v : Text) (o : Option Text)
    → is_some o ≡ true
    → is_some (if b then some v else o) ≡ true
if-some true v o h = refl
if-some false v o h = h

length-frame_ops :
    (path : Text) (gs ps : List ℕ)
    → length gs ≡ length ps
    → length (frame_ops path (zip gs ps)) ≡ length gs
length-frame_ops path [] ps h = refl
length-frame_ops path (g ∷ gs) [] h = absurd (omega arith)
length-frame_ops path (g ∷ gs) (p ∷ ps) h = ap suc (length-frame_ops path gs ps (omega arith))

module _ (x : XenStore) (law : IsLawful x) where
  pub finish-node :
      (s : x.State) (dir domid pid node : Text)
      → is_some (x.read s dir) ≡ true
      → x.read (apply_all x (finish dir domid pid) s) (join dir node) ≡ (
          if text_eq (codes "ready") node
          then some (codes "1")
          else if text_eq (codes "pid") node
          then some pid
          else if text_eq (codes "domid") node
          then some domid
          else x.read s (join dir node))
  finish-node s dir domid pid node hd =
      finish-read x law s dir domid pid (join dir node) hd
      ∙ rw
          (
            text_eq-join dir (codes "ready") node,
            text_eq-join dir (codes "pid") node,
            text_eq-join dir (codes "domid") node,
          )
          refl

  finish-Kept :
      (s : x.State) (dir domid pid path : Text)
      → is_some (x.read s dir) ≡ true
      → is_some (x.read s path) ≡ true
      → is_some (x.read (apply_all x (finish dir domid pid) s) path) ≡ true
  finish-Kept s dir domid pid path hd h =
      ap is_some (finish-read x law s dir domid pid path hd)
      ∙ if-some (text_eq (join dir (codes "ready")) path) (codes "1") _ (
          if-some (text_eq (join dir (codes "pid")) path) pid _
            (if-some (text_eq (join dir (codes "domid")) path) domid (x.read s path) h))

  finish-Delivered :
      (s : x.State) (dir domid pid : Text) (fs : List (ℕ × ℕ))
      → is_some (x.read s dir) ≡ true
      → is_some (x.read s (join dir (codes "grefs"))) ≡ true
      → ((node : Text) → x.read s (join (join dir (codes "grefs")) node) ≡ latest fs node none)
      → Delivered x (apply_all x (finish dir domid pid) s) dir domid pid fs
  finish-Delivered s dir domid pid fs hd hg stored = record {
    ready = finish-node s dir domid pid (codes "ready") hd;
    domid = finish-node s dir domid pid (codes "domid") hd;
    pid = finish-node s dir domid pid (codes "pid") hd;
    frames = λ node.
        ap (x.read (apply_all x (finish dir domid pid) s)) (join_assoc dir (codes "grefs") node)
        ∙ finish-node s dir domid pid (join (codes "grefs") node) hd
        ∙ ap (x.read s) (sym (join_assoc dir (codes "grefs") node))
        ∙ stored node;
    there = finish-Kept s dir domid pid dir hd hd;
    grefs = finish-Kept s dir domid pid (join dir (codes "grefs")) hd hg;
  }

  module _ (rep : ProcessReport) (s : x.State) (commits : ℕ → Bool)
      (opened : is_some (x.read s (report_dir rep.domid)) ≡ true)
      (empty : (node : Text)
        → x.read s (join (join (report_dir rep.domid) (codes "grefs")) node) ≡ none)
      (first : commits 0 ≡ true) where
    dir : Text
    dir = report_dir rep.domid

    gref_dir : Text
    gref_dir = join (report_dir rep.domid) (codes "grefs")

    fs : List (ℕ × ℕ)
    fs = zip rep.gref_list rep.pfn_list

    made_dir : x.State
    made_dir = x.mkdir s (join (report_dir rep.domid) (codes "grefs"))

    made_dir-there : is_some (x.read made_dir dir) ≡ true
    unfolding made_dir dir
    made_dir-there =
        ap is_some (law.read-mkdir s dir (codes "grefs") dir opened)
        ∙ if-made (text_eq (join dir (codes "grefs")) dir) (x.read s dir) opened

    made_dir-grefs : is_some (x.read made_dir gref_dir) ≡ true
    unfolding made_dir dir gref_dir
    made_dir-grefs =
        ap is_some (law.read-mkdir s dir (codes "grefs") gref_dir opened)
        ∙ rw (text_eq_refl gref_dir) (made-some (x.read s gref_dir))

    made_dir-empty : (node : Text) → x.read made_dir (join gref_dir node) ≡ none
    unfolding made_dir dir gref_dir
    made_dir-empty node =
        law.read-mkdir s dir (codes "grefs") (join gref_dir node) opened
        ∙ rw (text_eq-below gref_dir node) (empty node)

    pub report_sent-Delivered :
        length rep.gref_list ≡ length rep.pfn_list
        → commits (length rep.gref_list + 1) ≡ true
        → Delivered x
            (transact x commits 0 (report_sent rep) s)
            (report_dir rep.domid)
            (decimal rep.domid)
            (decimal rep.process_id)
            (committed commits 1 (zip rep.gref_list rep.pfn_list))
    unfolding transact apply_all apply made_dir dir gref_dir fs
    report_sent-Delivered granted last =
        let after = transact x commits 1 (frame_ops gref_dir fs) made_dir in
        let last_ops = finish dir (decimal rep.domid) (decimal rep.process_id) in
        let count = length-frame_ops gref_dir rep.gref_list rep.pfn_list granted in
        let finished =
          finish-Delivered after dir (decimal rep.domid) (decimal rep.process_id)
            (committed commits 1 fs)
            (frames-Kept x law commits 1 fs made_dir gref_dir dir made_dir-grefs made_dir-there)
            (frames-Kept x law commits 1 fs made_dir gref_dir gref_dir made_dir-grefs
              made_dir-grefs)
            λ node.
              frames-latest x law commits 1 fs made_dir gref_dir node made_dir-grefs
              ∙ ap (latest (committed commits 1 fs) node) (made_dir-empty node) in
        subst
          (λ t.
            Delivered x t dir (decimal rep.domid) (decimal rep.process_id) (committed commits 1 fs))
          (sym (
            transact-commits x law commits 0 (mkdir dir (codes "grefs") ∷ [])
              (frame_ops gref_dir fs ++ (last_ops ∷ [])) s first
            ∙ transact-append x law commits 1 (frame_ops gref_dir fs) (last_ops ∷ []) made_dir
            ∙ transact-commits x law commits (length (frame_ops gref_dir fs) + 1) last_ops [] after
                (ap (λ n. commits (n + 1)) count ∙ last)))
          finished
