-- ===== src/Daemon/Stored.antt =====
-- What can be read from XenStore after the transactions of a report.
use mathlib.Core.List.{append_assoc}
use maitland.Base.{
  ℕ, ◌+◌, ◌≡◌, refl, ap, ◌∙◌, Bool, Bool-cases, true, false, inl, inr, if◌then◌else◌, Option, some,
  List, [], ◌∷◌, ◌++◌, length, Text, codes, text_eq, text_eq-append, decimal, arith,
}
use maitland.XenStore.{XenStore, IsLawful, join, is_some, Op, write, apply, apply_all, transact}
use maitland.Malpage.Send.{finish}
use maitland.Malpage.Send.Sent.{frame_ops}

-- Names of nodes of the same directory, and of a node of a subdirectory.
pub text_eq-join : (dir a b : Text) → text_eq (join dir a) (join dir b) ≡ text_eq a b
text_eq-join dir a b = text_eq-append dir (b'/' ∷ a) (b'/' ∷ b)

pub join_assoc : (dir sub node : Text) → join (join dir sub) node ≡ join dir (join sub node)
join_assoc dir sub node = append_assoc dir (b'/' ∷ sub) (b'/' ∷ node)

pub text_eq-below : (dir node : Text) → text_eq dir (join dir node) ≡ false
text_eq-below [] node = refl
text_eq-below (c ∷ dir) node = ground (arith, text_eq-below dir node)

-- The frames whose transaction committed, and what is read of a frame's node behind them.
abbrev pub committed : (ℕ → Bool) → ℕ → List (ℕ × ℕ) → List (ℕ × ℕ)
committed commits i [] = []
committed commits i (f ∷ fs) =
    let rest = committed commits (i + 1) fs in if commits i then f ∷ rest else rest

abbrev pub latest : List (ℕ × ℕ) → Text → Option Text → Option Text
latest [] node value = value
latest ((g, p) ∷ fs) node value =
    latest fs node (if text_eq (decimal g) node then some (decimal p) else value)

module _ (x : XenStore) (law : IsLawful x) where
  write-Kept :
      (s : x.State) (dir node value path : Text)
      → is_some (x.read s dir) ≡ true
      → is_some (x.read s path) ≡ true
      → is_some (x.read (x.write s (join dir node) value) path) ≡ true
  write-Kept s dir node value path hd hp =
      rw (law.read-write s dir node value path hd)
        (elim (Bool-cases (text_eq (join dir node) path)) [ inl e ↦ rw e refl | inr e ↦ rw e hp ])

  -- The last transaction of a report.
  pub finish-read :
      (s : x.State) (dir domid pid path : Text)
      → is_some (x.read s dir) ≡ true
      → x.read (apply_all x (finish dir domid pid) s) path ≡ (
          if text_eq (join dir (codes "ready")) path
          then some (codes "1")
          else if text_eq (join dir (codes "pid")) path
          then some pid
          else if text_eq (join dir (codes "domid")) path
          then some domid
          else x.read s path)
  unfolding apply_all apply finish
  finish-read s dir domid pid path hd =
      let s1 = x.write s (join dir (codes "domid")) domid in
      let s2 = x.write s1 (join dir (codes "pid")) pid in
      let h1 = write-Kept s dir (codes "domid") domid dir hd hd in
      let h2 = write-Kept s1 dir (codes "pid") pid dir h1 h1 in
      rw
        (
          law.read-write s2 dir (codes "ready") (codes "1") path h2,
          law.read-write s1 dir (codes "pid") pid path h1,
          law.read-write s dir (codes "domid") domid path hd,
        )
        refl

  pub transact-commits :
      (commits : ℕ → Bool) (i : ℕ) (t : List Op) (ts : List (List Op)) (s : x.State)
      → commits i ≡ true
      → transact x commits i (t ∷ ts) s ≡ transact x commits (i + 1) ts (apply_all x t s)
  unfolding transact
  transact-commits commits i t ts s e =
      ap (λ b. transact x commits (i + 1) ts (if b then apply_all x t s else s)) e

  pub transact-append :
      (commits : ℕ → Bool) (i : ℕ) (ts us : List (List Op)) (s : x.State)
      → transact x commits i (ts ++ us) s
        ≡ transact x commits (length ts + i) us (transact x commits i ts s)
  unfolding transact
  transact-append commits i [] us s = ap (λ n. transact x commits n us s) (omega arith)
  transact-append commits i (t ∷ ts) us s =
      transact-append commits (i + 1) ts us (if commits i then apply_all x t s else s)
      ∙ ap (λ n. transact x commits n us (transact x commits i (t ∷ ts) s)) (omega arith)

  -- The transactions of the frames.
  frame_done : Bool → Text → ℕ → ℕ → x.State → x.State
  frame_done done dir g p s =
      if done then apply_all x (write dir (decimal g) (decimal p) ∷ []) s else s

  frame_done-Kept :
      (done : Bool) (dir : Text) (g p : ℕ) (s : x.State) (path : Text)
      → is_some (x.read s dir) ≡ true
      → is_some (x.read s path) ≡ true
      → is_some (x.read (frame_done done dir g p s) path) ≡ true
  unfolding frame_done apply_all apply
  frame_done-Kept true dir g p s path hd hp = write-Kept s dir (decimal g) (decimal p) path hd hp
  frame_done-Kept false dir g p s path hd hp = hp

  frame_done-latest :
      (done : Bool) (dir : Text) (g p : ℕ) (s : x.State) (node : Text) (fs : List (ℕ × ℕ))
      → is_some (x.read s dir) ≡ true
      → latest fs node (x.read (frame_done done dir g p s) (join dir node))
        ≡ latest (if done then (g, p) ∷ fs else fs) node (x.read s (join dir node))
  unfolding frame_done apply_all apply
  frame_done-latest true dir g p s node fs hd = ap (latest fs node) (
      law.read-write s dir (decimal g) (decimal p) (join dir node) hd
      ∙ ap (λ b. if b then some (decimal p) else x.read s (join dir node))
          (text_eq-join dir (decimal g) node))
  frame_done-latest false dir g p s node fs hd = refl

  pub frames-Kept :
      (commits : ℕ → Bool) (i : ℕ) (fs : List (ℕ × ℕ)) (s : x.State) (dir path : Text)
      → is_some (x.read s dir) ≡ true
      → is_some (x.read s path) ≡ true
      → is_some (x.read (transact x commits i (frame_ops dir fs) s) path) ≡ true
  unfolding transact frame_done
  frames-Kept commits i [] s dir path hd hp = hp
  frames-Kept commits i ((g, p) ∷ fs) s dir path hd hp =
      frames-Kept commits (i + 1) fs (frame_done (commits i) dir g p s) dir path
        (frame_done-Kept (commits i) dir g p s dir hd hd)
        (frame_done-Kept (commits i) dir g p s path hd hp)

  pub frames-latest :
      (commits : ℕ → Bool) (i : ℕ) (fs : List (ℕ × ℕ)) (s : x.State) (dir node : Text)
      → is_some (x.read s dir) ≡ true
      → x.read (transact x commits i (frame_ops dir fs) s) (join dir node)
        ≡ latest (committed commits i fs) node (x.read s (join dir node))
  unfolding transact frame_done
  frames-latest commits i [] s dir node hd = refl
  frames-latest commits i ((g, p) ∷ fs) s dir node hd =
      frames-latest commits (i + 1) fs (frame_done (commits i) dir g p s) dir node
        (frame_done-Kept (commits i) dir g p s dir hd hd)
      ∙ frame_done-latest (commits i) dir g p s node (committed commits (i + 1) fs) hd
