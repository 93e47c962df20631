-- ===== src/Daemon/Frames.antt =====
-- What the daemon's loop reads from the directory of a report's frames.
use maitland.Base.{
  ℕ, ◌<◌, ◌^◌, ◌≡◌, refl, sym, ap, subst, ◌∙◌, ◌==◌, ==_iff, Bool, Bool-cases, true, false, ◌&&◌,
  ◌||◌, ◌⊎◌, inl, inr, if◌then◌else◌, Option, Option-cases, none, some, List, [], ◌∷◌, All, has,
  Text, text_eq, text_eq_refl, eq_of_text_eq, text_eq-decimal, decimal, number, number-decimal,
  arith,
}
use maitland.XenStore.{XenStore, join, has_text, is_some}
use maitland.Daemon.{read_int, read_frames, unsigned_int, unsigned_long}
use maitland.Daemon.Stored.{latest}

-- The last frame of a grant.
abbrev pub frame_of : List (ℕ × ℕ) → ℕ → Option ℕ → Option ℕ
frame_of [] g o = o
frame_of ((h, p) ∷ fs) g o = frame_of fs g (if h == g then some p else o)

abbrev pub is_value : Option ℕ → ℕ → Bool
is_value none q = false
is_value (some p) q = p == q

-- A pair of a grant and a frame in two lists.
abbrev pub has_pair : ℕ → ℕ → List ℕ → List ℕ → Bool
has_pair g p [] ps = false
has_pair g p (h ∷ gs) [] = false
has_pair g p (h ∷ gs) (q ∷ ps) = (h == g) && (q == p) || has_pair g p gs ps

-- Frames as the guest writes them.
abbrev pub Bounded : ℕ × ℕ → Type 0
Bounded (g, p) = (g < 2 ^ 32) × (p < 2 ^ 64)

abbrev pub printed : Option ℕ → Option Text
printed none = none
printed (some p) = some (decimal p)

printed-if :
    (b : Bool) (p : ℕ) (o : Option ℕ)
    → (if b then some (decimal p) else printed o) ≡ printed (if b then some p else o)
printed-if true p o = refl
printed-if false p o = refl

pub latest-frame_of :
    (fs : List (ℕ × ℕ)) (g : ℕ) (o : Option ℕ)
    → All Bounded fs
    → g < 2 ^ 32
    → latest fs (decimal g) (printed o) ≡ printed (frame_of fs g o)
latest-frame_of [] g o small hg = refl
latest-frame_of ((h, p) ∷ fs) g o ((hh, hp), small) hg =
    ap (latest fs (decimal g)) (
      ap (λ b. if b then some (decimal p) else printed o)
        (text_eq-decimal h g (omega arith) (omega arith))
      ∙ printed-if (h == g) p o)
    ∙ latest-frame_of fs g (if h == g then some p else o) small hg

-- Every node is named for a grant.
latest-named :
    (fs : List (ℕ × ℕ)) (node : Text) (o : Option Text)
    → All Bounded fs
    → is_some (latest fs node o) ≡ true
    → (is_some o ≡ true) ⊎ ((g : ℕ) × (g < 2 ^ 32) × (node ≡ decimal g))
latest-named [] node o small h = inl h
latest-named ((g, p) ∷ fs) node o ((hg, hp), small) h =
    elim (latest-named fs node (if text_eq (decimal g) node then some (decimal p) else o) small h) [
      | inr named ↦ inr named
      | inl there ↦ elim (Bool-cases (text_eq (decimal g) node)) [
        | inl e ↦ inr (g, hg, sym (eq_of_text_eq (decimal g) node e))
        | inr e ↦ inl (subst (λ b. is_some (if b then some (decimal p) else o) ≡ true) e there)
      ]
    ]

frame_of-Bounded :
    (fs : List (ℕ × ℕ)) (g p : ℕ) (o : Option ℕ)
    → All Bounded fs
    → frame_of fs g o ≡ some p
    → (o ≡ some p) ⊎ (p < 2 ^ 64)
frame_of-Bounded [] g p o small e = inl e
frame_of-Bounded ((h, q) ∷ fs) g p o ((hh, hq), small) e =
    elim (frame_of-Bounded fs g p (if h == g then some q else o) small e) [
      | inr bound ↦ inr bound
      | inl now ↦ ground arith
    ]

-- What a frame's node holds.
frame-at :
    (fs : List (ℕ × ℕ)) (node : Text)
    → All Bounded fs
    → is_some (latest fs node none) ≡ true
    → (g p : ℕ) × (g < 2 ^ 32)
      × (p < 2 ^ 64)
      × (node ≡ decimal g)
      × (frame_of fs g none ≡ some p)
      × (latest fs node none ≡ some (decimal p))
frame-at fs node small h = elim (latest-named fs node none small h) [
  | inl e ↦ absurd (cc)
  | inr (g, hg, e) ↦
      let held = ap (λ n. latest fs n none) e ∙ latest-frame_of fs g none small hg in
      elim (Option-cases (frame_of fs g none)) [
        | inl f ↦ absurd (ground (arith, held, f, h))
        | inr (p, f) ↦ elim (frame_of-Bounded fs g p none small f) [
          | inl e' ↦ absurd (cc)
          | inr hp ↦ (g, p, hg, hp, e, f, held ∙ ap printed f)
        ]
      ]
]

pub unsigned_int-small : (n : ℕ) → n < 2 ^ 32 → unsigned_int n ≡ some n
unfolding unsigned_int
unsigned_int-small n h = ground arith

unsigned_long-small : (n : ℕ) → n < 2 ^ 64 → unsigned_long n ≡ some n
unfolding unsigned_long
unsigned_long-small n h = ground arith

pub All-member :
    {P : Text → Type 0} (names : List Text)
    → All (λ node. has b'/' node ≡ false) names
    → ((node : Text) → has b'/' node ≡ false → has_text node names ≡ true → P node)
    → All P names
All-member [] plain each = tt
All-member (n ∷ ns) (hn, plain) each = (
  each n hn (rw (text_eq_refl n) refl),
  All-member ns plain λ node h e. each node h (either (text_eq n node) e),
)
  where
    either : {b : Bool} (a : Bool) → b ≡ true → (a || b) ≡ true
    either true e = refl
    either false e = e

module _ (x : XenStore) where
  pub read_int-some :
      (s : x.State) (path : Text) (n : ℕ)
      → x.read s path ≡ some (decimal n)
      → n < 2 ^ 64
      → read_int x s path ≡ some n
  unfolding read_int
  read_int-some s path n e small = rw (read_int, e) (number-decimal n small)

  module _ (s : x.State) (dir : Text) (fs : List (ℕ × ℕ)) (small : All Bounded fs)
      (stored : (node : Text) → x.read s (join dir node) ≡ latest fs node none) where
    pub read_frames-pairs :
        (names : List Text)
        → All (λ node. is_some (latest fs node none) ≡ true) names
        → (gs : List ℕ) × (ps : List ℕ) × (read_frames x s dir names ≡ some (gs, ps))
          × ((g p : ℕ)
              → g < 2 ^ 32
              → has_pair g p gs ps
                ≡ (has_text (decimal g) names && is_value (frame_of fs g none) p))
    unfolding read_frames
    read_frames-pairs [] named = ([], [], refl, λ g p h. refl)
    read_frames-pairs (n ∷ ns) (hn, named) =
        let (h, q, hh, hq, e, f, v) = frame-at fs n small hn in
        let (gs, ps, r, each) = read_frames-pairs ns named in
        (
          h ∷ gs,
          q ∷ ps,
          rw
              (
                ap number e ∙ number-decimal h (omega arith),
                unsigned_int-small h hh,
                read_int-some s (join dir n) q (stored n ∙ v) hq,
                unsigned_long-small q hq,
                r,
              )
              refl,
          λ g p hg.
              ap (λ b. (h == g) && (q == p) || b) (each g p hg)
              ∙ pair_first h q g p f (has_text (decimal g) ns)
              ∙ ap (λ b. (b || has_text (decimal g) ns) && is_value (frame_of fs g none) p)
                  (sym (
                    ap (λ t. text_eq t (decimal g)) e
                    ∙ text_eq-decimal h g (omega arith) (omega arith))),
        )
      where
        pair_first :
            (h q g p : ℕ)
            → frame_of fs h none ≡ some q
            → (b : Bool)
            → ((h == g) && (q == p) || b && is_value (frame_of fs g none) p)
              ≡ (((h == g) || b) && is_value (frame_of fs g none) p)
        pair_first h q g p f b = elim (Bool-cases (h == g)) [
          | inr e ↦ rw e refl
          | inl e ↦
              let same = ap (λ k. frame_of fs k none) (sym ((==_iff h g).0 e)) ∙ f in
              rw (e, same) (absorb (q == p) b)
        ]
          where
            absorb : (a b : Bool) → (a || b && a) ≡ a
            absorb true b = refl
            absorb false true = refl
            absorb false false = refl
