-- ===== src/Base/Split.antt =====
-- Texts taken apart at a separator, as Python does it: the parts of a text, and the directory part of
-- a path.
use Prim.Native.Nat.{ℕ, zero, suc, ◌≤◌}
use mathlib.Core.Path.{◌≡◌, refl}
use mathlib.Core.Bool.{false}
use mathlib.Core.List.{List, [], ◌∷◌, ◌++◌}
use mathlib.Core.Option.{Option, none, some}
use native.Mathlib.Omega.{arith}
use maitland.Base.Tests.{◌==◌, if◌then◌else◌}
use maitland.Base.Lists.{has, length}
use maitland.Base.Bytes.{Text}

-- `s.split(sep)` in Python.
pub before : ℕ → Text → Text
before sep [] = []
before sep (c ∷ s) = let rest = before sep s in if c == sep then [] else c ∷ rest

pub length-before : (sep : ℕ) (s : Text) → length (before sep s) ≤ length s
unfolding before
length-before sep [] = omega arith
length-before sep (c ∷ s) = ground (arith, length-before sep s)

behind : ℕ → Text → Option Text
behind sep [] = none
behind sep (c ∷ s) = let rest = behind sep s in if c == sep then some s else rest

-- The first `k` parts.
pub split : ℕ → ℕ → Text → List Text
unfolding before behind
split zero sep s = []
split (suc k) sep s =
    before sep s ∷ (elim (behind sep s) [ none ↦ [] | some rest ↦ split k sep rest ])

before-append : (sep : ℕ) (w s : Text) → has sep w ≡ false → before sep (w ++ (sep ∷ s)) ≡ w
unfolding before
before-append sep [] s h = ground arith
before-append sep (c ∷ w) s h = ground (arith, before-append sep w s)

behind-append : (sep : ℕ) (w s : Text) → has sep w ≡ false → behind sep (w ++ (sep ∷ s)) ≡ some s
unfolding behind
behind-append sep [] s h = ground arith
behind-append sep (c ∷ w) s h = ground (arith, behind-append sep w s)

pub split-append :
    (k sep : ℕ) (w s : Text)
    → has sep w ≡ false
    → split (suc k) sep (w ++ (sep ∷ s)) ≡ w ∷ split k sep s
unfolding split
split-append k sep w s h = rw (before-append sep w s h, behind-append sep w s h)

pub split-last : (sep : ℕ) (s : Text) → split 1 sep s ≡ before sep s ∷ []
unfolding split
split-last sep s = none_more (behind sep s)
  where
    none_more :
        (o : Option Text)
        → (before sep s ∷ (elim o [ none ↦ [] | some rest ↦ split 0 sep rest ])) ≡ before sep s ∷ []
    none_more none = refl
    none_more (some rest) = refl

-- `path.rsplit("/", 1)[0]` in Python: the text before the last separator, or all of it.
before_last : ℕ → Text → Option Text
before_last sep [] = none
before_last sep (c ∷ s) = elim (before_last sep s) [
  | some w ↦ some (c ∷ w)
  | none ↦ if c == sep then some [] else none
]

pub parent : Text → Text
unfolding before_last
parent path = elim (before_last b'/' path) [ none ↦ path | some w ↦ w ]

before_last-absent : (sep : ℕ) (s : Text) → has sep s ≡ false → before_last sep s ≡ none
unfolding before_last
before_last-absent sep [] h = refl
before_last-absent sep (c ∷ s) h = ground (arith, before_last-absent sep s)

before_last-append :
    (sep : ℕ) (w s : Text) → has sep s ≡ false → before_last sep (w ++ (sep ∷ s)) ≡ some w
unfolding before_last
before_last-append sep [] s h = ground (arith, before_last-absent sep s h)
before_last-append sep (c ∷ w) s h = rw (before_last-append sep w s h)

pub parent-append : (w s : Text) → has b'/' s ≡ false → parent (w ++ (b'/' ∷ s)) ≡ w
unfolding parent
parent-append w s h = rw (before_last-append b'/' w s h, parent)
