-- ===== src/Base/Bytes.antt =====
-- Texts as lists of bytes: decimal numbers as sprintf's "%u" and "%lu" print them and as they are
-- read back, a separated text, and the directory part of a path.
use Prim.Native.Char.{code}
use Prim.Native.String.{String}
use Prim.Native.Nat.{ℕ, zero, suc, ◌+◌, ◌-◌, ◌*◌, ◌/◌, ◌%◌, ◌^◌, ◌<◌, ◌≤◌}
use mathlib.Core.Path.{◌≡◌, refl, sym, ap, ◌∙◌}
use mathlib.Core.Logic.{◌⊎◌, inl, inr}
use mathlib.Core.Bool.{Bool, true, false, ◌&&◌, ◌||◌}
use mathlib.Core.List.{List, [], ◌∷◌, ◌++◌, append_assoc, append-nil}
use mathlib.Core.Option.{Option, none, some}
use native.Mathlib.Omega.{arith}
use maitland.Base.Tests.{Bool-cases, ltb, leb, ◌==◌, ==_refl, ==_iff, if◌then◌else◌}
use maitland.Base.Lists.{length, length-append, has}

abbrev pub Text : Type 0
Text = List ℕ

-- A literal.
abbrev pub codes : String → Text
codes String.[] = []
codes (String.◌∷◌ c s) = code c ∷ codes s

abbrev pub text_eq : Text → Text → Bool
text_eq [] [] = true
text_eq [] (d ∷ t) = false
text_eq (c ∷ s) [] = false
text_eq (c ∷ s) (d ∷ t) = (c == d) && text_eq s t

pub text_eq_refl : (s : Text) → text_eq s s ≡ true
text_eq_refl [] = refl
text_eq_refl (c ∷ s) = ground (arith, text_eq_refl s)

pub eq_of_text_eq : (s t : Text) → text_eq s t ≡ true → s ≡ t
eq_of_text_eq [] [] h = refl
eq_of_text_eq [] (d ∷ t) h = cc
eq_of_text_eq (c ∷ s) [] h = cc
eq_of_text_eq (c ∷ s) (d ∷ t) h = ground (arith, eq_of_text_eq s t)

-- A common beginning does not matter.
pub text_eq-append : (w s t : Text) → text_eq (w ++ s) (w ++ t) ≡ text_eq s t
text_eq-append [] s t = refl
text_eq-append (c ∷ w) s t = ground (arith, text_eq-append w s t)

-- The last `k` decimal digits of a number, without leading zeros.
unfoldable pub digits : ℕ → ℕ → Text
digits zero n = []
digits (suc k) n =
    let rest = digits k (n / 10) in (if ltb n 10 then [] else rest) ++ ((b'0' + n % 10) ∷ [])

-- Twenty digits are enough for 64 bits.
unfoldable pub decimal : ℕ → Text
decimal n = digits 20 n

-- The number that a text of digits spells behind `acc`.
pub number_from : ℕ → Text → Option ℕ
number_from acc [] = some acc
number_from acc (c ∷ s) =
    if leb b'0' c && leb c b'9' then number_from (acc * 10 + (c - b'0')) s else none

-- `int(s)` in Python, for a text without sign and spaces.
pub number : Text → Option ℕ
unfolding number_from
number [] = none
number (c ∷ s) = number_from 0 (c ∷ s)

-- 10 to a power.
abbrev pub tens : ℕ → ℕ
tens zero = 1
tens (suc k) = 10 * tens k

number_from-digits :
    (k n : ℕ) (s : Text) → n < tens k → number_from 0 (digits k n ++ s) ≡ number_from n s
unfolding digits number_from
number_from-digits zero n s small = let e : n ≡ 0 = omega arith in rw e refl
number_from-digits (suc k) n s small = ground (
  arith,
  append_assoc (digits k (n / 10)) ((b'0' + n % 10) ∷ []) s,
  number_from-digits k (n / 10) ((b'0' + n % 10) ∷ s),
)

-- The number of digits.
length-digits : (k d n : ℕ) → n < tens (suc d) → length (digits k n) ≤ suc d
unfolding digits
length-digits zero d n small = omega arith
length-digits (suc k) zero n small = ground arith
length-digits (suc k) (suc d) n small =
    ground
      (arith, length-append (digits k (n / 10)) ((b'0' + n % 10) ∷ []), length-digits k d (n / 10))

length-digits_pos : (k n : ℕ) → 0 < length (digits (suc k) n)
unfolding digits
length-digits_pos k n = ground (arith, length-append (digits k (n / 10)) ((b'0' + n % 10) ∷ []))

pub length-decimal : (d n : ℕ) → n < tens (suc d) → length (decimal n) ≤ suc d
unfolding decimal
length-decimal d n small = length-digits 20 d n small

pub length-decimal_pos : (n : ℕ) → 0 < length (decimal n)
unfolding decimal
length-decimal_pos n = length-digits_pos 19 n

pub number-decimal : (n : ℕ) → n < 2 ^ 64 → number (decimal n) ≡ some n
unfolding number decimal
number-decimal n small =
    let read = number_from-digits 20 n [] (omega arith) in
    number-number_from (digits 20 n) (length-digits_pos 19 n)
    ∙ ap (number_from 0) (sym (append-nil (digits 20 n)))
    ∙ read
  where
    number-number_from : (s : Text) → 0 < length s → number s ≡ number_from 0 s
    number-number_from [] h = absurd (omega arith)
    number-number_from (c ∷ s) h = refl

pub text_eq-decimal :
    (a b : ℕ) → a < 2 ^ 64 → b < 2 ^ 64 → text_eq (decimal a) (decimal b) ≡ (a == b)
text_eq-decimal a b ha hb = elim (Bool-cases (a == b)) [
  | inl same ↦ let e = (==_iff a b).0 same in rw (e, ==_refl b) (text_eq_refl (decimal b))
  | inr differ ↦ elim (Bool-cases (text_eq (decimal a) (decimal b))) [
    | inl alike ↦
        let e = ap number (eq_of_text_eq (decimal a) (decimal b) alike) in
        ground (arith, e, number-decimal a ha, number-decimal b hb)
    | inr unlike ↦ rw (differ, unlike) refl
  ]
]

-- A byte that is no digit is in no number.
has-append : (c : ℕ) (s t : Text) → has c (s ++ t) ≡ (has c s || has c t)
has-append c [] t = refl
has-append c (d ∷ s) t = ground (arith, has-append c s t)

has-digits : (c k n : ℕ) → (c < b'0') ⊎ (b'9' < c) → has c (digits k n) ≡ false
unfolding digits
has-digits c zero n h = refl
has-digits c (suc k) n h =
    ground
      (arith, has-append c (digits k (n / 10)) ((b'0' + n % 10) ∷ []), has-digits c k (n / 10) h)

pub has-decimal : (c n : ℕ) → (c < b'0') ⊎ (b'9' < c) → has c (decimal n) ≡ false
unfolding decimal
has-decimal c n h = has-digits c 20 n h
