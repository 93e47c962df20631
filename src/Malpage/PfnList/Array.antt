-- ===== src/Malpage/PfnList/Array.antt =====
-- pfnlist_mkarray: the numbers of a list in an array.
use mathlib.Core.List.{append_assoc}
use maitland.Base.{
  ℕ, zero, suc, ◌+◌, ◌<◌, ◌≡◌, refl, ap, ◌∙◌, subst, ◌==◌, ◌&&◌, not, true, ltb, List, [], ◌∷◌,
  ◌++◌, set, length, length-append, ok, arith,
}
use maitland.Malpage.PfnList.{Heap, zeros, array_loop, pfnlist_mkarray}
use maitland.Malpage.PfnList.Chain.{Cells, root, Chain, load-Chain}

-- An array of `n` words that starts with the numbers of the list and is zero behind them.
abbrev pub filled : ℕ → Cells → List ℕ
filled zero xs = []
filled (suc n) [] = 0 ∷ zeros n
filled (suc n) ((a, v) ∷ xs) = v ∷ filled n xs

pub set-append :
    (before : List ℕ) (old : ℕ) (after : List ℕ) (v i : ℕ)
    → i ≡ length before
    → set (before ++ (old ∷ after)) i v ≡ before ++ (v ∷ after)
set-append [] old after v zero e = refl
set-append [] old after v (suc i) e = absurd (omega arith)
set-append (x ∷ before) old after v zero e = absurd (omega arith)
set-append (x ∷ before) old after v (suc i) e =
    ap (λ l. x ∷ l) (set-append before old after v i (omega arith))

filled-nil : (n : ℕ) → filled n [] ≡ zeros n
filled-nil zero = refl
filled-nil (suc n) = refl

array_loop-filled :
    (k : ℕ) (h : Heap) (xs : Cells) (before : List ℕ) (n size count : ℕ)
    → Chain h xs
    → count ≡ length before
    → size ≡ count + n
    → length xs < k
    → array_loop k h size (root xs) count (before ++ zeros n) ≡ ok (before ++ filled n xs)
unfolding array_loop
array_loop-filled zero h xs before n size count c at_end room fuel = absurd (omega arith)
array_loop-filled (suc k) h [] before n size count c at_end room fuel =
    rw (filled-nil n) (ground arith)
array_loop-filled (suc k) h ((a, v) ∷ xs) before zero size count c at_end room fuel =
    ground (arith, room)
array_loop-filled (suc k) h ((a, v) ∷ xs) before (suc n) size count c at_end room fuel =
    let more : (ltb count size && not (a == 0)) ≡ true = ground (arith, c.0, room) in
    rw (more, load-Chain h a v (root xs) c.0 c.1, set-append before 0 (zeros n) v count at_end)
      (subst (λ l. array_loop k h size (root xs) (count + 1) l ≡ ok (before ++ (v ∷ filled n xs)))
        (append_assoc before (v ∷ []) (zeros n))
        (array_loop-filled k h xs (before ++ (v ∷ [])) n size (count + 1) c.3
            (omega (arith, at_end, length-append before (v ∷ []))) (omega (arith, room))
            (omega arith)
          ∙ ap ok (append_assoc before (v ∷ []) (filled n xs))))

-- With more fuel than nodes, pfnlist_mkarray ends without a fault, and its array has the length that
-- was asked for: the first numbers of the list, and zeros if the list is shorter.
pub pfnlist_mkarray-filled :
    (fuel : ℕ) (h : Heap) (xs : Cells) (n : ℕ)
    → Chain h xs
    → length xs < fuel
    → pfnlist_mkarray fuel h (root xs) n ≡ ok (filled n xs)
unfolding pfnlist_mkarray
pfnlist_mkarray-filled fuel h xs n c enough =
    array_loop-filled fuel h xs [] n n 0 c refl (omega arith) enough
