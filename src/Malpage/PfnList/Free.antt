-- ===== src/Malpage/PfnList/Free.antt =====
-- What free_pfn_ll frees.
use maitland.Base.{
  ℕ, zero, suc, ◌<◌, ◌≡◌, refl, sym, subst, ◌==◌, false, Bool-cases, inl, inr, none, some, [], ◌∷◌,
  length, ok, Returns, returns, Returns-mono, arith, ==_iff,
}
use maitland.Malpage.PfnList.{node, Heap, write, free, free_pfn_ll}
use maitland.Malpage.PfnList.Chain.{Cells, root, has_addr, Chain, load-Chain, Chain-frame}
use maitland.Malpage.PfnList.Unlink.{Shrinks, Shrinks-refl}

-- The heap without the first node of the list.
erased : Heap → ℕ → Heap
unfolding write
erased h a = write h a none

free-erased :
    (h : Heap) (a v next : ℕ) → 0 < a → h a ≡ some (node v next) → free h a ≡ ok (erased h a)
unfolding free erased
free-erased h a v next pos e = ground (arith, load-Chain h a v next pos e)

erased-Chain :
    (h : Heap) (a : ℕ) (xs : Cells) → has_addr a xs ≡ false → Chain h xs → Chain (erased h a) xs
unfolding erased write
erased-Chain h a xs out c = Chain-frame h (erased h a) xs c λ b i. elim (Bool-cases (b == a)) [
  | inl e ↦ let same = (==_iff b a).0 e in ground (arith, out, i, same)
  | inr e ↦ rw e refl
]

erased-Shrinks :
    (h h' : Heap) (a v : ℕ) (xs : Cells)
    → has_addr a xs ≡ false
    → Shrinks (erased h a) xs h' []
    → Shrinks h ((a, v) ∷ xs) h' []
unfolding erased write
erased-Shrinks h h' a v xs out s = record {
  chain = tt;
  part = λ b i. ground (arith, i);
  same = λ b o. ground (arith, o, s.same b);
  freed = λ b i o. elim (Bool-cases (has_addr b xs)) [
    | inl inside ↦ s.freed b inside refl
    | inr outside ↦ ground (arith, i, s.same b outside, outside)
  ];
}

free_pfn_ll-cons :
    (k : ℕ) (h : Heap) (a v : ℕ) (xs : Cells)
    → 0 < a
    → h a ≡ some (node v (root xs))
    → free_pfn_ll (suc k) h a ≡ free_pfn_ll k (erased h a) (root xs)
unfolding free_pfn_ll
free_pfn_ll-cons k h a v xs pos e =
    ground (arith, load-Chain h a v (root xs) pos e, free-erased h a v (root xs) pos e)

-- With more fuel than nodes, free_pfn_ll ends without a fault: it frees every node of the list once,
-- and changes no other memory.
pub free_pfn_ll-Shrinks :
    (fuel : ℕ) (h : Heap) (xs : Cells)
    → Chain h xs
    → length xs < fuel
    → Returns (λ h'. Shrinks h xs h' []) (free_pfn_ll fuel h (root xs))
unfolding free_pfn_ll
free_pfn_ll-Shrinks zero h xs c enough = absurd (omega arith)
free_pfn_ll-Shrinks (suc k) h [] c enough = returns (Shrinks-refl h [] tt)
free_pfn_ll-Shrinks (suc k) h ((a, v) ∷ xs) (pos, e, out, c) enough =
    subst (Returns (λ h'. Shrinks h ((a, v) ∷ xs) h' [])) (sym (free_pfn_ll-cons k h a v xs pos e))
      (Returns-mono
        (free_pfn_ll-Shrinks k (erased h a) xs (erased-Chain h a xs out c) (omega arith))
        λ h' s. erased-Shrinks h h' a v xs out s)
