-- ===== src/Malpage/PfnList/Unique.antt =====
-- pfnlist_mkunique as a whole: it keeps the first node of each frame number and frees the others.
use maitland.Base.{
  ℕ, zero, suc, ◌+◌, ◌<◌, ◌≡◌, refl, sym, ap, ◌∙◌, subst, ◌==◌, true, false, if◌then◌else◌, [], ◌∷◌,
  length, arith, Bool-cases, inl, inr, Returns, returns, Returns-mono, Returns-bind, ==_iff,
}
use maitland.Malpage.PfnList.{Heap, inner_loop, outer_loop, pfnlist_mkunique}
use maitland.Malpage.PfnList.Chain.{Cells, root, Chain, load-Chain}
use maitland.Malpage.PfnList.Unlink.{
  has_pfn, remove_first, parent_of, find_parent_of-parent_of, parent_of-pos, Shrinks, Shrinks-refl,
  Shrinks-trans, Shrinks-cons, unlink-Shrinks,
}

abbrev pub without : ℕ → Cells → Cells
without n [] = []
without n ((a, v) ∷ xs) = if v == n then without n xs else (a, v) ∷ without n xs

-- The first node of each number, in order.
abbrev pub firsts : Cells → Cells
firsts [] = []
firsts ((a, v) ∷ xs) = (a, v) ∷ without v (firsts xs)

without-absent : (n : ℕ) (xs : Cells) → has_pfn n xs ≡ false → without n xs ≡ xs
without-absent n [] e = refl
without-absent n ((a, v) ∷ xs) e = ground (arith, without-absent n xs)

without-remove_first : (n : ℕ) (xs : Cells) → without n (remove_first n xs) ≡ without n xs
without-remove_first n [] = refl
without-remove_first n ((a, v) ∷ xs) = ground (arith, without-remove_first n xs)

length-remove_first :
    (n : ℕ) (xs : Cells) → has_pfn n xs ≡ true → length (remove_first n xs) + 1 ≡ length xs
length-remove_first n [] e = cc
length-remove_first n ((a, v) ∷ xs) e = ground (arith, length-remove_first n xs)

length-without : (n : ℕ) (xs : Cells) → length (without n xs) < length xs + 1
length-without n [] = omega arith
length-without n ((a, v) ∷ xs) = ground (arith, length-without n xs)

without-twice : (n : ℕ) (xs : Cells) → without n (without n xs) ≡ without n xs
without-twice n [] = refl
without-twice n ((a, v) ∷ xs) = ground (arith, without-twice n xs)

without_comm : (n k : ℕ) (xs : Cells) → without n (without k xs) ≡ without k (without n xs)
without_comm n k [] = refl
without_comm n k ((a, v) ∷ xs) = ground (arith, without_comm n k xs)

-- To drop a number before or after the others makes no difference.
firsts-without : (n : ℕ) (xs : Cells) → firsts (without n xs) ≡ without n (firsts xs)
firsts-without n [] = refl
firsts-without n ((a, v) ∷ xs) = elim (Bool-cases (v == n)) [
  | inl e ↦
      let same = (==_iff v n).0 e in
      rw e (
        firsts-without n xs
        ∙ sym (without-twice n (firsts xs))
        ∙ ap (λ m. without n (without m (firsts xs))) (sym same))
  | inr e ↦ rw e (
      ap (λ l. (a, v) ∷ without v l) (firsts-without n xs)
      ∙ ap (λ l. (a, v) ∷ l) (without_comm v n (firsts xs)))
]

inner_loop-without :
    (fuel k : ℕ) (h : Heap) (b w : ℕ) (xs : Cells) (removed : ℕ)
    → Chain h ((b, w) ∷ xs)
    → length xs < fuel
    → length xs < k
    → Returns
        (λ (h', r).
          Shrinks h ((b, w) ∷ xs) h' ((b, w) ∷ without w xs)
          × (r + length (without w xs) ≡ removed + length xs))
        (inner_loop fuel k h b removed)
unfolding inner_loop
inner_loop-without fuel zero h b w xs removed c enough rounds = absurd (omega arith)
inner_loop-without fuel (suc k) h b w xs removed c enough rounds =
    rw (load-Chain h b w (root xs) c.0 c.1, find_parent_of-parent_of fuel h b w xs w c enough)
      (elim (Bool-cases (has_pfn w xs)) [
        | inl found ↦
            let some_parent : (parent_of b xs w == 0) ≡ false =
              parent_of-pos b xs w h c.0 c.3 ∙ rw found in
            let shorter = length-remove_first w xs found in
            rw some_parent (
              Returns-bind (unlink-Shrinks h b w xs w c found) λ h' s.
                Returns-mono
                  (inner_loop-without fuel k h' b w (remove_first w xs) (removed + 1) s.chain
                    (omega (arith, shorter)) (omega (arith, shorter)))
                  λ (h'', r) (t, count). (
                    Shrinks-trans s (
                        subst (λ l. Shrinks h' ((b, w) ∷ remove_first w xs) h'' ((b, w) ∷ l))
                          (without-remove_first w xs) t),
                    rw (← without-remove_first w xs) (omega (arith, count, shorter)),
                  ))
        | inr absent ↦
            let no_parent : (parent_of b xs w == 0) ≡ true =
              parent_of-pos b xs w h c.0 c.3 ∙ rw absent in
            rw (no_parent, without-absent w xs absent) (returns (Shrinks-refl h _ c, refl))
      ])

pub root-firsts : (xs : Cells) → root (firsts xs) ≡ root xs
root-firsts [] = refl
root-firsts ((a, v) ∷ xs) = refl

outer_loop-firsts :
    (fuel k : ℕ) (h : Heap) (xs : Cells) (removed : ℕ)
    → Chain h xs
    → length xs < fuel
    → length xs < k
    → Returns
        (λ (h', r). Shrinks h xs h' (firsts xs) × (r + length (firsts xs) ≡ removed + length xs))
        (outer_loop fuel k h (root xs) removed)
unfolding outer_loop
outer_loop-firsts fuel zero h xs removed c enough rounds = absurd (omega arith)
outer_loop-firsts fuel (suc k) h [] removed c enough rounds = returns (Shrinks-refl h [] c, refl)
outer_loop-firsts fuel (suc k) h ((b, w) ∷ xs) removed c enough rounds =
    let head : (b == 0) ≡ false = ground (arith, c.0) in
    let shorter = length-without w xs in
    rw head (
      Returns-bind (inner_loop-without fuel fuel h b w xs removed c (omega arith) (omega arith))
        λ (h', r) (s, count). rw (load-Chain h' b w (root (without w xs)) s.chain.0 s.chain.1) (
          Returns-mono
            (outer_loop-firsts fuel k h' (without w xs) r s.chain.3 (omega arith) (omega arith))
            λ (h'', r') (t, count'). (
              Shrinks-trans s (
                  subst (λ l. Shrinks h' ((b, w) ∷ without w xs) h'' ((b, w) ∷ l))
                    (firsts-without w xs)
                    (Shrinks-cons b w s.chain (root-firsts (without w xs)) t)),
              rw (← firsts-without w xs) (omega (arith, count, count')),
            )))

-- With more fuel than nodes, pfnlist_mkunique ends without a fault. The list is then the first node
-- of each frame number, in their order and at their addresses; every other node of the list is
-- freed, no other memory is changed, and the result is the number of freed nodes.
pub pfnlist_mkunique-firsts :
    (fuel : ℕ) (h : Heap) (xs : Cells)
    → Chain h xs
    → length xs < fuel
    → Returns
        (λ (h', r). Shrinks h xs h' (firsts xs) × (r + length (firsts xs) ≡ length xs))
        (pfnlist_mkunique fuel h (root xs))
unfolding pfnlist_mkunique
pfnlist_mkunique-firsts fuel h xs c enough =
    Returns-mono (outer_loop-firsts fuel fuel h xs 0 c enough enough)
      λ (h', r) (s, count). (s, omega (arith, count))
