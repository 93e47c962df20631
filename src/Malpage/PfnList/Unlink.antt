-- ===== src/Malpage/PfnList/Unlink.antt =====
-- One round of the inner loop of pfnlist_mkunique: the first later node with a number is found
-- through its parent, unlinked and freed.
use maitland.Base.{
  ℕ, zero, suc, ◌<◌, ◌≡◌, refl, ◌==◌, ◌||◌, Bool, true, false, if◌then◌else◌, none, some, [], ◌∷◌,
  length, ok, arith, Bool-cases, inl, inr, Returns, returns, Returns-mono,
}
use maitland.Malpage.PfnList.{node, Heap, write, find_parent_of, unlink}
use maitland.Malpage.PfnList.Chain.{Cells, root, has_addr, Chain, load-Chain, Chain-frame}

abbrev pub has_pfn : ℕ → Cells → Bool
has_pfn n [] = false
has_pfn n ((a, v) ∷ xs) = (v == n) || has_pfn n xs

abbrev pub remove_first : ℕ → Cells → Cells
remove_first n [] = []
remove_first n ((a, v) ∷ xs) = if v == n then xs else (a, v) ∷ remove_first n xs

-- The parent of the first node with the number; `b` is the parent of the list.
abbrev pub parent_of : ℕ → Cells → ℕ → ℕ
parent_of b [] n = 0
parent_of b ((a, v) ∷ xs) n = if v == n then b else parent_of a xs n

pub find_parent_of-parent_of :
    (k : ℕ) (h : Heap) (b w : ℕ) (xs : Cells) (n : ℕ)
    → Chain h ((b, w) ∷ xs)
    → length xs < k
    → find_parent_of k h b (root xs) n ≡ ok (parent_of b xs n)
unfolding find_parent_of
find_parent_of-parent_of zero h b w xs n c fuel = absurd (omega arith)
find_parent_of-parent_of (suc k) h b w [] n c fuel = refl
find_parent_of-parent_of (suc k) h b w ((a, v) ∷ xs) n (bpos, be, bout, (pos, e, out, c)) fuel =
    ground (
      arith,
      load-Chain h b w a bpos be,
      load-Chain h a v (root xs) pos e,
      find_parent_of-parent_of k h a v xs n (pos, e, out, c),
    )

-- The parent is NULL exactly if no node has the number.
pub parent_of-pos :
    (b : ℕ) (xs : Cells) (n : ℕ) (h : Heap)
    → 0 < b
    → Chain h xs
    → (parent_of b xs n == 0) ≡ (if has_pfn n xs then false else true)
parent_of-pos b [] n h pos c = refl
parent_of-pos b ((a, v) ∷ xs) n h pos (apos, e, out, c) =
    ground (arith, parent_of-pos a xs n h apos c)

-- A list in the heap shrank: the new list is there, the addresses outside the old one hold what
-- they held, and the nodes that left the list are freed.
pub record Shrinks (h : Heap) (xs : Cells) (h' : Heap) (ys : Cells) : Type 0 where
  pub chain : Chain h' ys
  pub part : (a : ℕ) → has_addr a ys ≡ true → has_addr a xs ≡ true
  pub same : (a : ℕ) → has_addr a xs ≡ false → h' a ≡ h a
  pub freed : (a : ℕ) → has_addr a xs ≡ true → has_addr a ys ≡ false → h' a ≡ none

pub Shrinks-refl : (h : Heap) (xs : Cells) → Chain h xs → Shrinks h xs h xs
Shrinks-refl h xs c = record {
  chain = c;
  part = λ a i. i;
  same = λ a o. refl;
  freed = λ a i o. ground (arith, i, o);
}

pub Shrinks-trans :
    {h h' h'' : Heap} {xs ys zs : Cells}
    → Shrinks h xs h' ys
    → Shrinks h' ys h'' zs
    → Shrinks h xs h'' zs
Shrinks-trans {ys} s t = record {
  chain = t.chain;
  part = λ a i. s.part a (t.part a i);
  same = λ a o. ground (arith, s.same a, t.same a, s.part a, Bool-cases (has_addr a ys));
  freed = λ a i o. ground (arith, s.freed a, t.freed a, t.same a, Bool-cases (has_addr a ys));
}

-- A shrinking behind a node that keeps its successor.
pub Shrinks-cons :
    {h h' : Heap} {xs ys : Cells} (b w : ℕ)
    → Chain h ((b, w) ∷ xs)
    → root ys ≡ root xs
    → Shrinks h xs h' ys
    → Shrinks h ((b, w) ∷ xs) h' ((b, w) ∷ ys)
Shrinks-cons {ys} b w (pos, e, out, c) next s = record {
  chain = (
    pos,
    ground (arith, s.same b, next),
    ground (arith, s.part b, Bool-cases (has_addr b ys)),
    s.chain,
  );
  part = λ a i. ground (arith, s.part a);
  same = λ a o. ground (arith, s.same a);
  freed = λ a i o. ground (arith, s.freed a);
}

-- The heap behind an unlinking of the node `a` after `b`.
bypassed : Heap → ℕ → ℕ → ℕ → ℕ → Heap
unfolding write
bypassed h b w a next = write (write h b (some (node w next))) a none

unlink-bypassed :
    (h : Heap) (b w a v next : ℕ)
    → 0 < b
    → h b ≡ some (node w a)
    → 0 < a
    → h a ≡ some (node v next)
    → (b == a) ≡ false
    → unlink h b ≡ ok (bypassed h b w a next)
unfolding unlink bypassed
unlink-bypassed h b w a v next bpos be pos e apart = ground (arith, be, e, apart)

bypassed-Shrinks :
    (h : Heap) (b w a v : ℕ) (xs : Cells)
    → Chain h ((b, w) ∷ (a, v) ∷ xs)
    → Shrinks h ((b, w) ∷ (a, v) ∷ xs) (bypassed h b w a (root xs)) ((b, w) ∷ xs)
unfolding bypassed
bypassed-Shrinks h b w a v xs (bpos, be, bout, (pos, e, out, c)) = record {
  chain = (bpos, ground arith, ground arith, Chain-frame h _ xs c (λ x i. ground arith));
  part = λ x i. ground arith;
  same = λ x o. ground arith;
  freed = λ x i o. ground arith;
}

-- For a number that occurs behind the first node of a list, and given the parent of the first such
-- node, the round takes that node out of the list,
-- frees it, and changes nothing but the parent's pointer besides.
pub unlink-Shrinks :
    (h : Heap) (b w : ℕ) (xs : Cells) (n : ℕ)
    → Chain h ((b, w) ∷ xs)
    → has_pfn n xs ≡ true
    → Returns
        (λ h'. Shrinks h ((b, w) ∷ xs) h' ((b, w) ∷ remove_first n xs))
        (unlink h (parent_of b xs n))
unlink-Shrinks h b w [] n c found = cc
unlink-Shrinks h b w ((a, v) ∷ xs) n c found =
    let (bpos, be, bout, (pos, e, out, rest)) = c in
    elim (Bool-cases (v == n)) [
      | inl hit ↦
          rw (hit, unlink-bypassed h b w a v (root xs) bpos be pos e (ground (arith, bout)))
            (returns (bypassed-Shrinks h b w a v xs c))
      | inr miss ↦ rw miss (
          Returns-mono (unlink-Shrinks h a v xs n c.3 (ground (arith, found, miss)))
            λ h' s. Shrinks-cons b w c refl s)
    ]
