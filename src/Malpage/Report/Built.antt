-- ===== src/Malpage/Report/Built.antt =====
-- The list that pfnlist_vmarea builds.
use mathlib.Core.List.{append_assoc, append-nil}
use maitland.Base.{
  ℕ, ◌+◌, ◌<◌, ◌≤◌, Bool-cases, ==_iff, inl, inr, ◌≡◌, refl, sym, ap, ◌∙◌, subst, ◌==◌, ◌||◌, false,
  none, some, List, [], ◌∷◌, ◌++◌, ok, Returns, returns, Returns-mono, arith,
}
use maitland.Malpage.PfnList.{Heap, node, write, load}
use maitland.Malpage.PfnList.Chain.{Cells, root, has_addr, Chain}
use maitland.Malpage.Report.{Builder, append_node, build}

-- The numbers of a list.
abbrev pub nums : Cells → List ℕ
nums [] = []
nums ((a, v) ∷ xs) = v ∷ nums xs

-- From the `i`-th on, allocations succeed, at addresses that are not in use and differ.
pub record Fresh (alloc : ℕ → ℕ) (i : ℕ) (h : Heap) : Type 0 where
  pub found : (j : ℕ) → i ≤ j → 0 < alloc j
  pub unused : (j : ℕ) → i ≤ j → h (alloc j) ≡ none
  pub distinct : (j k : ℕ) → alloc j ≡ alloc k → j ≡ k

-- The heap with a node for `mfn` at `p` behind the last node, of number `w` at `t`.
linked : Heap → ℕ → ℕ → ℕ → ℕ → Heap
linked h t w p mfn =
    write (write (write h p (some (node mfn 0))) t (some (node w p))) p (some (node mfn 0))

pub root-snoc : (xs ys : Cells) (c : ℕ × ℕ) → root (xs ++ (c ∷ ys)) ≡ root (xs ++ (c ∷ []))
root-snoc [] ys c = refl
root-snoc (x ∷ xs) ys c = refl

pub has_addr-append :
    (a : ℕ) (xs ys : Cells) → has_addr a (xs ++ ys) ≡ (has_addr a xs || has_addr a ys)
has_addr-append a [] ys = refl
has_addr-append a ((b, v) ∷ xs) ys = ground (arith, has_addr-append a xs ys)

pub nums-append : (xs ys : Cells) → nums (xs ++ ys) ≡ nums xs ++ nums ys
nums-append [] ys = refl
nums-append ((a, v) ∷ xs) ys = ap (λ l. v ∷ l) (nums-append xs ys)

linked-Chain :
    (h : Heap) (xs : Cells) (t w p mfn : ℕ)
    → Chain h (xs ++ ((t, w) ∷ []))
    → 0 < p
    → h p ≡ none
    → Chain (linked h t w p mfn) (xs ++ ((t, w) ∷ (p, mfn) ∷ []))
unfolding linked write
linked-Chain h [] t w p mfn (tpos, e, out, c) pos free =
    let apart : (t == p) ≡ false = ground (arith, e, free) in
    (tpos, ground (arith, apart), ground (arith, apart), (pos, ground arith, refl, tt))
linked-Chain h ((a, v) ∷ xs) t w p mfn (apos, e, out, c) pos free =
    let apart : (a == p) ≡ false = ground (arith, e, free) in
    let not_last = has_addr-append a xs ((t, w) ∷ []) in
    let later = has_addr-append a xs ((t, w) ∷ (p, mfn) ∷ []) in
    (
      apos,
      ground (arith, apart, not_last, out, e, root-snoc xs ((p, mfn) ∷ []) (t, w)),
      ground (arith, apart, not_last, out, later),
      linked-Chain h xs t w p mfn c pos free,
    )

-- The locals of the loop, when the list ends with the node of number `w` at `t`.
record Grown (b : Builder) (xs : Cells) (t w : ℕ) : Type 0 where
  pub chain : Chain b.heap (xs ++ ((t, w) ∷ []))
  pub at_root : b.pfn_root ≡ root (xs ++ ((t, w) ∷ []))
  pub at_tail : b.pfn_tail ≡ t

-- Every node of a list in the heap is at a positive address.
root-pos :
    (h : Heap) (xs : Cells) (t w : ℕ)
    → Chain h (xs ++ ((t, w) ∷ []))
    → 0 < root (xs ++ ((t, w) ∷ []))
root-pos h [] t w c = c.0
root-pos h (x ∷ xs) t w c = c.0

pub last-cell :
    (h : Heap) (xs : Cells) (t w : ℕ)
    → Chain h (xs ++ ((t, w) ∷ []))
    → (0 < t) × (h t ≡ some (node w 0))
last-cell h [] t w (pos, e, out, c) = (pos, e)
last-cell h (x ∷ xs) t w (pos, e, out, c) = last-cell h xs t w c

append_node-linked :
    (b : Builder) (xs : Cells) (t w p mfn : ℕ)
    → Grown b xs t w
    → 0 < p
    → b.heap p ≡ none
    → append_node p mfn b
      ≡ ok (record { heap = linked b.heap t w p mfn; pfn_root = b.pfn_root; pfn_tail = p })
unfolding append_node linked write load
append_node-linked b xs t w p mfn g pos free =
    let (tpos, e) = last-cell b.heap xs t w g.chain in
    let apart : (t == p) ≡ false = ground (arith, e, free) in
    let apart' : (p == t) ≡ false = ground (arith, apart) in
    let root_set : (b.pfn_root == 0) ≡ false =
      ground (arith, g.at_root, root-pos b.heap xs t w g.chain) in
    ground (arith, root_set, g.at_tail, e, apart, apart', tpos)

-- What building makes of the numbers.
abbrev pub Lists : List ℕ → Builder → Type 0
Lists mfns b = (ys : Cells) × Chain b.heap ys × (b.pfn_root ≡ root ys) × (nums ys ≡ mfns)

-- An address that a later allocation gives is another one.
pub distinct_later :
    (alloc : ℕ → ℕ) (i : ℕ) (h : Heap)
    → Fresh alloc i h
    → (j : ℕ) → i + 1 ≤ j
    → (alloc j == alloc i) ≡ false
distinct_later alloc i h fresh j later = elim (Bool-cases (alloc j == alloc i)) [
  | inl same ↦
      absurd (omega (arith, later, fresh.distinct j i ((==_iff (alloc j) (alloc i)).0 same)))
  | inr differ ↦ differ
]

linked-Fresh :
    (alloc : ℕ → ℕ) (i : ℕ) (h : Heap) (t w mfn : ℕ)
    → Fresh alloc i h
    → h t ≡ some (node w 0)
    → Fresh alloc (i + 1) (linked h t w (alloc i) mfn)
unfolding linked write
linked-Fresh alloc i h t w mfn fresh e = record {
  found = λ j later. fresh.found j (omega (arith, later));
  unused = λ j later.
      let free = fresh.unused j (omega (arith, later)) in
      let differ = distinct_later alloc i h fresh j later in
      let apart : (alloc j == t) ≡ false = ground (arith, e, free) in
      ground (arith, free, differ, apart);
  distinct = fresh.distinct;
}

build-more :
    (alloc : ℕ → ℕ) (i : ℕ) (mfns : List ℕ) (b : Builder) (xs : Cells) (t w : ℕ)
    → Fresh alloc i b.heap
    → Grown b xs t w
    → Returns (Lists (nums (xs ++ ((t, w) ∷ [])) ++ mfns)) (build alloc i mfns b)
unfolding build
build-more alloc i [] b xs t w fresh g =
    returns (xs ++ ((t, w) ∷ []), g.chain, g.at_root, sym (append-nil (nums (xs ++ ((t, w) ∷ [])))))
build-more alloc i (mfn ∷ mfns) b xs t w fresh g =
    let p = alloc i in
    let pos = fresh.found i (omega arith) in
    let free = fresh.unused i (omega arith) in
    let split = sym (append_assoc xs ((t, w) ∷ []) ((p, mfn) ∷ [])) in
    let grown : Grown
        (record { heap = linked b.heap t w p mfn; pfn_root = b.pfn_root; pfn_tail = p })
        (xs ++ ((t, w) ∷ [])) p mfn =
      record {
        chain =
            subst (Chain (linked b.heap t w p mfn)) split
              (linked-Chain b.heap xs t w p mfn g.chain pos free);
        at_root = g.at_root ∙ sym (root-snoc xs ((p, mfn) ∷ []) (t, w)) ∙ ap root split;
        at_tail = refl;
      } in
    let fresh' = linked-Fresh alloc i b.heap t w mfn fresh (last-cell b.heap xs t w g.chain).1 in
    rw (append_node-linked b xs t w p mfn g pos free) (
      Returns-mono (build-more alloc (i + 1) mfns _ (xs ++ ((t, w) ∷ [])) p mfn fresh' grown)
        λ b' (ys, c, r, n). (
          ys,
          c,
          r,
          n
              ∙ ap (λ l. l ++ mfns) (nums-append (xs ++ ((t, w) ∷ [])) ((p, mfn) ∷ []))
              ∙ append_assoc (nums (xs ++ ((t, w) ∷ []))) (mfn ∷ []) mfns,
        ))

-- If allocations succeed at unused and different addresses, appending a node for each number, from an
-- empty list on, ends without a fault, with a list of those numbers in their order.
pub build-Lists :
    (alloc : ℕ → ℕ) (mfns : List ℕ) (h : Heap)
    → Fresh alloc 0 h
    → Returns (Lists mfns) (build alloc 0 mfns (record { heap = h; pfn_root = 0; pfn_tail = 0 }))
unfolding build append_node write
build-Lists alloc [] h fresh = returns ([], tt, refl, refl)
build-Lists alloc (mfn ∷ mfns) h fresh =
    let p = alloc 0 in
    let pos = fresh.found 0 (omega arith) in
    let there : (p == 0) ≡ false = ground arith in
    let fresh' : Fresh alloc 1 (write h p (some (node mfn 0))) = record {
      found = λ j later. fresh.found j (omega arith);
      unused = λ j later.
          ground (arith, fresh.unused j (omega arith), distinct_later alloc 0 h fresh j later);
      distinct = fresh.distinct;
    } in
    rw there (
      build-more alloc 1 mfns
        (record { heap = write h p (some (node mfn 0)); pfn_root = p; pfn_tail = p }) [] p mfn
        fresh' (record { chain = (pos, ground arith, refl, tt); at_root = refl; at_tail = refl }))
