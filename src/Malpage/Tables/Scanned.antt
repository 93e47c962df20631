-- ===== src/Malpage/Tables/Scanned.antt =====
-- What pfnlist finds, and the list that it builds.
use mathlib.Core.List.{append_assoc, append-nil}
use maitland.Base.{
  ℕ, ◌+◌, ◌<◌, Bool, true, false, ◌≡◌, refl, sym, ap, ◌∙◌, subst, ◌==◌, none, some, List, [], ◌∷◌,
  ◌++◌, length, if◌then◌else◌, ok, Returns, returns, Returns-bind, Returns-mono, arith,
}
use maitland.Malpage.PfnList.{Heap, node, write, load}
use maitland.Malpage.PfnList.Chain.{Cells, root, Chain}
use maitland.Malpage.PfnList.Unique.{firsts, root-firsts, pfnlist_mkunique-firsts}
use maitland.Malpage.Report.Built.{
  nums, Fresh, distinct_later, has_addr-append, root-snoc, nums-append, last-cell,
}
use maitland.Malpage.Report.Shared.{distinct, nums-firsts, length-nums}
use maitland.Malpage.Tables.{Pte, Entry, Appender, attach, attach_all, scan_pgd, pfnlist}

-- The heap with a node for `mfn` at `p` behind the last node, of number `w` at `t`.
extended : Heap → ℕ → ℕ → ℕ → ℕ → Heap
extended h t w p mfn = write (write h p (some (node mfn 0))) t (some (node w p))

extended-Chain :
    (h : Heap) (xs : Cells) (t w p mfn : ℕ)
    → Chain h (xs ++ ((t, w) ∷ []))
    → 0 < p
    → h p ≡ none
    → Chain (extended h t w p mfn) (xs ++ ((t, w) ∷ (p, mfn) ∷ []))
unfolding extended write
extended-Chain h [] t w p mfn (tpos, e, out, c) pos free =
    let apart : (t == p) ≡ false = ground (arith, e, free) in
    let apart' : (p == t) ≡ false = ground (arith, apart) in
    (tpos, ground arith, ground (arith, apart), (pos, ground (arith, apart'), refl, tt))
extended-Chain h ((a, v) ∷ xs) t w p mfn (apos, e, out, c) pos free =
    let apart : (a == p) ≡ false = ground (arith, e, free) in
    let not_last = has_addr-append a xs ((t, w) ∷ []) in
    let later = has_addr-append a xs ((t, w) ∷ (p, mfn) ∷ []) in
    (
      apos,
      ground (arith, apart, not_last, out, e, root-snoc xs ((p, mfn) ∷ []) (t, w)),
      ground (arith, apart, not_last, out, later),
      extended-Chain h xs t w p mfn c pos free,
    )

-- The locals of the loops, when the list ends with the node of number `w` at `t`.
record Attached (b : Appender) (xs : Cells) (t w : ℕ) : Type 0 where
  pub chain : Chain b.heap (xs ++ ((t, w) ∷ []))
  pub at_root : b.pfn_root ≡ root (xs ++ ((t, w) ∷ []))
  pub at_tail : b.tmp_pfn_root ≡ t
  pub exists : b.root_exists ≡ true

attach-linked :
    (b : Appender) (xs : Cells) (t w p mfn : ℕ)
    → Attached b xs t w
    → 0 < p
    → b.heap p ≡ none
    → attach p mfn b ≡ ok (record b { heap = extended b.heap t w p mfn; tmp_pfn_root = p })
unfolding attach extended write load
attach-linked b xs t w p mfn g pos free =
    let (tpos, e) = last-cell b.heap xs t w g.chain in
    let apart : (t == p) ≡ false = ground (arith, e, free) in
    ground (arith, g.exists, g.at_tail, e, apart, tpos)

extended-Fresh :
    (alloc : ℕ → ℕ) (i : ℕ) (h : Heap) (t w mfn : ℕ)
    → Fresh alloc i h
    → h t ≡ some (node w 0)
    → Fresh alloc (i + 1) (extended h t w (alloc i) mfn)
unfolding extended write
extended-Fresh alloc i h t w mfn fresh e = record {
  found = λ j later. fresh.found j (omega (arith, later));
  unused = λ j later.
      let free = fresh.unused j (omega (arith, later)) in
      let differ = distinct_later alloc i h fresh j later in
      let apart : (alloc j == t) ≡ false = ground (arith, e, free) in
      ground (arith, free, differ, apart);
  distinct = fresh.distinct;
}

-- A list in the heap of some numbers.
abbrev pub Listing : List ℕ → Heap → ℕ → Type 0
Listing mfns h r = (ys : Cells) × Chain h ys × (r ≡ root ys) × (nums ys ≡ mfns)

attach_all-more :
    (alloc : ℕ → ℕ) (i : ℕ) (mfns : List ℕ) (b : Appender) (xs : Cells) (t w : ℕ)
    → Fresh alloc i b.heap
    → Attached b xs t w
    → Returns
        (λ b'. Listing (nums (xs ++ ((t, w) ∷ [])) ++ mfns) b'.heap b'.pfn_root)
        (attach_all alloc i mfns b)
unfolding attach_all
attach_all-more alloc i [] b xs t w fresh g =
    returns (xs ++ ((t, w) ∷ []), g.chain, g.at_root, sym (append-nil (nums (xs ++ ((t, w) ∷ [])))))
attach_all-more alloc i (mfn ∷ mfns) b xs t w fresh g =
    let p = alloc i in
    let pos = fresh.found i (omega arith) in
    let free = fresh.unused i (omega arith) in
    let b1 : Appender = record b { heap = extended b.heap t w p mfn; tmp_pfn_root = p } in
    let split = sym (append_assoc xs ((t, w) ∷ []) ((p, mfn) ∷ [])) in
    let grown : Attached b1 (xs ++ ((t, w) ∷ [])) p mfn = record {
      chain =
          subst (Chain (extended b.heap t w p mfn)) split
            (extended-Chain b.heap xs t w p mfn g.chain pos free);
      at_root = g.at_root ∙ sym (root-snoc xs ((p, mfn) ∷ []) (t, w)) ∙ ap root split;
      at_tail = refl;
      exists = g.exists;
    } in
    let fresh' = extended-Fresh alloc i b.heap t w mfn fresh (last-cell b.heap xs t w g.chain).1 in
    rw (attach-linked b xs t w p mfn g pos free) (
      Returns-mono (attach_all-more alloc (i + 1) mfns b1 (xs ++ ((t, w) ∷ [])) p mfn fresh' grown)
        λ b' (ys, c, r, n). (
          ys,
          c,
          r,
          n
              ∙ ap (λ l. l ++ mfns) (nums-append (xs ++ ((t, w) ∷ [])) ((p, mfn) ∷ []))
              ∙ append_assoc (nums (xs ++ ((t, w) ∷ []))) (mfn ∷ []) mfns,
        ))

module _ (alloc : ℕ → ℕ) (garbage : ℕ) (h : Heap) (fresh : Fresh alloc 0 h) where
  start : Appender
  start = record { heap = h; root_exists = false; pfn_root = garbage; tmp_pfn_root = garbage }

  attach_all-Listing :
      (mfns : List ℕ)
      → 0 < length mfns
      → Returns (λ b. Listing mfns b.heap b.pfn_root) (attach_all alloc 0 mfns start)
  unfolding attach_all attach write start
  attach_all-Listing [] some_frame = absurd (omega arith)
  attach_all-Listing (mfn ∷ mfns) some_frame =
      let p = alloc 0 in
      let pos = fresh.found 0 (omega arith) in
      let there : (p == 0) ≡ false = ground arith in
      let h1 = write h p (some (node mfn 0)) in
      let fresh' : Fresh alloc 1 h1 = record {
        found = λ j later. fresh.found j (omega arith);
        unused = λ j later.
            ground (arith, fresh.unused j (omega arith), distinct_later alloc 0 h fresh j later);
        distinct = fresh.distinct;
      } in
      rw there (
        attach_all-more alloc 1 mfns
          (record { heap = h1; root_exists = true; pfn_root = p; tmp_pfn_root = p }) [] p mfn fresh'
          (record {
            chain = (pos, ground arith, refl, tt);
            at_root = refl;
            at_tail = refl;
            exists = refl;
          }))

  -- If allocations succeed at unused and different addresses, there is more fuel than frames, and the
  -- tables hold at least one frame, pfnlist ends without a fault, whatever its uninitialised locals
  -- hold. It returns a list of all frames that present entries of present tables point to, in
  -- the order of the tables; if it is asked to, each once, at its first place.
  pub pfnlist-listed :
      (fuel : ℕ) (pgd : List (Entry (Entry (Entry Pte)))) (uniq : Bool)
      → 0 < length (scan_pgd pgd)
      → length (scan_pgd pgd) < fuel
      → Returns
          (λ (h', r). Listing (if uniq then distinct (scan_pgd pgd) else scan_pgd pgd) h' r)
          (pfnlist alloc fuel garbage (some (some pgd)) uniq h)
  unfolding pfnlist start
  pfnlist-listed fuel pgd false some_frame enough =
      Returns-bind (attach_all-Listing (scan_pgd pgd) some_frame) λ b l. returns l
  pfnlist-listed fuel pgd true some_frame enough =
      Returns-bind (attach_all-Listing (scan_pgd pgd) some_frame) λ b (ys, c, r, n). rw r (
        Returns-bind
          (pfnlist_mkunique-firsts fuel b.heap ys c
            (omega (arith, enough, length-nums ys, ap length n)))
          λ (h', removed) (s, count).
            returns (firsts ys, s.chain, sym (root-firsts ys), nums-firsts ys ∙ ap distinct n))
