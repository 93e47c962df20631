-- ===== src/Malpage/Report/Shared.antt =====
-- What a report of malpage_report says: every frame of the process once, with its grant.
use mathlib.Core.List.{append_assoc}
use maitland.Base.{
  ℕ, suc, ◌+◌, ◌<◌, ◌≤◌, ◌≡◌, refl, sym, ap, ◌∙◌, ◌==◌, if◌then◌else◌, true, false, some, List, [],
  ◌∷◌, ◌++◌, All, length, length-append, set, get_elem?, get_elem?-append, ℤ, to_unsigned, ok,
  Returns, returns, Returns-bind, arith,
}
use maitland.Wire.{ProcessReport}
use maitland.Malpage.PfnList.{Heap, zeros}
use maitland.Malpage.PfnList.Chain.{Cells, root, Chain, pfnlist_size-length}
use maitland.Malpage.PfnList.Array.{filled, set-append, pfnlist_mkarray-filled}
use maitland.Malpage.PfnList.Unique.{without, firsts, root-firsts, pfnlist_mkunique-firsts}
use maitland.Malpage.Walk.{Vma}
use maitland.Malpage.Walk.Probes.{all_mapped, IsRegion, vmarea_mfns-mapped}
use maitland.Malpage.Report.{
  Task, Kernel, pfnlist_vmarea, generate_report, grant_mfn, grant_loop, find_process, report_task,
  report,
}
use maitland.Malpage.Report.Built.{nums, Fresh, build-Lists}

-- A list of numbers without repetitions: the first occurrence of each.
abbrev pub omit : ℕ → List ℕ → List ℕ
omit n [] = []
omit n (x ∷ xs) = if x == n then omit n xs else x ∷ omit n xs

abbrev pub distinct : List ℕ → List ℕ
distinct [] = []
distinct (x ∷ xs) = x ∷ omit x (distinct xs)

-- What the calls of gnttab_grant_foreign_access return, the `i`-th first.
abbrev pub grants : Kernel → ℕ → List ℕ → List ℕ
grants k i [] = []
grants k i (mfn ∷ mfns) = to_unsigned (k.grant i mfn) ∷ grants k (i + 1) mfns

nums-without : (n : ℕ) (xs : Cells) → nums (without n xs) ≡ omit n (nums xs)
nums-without n [] = refl
nums-without n ((a, v) ∷ xs) = ground (arith, nums-without n xs)

pub nums-firsts : (xs : Cells) → nums (firsts xs) ≡ distinct (nums xs)
nums-firsts [] = refl
nums-firsts ((a, v) ∷ xs) =
    ap (λ l. v ∷ l) (nums-without v (firsts xs) ∙ ap (omit v) (nums-firsts xs))

filled-nums : (xs : Cells) → filled (length xs) xs ≡ nums xs
filled-nums [] = refl
filled-nums ((a, v) ∷ xs) = ap (λ l. v ∷ l) (filled-nums xs)

pub length-nums : (xs : Cells) → length (nums xs) ≡ length xs
length-nums [] = refl
length-nums ((a, v) ∷ xs) = ap suc (length-nums xs)

length-omit : (n : ℕ) (xs : List ℕ) → length (omit n xs) ≤ length xs
length-omit n [] = omega arith
length-omit n (x ∷ xs) = ground (arith, length-omit n xs)

length-distinct : (xs : List ℕ) → length (distinct xs) ≤ length xs
length-distinct [] = omega arith
length-distinct (x ∷ xs) = omega (arith, length-omit x (distinct xs), length-distinct xs)

grant_loop-suc :
    (k : Kernel) (pfns granted : List ℕ) (rounds i mfn : ℕ)
    → get_elem? pfns i ≡ some mfn
    → grant_loop k pfns (suc rounds) i granted
      ≡ grant_loop k pfns rounds (i + 1) (set granted i (to_unsigned (k.grant i mfn)))
unfolding grant_loop grant_mfn
grant_loop-suc k pfns granted rounds i mfn e = ground (arith, e)

grant_loop-grants :
    (k : Kernel) (before rest granted : List ℕ) (i : ℕ)
    → i ≡ length before
    → i ≡ length granted
    → grant_loop k (before ++ rest) (length rest) i (granted ++ zeros (length rest))
      ≡ ok (granted ++ grants k i rest)
unfolding grant_loop
grant_loop-grants k before [] granted i e f = refl
grant_loop-grants k before (mfn ∷ rest) granted i e f =
    let found : get_elem? (before ++ (mfn ∷ rest)) i ≡ some mfn =
      ap (get_elem? (before ++ (mfn ∷ rest))) e ∙ get_elem?-append before mfn rest in
    let n = length rest in
    let gref = to_unsigned (k.grant i mfn) in
    let next =
      grant_loop-grants k (before ++ (mfn ∷ [])) rest (granted ++ (gref ∷ [])) (i + 1)
        (omega (arith, e, length-append before (mfn ∷ [])))
        (omega (arith, f, length-append granted (gref ∷ []))) in
    grant_loop-suc k (before ++ (mfn ∷ rest)) (granted ++ zeros (suc n)) n i mfn found
    ∙ ap (grant_loop k (before ++ (mfn ∷ rest)) n (i + 1))
        (set-append granted 0 (zeros n) gref i f ∙ sym (append_assoc granted (gref ∷ []) (zeros n)))
    ∙ ap (λ l. grant_loop k l n (i + 1) ((granted ++ (gref ∷ [])) ++ zeros n))
        (sym (append_assoc before (mfn ∷ []) rest))
    ∙ next
    ∙ ap ok (append_assoc granted (gref ∷ []) (grants k (i + 1) rest))

-- A list in the heap of all frames, once each.
abbrev Listing : List ℕ → Heap × ℕ → Type 0
Listing mfns (h, r) = (ys : Cells) × Chain h ys × (r ≡ root ys) × (nums ys ≡ distinct mfns)

module _ (k : Kernel) (task : Task) (v : Vma) (vs : List Vma) where
  unfoldable pub frames : List ℕ
  frames = all_mapped task.mm (v ∷ vs)

  pfnlist_vmarea-Listing :
      (h : Heap)
      → k.garbage ≡ 0
      → Fresh k.alloc 0 h
      → task.mmap ≡ v ∷ vs
      → All IsRegion (v ∷ vs)
      → length (v ∷ vs) ≤ task.map_count
      → length frames < k.fuel
      → Returns (Listing frames) (pfnlist_vmarea k task true false h)
  unfolding pfnlist_vmarea frames
  pfnlist_vmarea-Listing h null fresh memory regions room fuel =
      rw (null, memory, vmarea_mfns-mapped task.mm task.map_count v vs regions room)
        (Returns-bind (build-Lists k.alloc frames h fresh) λ b (ys, c, r, n). rw r (
          Returns-bind
            (pfnlist_mkunique-firsts k.fuel b.heap ys c
              (omega (arith, fuel, length-nums ys, ap length n)))
            λ (h', removed) (s, count).
              returns (firsts ys, s.chain, sym (root-firsts ys), nums-firsts ys ∙ ap distinct n)))

  -- The report that is passed on.
  unfoldable pub shared : ℕ → ProcessReport
  shared domid = record {
    process_id = to_unsigned task.pid;
    domid = domid;
    process_age = 0;
    pfn_list = distinct frames;
    gref_list = grants k 0 (distinct frames);
    pfn_list_length = length (distinct frames);
  }

  generate_report-distinct :
      (h : Heap)
      → Returns (Listing frames) (pfnlist_vmarea k task true false h)
      → length frames < k.fuel
      → Returns
          (λ (h', rep). rep ≡ record (shared 0) { gref_list = zeros (length (distinct frames)) })
          (generate_report k task h)
  unfolding generate_report shared
  generate_report-distinct h listing fuel = Returns-bind listing λ (h', r) (ys, c, at, n).
      let same : length ys ≡ length (distinct frames) = sym (length-nums ys) ∙ ap length n in
      let enough : length ys < k.fuel = omega (arith, fuel, same, length-distinct frames) in
      rw
        (
          at,
          pfnlist_size-length k.fuel h' ys c enough,
          pfnlist_mkarray-filled k.fuel h' ys (length ys) c enough,
          filled-nums ys,
          n,
          same,
        )
        (returns refl)

  -- Of a process that is found, that has at least one memory region and at most as many as its count
  -- says, none of which ends before it starts, with the list's first pointer NULL, allocations that succeed at unused and different addresses, and more
  -- fuel than frames: malpage_report ends without a fault and passes on a report of that process. It
  -- lists every frame that is mapped at an address looked at, each once and in the order found, and
  -- next to each what granting it returned, as an unsigned number, a failure included.
  pub report-shared :
      (tasks : List Task) (procID : ℤ) (domid : ℕ) (h : Heap)
      → find_process tasks procID ≡ some task
      → k.garbage ≡ 0
      → Fresh k.alloc 0 h
      → task.mmap ≡ v ∷ vs
      → All IsRegion (v ∷ vs)
      → length (v ∷ vs) ≤ task.map_count
      → length (all_mapped task.mm (v ∷ vs)) < k.fuel
      → Returns (λ (h', rep). rep ≡ some (shared domid)) (report k tasks procID domid h)
  unfolding report report_task frames shared
  report-shared tasks procID domid h found null fresh memory regions room fuel = rw found (
      Returns-bind
        (generate_report-distinct h (pfnlist_vmarea-Listing h null fresh memory regions room fuel)
          fuel)
        λ (h', rep) e.
          rw (e, grant_loop-grants k [] (distinct frames) [] 0 refl refl) (returns refl))
