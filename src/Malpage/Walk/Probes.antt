-- ===== src/Malpage/Walk/Probes.antt =====
-- Which addresses pfnlist_vmarea looks at, and what it collects.
use mathlib.Core.List.{append-nil, append_assoc}
use maitland.Base.{
  ℕ, zero, suc, ◌+◌, ◌-◌, ◌*◌, ◌/◌, ◌<◌, ◌≤◌, ◌≡◌, refl, ap, ◌∙◌, ◌==◌, true, false, if◌then◌else◌,
  ltb, List, [], ◌∷◌, ◌++◌, ==_iff, All, length, ltb→lt, subst, Returns, returns, ok, arith,
  Bool-cases, inl, inr, ◌⊎◌,
}
use maitland.Malpage.Walk.{
  PageWalk, addr_to_mfn, half_page, scan_region, region, Vma, scan_vmas, vmarea_mfns,
}

-- The addresses that are looked at, from the start in steps of half a page, and then the end itself.
abbrev pub probes : ℕ → ℕ → ℕ → List ℕ
probes zero vm_end left = vm_end ∷ []
probes (suc n) vm_end left = (vm_end - left) ∷ probes n vm_end (left - half_page)

-- The frames that are mapped at some addresses.
unfoldable pub mapped : (ℕ → PageWalk) → List ℕ → List ℕ
mapped mm [] = []
mapped mm (a ∷ rest) =
    if ltb 0 (addr_to_mfn mm a) then addr_to_mfn mm a ∷ mapped mm rest else mapped mm rest

-- Membership.
abbrev pub Listed : ℕ → List ℕ → Type 0
Listed a [] = ⊥
Listed a (b ∷ bs) = (a ≡ b) ⊎ Listed a bs

-- Steps from the start to the last address before the end.
abbrev pub steps : ℕ → ℕ
steps left = (left + (half_page - 1)) / half_page

scan_region-mapped :
    (mm : ℕ → PageWalk) (k vm_end left : ℕ) (mfns : List ℕ)
    → steps left < k
    → scan_region mm k vm_end left mfns ≡ ok (mfns ++ mapped mm (probes (steps left) vm_end left))
unfolding scan_region mapped
scan_region-mapped mm zero vm_end left mfns fuel = absurd (omega arith)
scan_region-mapped mm (suc k) vm_end left mfns fuel = elim (Bool-cases (left == 0)) [
  | inl done ↦
      let z = (==_iff left 0).0 done in
      let last : steps left ≡ zero = omega (arith, z) in
      let at_end : vm_end - left ≡ vm_end = omega (arith, z) in
      rw (done, last, at_end) (ground (arith, append-nil mfns))
  | inr more ↦
      let left_pos : 0 < left = ground arith in
      let n : steps left ≡ suc (steps (left - half_page)) = omega arith in
      let next =
        λ (l : List ℕ). scan_region-mapped mm k vm_end (left - half_page) l (omega arith) in
      rw (more, n)
        (elim (Bool-cases (ltb 0 (addr_to_mfn mm (vm_end - left)))) [
          | inl there ↦ rw there (
              next (mfns ++ (addr_to_mfn mm (vm_end - left) ∷ []))
              ∙ ap ok (
                  append_assoc mfns (addr_to_mfn mm (vm_end - left) ∷ [])
                    (mapped mm (probes (steps (left - half_page)) vm_end (left - half_page)))))
          | inr absent ↦ rw absent (next mfns)
        ])
]

-- The scan of a region ends, and appends the frames that are mapped at its start, at every half page
-- from there on, and at its end.
region-mapped :
    (mm : ℕ → PageWalk) (vm_start vm_end : ℕ) (mfns : List ℕ)
    → vm_start ≤ vm_end
    → region mm vm_start vm_end mfns
      ≡ ok (mfns ++ mapped mm (probes (steps (vm_end - vm_start)) vm_end (vm_end - vm_start)))
unfolding region
region-mapped mm vm_start vm_end mfns h =
    let inside : ltb vm_end vm_start ≡ false = ground arith in
    rw inside (
      scan_region-mapped mm ((vm_end - vm_start) / half_page + 2) vm_end (vm_end - vm_start) mfns
        (omega arith))

-- Every address `a` within the region has a probe at or before it, less than half a page away.
probes-near :
    (n vm_end left a : ℕ)
    → left ≤ vm_end
    → vm_end - left ≤ a
    → a < vm_end
    → left ≤ n * half_page
    → (q : ℕ) × Listed q (probes n vm_end left) × (q ≤ a) × (a < q + half_page)
probes-near zero vm_end left a inside from below far = absurd (omega arith)
probes-near (suc n) vm_end left a inside from below far =
    elim (Bool-cases (ltb a (vm_end - left + half_page))) [
      | inl near ↦ (vm_end - left, inl refl, from, ltb→lt a (vm_end - left + half_page) near)
      | inr far_off ↦
          let beyond : vm_end - left + half_page ≤ a = ground arith in
          let (q, i, le, lt) =
            probes-near n vm_end (left - half_page) a (omega arith) (omega arith) below
              (omega arith) in
          (q, inr i, le, lt)
    ]

Listed-mapped :
    (mm : ℕ → PageWalk) (q : ℕ) (addrs : List ℕ)
    → Listed q addrs
    → 0 < addr_to_mfn mm q
    → Listed (addr_to_mfn mm q) (mapped mm addrs)
unfolding mapped
Listed-mapped mm q [] i there = elim i [ ]
Listed-mapped mm q (b ∷ rest) (inl e) there = rw (← e) (ground (arith, there))
Listed-mapped mm q (b ∷ rest) (inr i) there = ground (arith, Listed-mapped mm q rest i there)

Listed-append : (q : ℕ) (xs ys : List ℕ) → Listed q ys → Listed q (xs ++ ys)
Listed-append q [] ys i = i
Listed-append q (x ∷ xs) ys i = inr (Listed-append q xs ys i)

-- No page is missed: if the page tables say the same of all addresses of a page, the scan of a region
-- collects the frame of every mapped page that lies in the region.
pub region_complete :
    (mm : ℕ → PageWalk) (vm_start vm_end page : ℕ) (mfns : List ℕ)
    → ((a : ℕ) → addr_to_mfn mm a ≡ addr_to_mfn mm (a / 4096 * 4096))
    → vm_start ≤ page * 4096
    → page * 4096 + 4096 ≤ vm_end
    → 0 < addr_to_mfn mm (page * 4096)
    → Returns (Listed (addr_to_mfn mm (page * 4096))) (region mm vm_start vm_end mfns)
region_complete mm vm_start vm_end page mfns paged from to there =
    let (q, i, le, lt) =
      probes-near (steps (vm_end - vm_start)) vm_end (vm_end - vm_start) (page * 4096 + 2047)
        (omega arith) (omega arith) (omega arith) (omega arith) in
    let same_page : q / 4096 ≡ page = omega arith in
    let same : addr_to_mfn mm q ≡ addr_to_mfn mm (page * 4096) =
      paged q ∙ ap (λ n. addr_to_mfn mm (n * 4096)) same_page in
    let probed = probes (steps (vm_end - vm_start)) vm_end (vm_end - vm_start) in
    let found : Listed (addr_to_mfn mm q) (mfns ++ mapped mm probed) =
      Listed-append (addr_to_mfn mm q) mfns (mapped mm probed) (
        Listed-mapped mm q (probes (steps (vm_end - vm_start)) vm_end (vm_end - vm_start)) i
          (rw same there)) in
    rw (region-mapped mm vm_start vm_end mfns (omega arith)) (
      returns (
        subst
          (λ n.
            Listed n
              (mfns ++ mapped mm (probes (steps (vm_end - vm_start)) vm_end (vm_end - vm_start))))
          same found))

-- What the regions hold, one after the other.
abbrev pub all_mapped : (ℕ → PageWalk) → List Vma → List ℕ
all_mapped mm [] = []
all_mapped mm (v ∷ vs) =
    mapped mm (probes (steps (v.vm_end - v.vm_start)) v.vm_end (v.vm_end - v.vm_start))
    ++ all_mapped mm vs

abbrev pub IsRegion : Vma → Type 0
IsRegion v = v.vm_start ≤ v.vm_end

scan_vmas-mapped :
    (mm : ℕ → PageWalk) (vma_total vma_count : ℕ) (v : Vma) (vs : List Vma) (mfns : List ℕ)
    → All IsRegion (v ∷ vs)
    → vma_count + length (v ∷ vs) ≤ vma_total
    → scan_vmas mm false vma_total vma_count (v ∷ vs) mfns ≡ ok (mfns ++ all_mapped mm (v ∷ vs))
unfolding scan_vmas
scan_vmas-mapped mm vma_total vma_count v [] mfns (r, rs) room =
    rw (region-mapped mm v.vm_start v.vm_end mfns r, append-nil)
scan_vmas-mapped mm vma_total vma_count v (w ∷ vs) mfns (r, rs) room =
    let more : ltb (vma_count + 1) vma_total ≡ true = ground arith in
    rw (region-mapped mm v.vm_start v.vm_end mfns r, more)
      (scan_vmas-mapped mm vma_total (vma_count + 1) w vs _ rs (omega arith)
        ∙ ap ok (append_assoc mfns _ (all_mapped mm (w ∷ vs))))

-- Without the anonymous regions, and with the list's first pointer NULL, pfnlist_vmarea ends without a
-- fault for a process with at least one region and at most as many as its count says, none of which
-- ends before it starts. It collects, region by
-- region, the frames that are mapped at the start, at every half page and at the end.
pub vmarea_mfns-mapped :
    (mm : ℕ → PageWalk) (map_count : ℕ) (v : Vma) (vs : List Vma)
    → All IsRegion (v ∷ vs)
    → length (v ∷ vs) ≤ map_count
    → vmarea_mfns mm false map_count 0 (v ∷ vs) ≡ ok (all_mapped mm (v ∷ vs))
unfolding vmarea_mfns
vmarea_mfns-mapped mm map_count v vs regions room =
    scan_vmas-mapped mm map_count 0 v vs [] regions (omega arith)
