-- ===== src/Malpage/DumpFile/Spread.antt =====
-- Where malpage_dump_file writes the pages.
use mathlib.Core.List.{append-nil, append_assoc}
use maitland.Base.{
  ℕ, suc, ◌+◌, ◌-◌, ◌*◌, ◌<◌, ◌≤◌, ◌^◌, ◌≡◌, refl, sym, ap, ◌∙◌, subst, true, false, ◌==◌, ltb, ◌⊎◌,
  inl, inr, Bool-cases, Option-cases, if◌then◌else◌, Option, none, some, List, [], ◌∷◌, ◌++◌,
  length, length-append, get_elem?, get_elem?-append, lt→ltb, pos, to_int, ok, codes,
  length-decimal, arith,
}
use maitland.Wire.{ProcessReport}
use maitland.Malpage.Send.{sprintf}
use maitland.Malpage.DumpFile.{
  Dump, page_size, signed_decimal, dump_filename, dump_page, dump_loop, dump_file,
}

-- The pages of the frames that are not 0 and have an address, in their order.
abbrev pub pages : (ℕ → Option ℕ) → List ℕ → List ℕ
pages kaddr [] = []
pages kaddr (mfn ∷ mfns) =
    if mfn == 0
    then pages kaddr mfns
    else elim (kaddr mfn) [ none ↦ pages kaddr mfns | some page ↦ page ∷ pages kaddr mfns ]

-- Pages two page sizes apart.
abbrev pub spread : ℕ → List ℕ → List (ℕ × ℕ)
spread position [] = []
spread position (page ∷ rest) = (position, page) ∷ spread (position + 2 * page_size) rest

length-signed_decimal : (n : ℕ) → n < 2 ^ 32 → length (signed_decimal (to_int n)) ≤ 11
unfolding signed_decimal
length-signed_decimal n h = either (Bool-cases (ltb n (2 ^ 31)))
  where
    either :
        ((ltb n (2 ^ 31) ≡ true) ⊎ (ltb n (2 ^ 31) ≡ false))
        → length (signed_decimal (to_int n)) ≤ 11
    either (inl e) = rw (e, signed_decimal) (omega (arith, length-decimal 9 n (omega arith)))
    either (inr e) =
        rw (e, signed_decimal)
          (omega (arith, length-decimal 9 (2 ^ 32 - 1 - n + 1) (ground (arith, e))))

dump_filename-fits : (pid : ℕ) → pid < 2 ^ 32 → length (dump_filename pid) < 26
dump_filename-fits pid h = omega (
  arith,
  length-append (signed_decimal (to_int pid)) (codes "_dump.bin"),
  length-signed_decimal pid h,
)

module _ (kaddr : ℕ → Option ℕ) (written : ℕ → ℕ) (whole : (i : ℕ) → written i ≡ page_size) where
  dump_page-spread :
      (mfn : ℕ) (rest : List ℕ) (d : Dump)
      → (dump_page kaddr written mfn d).writes
          ++ spread (dump_page kaddr written mfn d).position (pages kaddr rest)
        ≡ d.writes ++ spread d.position (pages kaddr (mfn ∷ rest))
  unfolding dump_page
  dump_page-spread mfn rest d = elim (Bool-cases (mfn == 0)) [
    | inl e ↦ rw e refl
    | inr e ↦ elim (Option-cases (kaddr mfn)) [
      | inl f ↦ rw (e, f) refl
      | inr (page, f) ↦
          let next : d.position + page_size + page_size ≡ d.position + 2 * page_size =
            omega arith in
          rw (e, f, whole (length d.writes), next)
            (append_assoc d.writes ((d.position, page) ∷ [])
              (spread (d.position + 2 * page_size) (pages kaddr rest)))
    ]
  ]

  dump_loop-step :
      (mfns : List ℕ) (rounds i mfn : ℕ) (d : Dump)
      → get_elem? mfns i ≡ some mfn
      → dump_loop kaddr written mfns (suc rounds) i d
        ≡ dump_loop kaddr written mfns rounds (i + 1) (dump_page kaddr written mfn d)
  unfolding dump_loop
  dump_loop-step mfns rounds i mfn d found = rw (dump_loop, found) refl

  dump_loop-spread :
      (before rest : List ℕ) (i : ℕ) (d : Dump)
      → i ≡ length before
      → (d' : Dump) × (dump_loop kaddr written (before ++ rest) (length rest) i d ≡ ok d')
        × (d'.writes ≡ d.writes ++ spread d.position (pages kaddr rest))
  unfolding dump_loop
  dump_loop-spread before [] i d e = (d, refl, sym (append-nil d.writes))
  dump_loop-spread before (mfn ∷ rest) i d e =
      let found : get_elem? (before ++ (mfn ∷ rest)) i ≡ some mfn =
        ap (get_elem? (before ++ (mfn ∷ rest))) e ∙ get_elem?-append before mfn rest in
      let d1 = dump_page kaddr written mfn d in
      let (d', run, writes) =
        dump_loop-spread (before ++ (mfn ∷ [])) rest (i + 1) d1
          (omega (arith, e, length-append before (mfn ∷ []))) in
      (
        d',
        dump_loop-step (before ++ (mfn ∷ rest)) (length rest) i mfn d found
            ∙ subst (λ l. dump_loop kaddr written l (length rest) (i + 1) d1 ≡ ok d')
                (append_assoc before (mfn ∷ []) rest) run,
        writes ∙ dump_page-spread mfn rest d,
      )

-- The file is open and every write is whole; the report's process id has its width, it lists as many
-- frames as it says, and an allocation has the room that was asked for. Then malpage_dump_file ends
-- without a fault and returns 0, and the pages of the frames that are not 0 and have an address stand
-- in the file in their order, but a page apart from each other: page number `k` at twice `k` times the
-- page size.
pub dump_file-spread :
    (room : ℕ → ℕ) (kaddr : ℕ → Option ℕ) (written : ℕ → ℕ) (rep : ProcessReport)
    → ((n : ℕ) → n ≤ room n)
    → ((i : ℕ) → written i ≡ page_size)
    → rep.process_id < 2 ^ 32
    → rep.pfn_list_length ≡ length rep.pfn_list
    → (d : Dump) × (dump_file room true kaddr written rep ≡ ok (d, pos 0))
      × (d.writes ≡ spread 0 (pages kaddr rep.pfn_list))
unfolding dump_file sprintf
dump_file-spread room kaddr written rep honest whole small counted =
    let (d, run, writes) =
      dump_loop-spread kaddr written whole [] rep.pfn_list 0
        (record { position = 0; nulls = 0; writes = [] }) refl in
    let fits : ltb (length (dump_filename rep.process_id)) (room 26) ≡ true =
      lt→ltb _ _ (omega (arith, dump_filename-fits rep.process_id small, honest 26)) in
    (d, rw (fits, counted, run) refl, writes)
