-- ===== src/Monitor/Grants/Mapped.antt =====
-- Which pages of a report monitor_report maps.
use mathlib.Core.List.{append-nil, append_assoc}
use maitland.Base.{
  ℕ, IfOk, IfOk-bind, Run, fault, false, true, ◌*◌, ◌>>=◌, ◌+◌, ◌<◌, ◌≡◌, refl, sym, ap, ◌∙◌, subst,
  ◌==◌, Bool, ◌&&◌, if◌then◌else◌, ltb, some, List, [], ◌∷◌, ◌++◌, get_elem?, get_elem?-append,
  length, length-append, ok, arith,
}
use maitland.Wire.{ProcessReport}
use maitland.Monitor.State.{State, VmStruct}
use maitland.Monitor.Grants.{MapEnv, map_gref, map_grefs, page_size, report, store}

-- A call of monitor_map_gref that got an area: what the hypervisor says of the grant.
abbrev pub is_granted : MapEnv → ℕ → Bool
is_granted env gref = ltb 0 gref && ((env.hypercall == 0) && (env.status == 0))

-- Each call gets an area, as alloc_vm_area gives it: one that is not empty.
pub record Allocates (env : ℕ → MapEnv) (area : ℕ → VmStruct) : Type 0 where
  pub found : (i : ℕ) → (env i).area ≡ some (area i)
  pub filled : (i : ℕ) → 0 < (area i).size

-- The areas of the grants that were mapped; `i` numbers the calls.
abbrev pub granted_areas : (ℕ → MapEnv) → (ℕ → VmStruct) → ℕ → List ℕ → List VmStruct
granted_areas env area i [] = []
granted_areas env area i (gref ∷ grefs) =
    if is_granted (env i) gref
    then area i ∷ granted_areas env area (i + 1) grefs
    else granted_areas env area (i + 1) grefs

-- The areas that a list takes which was allocated, or not.
abbrev pub held : Bool → List VmStruct → Run (List VmStruct)
held true areas = ok areas
held false [] = ok []
held false (area ∷ areas) = fault

-- The size that monitor_map_gref leaves tells whether the page was mapped.
kept : MapEnv → VmStruct → ℕ → VmStruct
kept env v gref = if is_granted env gref then v else record v { size = 0 }

map_gref-kept :
    (env : MapEnv) (v : VmStruct) (gref : ℕ)
    → env.area ≡ some v
    → map_gref env gref ≡ ok (kept env v gref)
unfolding map_gref kept
map_gref-kept env v gref e = ground arith

module _ (env : ℕ → MapEnv) (area : ℕ → VmStruct) (allocates : Allocates env area) where
  map_grefs-granted :
      (i : ℕ) (before rest : List ℕ) (mapped : List VmStruct)
      → i ≡ length before
      → map_grefs true env (before ++ rest) (length rest) i mapped
        ≡ ok (mapped ++ granted_areas env area i rest)
  unfolding map_grefs store kept
  map_grefs-granted i before [] mapped e = ap ok (sym (append-nil mapped))
  map_grefs-granted i before (gref ∷ rest) mapped e =
      let found : get_elem? (before ++ (gref ∷ rest)) i ≡ some gref =
        ap (get_elem? (before ++ (gref ∷ rest))) e ∙ get_elem?-append before gref rest in
      let made = map_gref-kept (env i) (area i) gref (allocates.found i) in
      let next : i + 1 ≡ length (before ++ (gref ∷ [])) =
        omega (arith, e, length-append before (gref ∷ [])) in
      let ih = λ (more : List VmStruct).
        subst
          (λ l.
            map_grefs true env l (length rest) (i + 1) more
            ≡ ok (more ++ granted_areas env area (i + 1) rest))
          (append_assoc before (gref ∷ []) rest)
          (map_grefs-granted (i + 1) (before ++ (gref ∷ [])) rest more next) in
      ground (
        arith,
        found,
        made,
        allocates.filled i,
        ih mapped,
        ih (mapped ++ (area i ∷ [])),
        append_assoc mapped (area i ∷ []) (granted_areas env area (i + 1) rest),
      )

  -- Without a list, the first area faults.
  map_grefs-unheld :
      (i : ℕ) (before rest : List ℕ)
      → i ≡ length before
      → map_grefs false env (before ++ rest) (length rest) i []
        ≡ held false (granted_areas env area i rest)
  unfolding map_grefs store kept
  map_grefs-unheld i before [] e = refl
  map_grefs-unheld i before (gref ∷ rest) e =
      let found : get_elem? (before ++ (gref ∷ rest)) i ≡ some gref =
        ap (get_elem? (before ++ (gref ∷ rest))) e ∙ get_elem?-append before gref rest in
      let made = map_gref-kept (env i) (area i) gref (allocates.found i) in
      let next : i + 1 ≡ length (before ++ (gref ∷ [])) =
        omega (arith, e, length-append before (gref ∷ [])) in
      let ih =
        subst
          (λ l.
            map_grefs false env l (length rest) (i + 1) []
            ≡ held false (granted_areas env area (i + 1) rest))
          (append_assoc before (gref ∷ []) rest)
          (map_grefs-unheld (i + 1) (before ++ (gref ∷ [])) rest next) in
      ground (arith, found, made, allocates.filled i, ih)

  map_grefs-held :
      (room : Bool) (grefs : List ℕ)
      → map_grefs room env grefs (length grefs) 0 [] ≡ held room (granted_areas env area 0 grefs)
  map_grefs-held true grefs = map_grefs-granted 0 [] grefs [] refl
  map_grefs-held false grefs = map_grefs-unheld 0 [] grefs refl

  -- Every page gets an area, and the report has as many grants as it says. If kzalloc gives a page
  -- of memory for each grant, or if no grant is mapped, monitor_report ends and keeps the areas of
  -- exactly those grants that are valid and that the hypervisor mapped, in the report's order; it
  -- makes the process of the report the current one, and changes nothing else. If kzalloc does not
  -- give that much and a grant is mapped, it faults.
  pub report-granted :
      (kzalloc : ℕ → Bool) (rep : ProcessReport) (s : State)
      → length rep.gref_list ≡ rep.pfn_list_length
      → report kzalloc env rep s ≡ (
          held (kzalloc (rep.pfn_list_length * page_size)) (granted_areas env area 0 rep.gref_list)
          >>= λ areas. ok (record s { vm_structs = areas; curr_proc = rep.process_id }))
  unfolding report
  report-granted kzalloc rep s e = rw (← e) (
      ap (λ r. r >>= λ areas. ok (record s { vm_structs = areas; curr_proc = rep.process_id }))
        (map_grefs-held (kzalloc (length rep.gref_list * page_size)) rep.gref_list))

-- monitor_report leaves the guests' info structures, the flags and the watched processes alone.
pub report-keeps :
    (kzalloc : ℕ → Bool) (env : ℕ → MapEnv) (rep : ProcessReport) (s : State)
    → IfOk
        (λ s'.
          (s'.report_in_progress ≡ s.report_in_progress)
          × (s'.share_info ≡ s.share_info)
          × (s'.infos ≡ s.infos)
          × (s'.dom_list ≡ s.dom_list))
        (report kzalloc env rep s)
unfolding report
report-keeps kzalloc env rep s =
    IfOk-bind _
      (map_grefs (kzalloc (rep.pfn_list_length * page_size)) env rep.gref_list rep.pfn_list_length 0
        [])
      (λ mapped. ok (record s { vm_structs = mapped; curr_proc = rep.process_id }))
      λ mapped e. (refl, refl, refl, refl)
