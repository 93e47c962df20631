-- ===== src/Malpage/Walk.antt =====
-- drivers/xen/malpage/malpage.c, the frames of a process: addr_to_mfn, and the loops of
-- pfnlist_vmarea over the memory regions and their anonymous regions. The page table accessors are
-- not part of the repository: what they say of an address is an argument. The list of numbers is
-- built by appending at its tail, and is the plain list of its numbers here. PAGE_SIZE is 4096.
pub mod Probes
use maitland.Base.{
  ℕ, zero, suc, ◌+◌, ◌-◌, ◌/◌, ◌==◌, ◌||◌, not, Bool, true, false, if◌then◌else◌, ltb, List, [],
  ◌∷◌, ◌++◌, Run, ok, fault, out_of_fuel, ◌>>=◌,
}

-- What pgd_none, pud_none, pmd_none, pte_offset_kernel, pte_present, pte_none and pte_mfn say.
pub record PageWalk : Type 0 where
  pub pgd_none : Bool
  pub pud_none : Bool
  pub pmd_none : Bool
  pub pte_null : Bool
  pub pte_present : Bool
  pub pte_none : Bool
  pub pte_mfn : ℕ

unfoldable pub addr_to_mfn : (ℕ → PageWalk) → ℕ → ℕ
addr_to_mfn mm addr =
    let w = mm addr in
    if w.pgd_none
    then 0
    else if w.pud_none
    then 0
    else if w.pmd_none
    then 0
    else if w.pte_null || (not w.pte_present || w.pte_none)
    then 0
    else w.pte_mfn

-- PAGE_SIZE/2
abbrev pub half_page : ℕ
half_page = 2048

-- `while (current_vma_vm_length >= 0)`, where `left` is that length. The subtraction stops at 0, as
-- the code's does by the test behind it.
scan_region : (ℕ → PageWalk) → ℕ → ℕ → ℕ → List ℕ → Run (List ℕ)
scan_region mm zero vm_end left mfns = out_of_fuel
scan_region mm (suc k) vm_end left mfns =
    let new_mfn = addr_to_mfn mm (vm_end - left) in
    let mfns' = if ltb 0 new_mfn then mfns ++ (new_mfn ∷ []) else mfns in
    let rest = scan_region mm k vm_end (left - half_page) mfns' in
    if left == 0 then ok mfns' else rest

-- A region, where the length is negative, and the loop not entered, if the end is before the start.
pub region : (ℕ → PageWalk) → ℕ → ℕ → List ℕ → Run (List ℕ)
unfolding scan_region
region mm vm_start vm_end mfns =
    if ltb vm_end vm_start
    then ok mfns
    else scan_region mm ((vm_end - vm_start) / half_page + 2) vm_end (vm_end - vm_start) mfns

pub record AnonVma : Type 0 where
  pub vm_start : ℕ
  pub vm_end : ℕ
  pub writable : Bool

-- `anon_vmas` is empty where the region has no anonymous regions.
pub record Vma : Type 0 where
  pub vm_start : ℕ
  pub vm_end : ℕ
  pub anon_vmas : List AnonVma

-- `list_for_each_entry`, which skips what is not writable.
scan_anon : (ℕ → PageWalk) → List AnonVma → List ℕ → Run (List ℕ)
scan_anon mm [] mfns = ok mfns
scan_anon mm (v ∷ vs) mfns = do
  mfns' ← (if v.writable then region mm v.vm_start v.vm_end mfns else ok mfns)
  scan_anon mm vs mfns'

-- `do { ... } while (current_vma && vma_count < vma_total)`. The first region is read without a test.
scan_vmas : (ℕ → PageWalk) → Bool → ℕ → ℕ → List Vma → List ℕ → Run (List ℕ)
unfolding scan_anon
scan_vmas mm anon vma_total vma_count [] mfns = fault
scan_vmas mm anon vma_total vma_count (v ∷ []) mfns = do
  mfns' ← region mm v.vm_start v.vm_end mfns
  if anon then scan_anon mm v.anon_vmas mfns' else ok mfns'
scan_vmas mm anon vma_total vma_count (v ∷ w ∷ vs) mfns = do
  mfns' ← region mm v.vm_start v.vm_end mfns
  mfns'' ← (if anon then scan_anon mm v.anon_vmas mfns' else ok mfns')
  let rest = scan_vmas mm anon vma_total (vma_count + 1) (w ∷ vs) mfns''
  if ltb (vma_count + 1) vma_total then rest else ok mfns''

-- The numbers in the order found, before pfnlist_mkunique. `pfn_root` is not initialised in C:
-- `garbage` is its first value. Unless that is NULL, the pointer that is used is not one to a node.
pub vmarea_mfns : (ℕ → PageWalk) → Bool → ℕ → ℕ → List Vma → Run (List ℕ)
unfolding scan_vmas
vmarea_mfns mm anon map_count garbage vmas =
    if garbage == 0 then scan_vmas mm anon map_count 0 vmas [] else fault
