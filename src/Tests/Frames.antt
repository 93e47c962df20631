-- ===== src/Tests/Frames.antt =====
-- The list of frame numbers, and the walk that fills it.
use maitland.Base.{
  length, pos, ltb→lt, ◌<◌, ℕ, ◌+◌, ◌*◌, ◌/◌, ◌≡◌, refl, ◌==◌, if◌then◌else◌, false, none, some, [],
  ◌∷◌, Returns, arith,
}
use maitland.Malpage.PfnList.{Heap, node, pfnlist_mkunique}
use maitland.Malpage.PfnList.Chain.{Cells, Chain}
use maitland.Malpage.PfnList.Unlink.{Shrinks}
use maitland.Malpage.PfnList.Unique.{pfnlist_mkunique-firsts}
use maitland.Malpage.Report.{Task, Kernel, find_process, report}
use maitland.Malpage.Report.Built.{Fresh}
use maitland.Malpage.Report.Shared.{shared, report-shared}
use maitland.Malpage.Walk.{PageWalk, addr_to_mfn, Vma, region}
use maitland.Malpage.Walk.Probes.{mapped, all_mapped, Listed, region_complete}

-- The list 5, 8, 5 at the addresses 100, 200 and 300.
abbrev cells : Cells
cells = (100, 5) ∷ (200, 8) ∷ (300, 5) ∷ []

abbrev heap : Heap
heap a =
    if a == 100
    then some (node 5 200)
    else if a == 200
    then some (node 8 300)
    else if a == 300
    then some (node 5 0)
    else none

cells-Chain : Chain heap cells
cells-Chain = (omega arith, refl, refl, (omega arith, refl, refl, (omega arith, refl, refl, tt)))

pfnlist_mkunique-firsts_example :
    Returns
      (λ (h', r). Shrinks heap cells h' ((100, 5) ∷ (200, 8) ∷ []) × (r + 2 ≡ 3))
      (pfnlist_mkunique 4 heap 100)
pfnlist_mkunique-firsts_example = pfnlist_mkunique-firsts 4 heap cells cells-Chain (omega arith)

-- A process with the page 16 mapped to frame 7, and nothing else.
abbrev mm : ℕ → PageWalk
mm a = record {
  pgd_none = false;
  pud_none = false;
  pmd_none = false;
  pte_null = false;
  pte_present = a / 4096 == 16;
  pte_none = false;
  pte_mfn = 7;
}

mm-paged : (a : ℕ) → addr_to_mfn mm a ≡ addr_to_mfn mm (a / 4096 * 4096)
unfolding addr_to_mfn
mm-paged a = let same : a / 4096 * 4096 / 4096 ≡ a / 4096 = omega arith in rw same refl

page_16-mapped : addr_to_mfn mm 65536 ≡ 7
unfolding addr_to_mfn
page_16-mapped = refl

region_complete_example : Returns (Listed (addr_to_mfn mm (16 * 4096))) (region mm 61440 69632 [])
region_complete_example =
    region_complete mm 61440 69632 16 [] mm-paged (omega arith) (omega arith)
      (rw page_16-mapped (omega arith))

abbrev pub text_region : Vma
text_region = record { vm_start = 61440; vm_end = 69632; anon_vmas = [] }

-- Allocations from address 1000 on, and grants numbered from 50 on.
abbrev pub empty_heap : Heap
empty_heap a = none

abbrev pub kernel : Kernel
kernel = record { alloc = λ i. 1000 + i; grant = λ i mfn. pos (50 + i); fuel = 100; garbage = 0 }

pub kernel-Fresh : Fresh kernel.alloc 0 empty_heap
kernel-Fresh = record {
  found = λ j later. omega arith;
  unused = λ j later. refl;
  distinct = λ j k e. omega (arith, e);
}

abbrev pub task : Task
task = record { pid = pos 42; mm = mm; map_count = 1; mmap = text_region ∷ [] }

pub text_region-small : length (all_mapped mm (text_region ∷ [])) < 100
unfolding mapped addr_to_mfn
text_region-small = ltb→lt (length (all_mapped mm (text_region ∷ []))) 100 refl

pub task_found : find_process (task ∷ []) (pos 42) ≡ some task
unfolding find_process
task_found = refl

report-shared_example :
    Returns
      (λ (h', rep). rep ≡ some (shared kernel task text_region [] 3))
      (report kernel (task ∷ []) (pos 42) 3 empty_heap)
report-shared_example =
    report-shared kernel task text_region [] (task ∷ []) (pos 42) 3 empty_heap task_found refl
      kernel-Fresh refl (omega arith, tt) (omega arith) text_region-small
