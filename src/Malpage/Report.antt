-- ===== src/Malpage/Report.antt =====
-- drivers/xen/malpage/malpage.c, the report of a process: the nodes that pfnlist_vmarea appends,
-- pfnlist_vmarea as a whole, malpage_generate_report, malpage_grant_mfn, and malpage_report up to
-- the call of malpage_xs_report, which gets the report. kzalloc and gnttab_grant_foreign_access are
-- not part of the repository: `alloc i` is the address that the `i`-th allocation gives, 0 if it
-- fails, and `grant i mfn` what the grant of the `i`-th frame returns. The walk and the appending are
-- independent of each other, so the frames are collected first and the nodes appended then.
pub mod Built
pub mod Shared
pub mod Whole
use maitland.Base.{
  ℕ, zero, suc, ◌+◌, ◌==◌, Bool, true, false, if◌then◌else◌, Option, none, some, List, [], ◌∷◌,
  get_elem?, set, ℤ, int_eq, to_unsigned, Run, ok, fault, ◌>>=◌,
}
use maitland.Wire.{ProcessReport}
use maitland.Malpage.PfnList.{
  Heap, Node, node, write, load, zeros, pfnlist_size, pfnlist_mkarray, pfnlist_mkunique,
}
use maitland.Malpage.Walk.{PageWalk, Vma, vmarea_mfns}

-- The heap, and the locals `pfn_root` and `pfn_tail`.
pub record Builder : Type 0 where
  pub heap : Heap
  pub pfn_root : ℕ
  pub pfn_tail : ℕ

-- A new node for one frame, with the result of kzalloc given.
pub append_node : ℕ → ℕ → Builder → Run Builder
unfolding write load
append_node tmp_pfn new_mfn b =
    let heap = write b.heap tmp_pfn (some (node new_mfn 0)) in
    let first = ok (record { heap = heap; pfn_root = tmp_pfn; pfn_tail = tmp_pfn }) in
    let linked = (do
      t ← load heap b.pfn_tail
      let heap' = write heap b.pfn_tail (some (record t { next = tmp_pfn }))
      n ← load heap' tmp_pfn
      ok (record {
        heap = write heap' tmp_pfn (some (record n { next = 0 }));
        pfn_root = b.pfn_root;
        pfn_tail = tmp_pfn;
      })) in
    if tmp_pfn == 0 then fault else if b.pfn_root == 0 then first else linked

-- The nodes for some numbers, where `i` counts the allocations.
pub build : (ℕ → ℕ) → ℕ → List ℕ → Builder → Run Builder
unfolding append_node
build alloc i [] b = ok b
build alloc i (mfn ∷ mfns) b = append_node (alloc i) mfn b >>= build alloc (i + 1) mfns

-- What the kernel knows of a process: its page tables and its memory regions.
pub record Task : Type 0 where
  pub pid : ℤ
  pub mm : ℕ → PageWalk
  pub map_count : ℕ
  pub mmap : List Vma

-- The calls that are not part of the repository, the fuel for the list functions, and the first value
-- of `pfn_root`.
pub record Kernel : Type 0 where
  pub alloc : ℕ → ℕ
  pub grant : ℕ → ℕ → ℤ
  pub fuel : ℕ
  pub garbage : ℕ

-- The heap, and the root of the list.
pub pfnlist_vmarea : Kernel → Task → Bool → Bool → Heap → Run (Heap × ℕ)
unfolding build
pfnlist_vmarea k task duplicates anon h = do
  mfns ← vmarea_mfns task.mm anon task.map_count k.garbage task.mmap
  b ← build k.alloc 0 mfns (record { heap = h; pfn_root = k.garbage; pfn_tail = 0 })
  let unique = (do (h', removed) ← pfnlist_mkunique k.fuel b.heap b.pfn_root; ok (h', b.pfn_root))
  if duplicates then unique else ok (b.heap, b.pfn_root)

-- The list is not freed afterwards.
pub generate_report : Kernel → Task → Heap → Run (Heap × ProcessReport)
unfolding pfnlist_vmarea
generate_report k task h = do
  (h', tmp_root) ← pfnlist_vmarea k task true false h
  pfn_list_length ← pfnlist_size k.fuel h' tmp_root
  pfn_list ← pfnlist_mkarray k.fuel h' tmp_root pfn_list_length
  ok (
    h',
    record {
      process_id = to_unsigned task.pid;
      domid = 0;
      process_age = 0;
      pfn_list = pfn_list;
      gref_list = zeros pfn_list_length;
      pfn_list_length = pfn_list_length;
    },
  )

-- The test `gref < 0` on an unsigned number never holds.
pub grant_mfn : Kernel → ℕ → ℕ → ℕ
grant_mfn k i mfn = to_unsigned (k.grant i mfn)

-- `for (i = 0; i < rep->pfn_list_length; i++)` with the rounds that are left.
pub grant_loop : Kernel → List ℕ → ℕ → ℕ → List ℕ → Run (List ℕ)
unfolding grant_mfn
grant_loop k pfn_list zero i gref_list = ok gref_list
grant_loop k pfn_list (suc rounds) i gref_list = elim (get_elem? pfn_list i) [
  | none ↦ fault
  | some mfn ↦ grant_loop k pfn_list rounds (i + 1) (set gref_list i (grant_mfn k i mfn))
]

unfoldable pub find_process : List Task → ℤ → Option Task
find_process [] pid = none
find_process (task ∷ tasks) pid =
    let rest = find_process tasks pid in if int_eq task.pid pid then some task else rest

-- The report for malpage_xs_report, or `none` if there is no such process.
pub report_task : Kernel → ℕ → Option Task → Heap → Run (Heap × Option ProcessReport)
unfolding generate_report grant_loop
report_task k domid none h = ok (h, none)
report_task k domid (some task) h = do
  (h', rep) ← generate_report k task h
  gref_list ← grant_loop k rep.pfn_list rep.pfn_list_length 0 rep.gref_list
  ok (h', some (record rep { domid = domid; gref_list = gref_list }))

pub report : Kernel → List Task → ℤ → ℕ → Heap → Run (Heap × Option ProcessReport)
unfolding find_process report_task
report k tasks procID domid h = report_task k domid (find_process tasks procID) h
