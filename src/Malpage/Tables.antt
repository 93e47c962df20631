-- ===== src/Malpage/Tables.antt =====
-- drivers/xen/malpage/malpage.c, pfnlist: the frames of a process by its page tables, which no
-- function of the driver calls. A table is the list of its entries, PTRS_PER_* of them; what the
-- accessors of the kernel say of an entry is a field of it. As for pfnlist_vmarea, the frames are
-- collected first and the nodes appended then.
pub mod Scanned
use maitland.Base.{
  ℕ, ◌+◌, ◌-◌, ◌^◌, ◌==◌, ◌||◌, Bool, true, false, not, if◌then◌else◌, Option, none, some, List, [],
  ◌∷◌, ◌++◌, Run, ok, fault, ◌>>=◌,
}
use maitland.Malpage.PfnList.{Heap, Node, node, write, load, pfnlist_mkunique}

-- An entry of the last level, with the machine frame of its page.
pub record Pte : Type 0 where
  pub present : Bool
  pub file : Bool
  pub mfn : ℕ

-- An entry of a higher level, with the table that it points to, `none` for NULL.
pub record Entry (A : Type 0) : Type 0 where
  pub present : Bool
  pub is_none : Bool
  pub bad : Bool
  pub table : Option (List A)

unfoldable pub scan_ptes : List Pte → List ℕ
scan_ptes [] = []
scan_ptes (e ∷ es) =
    let rest = scan_ptes es in
    if not e.present || e.file then rest else if e.mfn == 0 then rest else e.mfn ∷ rest

-- The loop over a table of a higher level, with the loop over the tables below it.
unfoldable pub scan_table : {A : Type 0} → (List A → List ℕ) → List (Entry A) → List ℕ
scan_table scan [] = []
scan_table scan (e ∷ es) =
    let rest = scan_table scan es in
    let below : List ℕ = elim e.table [ none ↦ [] | some t ↦ scan t ] in
    if not e.present || (e.is_none || e.bad) then rest else below ++ rest

unfoldable pub scan_pgd : List (Entry (Entry (Entry Pte))) → List ℕ
unfolding scan_table scan_ptes
scan_pgd pgd = scan_table (scan_table (scan_table scan_ptes)) pgd

-- The heap, and the locals `root_exists`, `pfn_root` and `tmp_pfn_root`.
pub record Appender : Type 0 where
  pub heap : Heap
  pub root_exists : Bool
  pub pfn_root : ℕ
  pub tmp_pfn_root : ℕ

-- A node for one frame, with the result of kzalloc given.
pub attach : ℕ → ℕ → Appender → Run Appender
unfolding write load
attach tmp_pfn mfn b =
    let heap = write b.heap tmp_pfn (some (node mfn 0)) in
    let first =
      ok (record { heap = heap; root_exists = true; pfn_root = tmp_pfn; tmp_pfn_root = tmp_pfn }) in
    let linked = (do
      t ← load heap b.tmp_pfn_root
      ok (record b {
        heap = write heap b.tmp_pfn_root (some (record t { next = tmp_pfn }));
        tmp_pfn_root = tmp_pfn;
      })) in
    if tmp_pfn == 0 then fault else if b.root_exists then linked else first

pub attach_all : (ℕ → ℕ) → ℕ → List ℕ → Appender → Run Appender
unfolding attach
attach_all alloc i [] b = ok b
attach_all alloc i (mfn ∷ mfns) b = attach (alloc i) mfn b >>= attach_all alloc (i + 1) mfns

-- `(void*)MALPAGE_GENERALERR`
abbrev pub generalerr_pointer : ℕ
generalerr_pointer = 2 ^ 64 - 9

-- Of a process without a pgd, or without memory, which is a NULL that is read before it is tested.
-- `garbage` are the first values of `pfn_root` and `tmp_pfn_root`.
pub pfnlist :
    (ℕ → ℕ)
    → ℕ
    → ℕ
    → Option (Option (List (Entry (Entry (Entry Pte)))))
    → Bool
    → Heap
    → Run (Heap × ℕ)
unfolding scan_pgd attach_all
pfnlist alloc fuel garbage none uniq h = fault
pfnlist alloc fuel garbage (some none) uniq h = ok (h, generalerr_pointer)
pfnlist alloc fuel garbage (some (some pgd)) uniq h = do
  b ←
      attach_all alloc 0 (scan_pgd pgd)
        (record { heap = h; root_exists = false; pfn_root = garbage; tmp_pfn_root = garbage })
  let unique = (do (h', removed) ← pfnlist_mkunique fuel b.heap b.pfn_root; ok (h', b.pfn_root))
  if uniq then unique else ok (b.heap, b.pfn_root)
