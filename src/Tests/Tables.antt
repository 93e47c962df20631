-- ===== src/Tests/Tables.antt =====
-- The scan by page tables, of a process with two frames, one of them mapped twice.
use maitland.Base.{ℕ, true, false, some, none, [], ◌∷◌, List, Returns, arith}
use maitland.Malpage.Tables.{Pte, Entry, scan_ptes, scan_table, scan_pgd, pfnlist}
use maitland.Malpage.Tables.Scanned.{Listing, pfnlist-listed}
use maitland.Tests.Frames.{empty_heap, kernel, kernel-Fresh}

abbrev pte : ℕ → Pte
pte mfn = record { present = true; file = false; mfn = mfn }

abbrev swapped : Pte
swapped = record { present = false; file = false; mfn = 9 }

abbrev entry : {A : Type 0} → List A → Entry A
entry table = record { present = true; is_none = false; bad = false; table = some table }

abbrev missing : {A : Type 0} → Entry A
missing = record { present = false; is_none = true; bad = false; table = none }

abbrev pgd : List (Entry (Entry (Entry Pte)))
pgd =
    missing
    ∷ entry (entry (entry (pte 5 ∷ swapped ∷ pte 8 ∷ []) ∷ missing ∷ entry (pte 5 ∷ []) ∷ []) ∷ [])
    ∷ []

pfnlist-listed_example :
    Returns
      (λ (h', r). Listing (5 ∷ 8 ∷ []) h' r)
      (pfnlist kernel.alloc 4 77 (some (some pgd)) true empty_heap)
unfolding scan_pgd scan_table scan_ptes
pfnlist-listed_example =
    pfnlist-listed kernel.alloc 77 empty_heap kernel-Fresh 4 pgd true (omega arith) (omega arith)
