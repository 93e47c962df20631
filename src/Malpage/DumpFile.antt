-- ===== src/Malpage/DumpFile.antt =====
-- drivers/xen/malpage/malpage.c, malpage_dump_file: the pages of a report written to a file of the
-- guest, which nothing calls. What filp_open, mfn_to_local_pfn with pfn_to_kaddr, and vfs_write
-- return is an argument; vfs_write moves the position that it is given by what it wrote.
pub mod Spread
use maitland.Base.{
  ℕ, zero, suc, ◌+◌, ◌==◌, Bool, if◌then◌else◌, Option, none, some, List, [], ◌∷◌, ◌++◌, length,
  get_elem?, ℤ, pos, negsuc, to_int, Run, ok, fault, ◌>>=◌, Text, codes, decimal,
}
use maitland.Wire.{ProcessReport}
use maitland.Malpage.Send.{sprintf}

-- What `%d` prints.
unfoldable pub signed_decimal : ℤ → Text
signed_decimal (pos n) = decimal n
signed_decimal (negsuc n) = b'-' ∷ decimal (n + 1)

-- MALPAGE_DUMP_FILENAME
abbrev pub dump_filename : ℕ → Text
dump_filename pid = codes "/tmp/" ++ (signed_decimal (to_int pid) ++ codes "_dump.bin")

-- The variables of the loop, and what was written: each page with its position.
pub record Dump : Type 0 where
  pub position : ℕ
  pub nulls : ℕ
  pub writes : List (ℕ × ℕ)

abbrev pub page_size : ℕ
page_size = 4096

-- The body of the loop; `written i` is what call `i` of vfs_write returns.
unfoldable pub dump_page : (ℕ → Option ℕ) → (ℕ → ℕ) → ℕ → Dump → Dump
dump_page kaddr written mfn d =
    if mfn == 0 then record d { nulls = d.nulls + 1 } else elim (kaddr mfn) [
      | none ↦ d
      | some page ↦ record d {
        position = d.position + written (length d.writes) + page_size;
        writes = d.writes ++ ((d.position, page) ∷ []);
      }
    ]

-- `for (i = 0; i < rep->pfn_list_length; i++)` with the rounds that are left.
dump_loop : (ℕ → Option ℕ) → (ℕ → ℕ) → List ℕ → ℕ → ℕ → Dump → Run Dump
dump_loop kaddr written mfns zero i d = ok d
dump_loop kaddr written mfns (suc rounds) i d = elim (get_elem? mfns i) [
  | none ↦ fault
  | some mfn ↦ dump_loop kaddr written mfns rounds (i + 1) (dump_page kaddr written mfn d)
]

pub dump_file : (ℕ → ℕ) → Bool → (ℕ → Option ℕ) → (ℕ → ℕ) → ProcessReport → Run (Dump × ℤ)
unfolding dump_loop
dump_file room opened kaddr written rep = do
  filename ← sprintf room (length (codes "/tmp/%d_dump.bin") + 10) (dump_filename rep.process_id)
  let start : Dump = record { position = 0; nulls = 0; writes = [] }
  d ←
      (if opened
        then dump_loop kaddr written rep.pfn_list rep.pfn_list_length 0 start
        else ok start)
  ok (d, pos 0)
