-- ===== src/Tests/Dumps.antt =====
-- The dump of a report's pages to a file.
use maitland.Base.{
  ℕ, ◌≡◌, ◌*◌, refl, none, true, some, Option, [], ◌∷◌, pos, ok, if◌then◌else◌, ◌==◌, arith,
}
use maitland.Wire.{ProcessReport}
use maitland.Malpage.DumpFile.{Dump, dump_file, page_size}
use maitland.Malpage.DumpFile.Spread.{dump_file-spread}
use maitland.Tests.{no_report}

-- Four frames, of which one is 0 and one has no address.
abbrev four_frames : ProcessReport
four_frames = record no_report {
  process_id = 42;
  pfn_list = 5 ∷ 0 ∷ 6 ∷ 7 ∷ [];
  pfn_list_length = 4;
}

abbrev kaddr : ℕ → Option ℕ
kaddr mfn = if mfn == 6 then none else some (mfn * 4096)

dump_file-spread_example :
    (d : Dump) × (dump_file (λ n. n) true kaddr (λ i. page_size) four_frames ≡ ok (d, pos 0))
    × (d.writes ≡ (0, 20480) ∷ (8192, 28672) ∷ [])
dump_file-spread_example =
    dump_file-spread (λ n. n) kaddr (λ i. page_size) four_frames (λ n. omega arith) (λ i. refl)
      (omega arith) refl
