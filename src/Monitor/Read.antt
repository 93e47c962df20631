-- ===== src/Monitor/Read.antt =====
-- drivers/xen/monitor/monitor.c, monitor_read: the contents of the mapped pages for the daemon.
-- copy_to_user is not part of the repository: `fails i n` is the number of bytes that it could not
-- copy of the `n` bytes of area `i`. The offset is not negative, since the kernel checks that.
pub mod Bounds
use maitland.Base.{
  ℕ, zero, suc, ◌+◌, ◌-◌, ◌*◌, ◌/◌, ◌%◌, ◌^◌, ◌==◌, Bool, true, false, if◌then◌else◌, ltb, leb,
  List, [], ◌∷◌, ◌++◌, ℤ, pos, negsuc, to_int, Run, ok, fault, out_of_fuel, ◌>>=◌,
}

-- PAGE_SIZE * 2
abbrev pub vmstruct_size : ℕ
vmstruct_size = 8192

-- One call of copy_to_user: the offset in the buffer, the area, and the number of bytes.
pub record Copy : Type 0 where
  pub offset : ℕ
  pub index : ℕ
  pub bytes : ℕ

-- An `int` as the `unsigned long` that it is compared as.
abbrev pub to_ulong : ℤ → ℕ
to_ulong (pos n) = n
to_ulong (negsuc n) = 2 ^ 64 - 1 - n

-- `while (i*MONITOR_VMSTRUCT_SIZE < *offp) i++`
find_index : ℕ → ℕ → ℕ → Run ℕ
find_index zero offp i = out_of_fuel
find_index (suc rounds) offp i =
    let rest = find_index rounds offp (i + 1) in if ltb (i * vmstruct_size) offp then rest else ok i

module _ (fails : ℕ → ℕ → ℕ) (vm_struct_list_size : ℕ) where
  -- `while (leftover > 0)`: the copies made, newest last, and the bytes counted.
  copy_blocks : ℕ → ℕ → ℕ → ℕ → List Copy → Run (List Copy × ℕ)
  copy_blocks zero i leftover byte_count copies = out_of_fuel
  copy_blocks (suc rounds) i leftover byte_count copies =
      let rest =
        copy_blocks rounds (i + 1) (leftover - vmstruct_size)
          (byte_count + (vmstruct_size - fails i vmstruct_size))
          (copies ++ (record { offset = byte_count; index = i; bytes = vmstruct_size } ∷ [])) in
      if leftover == 0
      then ok (copies, byte_count)
      else if leb vm_struct_list_size i
      then fault
      else if leb vmstruct_size leftover
      then rest
      else ok (
        copies ++ (record { offset = byte_count; index = i; bytes = leftover } ∷ []),
        byte_count + (leftover - fails i leftover),
      )

  -- The part after the index is found, with `leftover` cut to what the areas hold.
  read_from : ℕ → ℤ → Run (List Copy × ℕ)
  unfolding copy_blocks
  read_from i count =
      let available = (vm_struct_list_size - i) * vmstruct_size in
      let leftover =
        if ltb available (to_ulong count) then to_int (available % 2 ^ 32) else count in
      elim leftover [ pos n ↦ copy_blocks (n / vmstruct_size + 2) i n 0 [] | negsuc _ ↦ ok ([], 0) ]

  pub read : ℕ → ℕ → Run (List Copy × ℕ)
  unfolding find_index read_from
  read count offp = if ltb (vm_struct_list_size * vmstruct_size) offp then ok ([], 0) else (do
    i ← find_index (offp / vmstruct_size + 2) offp 0
    read_from i (to_int (count % 2 ^ 32)))
