-- ===== src/Monitor/Read/Bounds.antt =====
-- What monitor_read copies: where in the buffer, from which areas, and how much.
use maitland.Base.{
  to_int, ℕ, zero, suc, ◌+◌, ◌-◌, ◌*◌, ◌/◌, ◌%◌, ◌^◌, ◌<◌, ◌≤◌, ◌≡◌, inl, inr, ◌==◌, false,
  if◌then◌else◌, ltb, leb, List, [], ◌∷◌, ◌++◌, All, pos, arith, Returns, returns, Returns-mono,
  Returns-bind, Bool-cases, ltb→lt,
}
use maitland.Monitor.Read.{Copy, vmstruct_size, find_index, copy_blocks, read_from, read}

-- The first area that starts at or behind the offset.
abbrev IsIndex : ℕ → ℕ → Type 0
IsIndex offp j = (offp ≤ j * vmstruct_size) × (j * vmstruct_size < offp + vmstruct_size)

find_index-IsIndex :
    (rounds offp i : ℕ)
    → offp + vmstruct_size ≤ (i + rounds) * vmstruct_size
    → i * vmstruct_size < offp + vmstruct_size
    → Returns (IsIndex offp) (find_index rounds offp i)
unfolding find_index
find_index-IsIndex zero offp i h low = absurd (omega arith)
find_index-IsIndex (suc rounds) offp i h low = elim (Bool-cases (ltb (i * vmstruct_size) offp)) [
  | inl more ↦
      let before = ltb→lt (i * vmstruct_size) offp more in
      rw more (find_index-IsIndex rounds offp (i + 1) (omega arith) (omega arith))
  | inr done ↦ rw done (returns (ground arith, low))
]

All-append {ℓ κ} :
    {A : Type ℓ} (P : A → Type κ) (xs ys : List A) → All P xs → All P ys → All P (xs ++ ys)
All-append P [] ys hx hy = hy
All-append P (x ∷ xs) ys hx hy = (hx.0, All-append P xs ys hx.1 hy)

module _ (fails : ℕ → ℕ → ℕ) (size : ℕ) where
  -- A copy from an area that exists, into the first `count` bytes of the buffer.
  abbrev pub Fits : ℕ → Copy → Type 0
  Fits count c = (c.index < size) × (c.offset + c.bytes ≤ count)

  abbrev pub Copied : ℕ → List Copy × ℕ → Type 0
  Copied count (copies, bytes) = All (Fits count) copies × (bytes ≤ count)

  copy_blocks-Copied :
      (rounds i leftover byte_count : ℕ) (copies : List Copy) (count : ℕ)
      → leftover / vmstruct_size < rounds
      → leftover ≤ (size - i) * vmstruct_size
      → byte_count + leftover ≤ count
      → All (Fits count) copies
      → Returns (Copied count) (copy_blocks fails size rounds i leftover byte_count copies)
  unfolding copy_blocks
  copy_blocks-Copied zero i leftover byte_count copies count fuel room fit done =
      absurd (omega arith)
  copy_blocks-Copied (suc rounds) i leftover byte_count copies count fuel room fit done =
      elim (Bool-cases (leftover == 0)) [
        | inl none_left ↦ rw none_left (returns (done, omega arith))
        | inr left ↦
            let pending : 0 < leftover = ground arith in
            let inside : leb size i ≡ false = ground arith in
            elim (Bool-cases (leb vmstruct_size leftover)) [
              | inl whole ↦
                  let large : vmstruct_size ≤ leftover = ground arith in
                  rw (left, inside, whole)
                    (copy_blocks-Copied rounds (i + 1) (leftover - vmstruct_size) _ _ count
                      (omega arith) (omega arith) (omega arith)
                      (All-append (Fits count) copies _ done ((ground arith, omega arith), tt)))
              | inr part ↦
                  rw (left, inside, part)
                    (returns (
                      All-append (Fits count) copies _ done ((ground arith, omega arith), tt),
                      omega arith,
                    ))
            ]
      ]

  -- The bytes that are left to copy from area `i` on.
  abbrev pub wanted : ℕ → ℕ → ℕ
  wanted i count =
      if ltb ((size - i) * vmstruct_size) count then (size - i) * vmstruct_size else count

  count_int : (count : ℕ) → count < 2 ^ 31 → to_int (count % 2 ^ 32) ≡ pos count
  count_int count h = rw (let e : count % 2 ^ 32 ≡ count = omega arith in e) (ground arith)

  read_from_lem :
      (i count : ℕ)
      → count < 2 ^ 31
      → size * vmstruct_size < 2 ^ 31
      → read_from fails size i (to_int (count % 2 ^ 32))
        ≡ copy_blocks fails size (wanted i count / vmstruct_size + 2) i (wanted i count) 0 []
  unfolding read_from
  read_from_lem i count small total =
      let available : (size - i) * vmstruct_size < 2 ^ 31 = omega arith in
      ground (arith, count_int count small, count_int ((size - i) * vmstruct_size) available)

  -- A read of fewer than 2 ^ 31 bytes, of areas that hold fewer than 2 ^ 31 bytes together, ends
  -- without an access beyond the list of areas, writes only into the first `count` bytes of the
  -- buffer, and returns at most `count`, whatever the offset and the failures to copy.
  pub read-Copied :
      (count offp : ℕ)
      → count < 2 ^ 31
      → size * vmstruct_size < 2 ^ 31
      → Returns (Copied count) (read fails size count offp)
  unfolding read
  read-Copied count offp small total = elim (Bool-cases (ltb (size * vmstruct_size) offp)) [
    | inl beyond ↦ rw beyond (returns (tt, omega arith))
    | inr within ↦ rw within (
        Returns-bind
          (find_index-IsIndex (offp / vmstruct_size + 2) offp 0 (omega arith) (omega arith))
          λ i p. rw (read_from_lem i count small total) (
            copy_blocks-Copied _ i (wanted i count) 0 [] count (omega arith) (ground arith)
              (ground arith) tt))
  ]

  copy_blocks-total :
      ((i n : ℕ) → fails i n ≡ 0)
      → (rounds i leftover byte_count : ℕ) (copies : List Copy) → leftover / vmstruct_size < rounds
      → leftover ≤ (size - i) * vmstruct_size
      → Returns
          (λ r. r.1 ≡ byte_count + leftover)
          (copy_blocks fails size rounds i leftover byte_count copies)
  unfolding copy_blocks
  copy_blocks-total copied zero i leftover byte_count copies fuel room = absurd (omega arith)
  copy_blocks-total copied (suc rounds) i leftover byte_count copies fuel room =
      elim (Bool-cases (leftover == 0)) [
        | inl none_left ↦ rw none_left (returns (ground arith))
        | inr left ↦
            let inside : leb size i ≡ false = ground arith in
            elim (Bool-cases (leb vmstruct_size leftover)) [
              | inl whole ↦
                  let large : vmstruct_size ≤ leftover = ground arith in
                  rw (left, inside, whole)
                    (Returns-mono
                      (copy_blocks-total copied rounds (i + 1) (leftover - vmstruct_size) _ _
                        (omega arith) (omega arith))
                      λ r e. omega (arith, e, copied i vmstruct_size))
              | inr part ↦ rw (left, inside, part) (returns (omega (arith, copied i leftover)))
            ]
      ]

  -- If every copy succeeds, a read at the start of area `k` returns as many bytes as were asked
  -- for, or all that the areas from `k` on hold.
  pub read-total :
      ((i n : ℕ) → fails i n ≡ 0)
      → (count k : ℕ) → count < 2 ^ 31
      → size * vmstruct_size < 2 ^ 31
      → k ≤ size
      → Returns (λ r. r.1 ≡ wanted k count) (read fails size count (k * vmstruct_size))
  unfolding read
  read-total copied count k small total h =
      let within : ltb (size * vmstruct_size) (k * vmstruct_size) ≡ false = ground arith in
      rw within (
        Returns-bind
          (find_index-IsIndex (k * vmstruct_size / vmstruct_size + 2) (k * vmstruct_size) 0
            (omega arith) (omega arith))
          λ i p.
            let e : i ≡ k = omega arith in
            rw (e, read_from_lem k count small total)
              (Returns-mono
                (copy_blocks-total copied _ k (wanted k count) 0 [] (omega arith) (ground arith))
                λ r t. omega (arith, t)))
