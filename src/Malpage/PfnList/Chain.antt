-- ===== src/Malpage/PfnList/Chain.antt =====
-- What a list of frame numbers stands for: the address and the number of each node, in order.
use maitland.Base.{
  ℕ, zero, suc, ◌+◌, ◌<◌, ◌≡◌, ◌==◌, ◌||◌, Bool, true, false, some, List, [], ◌∷◌, length, ok,
  arith,
}
use maitland.Malpage.PfnList.{node, Heap, load, size_loop, pfnlist_size}

abbrev pub Cells : Type 0
Cells = List (ℕ × ℕ)

-- The pointer to a list.
abbrev pub root : Cells → ℕ
root [] = 0
root ((a, v) ∷ xs) = a

abbrev pub has_addr : ℕ → Cells → Bool
has_addr a [] = false
has_addr a ((b, v) ∷ xs) = (a == b) || has_addr a xs

-- The nodes lie in the heap, at distinct addresses, each with the pointer to the next.
abbrev pub Chain : Heap → Cells → Type 0
Chain h [] = Unit {0}
Chain h ((a, v) ∷ xs) =
    (0 < a) × (h a ≡ some (node v (root xs))) × (has_addr a xs ≡ false) × Chain h xs

pub load-Chain :
    (h : Heap) (a v next : ℕ) → 0 < a → h a ≡ some (node v next) → load h a ≡ ok (node v next)
unfolding load
load-Chain h a v next pos e = ground arith

-- A change elsewhere keeps a chain.
pub Chain-frame :
    (h h' : Heap) (xs : Cells)
    → Chain h xs
    → ((a : ℕ) → has_addr a xs ≡ true → h' a ≡ h a)
    → Chain h' xs
Chain-frame h h' [] c same = tt
Chain-frame h h' ((a, v) ∷ xs) (pos, e, out, c) same =
    (pos, ground (arith, same a), out, Chain-frame h h' xs c (λ b i. ground (arith, same b)))

size_loop-length :
    (k : ℕ) (h : Heap) (xs : Cells) (count : ℕ)
    → Chain h xs
    → length xs < k
    → size_loop k h (root xs) count ≡ ok (count + length xs)
unfolding size_loop
size_loop-length zero h xs count c fuel = absurd (omega arith)
size_loop-length (suc k) h [] count c fuel = ground arith
size_loop-length (suc k) h ((a, v) ∷ xs) count (pos, e, out, c) fuel =
    ground (arith, load-Chain h a v (root xs) pos e, size_loop-length k h xs (count + 1) c)

-- With more fuel than nodes, pfnlist_size ends without a fault and returns the number of nodes.
pub pfnlist_size-length :
    (fuel : ℕ) (h : Heap) (xs : Cells)
    → Chain h xs
    → length xs < fuel
    → pfnlist_size fuel h (root xs) ≡ ok (length xs)
unfolding pfnlist_size
pfnlist_size-length fuel h xs c enough = ground (arith, size_loop-length fuel h xs 0 c)
