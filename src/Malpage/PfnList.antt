-- ===== src/Malpage/PfnList.antt =====
-- drivers/xen/malpage/malpage.c, the list of frame numbers: free_pfn_ll, pfnlist_size,
-- pfnlist_mkarray, pfnlist_find_parent_of and pfnlist_mkunique over an explicit heap, where NULL is
-- address 0 and an access to NULL or to a freed node is a fault. Each loop runs on fuel; more fuel
-- than the list has nodes is enough for all of them, as the theorems below say.
pub mod Chain
pub mod Unlink
pub mod Unique
pub mod Array
pub mod Free
use maitland.Base.{
  ℕ, zero, suc, ◌+◌, ◌==◌, if◌then◌else◌, ltb, ◌&&◌, not, Bool, Option, none, some, List, [], ◌∷◌,
  set, Run, ok, fault, out_of_fuel, ◌>>=◌,
}

-- pfn_ll_node
pub record Node : Type 0 where
  pub pfn : ℕ
  pub next : ℕ

abbrev pub node : ℕ → ℕ → Node
node pfn next = record { pfn = pfn; next = next }

abbrev pub Heap : Type 0
Heap = ℕ → Option Node

unfoldable pub write : Heap → ℕ → Option Node → Heap
write h p c a = if a == p then c else h a

unfoldable pub load : Heap → ℕ → Run Node
load h p = if p == 0 then fault else elim (h p) [ none ↦ fault | some n ↦ ok n ]

-- kfree of a node
free : Heap → ℕ → Run Heap
free h p = do n ← load h p; ok (write h p none)

-- `while (front)` of free_pfn_ll
pub free_pfn_ll : ℕ → Heap → ℕ → Run Heap
unfolding free load write
free_pfn_ll zero h front = out_of_fuel
free_pfn_ll (suc k) h front =
    if front == 0 then ok h else (do n ← load h front; h' ← free h front; free_pfn_ll k h' n.next)

pub size_loop : ℕ → Heap → ℕ → ℕ → Run ℕ
unfolding load
size_loop zero h front count = out_of_fuel
size_loop (suc k) h front count =
    if front == 0 then ok count else (do n ← load h front; size_loop k h n.next (count + 1))

pub pfnlist_size : ℕ → Heap → ℕ → Run ℕ
unfolding size_loop
pfnlist_size fuel h root = size_loop fuel h root 0

-- kzalloc of an array of words
abbrev pub zeros : ℕ → List ℕ
zeros zero = []
zeros (suc n) = 0 ∷ zeros n

-- `while (count < length && front)` of pfnlist_mkarray
array_loop : ℕ → Heap → ℕ → ℕ → ℕ → List ℕ → Run (List ℕ)
array_loop zero h length front count pfn_array = out_of_fuel
array_loop (suc k) h length front count pfn_array =
    if ltb count length && not (front == 0)
    then (do n ← load h front; array_loop k h length n.next (count + 1) (set pfn_array count n.pfn))
    else ok pfn_array

pub pfnlist_mkarray : ℕ → Heap → ℕ → ℕ → Run (List ℕ)
unfolding array_loop
pfnlist_mkarray fuel h root length = array_loop fuel h length root 0 (zeros length)

-- The loop of pfnlist_find_parent_of; the result 0 is NULL.
pub find_parent_of : ℕ → Heap → ℕ → ℕ → ℕ → Run ℕ
unfolding load
find_parent_of zero h front_parent front needle = out_of_fuel
find_parent_of (suc k) h front_parent front needle = if front == 0 then ok 0 else (do
  n ← load h front
  if n.pfn == needle
      then ok front_parent
      else (do parent ← load h front_parent; find_parent_of k h parent.next n.next needle))

-- The body of the inner loop of pfnlist_mkunique.
pub unlink : Heap → ℕ → Run Heap
unfolding load free write
unlink h tmp = do
  t ← load h tmp
  needle_node ← load h t.next
  free (write h tmp (some (record t { next = needle_node.next }))) t.next

-- The inner loop, for the node at `front`.
inner_loop : ℕ → ℕ → Heap → ℕ → ℕ → Run (Heap × ℕ)
inner_loop fuel zero h front removed = out_of_fuel
inner_loop fuel (suc k) h front removed = do
  n ← load h front
  tmp ← find_parent_of fuel h front n.next n.pfn
  let rest = (unlink h tmp >>= λ h'. inner_loop fuel k h' front (removed + 1))
  if tmp == 0 then ok (h, removed) else rest

outer_loop : ℕ → ℕ → Heap → ℕ → ℕ → Run (Heap × ℕ)
outer_loop fuel zero h front removed = out_of_fuel
outer_loop fuel (suc k) h front removed = if front == 0 then ok (h, removed) else (do
  (h', removed') ← inner_loop fuel fuel h front removed
  n ← load h' front
  outer_loop fuel k h' n.next removed')

-- The heap afterwards, and the number of removed nodes.
pub pfnlist_mkunique : ℕ → Heap → ℕ → Run (Heap × ℕ)
unfolding outer_loop
pfnlist_mkunique fuel h root = outer_loop fuel fuel h root 0
