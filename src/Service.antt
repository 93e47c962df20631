-- ===== src/Service.antt =====
-- dom0/service_interface: the client of the scanning service. service_client.py (monitorSubmitHash)
-- asks a local table of earlier verdicts (service_client_control.py), and only then the service,
-- which is reached over the network: `remote` are its answers to the calls, in their order. The
-- table is a list, oldest entry first; nobody else changes it during a call. What is printed, the
-- name server and the pauses are left out.
pub mod Cached
use maitland.Base.{
  ℕ, zero, suc, ◌+◌, ◌==◌, ◌&&◌, Bool, true, false, if◌then◌else◌, leb, ltb, Option, none, some,
  List, [], ◌∷◌, ◌++◌, length, Text, codes, text_eq,
}

-- HashClass of serviceHash.py, less its unused list. The key is the whole page.
pub record HashClass : Type 0 where
  pub hash_key : Text
  pub id0 : ℕ
  pub id1 : ℕ
  pub id2 : ℕ
  pub status : Text

abbrev pub bad : Text
bad = codes "b"

abbrev pub good : Text
good = codes "g"

-- `HashClass.__init__`
abbrev pub hash_class : Text → ℕ → ℕ → ℕ → HashClass
hash_class key id0 id1 id2 = record {
  hash_key = key;
  id0 = id0;
  id1 = id1;
  id2 = id2;
  status = bad;
}

-- LOCAL_HASH_TABLE_MAX_SIZE
abbrev pub max_size : ℕ
max_size = 100

-- The comparison in searchHashList, which leaves out `id0`.
abbrev pub same_entry : HashClass → HashClass → Bool
same_entry a b = text_eq a.hash_key b.hash_key && ((a.id1 == b.id1) && (a.id2 == b.id2))

-- The loop looks at the newest entry first.
unfoldable pub search_hash_list : HashClass → List HashClass → Option Text
search_hash_list obj [] = none
search_hash_list obj (entry ∷ entries) =
    let older = if same_entry obj entry then some entry.status else none in
    elim (search_hash_list obj entries) [ none ↦ older | some status ↦ some status ]

-- `thisList.remove(thisList[0])`
cleanup : List HashClass → List HashClass
cleanup [] = []
cleanup (entry ∷ entries) = entries

unfoldable pub master_clean_up : List HashClass → List HashClass
unfolding cleanup
master_clean_up entries = if leb max_size (length entries) then cleanup entries else entries

unfoldable pub append_list : HashClass → List HashClass → List HashClass
append_list obj entries = elim (search_hash_list obj entries) [
  | none ↦ entries ++ (obj ∷ [])
  | some status ↦ entries
]

-- A call of the service: ConnectionDeniedError, or its verdict.
pub data Answer : Type 0 where
  denied : Answer
  verdict : Text → Answer

-- The call again, outside `try`: a second denial is an exception.
call_again : Answer → Option Text
call_again denied = none
call_again (verdict v) = some v

-- One round of the loop: the result, and the number of the next call.
call_service : (ℕ → Answer) → ℕ → Option (Text × ℕ)
unfolding call_again
call_service remote i = elim (remote i) [
  | verdict v ↦ some (v, i + 1)
  | denied ↦ elim (call_again (remote (i + 1))) [ none ↦ none | some v ↦ some (v, i + 2) ]
]

-- `while (result == "0" and repeats >= 0)`, with `repeats + 1` rounds left.
call_loop : (ℕ → Answer) → ℕ → Text → ℕ → Option Text
unfolding call_service
call_loop remote zero result i = some result
call_loop remote (suc rounds) result i =
    if text_eq result (codes "0")
    then elim (call_service remote i) [
      | none ↦ none
      | some (v, next) ↦ call_loop remote rounds v next
    ]
    else some result

-- `processData`: the pages, the process, its age and its domain.
pub record ProcessData : Type 0 where
  pub pages : List Text
  pub process_id : ℕ
  pub process_age : ℕ
  pub domain_id : ℕ

-- REPEATS_IF_CONN_DENIED
abbrev pub repeats_if_conn_denied : ℕ
repeats_if_conn_denied = 10

-- The last page, where the search begins and ends: its first round returns or breaks.
pub last_page : List Text → Option Text
last_page [] = none
last_page (page ∷ []) = some page
last_page (page ∷ next ∷ pages) = last_page (next ∷ pages)

-- What follows the loop: the verdict is entered in the table, which gives up its oldest entry if it
-- is full. An exception enters nothing.
remember : HashClass → List HashClass → Option Text → Option (List HashClass × Text)
remember obj entries none = none
remember obj entries (some result) =
    some (append_list (record obj { status = result }) (master_clean_up entries), result)

-- What follows the search.
answer :
    (ℕ → Answer) → ℕ → HashClass → List HashClass → Option Text → Option (List HashClass × Text)
unfolding call_loop remember
answer remote repeats obj entries (some status) = some (entries, status)
answer remote repeats obj entries none =
    let rounds = if ltb repeats_if_conn_denied repeats then repeats_if_conn_denied else repeats in
    remember obj entries (call_loop remote (suc rounds) (codes "0") 0)

-- A search for the last page, if there is one.
submit_page :
    (ℕ → Answer) → ℕ → ProcessData → List HashClass → Option Text → Option (List HashClass × Text)
unfolding answer
submit_page remote repeats p entries none = some (entries, good)
submit_page remote repeats p entries (some page) =
    let obj = hash_class page p.process_id p.process_age p.domain_id in
    answer remote repeats obj entries (search_hash_list obj entries)

-- The table, and the verdict.
unfoldable pub submit_hash :
    (ℕ → Answer) → ℕ → ProcessData → List HashClass → Option (List HashClass × Text)
unfolding last_page submit_page
submit_hash remote repeats p entries = submit_page remote repeats p entries (last_page p.pages)
