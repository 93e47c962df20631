-- ===== src/Monitor/Watch.antt =====
-- drivers/xen/monitor/monitor.c, the store of watched processes: monitor_dom_list with
-- monitor_watch, monitor_check_mmuupdate, monitor_check_page_fault and monitor_print_watched.
-- An entry of the store is NULL until its domain registers, and then an array of one word for each
-- process id. An index outside either array is a fault.
pub mod Checks
pub mod Printed
pub mod Recorded
use maitland.Base.{
  ℕ, zero, suc, ◌+◌, ◌==◌, Bool, true, false, not, ◌&&◌, if◌then◌else◌, ltb, Option, none, some,
  List, [], ◌∷◌, ◌++◌, ℤ, pos, negsuc, Run, ok, fault, ◌>>=◌,
}

abbrev pub max_vms : ℕ
max_vms = 256

abbrev pub max_procs : ℕ
max_procs = 65536

-- `unsigned long ***monitor_dom_list`
abbrev pub DomList : Type 0
DomList = ℕ → Option (ℕ → ℕ)

-- `monitor_dom_list[domid]`
pub dom_cursor : DomList → ℕ → Run (Option (ℕ → ℕ))
dom_cursor doms domid = if ltb domid max_vms then ok (doms domid) else fault

pub record WatchReport : Type 0 where
  pub process_id : ℕ
  pub domid : ℕ
  pub process_age : ℕ

-- The array with one more process marked.
mark : (ℕ → ℕ) → ℕ → ℕ → ℕ
mark procs pid = λ p. if p == pid then 1 else procs p

-- The store with the array of one domain replaced.
put : DomList → ℕ → Option (ℕ → ℕ) → DomList
put doms domid procs = λ d. if d == domid then procs else doms d

pub watch : DomList → WatchReport → Run (DomList × ℤ)
unfolding dom_cursor mark put
watch doms rep = do
  cursor ← dom_cursor doms rep.domid
  elim cursor [
    | none ↦ ok (doms, negsuc 0)
    | some procs ↦
        if ltb rep.process_id max_procs
        then ok (put doms rep.domid (some (mark procs rep.process_id)), pos 0)
        else fault
  ]

-- `for (i = 0; i < MONITOR_MAX_PROCS; i++)` with the rounds that are left.
scan_procs : (ℕ → ℕ) → ℕ → ℕ → ℕ → ℤ
scan_procs procs process_id zero i = pos 0
scan_procs procs process_id (suc rounds) i =
    let rest = scan_procs procs process_id rounds (i + 1) in
    if not (procs i == 0) && (i == process_id) then pos 1 else rest

check_process : Option (ℕ → ℕ) → ℕ → ℤ
check_process none process_id = negsuc 0
check_process (some procs) process_id = scan_procs procs process_id max_procs 0

-- `domid` is an `int` here.
pub check_mmuupdate : DomList → ℤ → ℕ → Run ℤ
unfolding check_process dom_cursor
check_mmuupdate doms (pos domid) process_id = do
  cursor ← dom_cursor doms domid
  ok (check_process cursor process_id)
check_mmuupdate doms (negsuc n) process_id = fault

-- `domid` is an `unsigned int` here.
pub check_page_fault : DomList → ℕ → ℕ → Run ℤ
unfolding check_process dom_cursor
check_page_fault doms domid process_id = do
  cursor ← dom_cursor doms domid
  ok (check_process cursor process_id)

-- monitor_print_watched, with the lines that it prints as a list: the marked processes of an array.
marked : (ℕ → ℕ) → ℕ → ℕ → List ℕ
marked procs zero j = []
marked procs (suc rounds) j =
    let rest = marked procs rounds (j + 1) in if procs j == 0 then rest else j ∷ rest

print_doms : DomList → ℕ → ℕ → List (ℕ × List ℕ)
print_doms doms zero i = []
print_doms doms (suc rounds) i =
    let rest = print_doms doms rounds (i + 1) in
    elim (doms i) [ none ↦ rest | some procs ↦ (i, marked procs max_procs 0) ∷ rest ]

pub print_watched : DomList → List (ℕ × List ℕ)
unfolding print_doms marked
print_watched doms = print_doms doms max_vms 0
