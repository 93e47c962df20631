-- ===== src/Monitor/Watch/Checks.antt =====
-- What the checks and updates of the store of watched processes mean.
use maitland.Base.{
  ℕ, zero, suc, ◌+◌, ◌≤◌, ◌<◌, ◌≡◌, refl, ◌==◌, Bool, false, not, ◌&&◌, if◌then◌else◌, ltb, Option,
  none, some, ℤ, pos, negsuc, ok, fault, arith, leb, ◌||◌, ◌⊎◌,
}
use maitland.Monitor.Watch.{
  DomList, WatchReport, max_vms, max_procs, dom_cursor, mark, put, watch, scan_procs, check_process,
  check_mmuupdate, check_page_fault,
}

-- The abstract store: which processes of which domains are watched.
abbrev pub is_marked : Option (ℕ → ℕ) → ℕ → Bool
is_marked none pid = false
is_marked (some procs) pid = ltb pid max_procs && not (procs pid == 0)

abbrev pub is_watched : DomList → ℕ → ℕ → Bool
is_watched doms domid pid = is_marked (doms domid) pid

scan_procs_lem :
    (procs : ℕ → ℕ) (pid rounds i : ℕ)
    → scan_procs procs pid rounds i
      ≡ (if leb i pid && ltb pid (i + rounds) && not (procs pid == 0) then pos 1 else pos 0)
unfolding scan_procs
scan_procs_lem procs pid zero i = ground arith
scan_procs_lem procs pid (suc rounds) i = ground (arith, scan_procs_lem procs pid rounds (i + 1))

-- The answer of both checks, without the loop.
abbrev pub check_answer : Option (ℕ → ℕ) → ℕ → ℤ
check_answer none pid = negsuc 0
check_answer (some procs) pid = if is_marked (some procs) pid then pos 1 else pos 0

check_process_lem :
    (cursor : Option (ℕ → ℕ)) (pid : ℕ) → check_process cursor pid ≡ check_answer cursor pid
unfolding check_process
check_process_lem none pid = refl
check_process_lem (some procs) pid = ground (arith, scan_procs_lem procs pid max_procs 0)

-- For a domain id inside the store, the loop of monitor_check_mmuupdate stays inside the arrays and
-- returns -1 if the domain is not registered, 1 if the process is watched, and 0 otherwise.
pub check_mmuupdate_lem :
    (doms : DomList) (domid pid : ℕ)
    → domid < max_vms
    → check_mmuupdate doms (pos domid) pid ≡ ok (check_answer (doms domid) pid)
unfolding check_mmuupdate dom_cursor
check_mmuupdate_lem doms domid pid h = ground (arith, check_process_lem (doms domid) pid)

-- For a domain id inside the store, monitor_check_page_fault answers as the check of an update does.
pub check_page_fault_lem :
    (doms : DomList) (domid pid : ℕ)
    → domid < max_vms
    → check_page_fault doms domid pid ≡ ok (check_answer (doms domid) pid)
unfolding check_page_fault dom_cursor
check_page_fault_lem doms domid pid h = ground (arith, check_process_lem (doms domid) pid)

-- A watch of a process of a registered domain, with both ids in range, marks that process and
-- leaves the answers for every other process of every domain as they were.
pub watch-marks :
    (doms : DomList) (rep : WatchReport) (procs : ℕ → ℕ)
    → rep.domid < max_vms
    → rep.process_id < max_procs
    → doms rep.domid ≡ some procs
    → (doms' : DomList) × (watch doms rep ≡ ok (doms', pos 0))
      × ((d p : ℕ)
          → is_watched doms' d p
            ≡ ((d == rep.domid) && (p == rep.process_id) || is_watched doms d p))
unfolding watch
watch-marks doms rep procs hd hp e =
    (put doms rep.domid (some (mark procs rep.process_id)), ground arith, λ d p. ground arith)

-- A watch for a domain that is not registered is refused, and changes nothing.
pub watch-unregistered :
    (doms : DomList) (rep : WatchReport)
    → rep.domid < max_vms
    → doms rep.domid ≡ none
    → watch doms rep ≡ ok (doms, negsuc 0)
unfolding watch
watch-unregistered doms rep hd e = ground arith

-- monitor_watch tests neither id: with the process id of a registered domain, or with a domain id,
-- beyond the arrays, it accesses memory outside them.
pub watch-fault :
    (doms : DomList) (rep : WatchReport) (procs : ℕ → ℕ)
    → (max_vms ≤ rep.domid) ⊎ ((max_procs ≤ rep.process_id) × (doms rep.domid ≡ some procs))
    → watch doms rep ≡ fault
unfolding watch
watch-fault doms rep procs h = ground arith
