-- ===== src/Monitor/Grants.antt =====
-- drivers/xen/monitor/monitor.c, reports: monitor_populate_report copies a report from the daemon,
-- monitor_map_gref maps one page of a guest, and monitor_report maps the pages of a report.
-- alloc_vm_area, the grant table hypercall, copy_from_user and kzalloc are not part of the repository:
-- what they return is an argument.
pub mod Mapped
use maitland.Base.{
  ℕ, zero, suc, ◌+◌, ◌*◌, ◌<◌, ◌==◌, Bool, true, false, not, ◌&&◌, if◌then◌else◌, ltb, Option, none,
  some, List, [], ◌∷◌, ◌++◌, get_elem?, Run, ok, fault, ◌>>=◌,
}
use maitland.Wire.{ProcessReport}
use maitland.Monitor.State.{State, VmStruct}

-- The environment's part in one call of monitor_map_gref: the area that alloc_vm_area returns, the
-- result of the hypercall, and the status that it leaves in `ops`.
pub record MapEnv : Type 0 where
  pub area : Option VmStruct
  pub hypercall : ℕ
  pub status : ℕ

pub map_gref : MapEnv → ℕ → Run VmStruct
map_gref env gref = elim env.area [
  | none ↦ fault
  | some v_start ↦
      let v1 = if ltb gref 1 then record v_start { size = 0 } else v_start in
      let v2 = if env.hypercall == 0 then v1 else record v1 { size = 0 } in
      ok (if env.status == 0 then v2 else record v2 { size = 0 })
]

-- `vm_struct_list[j] = tmp_vm_struct` for an area that is not empty, where `room` is whether the list
-- was allocated.
store : Bool → List VmStruct → VmStruct → Run (List VmStruct)
store room mapped tmp =
    if ltb 0 tmp.size then (if room then ok (mapped ++ (tmp ∷ [])) else fault) else ok mapped

-- The loop over the report's grants, with the rounds that are left: `env i` answers call `i`.
map_grefs : Bool → (ℕ → MapEnv) → List ℕ → ℕ → ℕ → List VmStruct → Run (List VmStruct)
unfolding store
map_grefs room env grefs zero i mapped = ok mapped
map_grefs room env grefs (suc rounds) i mapped = elim (get_elem? grefs i) [
  | none ↦ fault
  | some gref ↦ (do
    tmp ← map_gref (env i) gref
    mapped' ← store room mapped tmp
    map_grefs room env grefs rounds (i + 1) mapped')
]

abbrev pub page_size : ℕ
page_size = 4096

-- `kzalloc n` is whether kzalloc gives `n` bytes, which is not tested.
pub report : (ℕ → Bool) → (ℕ → MapEnv) → ProcessReport → State → Run State
unfolding map_grefs
report kzalloc env rep s = do
  mapped ←
      map_grefs (kzalloc (rep.pfn_list_length * page_size)) env rep.gref_list rep.pfn_list_length 0
        []
  ok (record s { vm_structs = mapped; curr_proc = rep.process_id })

-- `sizeof(process_report_t)`
abbrev pub report_size : ℕ
report_size = 40

-- `copy xs n` is what copy_from_user leaves in an array of `n` zeroed words, and `kzalloc i n` whether
-- the `i`-th call of kzalloc gives `n` bytes. The results are not tested, and a use of NULL counts
-- as a fault, also as the destination of copy_from_user.
unfoldable pub populate_report :
    (ℕ → ℕ → Bool) → (List ℕ → ℕ → List ℕ) → ProcessReport → Run ProcessReport
populate_report kzalloc copy tmp_rep =
    let n = tmp_rep.pfn_list_length in
    if kzalloc 0 report_size && (kzalloc 1 (n * 8) && kzalloc 2 (n * 4))
    then ok (record {
      process_id = tmp_rep.process_id;
      domid = tmp_rep.domid;
      process_age = tmp_rep.process_age;
      pfn_list = copy tmp_rep.pfn_list n;
      gref_list = copy tmp_rep.gref_list n;
      pfn_list_length = n;
    })
    else fault
