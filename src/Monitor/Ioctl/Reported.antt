-- ===== src/Monitor/Ioctl/Reported.antt =====
-- The command REPORT.
use maitland.Base.{
  ℕ, ◌*◌, ◌&&◌, if◌then◌else◌, Run, fault, out_of_fuel, Bool-cases, inl, inr, ◌>>=◌, ◌≡◌, refl, ap,
  List, length, ℤ, pos, ok,
}
use maitland.Ring.{Macros}
use maitland.Wire.{ProcessReport}
use maitland.Monitor.State.{State, VmStruct}
use maitland.Monitor.Grants.{populate_report, report_size, page_size}
use maitland.Monitor.Grants.Mapped.{Allocates, granted_areas, held, report-granted}
use maitland.Monitor.Ioctl.{Arg, Env, ioctl, cmd_report, report_process}

-- copy_from_user succeeds.
abbrev pub Copies : Env → Type 0
Copies env = (xs : List ℕ) (n : ℕ) → length xs ≡ n → env.copy xs n ≡ xs

-- What a report of `n` grants comes to, by the memory that there is for it: the areas that are kept.
abbrev pub outcome : Env → ℕ → List VmStruct → Run (List VmStruct)
outcome env n areas =
    if env.kzalloc 0 report_size && (env.kzalloc 1 (n * 8) && env.kzalloc 2 (n * 4))
    then held (env.kzalloc 3 (n * page_size)) areas
    else fault

module _ (m : Macros) (env : Env) (arg : Arg) (s : State) (area : ℕ → VmStruct) where
  answer : State → State × ℤ
  answer s' = (s', pos 0)

  answered :
      (areas : Run (List VmStruct)) (pid : ℕ)
      → ((areas >>= λ l. ok (record s { vm_structs = l; curr_proc = pid })) >>= λ s'.
          ok (answer s'))
        ≡ (areas >>= λ l. ok (record s { vm_structs = l; curr_proc = pid }, pos 0))
  unfolding answer
  answered (ok l) pid = refl
  answered fault pid = refl
  answered out_of_fuel pid = refl

  -- The pages of the report that can be mapped, and its process, become the driver's.
  pub ioctl_report-granted :
      (rep : ProcessReport)
      → Copies env
      → Allocates env.map area
      → rep.pfn_list_length ≡ length rep.gref_list
      → ioctl m env cmd_report (record arg { report = rep }) s ≡ (
          outcome env (length rep.gref_list) (granted_areas env.map area 0 rep.gref_list)
          >>= λ areas. ok (record s { vm_structs = areas; curr_proc = rep.process_id }, pos 0))
  unfolding ioctl populate_report report_process answer
  ioctl_report-granted rep copies allocates counted =
      let n = length rep.gref_list in
      let got : ProcessReport = record rep {
        pfn_list = env.copy rep.pfn_list n;
        gref_list = env.copy rep.gref_list n;
        pfn_list_length = n;
      } in
      let same : env.copy rep.gref_list n ≡ rep.gref_list = copies rep.gref_list n refl in
      let done = report-granted env.map area allocates (env.kzalloc 3) got s (ap length same) in
      let enough = env.kzalloc 0 report_size && (env.kzalloc 1 (n * 8) && env.kzalloc 2 (n * 4)) in
      rw counted (elim (Bool-cases enough) [
        | inr b ↦ rw b refl
        | inl b ↦
            rw (b, done, same)
              (answered
                (held (env.kzalloc 3 (n * page_size)) (granted_areas env.map area 0 rep.gref_list))
                rep.process_id)
      ])
