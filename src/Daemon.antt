-- ===== src/Daemon.antt =====
-- dom0/python_server/main.py, the daemon of the privileged domain: watch_domain_up,
-- watch_domain_down, watch_domain_register, watch_domain_report and watch_domain_watchreport, which XenStore calls for a path that changed.
-- Each yields the store as it is left, the commands sent to the monitor driver in their order, and
-- whether the watch stays. `none` is a Python exception before any command is sent. A number is a text
-- of digits; a sign and blanks, which int() takes too and the guest's driver never writes, are outside
-- the model. Not modelled: the permissions and the watches that are set, and what is printed.
pub mod Stored
pub mod Frames
pub mod Delivered
pub mod Received
pub mod Registered
pub mod Watching
use maitland.Base.{
  ℕ, ◌^◌, ◌==◌, Bool, true, false, if◌then◌else◌, ltb, Option, none, some, List, [], ◌∷◌, ◌++◌,
  length, Text, codes, number, split, parent,
}
use maitland.XenStore.{XenStore, join}
use maitland.Wire.{ProcessReport}
use maitland.Monitor.Watch.{WatchReport}
use maitland.Monitor.Register.{UspaceInfo}

abbrev pub monitor_xs_register_path : Text
monitor_xs_register_path = codes "/malpage/register"

abbrev pub monitor_xs_report_path : Text
monitor_xs_report_path = codes "/malpage/report"

abbrev pub monitor_xs_watchreport_path : Text
monitor_xs_watchreport_path = codes "/malpage/watch"

abbrev pub monitor_xs_report_gref_path : Text
monitor_xs_report_gref_path = codes "/grefs"

abbrev pub monitor_xs_report_domid_path : Text
monitor_xs_report_domid_path = codes "/domid"

abbrev pub monitor_xs_report_pid_path : Text
monitor_xs_report_pid_path = codes "/pid"

-- A call of doMonitorOp, with what the packed argument says.
pub data Command : Type 0 where
  monitor_register : UspaceInfo → Command
  monitor_report : ProcessReport → Command
  monitor_watch : WatchReport → Command
  monitor_resume : Command
  monitor_kill : Command

infixl 5 ◌>>=◌
abbrev pub ◌>>=◌ : {A B : Type 0} → Option A → (A → Option B) → Option B
none >>= f = none
some a >>= f = f a

-- A number as struct.pack("I") and array('I') take it.
unfoldable pub unsigned_int : ℕ → Option ℕ
unsigned_int n = if ltb n (2 ^ 32) then some n else none

-- A number as array('L') takes it.
unfoldable pub unsigned_long : ℕ → Option ℕ
unsigned_long n = if ltb n (2 ^ 64) then some n else none

-- What is sent for a report. Between the two commands, the memory is copied from the monitor's device
-- to a file. `copied` is whether the device and the file are opened and the copy ends, for which
-- Python and the C library read the device through their own buffers: an exception, behind which the
-- watch stays, or a loop that goes on leaves the first command alone. `found` is whether grep then
-- prints a place of the search string in the file; an exception of grep is caught.
abbrev pub report_commands : Bool → Bool → ProcessReport → List Command
report_commands copied found rep =
    monitor_report rep
    ∷ (if copied then (if found then monitor_kill else monitor_resume) ∷ [] else [])

module _ (x : XenStore) where
  -- `int(xs.read(th, path))`
  pub read_int : x.State → Text → Option ℕ
  read_int s path = elim (x.read s path) [ none ↦ none | some value ↦ number value ]

  -- The loop over the nodes of the frames' directory, with the numbers as the arrays hold them.
  pub read_frames : x.State → Text → List Text → Option (List ℕ × List ℕ)
  unfolding read_int
  read_frames s dir [] = some ([], [])
  read_frames s dir (node ∷ nodes) = do
    gref ← number node >>= unsigned_int
    pfn ← read_int s (join dir node) >>= unsigned_long
    (grefs, pfns) ← read_frames s dir nodes
    some (gref ∷ grefs, pfn ∷ pfns)

  pub remove_all : x.State → Text → List Text → x.State
  remove_all s dir [] = s
  remove_all s dir (node ∷ nodes) = remove_all (x.rm s (join dir node)) dir nodes

  -- From the directory of a report, what is sent to the driver.
  pub collect : x.State → Text → Option (x.State × ProcessReport)
  unfolding read_frames remove_all read_int
  collect s reg_path = do
    dirs ← x.ls s (reg_path ++ monitor_xs_report_gref_path)
    (grefs, pfns) ← read_frames s (reg_path ++ monitor_xs_report_gref_path) dirs
    domid ← read_int s (reg_path ++ monitor_xs_report_domid_path) >>= unsigned_int
    pid ← read_int s (reg_path ++ monitor_xs_report_pid_path) >>= unsigned_int
    names ← x.ls s reg_path
    some (
      remove_all s reg_path names,
      record {
        process_id = pid;
        domid = domid;
        process_age = 0;
        pfn_list = pfns;
        gref_list = grefs;
        pfn_list_length = length grefs;
      },
    )

  -- Whether a value is there and not empty.
  pub is_set : Option Text → Bool
  is_set none = false
  is_set (some []) = false
  is_set (some (c ∷ value)) = true

  pub watch_domain_report : Bool → Bool → Text → x.State → Option (x.State × List Command × Bool)
  unfolding collect is_set
  watch_domain_report copied found path s =
      let sent = (do
        (s', rep) ← collect s (parent path)
        some (s', report_commands copied found rep, true)) in
      if is_set (x.read s path) then sent else some (s, [], true)

  -- The report of a process to watch.
  pub collect_watch : x.State → Text → Option (x.State × WatchReport)
  unfolding read_int
  collect_watch s reg_path = do
    domid ← read_int s (reg_path ++ monitor_xs_report_domid_path) >>= unsigned_int
    pid ← read_int s (reg_path ++ monitor_xs_report_pid_path) >>= unsigned_int
    some (x.rm s reg_path, record { process_id = pid; domid = domid; process_age = 0 })

  -- A missing value has no length.
  pub watch_domain_watchreport : Text → x.State → Option (x.State × List Command × Bool)
  unfolding collect_watch
  watch_domain_watchreport path s =
      let sent = (do
        (s', rep) ← collect_watch s (parent path)
        some (s', monitor_watch rep ∷ [], false)) in
      elim (x.read s path) [
        | none ↦ none
        | some value ↦ if ltb 0 (length value) then sent else some (s, [], true)
      ]

  -- The parts of a registration, and the directories for the reports of its domain.
  pub open_domain : x.State → List Text → Option (x.State × UspaceInfo)
  open_domain s (domid_str ∷ gref_str ∷ evtchn_str ∷ uuid ∷ more) = do
    domid ← number domid_str >>= unsigned_int
    gref ← number gref_str >>= unsigned_int
    evtchn ← number evtchn_str >>= unsigned_int
    some (
      x.mkdir (x.mkdir s (join monitor_xs_report_path domid_str))
          (join monitor_xs_watchreport_path domid_str),
      record { domid = domid; gref = gref; evtchn = evtchn },
    )
  open_domain s values = none

  pub watch_domain_register : Text → x.State → Option (x.State × List Command × Bool)
  unfolding open_domain
  watch_domain_register path s = elim (x.read s path) [
    | none ↦ none
    | some value ↦
        let sent = (do
          (s', info) ← open_domain (x.rm s path) (split 4 b':' value)
          some (s', monitor_register info ∷ [], false)) in
        if ltb 0 (length value) then sent else some (s, [], true)
  ]

  -- A domain that is up gets an empty directory to register in.
  pub watch_domain_up : Text → x.State → Option (x.State × List Command × Bool)
  unfolding read_int
  watch_domain_up path s = elim (x.read s path) [
    | none ↦ none
    | some value ↦ (do
      domid ← number value
      let register_path = join monitor_xs_register_path value
      let made = x.mkdir (x.rm s register_path) register_path
      if ltb 0 domid then some (made, [], false) else some (s, [], true))
  ]

  -- The name `domid` in the command for a domain that is down is not defined.
  pub watch_domain_down : Text → x.State → Option (x.State × List Command × Bool)
  watch_domain_down path s = elim (x.read s path) [ none ↦ none | some value ↦ some (s, [], true) ]
