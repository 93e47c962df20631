-- ===== src/Malpage/Send.antt =====
-- drivers/xen/malpage/malpage.c, the reports that go to the daemon through XenStore:
-- malpage_xs_report, malpage_xs_watch, malpage_watch and malpage_ioctl. A result is the list of the
-- transactions, each with what it does; what the xenbus calls return is ignored by the code.
-- kzalloc is not part of the repository: `room n` bytes can be written to an allocation of `n`, none
-- if it fails. Printing more than that is a fault.
pub mod Sent
use maitland.Base.{
  ℕ, zero, suc, ◌+◌, ◌==◌, if◌then◌else◌, ltb, none, some, List, [], ◌∷◌, ◌++◌, length, get_elem?,
  ℤ, pos, negsuc, to_unsigned, Run, ok, fault, ◌>>=◌, Text, codes, decimal,
}
use maitland.XenStore.{join, Op, mkdir, write}
use maitland.Wire.{ProcessReport}

abbrev pub xs_report_path : Text
xs_report_path = codes "/malpage/report"

abbrev pub xs_report_ready_path : Text
xs_report_ready_path = codes "ready"

abbrev pub xs_report_domid_path : Text
xs_report_domid_path = codes "domid"

abbrev pub xs_report_pid_path : Text
xs_report_pid_path = codes "pid"

abbrev pub xs_report_gref_path : Text
xs_report_gref_path = codes "grefs"

abbrev pub xs_watchreport_path : Text
xs_watchreport_path = codes "/malpage/watch"

abbrev pub generalerr : ℤ
generalerr = negsuc 8

abbrev pub badcmd : ℤ
badcmd = negsuc 9

-- malpage.h's commands, which it writes as sums of MALPAGE_IOC_MAGIC.
abbrev pub ioc_magic : ℕ
ioc_magic = 250

abbrev pub cmd_report : ℕ
cmd_report = ioc_magic + 1

abbrev pub cmd_test : ℕ
cmd_test = ioc_magic + 9

abbrev pub cmd_watch : ℕ
cmd_watch = ioc_magic + 10

-- A text with its NUL printed to an allocation of `n` bytes.
unfoldable pub sprintf : (ℕ → ℕ) → ℕ → Text → Run Text
sprintf room n s = if ltb (length s) (room n) then ok s else fault

-- `for (i = 0; i < rep->pfn_list_length; i++)` with the rounds that are left.
pub send_frames : (ℕ → ℕ) → ProcessReport → Text → ℕ → ℕ → Run (List (List Op))
send_frames room rep report_gref_path zero i = ok []
send_frames room rep report_gref_path (suc rounds) i = elim (get_elem? rep.pfn_list i) [
  | none ↦ fault
  | some pfn ↦ elim (get_elem? rep.gref_list i) [
    | none ↦ fault
    | some gref ↦ do
      pfn_str ← sprintf room (length (codes "18446744073709551615")) (decimal pfn)
      gref_str ← sprintf room (length (codes "100000")) (decimal gref)
      rest ← send_frames room rep report_gref_path rounds (i + 1)
      ok ((write report_gref_path gref_str pfn_str ∷ []) ∷ rest)
  ]
]

-- What signals the daemon that a report is complete.
unfoldable pub finish : Text → Text → Text → List Op
finish report_path domid_str pid_str =
    write report_path xs_report_domid_path domid_str
    ∷ write report_path xs_report_pid_path pid_str
    ∷ write report_path xs_report_ready_path (codes "1")
    ∷ []

-- The frames and the end, once the paths are printed.
pub send_all : (ℕ → ℕ) → ProcessReport → Text → Text → Text → Text → Run (List (List Op) × ℤ)
unfolding send_frames finish
send_all room rep domid_str pid_str report_path report_gref_path = do
  frames ← send_frames room rep report_gref_path rep.pfn_list_length 0
  ok (
    (mkdir report_path xs_report_gref_path ∷ [])
        ∷ (frames ++ (finish report_path domid_str pid_str ∷ [])),
    pos 0,
  )

pub xs_report : (ℕ → ℕ) → ProcessReport → Run (List (List Op) × ℤ)
unfolding send_all
xs_report room rep = do
  domid_str ← sprintf room (length (codes "10000")) (decimal rep.domid)
  pid_str ← sprintf room (length (codes "100000")) (decimal rep.process_id)
  let len = length xs_report_path + length domid_str
  report_path ← sprintf room len (join xs_report_path domid_str)
  let rest = (do
    report_gref_path ←
        sprintf room (len + length xs_report_gref_path)
          (join (join xs_report_path domid_str) xs_report_gref_path)
    let all = send_all room rep domid_str pid_str report_path report_gref_path
    if ltb (length report_gref_path) 1 then ok ([], generalerr) else all)
  if ltb (length report_path) 1 then ok ([], generalerr) else rest

pub xs_watch : (ℕ → ℕ) → ProcessReport → Run (List (List Op) × ℤ)
unfolding finish
xs_watch room rep = do
  domid_str ← sprintf room (length (codes "10000")) (decimal rep.domid)
  pid_str ← sprintf room (length (codes "100000")) (decimal rep.process_id)
  let len = length xs_watchreport_path + length domid_str
  report_path ← sprintf room len (join xs_watchreport_path domid_str)
  let sent = ok (finish report_path domid_str pid_str ∷ [], pos 0)
  if ltb (length report_path) 1 then ok ([], generalerr) else sent

-- The other fields of the local report keep their first values, `rep`.
pub malpage_watch : (ℕ → ℕ) → ProcessReport → ℤ → ℕ → Run (List (List Op) × ℤ)
unfolding xs_watch
malpage_watch room rep procID domid = do
  (sent, result) ← xs_watch room (record rep { process_id = to_unsigned procID; domid = domid })
  ok (sent, pos 0)

pub malpage_ioctl : (ℕ → ℕ) → ProcessReport → ℕ → ℕ → ℤ → Run (List (List Op) × ℤ)
unfolding malpage_watch
malpage_ioctl room rep domid cmd procID =
    if cmd == cmd_report
    then ok ([], pos 0)
    else if cmd == cmd_watch
    then malpage_watch room rep procID domid
    else if cmd == cmd_test
    then ok ([], pos 0)
    else ok ([], badcmd)
