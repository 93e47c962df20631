-- ===== src/Clients.antt =====
-- The C programs that use the drivers: domU/c_client/umalpage.c, dom0/c_client/umonitor.c, and
-- domU/c_loader/main.c, which is the child Loader. The calls of the C library and of the kernel are
-- not part of the repository: what they return is an argument. What is printed is left out.
pub mod Loader
pub mod Refused
use maitland.Base.{
  ℕ, ◌+◌, ◌==◌, if◌then◌else◌, ltb, Option, none, some, List, [], ◌∷◌, length, get_elem?, ℤ, pos,
  negsuc, Run, ok, fault, Text, codes, text_eq,
}

-- umalpage.c's and umonitor.c's own constants.
abbrev pub malpage_magic : ℕ
malpage_magic = 250

abbrev pub monitor_magic : ℕ
monitor_magic = 270

-- A call of ioctl with its command and argument, or a call of read.
pub data Call : Type 0 where
  ioctl : ℕ → ℤ → Call
  read : Call

pub record ClientEnv : Type 0 where
  -- the bytes that can be written to `calloc(0, 255)`
  pub room : ℕ
  pub atoi : Text → ℤ
  pub opened : ℤ
  pub read_result : ℤ

-- What umalpage does for a command: the number of an ioctl.
unfoldable pub malpage_command : Text → Option ℕ
malpage_command cmd =
    if text_eq cmd (codes "message")
    then some (malpage_magic + 1)
    else if text_eq cmd (codes "info")
    then some (malpage_magic + 2)
    else if text_eq cmd (codes "listmake")
    then some (malpage_magic + 3)
    else if text_eq cmd (codes "listclear")
    then some (malpage_magic + 4)
    else if text_eq cmd (codes "listsize")
    then some (malpage_magic + 5)
    else if text_eq cmd (codes "listshow")
    then some (malpage_magic + 6)
    else none

-- `exit(-1)` and `return 0` are the status; a failed read exits, a failed ioctl does not.
read_list : ClientEnv → List Call × ℤ
read_list env = elim env.read_result [
  | pos n ↦ (read ∷ [], pos 0)
  | negsuc e ↦ (read ∷ [], negsuc 0)
]

-- Behind the copy of the command, and open.
pub umalpage_run : ClientEnv → ℤ → Text → List Call × ℤ
unfolding malpage_command read_list
umalpage_run env pid cmd = elim (malpage_command cmd) [
  | some number ↦ (ioctl number pid ∷ [], pos 0)
  | none ↦ if text_eq cmd (codes "listread") then read_list env else ([], pos 0)
]

-- A device that cannot be opened ends the program.
if_open : ℤ → List Call × ℤ → List Call × ℤ
if_open (pos fd) result = result
if_open (negsuc e) result = ([], negsuc 0)

-- The device is opened behind the copy of the command; `run` is the rest.
with_device : ClientEnv → (ℤ → Text → List Call × ℤ) → List Text → Run (List Call × ℤ)
unfolding if_open
with_device env run (name ∷ arg ∷ cmd ∷ []) =
    let done = if_open env.opened (run (env.atoi arg) cmd) in
    if ltb (length cmd) env.room then ok done else fault
with_device env run argv = ok ([], negsuc 0)

pub umalpage : ClientEnv → List Text → Run (List Call × ℤ)
unfolding with_device umalpage_run
umalpage env argv = with_device env (umalpage_run env) argv

-- The argument of the ioctl is a local structure that nothing was written to.
umonitor_run : ℤ → ℤ → Text → List Call × ℤ
umonitor_run address pid cmd =
    if text_eq cmd (codes "map")
    then (ioctl (monitor_magic + 1) address ∷ [], pos 0)
    else ([], pos 0)

pub umonitor : ClientEnv → ℤ → List Text → Run (List Call × ℤ)
unfolding with_device umonitor_run
umonitor env address argv = with_device env (umonitor_run address) argv
