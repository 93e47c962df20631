-- ===== src/Clients/Loader.antt =====
-- domU/c_loader/main.c, which runs a program, watched unless it is a test, and measures its time.
use maitland.Base.{
  ℕ, suc, ◌+◌, ◌-◌, ◌*◌, ◌<◌, ◌≤◌, ◌≡◌, ◌==◌, ltb, Bool, Bool-cases, inl, inr, true, false,
  if◌then◌else◌, Option, none, some, List, [], ◌∷◌, ◌++◌, ℤ, pos, negsuc, Text, codes, text_eq, Run,
  ok, fault, ◌>>=◌, arith,
}

abbrev pub one_million : ℕ
one_million = 1000000

-- `struct timeval`
pub record Timeval : Type 0 where
  pub tv_sec : ℕ
  pub tv_usec : ℕ

-- The difference of two numbers, as a `long`, and one less than a `long`.
abbrev pub minus : ℕ → ℕ → ℤ
minus a b = if ltb a b then negsuc (b - a - 1) else pos (a - b)

abbrev pub pred_int : ℤ → ℤ
pred_int (pos n) = minus n 1
pred_int (negsuc n) = negsuc (suc n)

-- `ONE_MILLION + elapsed_usec`, for the negative `-(n + 1)`.
borrow : ℤ → ℤ → ℤ × ℤ
borrow sec (pos usec) = (sec, pos usec)
borrow sec (negsuc n) = (pred_int sec, minus one_million (suc n))

pub elapsed : Timeval → Timeval → ℤ × ℤ
unfolding borrow
elapsed start end = borrow (minus end.tv_sec start.tv_sec) (minus end.tv_usec start.tv_usec)

abbrev pub malpage_watch : ℕ
malpage_watch = 250 + 10

-- What the calls return, of which a negative fork is an error and 0 the child, and the two times, of
-- which the child leaves the first in the shared memory. `shared` is whether shmget and shmat succeed,
-- `memory` whether calloc and asprintf do, and `fopen` which files can be opened to write.
pub record LoaderEnv : Type 0 where
  pub opened : ℤ
  pub fork : ℤ
  pub getpid : ℤ
  pub shared : Bool
  pub memory : Bool
  pub fopen : Text → Bool
  pub start_time : Timeval
  pub end_time : Timeval

-- A call of ioctl with command and argument, of execvp with its arguments, or the line printed,
-- also to a file.
pub data Act : Type 0 where
  ioctl : ℕ → ℤ → Act
  execvp : List Text → Act
  print_elapsed : ℤ × ℤ → Act
  log_elapsed : Text → ℤ × ℤ → Act

-- Whether it is a test, and the command with its arguments.
unfoldable pub parse_args : List Text → Option (Bool × List Text)
parse_args [] = none
parse_args (name ∷ []) = none
parse_args (name ∷ arg ∷ []) = some (false, arg ∷ [])
parse_args (name ∷ arg ∷ command ∷ args) =
    if text_eq arg (codes "test")
    then some (true, command ∷ args)
    else some (false, arg ∷ command ∷ args)

-- What is done, and the status of the process.
child : LoaderEnv → Bool → List Text → List Act × ℤ
child env test_mode command = elim env.getpid [
  | negsuc e ↦ ([], negsuc 0)
  | pos pid ↦
      let run = if env.shared then (execvp command ∷ [], pos 0) else ([], pos 1) in
      if test_mode then run else (ioctl malpage_watch (pos pid) ∷ run.0, run.1)
]

-- The name that asprintf makes of `command + 2`, which lies behind the end of a shorter command.
pub log_name : Text → Run Text
log_name (c ∷ d ∷ rest) = ok (codes "/root/data_" ++ rest)
log_name command = fault

-- The results of calloc, asprintf and fopen are not tested.
parent : LoaderEnv → Text → Run (List Act × ℤ)
unfolding elapsed log_name
parent env command =
    let time = elapsed env.start_time env.end_time in
    let logged : Run (List Act × ℤ) =
      (log_name command >>= λ logfile.
      if env.fopen logfile
      then ok (print_elapsed time ∷ log_elapsed logfile time ∷ [], pos 0)
      else fault) in
    if env.shared then (if env.memory then logged else fault) else ok ([], pos 1)

forked : LoaderEnv → Bool → List Text → Text → Run (List Act × ℤ)
unfolding child parent
forked env test_mode args command = elim env.fork [
  | negsuc e ↦ ok ([], negsuc 0)
  | pos n ↦ if n == 0 then ok (child env test_mode args) else parent env command
]

abbrev command_of : List Text → Text
command_of [] = []
command_of (command ∷ args) = command

pub loader : LoaderEnv → List Text → Run (List Act × ℤ)
unfolding parse_args forked
loader env argv = elim (parse_args argv) [
  | none ↦ ok ([], negsuc 0)
  | some (test_mode, args) ↦ elim env.opened [
    | negsuc e ↦ ok ([], negsuc 0)
    | pos fd ↦ forked env test_mode args (command_of args)
  ]
]

elapsed-difference :
    (start end : Timeval)
    → start.tv_usec < one_million
    → end.tv_usec < one_million
    → start.tv_sec * one_million + start.tv_usec ≤ end.tv_sec * one_million + end.tv_usec
    → (sec : ℕ) × (usec : ℕ) × (elapsed start end ≡ (pos sec, pos usec))
      × (usec < one_million)
      × (sec * one_million + usec + (start.tv_sec * one_million + start.tv_usec)
          ≡ end.tv_sec * one_million + end.tv_usec)
unfolding elapsed borrow
elapsed-difference start end hs he order = elim (Bool-cases (ltb end.tv_usec start.tv_usec)) [
  | inl e ↦ (
    end.tv_sec - start.tv_sec - 1,
    one_million + end.tv_usec - start.tv_usec,
    ground (arith, e),
    ground (arith, e),
    ground (arith, e),
  )
  | inr e ↦ (
    end.tv_sec - start.tv_sec,
    end.tv_usec - start.tv_usec,
    ground (arith, e),
    ground (arith, e),
    ground (arith, e),
  )
]

-- For a command line that names a program by two characters or more, where the device, fork, the
-- shared memory and the allocations succeed, and for times with less than a million microseconds of
-- which the second is not before the first: if the log file, whose name is that of the program
-- without two characters behind a fixed start, can be opened, the parent process prints seconds and
-- less than a million microseconds that add up to the difference of the times, writes the same to
-- the log, and ends with 0. If it cannot be opened, the parent faults.
pub loader-elapsed :
    (env : LoaderEnv) (argv args : List Text) (c d : ℕ) (rest : Text) (test_mode : Bool)
    (fd child_pid : ℕ)
    → parse_args argv ≡ some (test_mode, (c ∷ d ∷ rest) ∷ args)
    → env.opened ≡ pos fd
    → env.fork ≡ pos child_pid
    → 0 < child_pid
    → env.shared ≡ true
    → env.memory ≡ true
    → env.start_time.tv_usec < one_million
    → env.end_time.tv_usec < one_million
    → env.start_time.tv_sec * one_million + env.start_time.tv_usec
      ≤ env.end_time.tv_sec * one_million + env.end_time.tv_usec
    → (sec : ℕ) × (usec : ℕ) × (loader env argv ≡ (
        if env.fopen (codes "/root/data_" ++ rest)
        then ok (
          print_elapsed (pos sec, pos usec)
              ∷ log_elapsed (codes "/root/data_" ++ rest) (pos sec, pos usec)
              ∷ [],
          pos 0,
        )
        else fault))
      × (usec < one_million)
      × (sec * one_million + usec + (env.start_time.tv_sec * one_million + env.start_time.tv_usec)
          ≡ env.end_time.tv_sec * one_million + env.end_time.tv_usec)
unfolding loader forked parent log_name
loader-elapsed env argv args c d rest test_mode fd child_pid parsed open_ok fork_ok positive shared
      memory hs he order =
    let (sec, usec, e, small, sum) = elapsed-difference env.start_time env.end_time hs he order in
    (
      sec,
      usec,
      rw (loader, parsed) (ground (arith, open_ok, fork_ok, positive, shared, memory, e)),
      small,
      sum,
    )
