-- ===== src/Tests/Clients.antt =====
-- The C programs, at one command line each.
use maitland.Base.{ℕ, ◌+◌, ◌*◌, ◌<◌, ◌≡◌, refl, true, false, [], ◌∷◌, pos, codes, ok, arith}
use maitland.Clients.{ClientEnv}
use maitland.Clients.Loader.{
  LoaderEnv, print_elapsed, log_elapsed, parse_args, loader, loader-elapsed,
}

abbrev client_env : ClientEnv
client_env = record { room = 24; atoi = λ s. pos 7; opened = pos 3; read_result = pos 0 }

-- The microseconds of the end are less than those of the start.
abbrev loader_env : LoaderEnv
loader_env = record {
  opened = pos 3;
  fork = pos 100;
  getpid = pos 99;
  shared = true;
  memory = true;
  fopen = λ path. true;
  start_time = record { tv_sec = 10; tv_usec = 900000 };
  end_time = record { tv_sec = 12; tv_usec = 100000 };
}

loader-elapsed_example :
    (sec : ℕ) × (usec : ℕ) × (loader loader_env (codes "loader" ∷ codes "./gzip" ∷ [])
      ≡ ok (
        print_elapsed (pos sec, pos usec)
            ∷ log_elapsed (codes "/root/data_gzip") (pos sec, pos usec)
            ∷ [],
        pos 0,
      ))
    × (usec < 1000000)
    × (sec * 1000000 + usec + 10900000 ≡ 12100000)
unfolding parse_args
loader-elapsed_example =
    loader-elapsed loader_env (codes "loader" ∷ codes "./gzip" ∷ []) [] b'.' b'/' (codes "gzip")
      false 3 100 refl refl refl (omega arith) refl refl (omega arith) (omega arith) (omega arith)
