-- ===== src/Monitor/Init/Loaded.antt =====
-- What loading and unloading the driver leave behind.
use maitland.Base.{◌≡◌, Bool, not, ◌&&◌, if◌then◌else◌, none, some, pos, int_eq, arith}
use maitland.Monitor.Register
use maitland.Monitor.Init.{InitEnv, unloaded, is_negative, init, exit}

-- Every call for the device succeeds, as far as monitor_init looks.
abbrev pub succeeds : InitEnv → Bool
succeeds env = not (is_negative env.major) && (int_eq env.cdev_add (pos 0) && not env.no_device)

-- monitor_init creates the device, sets the driver's variables to their first values and returns 0
-- exactly if the major number is not negative and the two calls for the device that follow succeed:
-- whether device numbers were reserved does not matter. If a call fails, what the calls before it
-- registered is not released. monitor_exit releases all but the device numbers.
pub init-leaks :
    (env : InitEnv)
    → let (s, result) = init env in
      (int_eq result (pos 0) ≡ succeeds env)
      × (s.variables ≡ (if succeeds env then some Register.init else none))
      × (s.device ≡ succeeds env)
      × (s.region ≡ env.reserved)
      × (s.device_class ≡ not (is_negative env.major))
      × (s.cdev ≡ (not (is_negative env.major) && int_eq env.cdev_add (pos 0)))
      × (record (exit s) { variables = none } ≡ record unloaded { region = env.reserved })
unfolding init exit is_negative
init-leaks env = ground arith
