-- ===== src/Monitor/Init.antt =====
-- drivers/xen/monitor/monitor.c, monitor_init and monitor_exit. The calls of the kernel's device
-- interface are not part of the repository: what they return is an argument.
pub mod Loaded
use maitland.Base.{
  Bool, true, false, not, if◌then◌else◌, Option, none, some, ℤ, pos, negsuc, int_eq,
}
use maitland.Monitor.State.{State}
use maitland.Monitor.Register

-- `-ENODEV`
abbrev pub enodev : ℤ
enodev = negsuc 18

pub record InitEnv : Type 0 where
  -- alloc_chrdev_region succeeded
  pub reserved : Bool
  pub major : ℤ
  pub cdev_add : ℤ
  -- device_create returned NULL
  pub no_device : Bool

-- What is registered with the kernel, and the driver's variables once they are set.
pub record Module : Type 0 where
  pub region : Bool
  pub device_class : Bool
  pub cdev : Bool
  pub device : Bool
  pub variables : Option State

abbrev pub unloaded : Module
unloaded = record {
  region = false;
  device_class = false;
  cdev = false;
  device = false;
  variables = none;
}

pub is_negative : ℤ → Bool
is_negative (pos n) = false
is_negative (negsuc n) = true

-- The module, and the result. An error undoes nothing.
pub init : InitEnv → Module × ℤ
unfolding is_negative
init env =
    let numbered = record unloaded { region = env.reserved } in
    let classed = record unloaded { region = env.reserved; device_class = true } in
    let added = record unloaded { region = env.reserved; device_class = true; cdev = true } in
    if is_negative env.major
    then (numbered, enodev)
    else if not (int_eq env.cdev_add (pos 0))
    then (classed, pos 1)
    else if env.no_device
    then (added, enodev)
    else (record added { device = true; variables = some Register.init }, pos 0)

pub exit : Module → Module
exit s = record s { device = false; cdev = false; device_class = false }
