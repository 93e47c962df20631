-- ===== src/Malpage/Init.antt =====
-- drivers/xen/malpage/malpage.c, malpage_init and malpage_exit. The calls of the kernel's device
-- interface are not part of the repository: what they return is an argument. The locks, the lists
-- and the semaphores that malpage_init sets are the first state of the reporter.
pub mod Hooked
use maitland.Base.{
  ℕ, Bool, true, false, not, if◌then◌else◌, Option, none, some, List, [], ℤ, pos, negsuc, int_eq,
  Run, ok, ◌>>=◌,
}
use maitland.XenStore.{Op}
use maitland.Malpage.Register.{ShareInfo, RegisterEnv, register}

-- `-ENODEV`
abbrev pub enodev : ℤ
enodev = negsuc 18

pub record InitEnv : Type 0 where
  pub xen_domain : Bool
  pub major : ℤ
  pub cdev_add : ℤ
  -- device_create returned NULL
  pub no_device : Bool
  pub register : RegisterEnv

-- What is set up: the range of device numbers, the class, the device, malpage_share_info, the thread
-- and the pointers through which the kernel calls the hooks.
pub record Module : Type 0 where
  pub region : Bool
  pub device_class : Bool
  pub cdev : Bool
  pub device : Bool
  pub share_info : Option ShareInfo
  pub reporter : Bool
  pub hooks : Bool

unfoldable pub unloaded : Module
unloaded = record {
  region = false;
  device_class = false;
  cdev = false;
  device = false;
  share_info = none;
  reporter = false;
  hooks = false;
}

-- The last part, which the registration of the guest begins.
start_up : (ℕ → ℕ) → RegisterEnv → Module → Run (Module × List (List Op) × ℤ)
start_up room env s = do
  (info, sent) ← register room env
  ok (record s { share_info = some info; reporter = true; hooks = true }, sent, pos 0)

is_negative : ℤ → Bool
is_negative (pos n) = false
is_negative (negsuc n) = true

-- The module, what is sent to XenStore, and the result. An error undoes nothing.
pub init : (ℕ → ℕ) → InitEnv → Run (Module × List (List Op) × ℤ)
unfolding start_up is_negative unloaded
init room env =
    let numbered = record unloaded { region = true } in
    let added = record unloaded { region = true; device_class = true; cdev = true } in
    let rest = start_up room env.register (record added { device = true }) in
    if not env.xen_domain
    then ok (unloaded, [], enodev)
    else if is_negative env.major
    then ok (numbered, [], enodev)
    else if not (int_eq env.cdev_add (pos 0))
    then ok (record numbered { device_class = true }, [], pos 1)
    else if env.no_device
    then ok (added, [], enodev)
    else rest

-- The thread, the hooks and the guest's info structure stay.
pub exit : Module → Module
exit s = record s { device = false; cdev = false; device_class = false }
