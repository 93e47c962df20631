-- ===== src/Malpage/Init/Hooked.antt =====
-- When the hooks of the driver are installed.
use maitland.Base.{ℕ, ◌+◌, ◌≤◌, ◌≡◌, refl, true, false, some, pos, ok}
use maitland.Malpage.Register.{ShareInfo}
use maitland.Malpage.Register.Written.{IsReadable, Fails, register_sent, register-failed}
use maitland.Malpage.Init.{InitEnv, Module, unloaded, init, start_up, is_negative, exit}

-- If the calls for the character device succeed, the domain id can be read, the numbers have their
-- widths and allocations have three bytes to spare, but a step of the set-up of the ring fails:
-- malpage_init returns 0 all the same, with the hooks installed and the reporter started, on an info
-- structure without an event channel and an irq, which is registered with the privileged domain.
-- malpage_exit leaves the hooks installed and the reporter running.
pub init-hooked :
    (room : ℕ → ℕ) (env : InitEnv) (major d : ℕ)
    → ((n : ℕ) → n + 3 ≤ room n)
    → env.xen_domain ≡ true
    → env.major ≡ pos major
    → env.cdev_add ≡ pos 0
    → env.no_device ≡ false
    → IsReadable env.register d
    → Fails env.register
    → (s : Module) × (info : ShareInfo) × (init room env ≡ ok (s, register_sent info, pos 0))
      × (s.share_info ≡ some info)
      × (info.evtchn ≡ 0)
      × (info.irq ≡ 0)
      × ((exit s).hooks ≡ true)
      × ((exit s).reporter ≡ true)
unfolding init start_up is_negative exit
init-hooked room env major d slack xen numbered added made readable fails =
    let (info, e, domid, no_evtchn, no_irq) =
      register-failed room env.register d slack readable fails in
    (
      record unloaded {
        region = true;
        device_class = true;
        cdev = true;
        device = true;
        share_info = some info;
        reporter = true;
        hooks = true;
      },
      info,
      rw (init, xen, numbered, added, made, start_up, e) refl,
      refl,
      no_evtchn,
      no_irq,
      refl,
      refl,
    )
