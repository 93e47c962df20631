-- ===== src/Malpage/Register.antt =====
-- drivers/xen/malpage/malpage.c, the registration of a guest: malpage_setup_ring,
-- malpage_alloc_evtchn, malpage_free_ring, malpage_get_uuid, malpage_get_domid and malpage_register.
-- The calls of the kernel, of Xen and of XenStore are not part of the repository: what they return
-- is an argument. `room n` bytes can be written to an allocation of `n`, as for the reports.
pub mod Written
use maitland.Base.{
  ℕ, ◌+◌, ◌-◌, ◌%◌, ◌^◌, ◌==◌, if◌then◌else◌, ltb, Option, none, some, List, [], ◌∷◌, ◌++◌, length,
  take, ℤ, pos, negsuc, to_unsigned, Run, ok, fault, ◌>>=◌, Text, codes, decimal, before,
}
use maitland.Ring.{Sring, Front}
use maitland.XenStore.{Op, write}
use maitland.Malpage.Send.{sprintf}

abbrev pub uuid_length : ℕ
uuid_length = length (codes "00000000-0000-0000-0000-000000000000") + 1

abbrev pub xenstore_register_path : Text
xenstore_register_path = codes "/malpage/register"

abbrev pub xenstore_register_value_format : Text
xenstore_register_value_format = codes "%u:%u:%u:%s"

abbrev pub grant_invalid_ref : ℕ
grant_invalid_ref = 0

abbrev pub dom0_id : ℕ
dom0_id = 0

-- `-14`
abbrev pub xserr : ℤ
xserr = negsuc 13

-- `-ENOMEM`
abbrev pub enomem : ℤ
enomem = negsuc 11

-- malpage_share_info_t, where `sring` is the page that the front ring points to.
pub record ShareInfo : Type 0 where
  pub domid : ℕ
  pub gref : ℕ
  pub evtchn : ℕ
  pub irq : ℕ
  pub ring_mfn : ℤ
  pub uuid : Text
  pub fring : Front
  pub sring : Option Sring

-- The environment's part in the set-up of the ring: the page as SHARED_RING_INIT leaves it, the ring
-- as FRONT_RING_INIT leaves it, and the results of granting the page, of the allocation of an event
-- channel for a domain, with its port, and of binding it. `domid` and `uuid` are the values that
-- are read from XenStore and from the file, if they can be.
pub record RegisterEnv : Type 0 where
  pub page : Option Sring
  pub ring : Front
  pub grant : ℕ → ℤ
  pub alloc_unbound : ℕ → ℤ × ℕ
  pub bound : ℤ
  pub domid : Option Text
  pub strtoul : Text → ℕ
  pub uuid : Option Text

-- Also unbinds the irq, which no path to it has bound.
pub free_ring : ShareInfo → ShareInfo
free_ring info = record info { evtchn = 0; irq = 0 }

-- The error, and the port as it is left.
pub alloc_evtchn : RegisterEnv → ℕ → ℕ → ℤ × ℕ
alloc_evtchn env domid port =
    let (err, new) = env.alloc_unbound domid in
    elim err [ pos e ↦ (pos e, if e == 0 then new else port) | negsuc e ↦ (negsuc e, port) ]

-- `err <= 0` is an error here, so that 0 is returned for one.
bind_ring : ℤ → ShareInfo → ShareInfo × ℤ
unfolding free_ring
bind_ring (negsuc e) info = (free_ring info, negsuc e)
bind_ring (pos irq) info =
    if irq == 0 then (free_ring info, pos 0) else (record info { irq = irq }, pos 0)

-- From the event channel on.
connect : RegisterEnv → ShareInfo → ShareInfo × ℤ
unfolding alloc_evtchn bind_ring free_ring
connect env info =
    let (err, port) = alloc_evtchn env info.domid info.evtchn in
    let info' = record info { evtchn = port } in
    elim err [
      | negsuc e ↦ (free_ring info', negsuc e)
      | pos e ↦ if e == 0 then bind_ring env.bound info' else (free_ring info', pos e)
    ]

pub setup_ring : RegisterEnv → ShareInfo → ShareInfo × ℤ
unfolding connect free_ring
setup_ring env info =
    let cleared = record info { gref = grant_invalid_ref } in
    elim env.page [
      | none ↦ (cleared, enomem)
      | some page ↦ elim (env.grant dom0_id) [
        | negsuc e ↦ (free_ring (record cleared { fring = env.ring; sring = none }), negsuc e)
        | pos gref ↦
            connect env (record cleared { fring = env.ring; sring = some page; gref = gref })
      ]
    ]

-- The bytes up to the first NUL.
pub get_uuid : RegisterEnv → Text
get_uuid env = elim env.uuid [
  | none ↦ []
  | some bytes ↦
      before 0 (if length bytes == uuid_length then take (length bytes - 1) bytes else bytes)
]

-- The copy of `len` bytes is not terminated, so the parser reads one more. The result is an `int`, of
-- which the caller keeps 16 bits.
pub get_domid : (ℕ → ℕ) → RegisterEnv → Run ℤ
get_domid room env = elim env.domid [
  | none ↦ ok xserr
  | some value ↦
      if ltb (length value) (room (length value)) then ok (pos (env.strtoul value)) else fault
]

unfoldable pub registration : ShareInfo → Text
registration info =
    decimal info.domid
    ++ (b':' ∷ (decimal info.gref ++ (b':' ∷ (decimal info.evtchn ++ (b':' ∷ info.uuid)))))

-- kzalloc clears the info structure, `domid_t` has 16 bits, and ring_mfn gets the result of
-- malpage_setup_ring. The allocations of this structure and of the transaction's handle succeed.
pub register : (ℕ → ℕ) → RegisterEnv → Run (ShareInfo × List (List Op))
unfolding setup_ring get_uuid get_domid registration
register room env = do
  let (info, ring_mfn) = setup_ring env (record {
    domid = 0;
    gref = 0;
    evtchn = 0;
    irq = 0;
    ring_mfn = pos 0;
    uuid = [];
    fring = record { req_prod_pvt = 0; rsp_cons = 0 };
    sring = none;
  })
  domid ← get_domid room env
  let info' = record info {
    ring_mfn = ring_mfn;
    uuid = get_uuid env;
    domid = to_unsigned domid % 2 ^ 16;
  }
  value ←
      sprintf room (length xenstore_register_value_format + uuid_length + 15) (registration info')
  domid_str ← sprintf room (length (codes "10000")) (decimal info'.domid)
  ok (info', (write xenstore_register_path domid_str value ∷ []) ∷ [])
