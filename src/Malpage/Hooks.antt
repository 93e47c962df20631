-- ===== src/Malpage/Hooks.antt =====
-- drivers/xen/malpage/malpage.c, the hooks that the guest's kernel calls: malpage_do_page_fault on
-- a page fault, and malpage_multi_mmu_update on a page table update, with
-- malpage_arb_virt_to_machine. Each sends one request over the ring, or none. pte_dirty, the
-- address translations and the page table walk are not part of the repository: their results are
-- arguments. The request's place in the ring keeps the fields that are not written.
pub mod Requests
pub mod Updates
use maitland.Base.{
  ℕ, ◌+◌, ◌*◌, ◌/◌, ◌%◌, ◌^◌, ◌==◌, ◌&&◌, ◌||◌, not, Bool, true, false, if◌then◌else◌, Option, none,
  some, ℤ, pos, to_unsigned, Run, ok, fault, ◌>>=◌,
}
use maitland.Ring.{Sring, Front, Macros, inc, write_entry}
use maitland.Wire.{Message}
use maitland.Wire.Malpage
use maitland.Malpage.Guest.{Guest}

-- `x & (1 << k)`
abbrev pub has_bit : ℕ → ℕ → Bool
has_bit x k = (x / 2 ^ k) % 2 == 1

-- MALPAGE_PF_PROT, MALPAGE_PF_USER and MALPAGE_PF_INSTR
abbrev pub pf_prot : ℕ
pf_prot = 0

abbrev pub pf_user : ℕ
pf_user = 2

abbrev pub pf_instr : ℕ
pf_instr = 4

-- The test on the error code.
abbrev pub is_instruction_fault : ℕ → Bool
is_instruction_fault error_code =
    has_bit error_code pf_instr && has_bit error_code pf_user && not (has_bit error_code pf_prot)

-- What virt_addr_valid, virt_to_machine and lookup_address say of the address of an entry.
pub record AddrEnv : Type 0 where
  pub valid : Bool
  pub machine : ℕ
  pub walked_mfn : Option ℕ

-- malpage_arb_virt_to_machine, where PAGE_SHIFT is 12; BUG_ON is a fault.
pub arb_virt_to_machine : AddrEnv → ℕ → Run ℕ
arb_virt_to_machine env vaddr = if env.valid then ok env.machine else elim env.walked_mfn [
  | none ↦ fault
  | some mfn ↦ ok ((mfn * 2 ^ 12) % 2 ^ 64 + vaddr % 2 ^ 12)
]

-- MMU_NORMAL_PT_UPDATE and MMU_PT_UPDATE_PRESERVE_AD, in the low bits of the address.
abbrev pub is_pt_update : ℕ → Bool
is_pt_update cmd = (cmd == 0) || (cmd == 2)

module _ (m : Macros) where
  -- The request at `req_prod_pvt` with some of its fields written, its publication and the
  -- notification of the monitor.
  pub send_request : (Message → Message) → Guest → Guest
  send_request fill g =
      let place = m.slot g.fring.req_prod_pvt in
      let fring = record g.fring { req_prod_pvt = inc g.fring.req_prod_pvt } in
      record g {
        fring = fring;
        sring = m.push_requests fring (write_entry place (fill (g.sring.entries place)) g.sring);
        notified = g.notified + 1;
      }

  pub do_page_fault : ℤ → ℕ → ℕ → Guest → Guest
  do_page_fault pid address error_code g =
      if is_instruction_fault error_code
      then send_request
          (λ req. record req {
            operation = Malpage.ring_nxviolation;
            fault_addr = address;
            domid = pos g.domid;
            process_id = to_unsigned pid;
          })
          g
      else g

  pub multi_mmu_update : Bool → AddrEnv → ℤ → ℕ → ℕ → Guest → Run Guest
  multi_mmu_update dirty env pid ptep pte g =
      if dirty
      then (do
        maddr ← arb_virt_to_machine env ptep
        ok (
            if is_pt_update (maddr % 8)
            then send_request
                (λ req. record req {
                  operation = Malpage.ring_mmuupdate;
                  mmu_ptr = ptep;
                  mmu_val = pte;
                  domid = pos g.domid;
                  process_id = to_unsigned pid;
                })
                g
            else g))
      else ok g
