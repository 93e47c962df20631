-- ===== src/Malpage/Hooks/Requests.antt =====
-- Which events of the guest's kernel become requests, and what the requests say.
use maitland.Base.{
  ap, ℕ, ◌+◌, ◌*◌, ◌%◌, ◌/◌, ◌^◌, ◌<◌, ◌≡◌, refl, ◌==◌, ◌&&◌, not, Bool, true, false, if◌then◌else◌,
  ℤ, pos, to_unsigned, arith,
}
use maitland.Ring.{Sring, Macros, MacroLaws, inc, write_entry}
use maitland.Wire.{Message}
use maitland.Wire.Malpage
use maitland.Malpage.Guest.{Guest}
use maitland.Malpage.Hooks.{is_instruction_fault, send_request, do_page_fault}

-- The error code of a page fault, bit by bit as the processor reports it.
abbrev pub bit : Bool → ℕ
bit true = 1
bit false = 0

pub record Fault : Type 0 where
  pub prot : Bool
  pub write : Bool
  pub user : Bool
  pub rsvd : Bool
  pub instr : Bool
  pub rest : ℕ

abbrev pub error_code : Fault → ℕ
error_code f =
    bit f.prot + 2 * bit f.write + 4 * bit f.user + 8 * bit f.rsvd + 16 * bit f.instr + 32 * f.rest

pub bit_lt : (b : Bool) → bit b < 2
bit_lt true = omega arith
bit_lt false = omega arith

pub bit_test : (b : Bool) → (bit b == 1) ≡ b
bit_test true = refl
bit_test false = refl

is_instruction_fault_lem :
    (f : Fault) → is_instruction_fault (error_code f) ≡ (f.instr && (f.user && not f.prot))
is_instruction_fault_lem f =
    let instr : (error_code f / 2 ^ 4) % 2 ≡ bit f.instr =
      omega (arith, bit_lt f.prot, bit_lt f.write, bit_lt f.user, bit_lt f.rsvd, bit_lt f.instr) in
    let user : (error_code f / 2 ^ 2) % 2 ≡ bit f.user =
      omega (arith, bit_lt f.prot, bit_lt f.write, bit_lt f.user) in
    let prot : (error_code f / 2 ^ 0) % 2 ≡ bit f.prot = omega (arith, bit_lt f.prot) in
    rw (instr, user, prot, bit_test f.instr, bit_test f.user, bit_test f.prot) (ground arith)

-- The guest after it sent a request: the entry at the producer index is filled in, the request is
-- published, and the monitor is notified.
abbrev pub requested : Macros → (Message → Message) → Guest → Guest
requested m fill g =
    let place = m.slot g.fring.req_prod_pvt in
    record g {
      fring = record g.fring { req_prod_pvt = inc g.fring.req_prod_pvt };
      sring = record (write_entry place (fill (g.sring.entries place)) g.sring) {
        req_prod = inc g.fring.req_prod_pvt;
      };
      notified = g.notified + 1;
    }

pub send_request-requested :
    (m : Macros)
    → MacroLaws m
    → (fill : Message → Message) (g : Guest) → send_request m fill g ≡ requested m fill g
unfolding send_request
send_request-requested m laws fill g =
    ap
      (λ (p : Sring). record g {
        fring = record g.fring { req_prod_pvt = inc g.fring.req_prod_pvt };
        sring = p;
        notified = g.notified + 1;
      })
      (laws.push_requests_lem _ _)

-- The request of a page fault.
abbrev pub nxviolation : ℤ → ℕ → Guest → Message → Message
nxviolation pid address g req = record req {
  operation = Malpage.ring_nxviolation;
  fault_addr = address;
  domid = pos g.domid;
  process_id = to_unsigned pid;
}

-- The hook on page faults sends one request, with the process, the domain and the address of the
-- fault, exactly if the processor reports an instruction fetch, from user mode, of a page that is
-- not present. On any other fault, a protection fault on a present page among them, it does
-- nothing.
pub do_page_fault-requested :
    (m : Macros) (pid : ℤ) (address : ℕ) (f : Fault) (g : Guest)
    → MacroLaws m
    → do_page_fault m pid address (error_code f) g
      ≡ (if f.instr && (f.user && not f.prot) then requested m (nxviolation pid address g) g else g)
unfolding do_page_fault
do_page_fault-requested m pid address f g laws =
    rw (is_instruction_fault_lem f, send_request-requested m laws (nxviolation pid address g) g)
