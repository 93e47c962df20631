-- ===== src/Ring.antt =====
-- The ring page that the two drivers share (malpage.h and monitor.h, `DEFINE_RING_TYPES`), with the
-- index fields that the drivers read and write themselves. The macros of Xen's ring.h are not part
-- of the repository: `Macros` takes them as an argument, and `MacroLaws` holds what ring.h documents
-- of them. Indices are `unsigned int`s and wrap.
use maitland.Base.{ℕ, ◌+◌, ◌-◌, ◌%◌, ◌^◌, ◌≤◌, ◌<◌, ◌≡◌, Bool, false, not, ◌==◌, if◌then◌else◌, leb}
use maitland.Wire.{Message}

-- The shared page: `struct as_sring`.
pub record Sring : Type 0 where
  pub req_prod : ℕ
  pub rsp_prod : ℕ
  pub rsp_event : ℕ
  pub entries : ℕ → Message

-- `struct as_front_ring` and `struct as_back_ring`, the private halves.
pub record Front : Type 0 where
  pub req_prod_pvt : ℕ
  pub rsp_cons : ℕ

pub record Back : Type 0 where
  pub rsp_prod_pvt : ℕ
  pub req_cons : ℕ

abbrev pub idx_mod : ℕ
idx_mod = 2 ^ 32

-- `idx + 1` and `a - b` on RING_IDX.
abbrev pub inc : ℕ → ℕ
inc i = (i + 1) % idx_mod

abbrev pub gap : ℕ → ℕ → ℕ
gap a b = (a + idx_mod - b) % idx_mod

-- A write of the entry that an index names.
unfoldable pub write_entry : ℕ → Message → Sring → Sring
write_entry n m s = record s { entries = λ k. if k == n then m else s.entries k }

pub record Macros : Type 0 where
  pub size : ℕ
  -- RING_GET_REQUEST and RING_GET_RESPONSE: the place of an index in the page
  pub slot : ℕ → ℕ
  -- BACK_RING_INIT
  pub back_ring_init : Sring → Back
  pub push_requests : Front → Sring → Sring
  pub push_responses : Back → Sring → Sring
  pub push_responses_and_check_notify : Back → Sring → Sring
  pub request_cons_overflow : Back → ℕ → Bool
  -- RING_FINAL_CHECK_FOR_RESPONSES: the new page, and whether there is more to do
  pub final_check_for_responses : Front → Sring → Sring
  pub final_check_notify : Front → Sring → Bool

pub record MacroLaws (m : Macros) : Type 0 where
  pub size_pos : 0 < m.size
  pub size_le : m.size ≤ 2 ^ 31
  -- indices that are less than a ring apart have different places
  pub slot_lem : (i d : ℕ) → 0 < d → d < m.size → (m.slot ((i + d) % idx_mod) == m.slot i) ≡ false
  pub back_ring_init_lem :
      (s : Sring) → m.back_ring_init s ≡ record { rsp_prod_pvt = 0; req_cons = 0 }
  pub push_requests_lem :
      (f : Front) (s : Sring) → m.push_requests f s ≡ record s { req_prod = f.req_prod_pvt }
  pub push_responses_lem :
      (b : Back) (s : Sring) → m.push_responses b s ≡ record s { rsp_prod = b.rsp_prod_pvt }
  pub check_notify_lem :
      (b : Back) (s : Sring)
      → m.push_responses_and_check_notify b s ≡ record s { rsp_prod = b.rsp_prod_pvt }
  pub overflow_lem :
      (b : Back) (c : ℕ) → m.request_cons_overflow b c ≡ leb m.size (gap c b.rsp_prod_pvt)
  pub final_check_lem :
      (f : Front) (s : Sring)
      → m.final_check_for_responses f s
        ≡ (if s.rsp_prod == f.rsp_cons then record s { rsp_event = inc f.rsp_cons } else s)
  pub final_notify_lem :
      (f : Front) (s : Sring) → m.final_check_notify f s ≡ not (s.rsp_prod == f.rsp_cons)
