-- ===== src/Monitor/Handler/Progress.antt =====
-- How far monitor_irq_handle gets: its loop ends, and answers each pending request once.
use maitland.Base.{
  ℕ, zero, suc, ◌+◌, ◌%◌, ◌<◌, ◌≤◌, ◌≡◌, refl, ◌≢◌, ◌==◌, true, false, inl, inr, ok, arith,
  Bool-cases, Returns, returns, Returns-mono, ap, ==_iff,
}
use maitland.Ring.{Sring, Back, Macros, MacroLaws, idx_mod, inc, gap, write_entry}
use maitland.Wire.{Message}
use maitland.Monitor.Watch.{DomList}
use maitland.Monitor.Handler.{Handling, respond, handle_request, irq_loop, start, irq_handle}
use maitland.Monitor.Handler.Verdict.{reply, answer-reply}

-- The indices of a ring half are 32 bits wide, and what it answered is published.
pub record IsIndexed (b : Back) (s : Sring) : Type 0 where
  pub cons_lt : b.req_cons < idx_mod
  pub prod_lt : b.rsp_prod_pvt < idx_mod
  pub req_lt : s.req_prod < idx_mod
  pub published : s.rsp_prod ≡ b.rsp_prod_pvt

module _ (m : Macros) (laws : MacroLaws m) (doms : DomList) (busy : ℕ) where
  -- The state after the request at the consumer index.
  pub handled : Handling → Handling
  unfolding respond
  handled h =
      respond m doms busy (record h.bring { req_cons = inc h.bring.req_cons }) h.sring
        (reply doms busy (h.sring.entries (m.slot h.bring.req_cons)) h.resp) h.notified

  pub handle_request-handled :
      (rc : ℕ) (h : Handling)
      → h.bring.req_cons ≡ rc
      → handle_request m doms busy rc h ≡ ok (handled h)
  unfolding handle_request handled
  handle_request-handled rc h e =
      ground (arith, answer-reply doms busy (h.sring.entries (m.slot rc)) h.resp)

  pub handled-resp :
      (h : Handling)
      → (handled h).resp ≡ reply doms busy (h.sring.entries (m.slot h.bring.req_cons)) h.resp
  unfolding handled
  handled-resp h = refl

  pub handled-push :
      (h : Handling)
      → (handled h).sring
        ≡ record (write_entry
            (m.slot h.bring.rsp_prod_pvt)
            (reply doms busy (h.sring.entries (m.slot h.bring.req_cons)) h.resp)
            h.sring) { rsp_prod = inc h.bring.rsp_prod_pvt }
  unfolding handled
  handled-push h = laws.push_responses_lem _ _

  -- One answer moves both indices by one, notifies once and keeps the requests' index.
  pub record Stepped (h g : Handling) : Type 0 where
    pub cons : g.bring.req_cons ≡ inc h.bring.req_cons
    pub prod : g.bring.rsp_prod_pvt ≡ inc h.bring.rsp_prod_pvt
    pub req : g.sring.req_prod ≡ h.sring.req_prod
    pub published : g.sring.rsp_prod ≡ g.bring.rsp_prod_pvt
    pub notified : g.notified ≡ h.notified + 1

  pub handled-Stepped : (h : Handling) → Stepped h (handled h)
  unfolding handled write_entry
  handled-Stepped h = record {
    cons = refl;
    prod = refl;
    req = ap (λ (s : Sring). s.req_prod) (handled-push h);
    published = ap (λ (s : Sring). s.rsp_prod) (handled-push h);
    notified = refl;
  }

  -- What the loop has done when `n` requests were pending.
  pub record Drained (h : Handling) (n : ℕ) (g : Handling) : Type 0 where
    pub cons : g.bring.req_cons ≡ (h.bring.req_cons + n) % idx_mod
    pub prod : g.bring.rsp_prod_pvt ≡ (h.bring.rsp_prod_pvt + n) % idx_mod
    pub published : g.sring.rsp_prod ≡ g.bring.rsp_prod_pvt
    pub notified : g.notified ≡ h.notified + n

  irq_loop-Drained :
      (rp rounds rc : ℕ) (h : Handling)
      → h.bring.req_cons ≡ rc
      → IsIndexed h.bring h.sring
      → rp < idx_mod
      → gap rc h.bring.rsp_prod_pvt < m.size
      → gap rp rc < rounds
      → Returns (Drained h (gap rp rc)) (irq_loop m doms busy rp rounds rc h)
  unfolding irq_loop
  irq_loop-Drained rp zero rc h e inv rp_lt room fuel = absurd (omega arith)
  irq_loop-Drained rp (suc rounds) rc h e inv rp_lt room fuel = elim (Bool-cases (rc == rp)) [
    | inl done ↦
        let arrived = (==_iff rc rp).0 done in
        rw done (
          returns (record {
            cons = omega (arith, inv.cons_lt);
            prod = omega (arith, inv.prod_lt);
            published = inv.published;
            notified = omega arith;
          }))
    | inr more ↦
        let pending : rc ≢ rp = ground arith in
        let s = handled-Stepped h in
        let fits : m.request_cons_overflow h.bring rc ≡ false =
          rw (laws.overflow_lem h.bring rc) (ground arith) in
        let inv' : IsIndexed (handled h).bring (handled h).sring = record {
          cons_lt = rw s.cons (omega arith);
          prod_lt = rw s.prod (omega arith);
          req_lt = rw s.req inv.req_lt;
          published = s.published;
        } in
        let room' : gap (inc rc) (handled h).bring.rsp_prod_pvt < m.size =
          rw s.prod (omega (arith, inv.prod_lt)) in
        rw (more, fits, handle_request-handled rc h e)
          (Returns-mono
            (irq_loop-Drained rp rounds (inc rc) (handled h) (rw s.cons (ap inc e)) inv' rp_lt room'
              (omega (arith, inv.cons_lt)))
            λ g d. record {
              cons = omega (arith, d.cons, s.cons);
              prod = omega (arith, d.prod, s.prod);
              published = d.published;
              notified = omega (arith, d.notified, s.notified);
            })
  ]

  -- With indices below 2 ^ 32, all answers so far published, and the consumer index less than a ring
  -- ahead of the producer index, a run of the handler ends. It moves the consumer index past every
  -- pending request and the producer index by as many answers, publishes them, and notifies the
  -- guest once for each.
  pub irq_handle-Drained :
      (b : Back) (s : Sring) (garbage : Message)
      → IsIndexed b s
      → gap b.req_cons b.rsp_prod_pvt < m.size
      → Returns
          (Drained (start b s garbage) (gap s.req_prod b.req_cons))
          (irq_handle m doms busy b s garbage)
  unfolding irq_handle
  irq_handle-Drained b s garbage inv room =
      irq_loop-Drained s.req_prod (gap s.req_prod b.req_cons + 1) b.req_cons (start b s garbage)
        refl inv inv.req_lt room (omega arith)

  -- Otherwise the handler takes the ring for overfull: it returns at once and answers nothing.
  pub irq_handle-overfull :
      (b : Back) (s : Sring) (garbage : Message)
      → m.size ≤ gap b.req_cons b.rsp_prod_pvt
      → irq_handle m doms busy b s garbage ≡ ok (start b s garbage)
  unfolding irq_handle irq_loop
  irq_handle-overfull b s garbage full =
      let e : gap s.req_prod b.req_cons + 1 ≡ suc (gap s.req_prod b.req_cons) = omega arith in
      let stop : m.request_cons_overflow b b.req_cons ≡ true =
        rw (laws.overflow_lem b b.req_cons) (ground arith) in
      rw e (ground (arith, stop))

  -- With one request pending, a run of the handler is one answer.
  pub irq_handle-single :
      (b : Back) (s : Sring) (garbage : Message)
      → IsIndexed b s
      → gap b.req_cons b.rsp_prod_pvt < m.size
      → s.req_prod ≡ inc b.req_cons
      → irq_handle m doms busy b s garbage ≡ ok (handled (start b s garbage))
  unfolding irq_handle irq_loop
  irq_handle-single b s garbage inv room one =
      let rounds : gap s.req_prod b.req_cons + 1 ≡ suc (suc zero) = omega (arith, inv.cons_lt) in
      let pending : (b.req_cons == s.req_prod) ≡ false = ground (arith, inv.cons_lt) in
      let arrived : (inc b.req_cons == s.req_prod) ≡ true = ground (arith, one) in
      let fits : m.request_cons_overflow b b.req_cons ≡ false =
        rw (laws.overflow_lem b b.req_cons) (ground arith) in
      rw
        (rounds, pending, fits, handle_request-handled b.req_cons (start b s garbage) refl, arrived)
