-- ===== src/Monitor/Handler/Batch.antt =====
-- What the guest finds on the ring when the monitor has answered all its pending requests.
use maitland.Base.{
  ℕ, zero, suc, ◌+◌, ◌%◌, ◌<◌, ◌≤◌, ◌≡◌, refl, sym, ap, ◌∙◌, ◌≢◌, ◌==◌, Bool-cases, inl, inr, false,
  List, [], ◌∷◌, Returns, returns, Returns-mono, arith, ==_iff, ==_refl, subst,
}
use maitland.Ring.{Sring, Back, Macros, MacroLaws, idx_mod, inc, gap, write_entry}
use maitland.Wire.{Message}
use maitland.Monitor.Watch.{DomList}
use maitland.Monitor.Handler.{Handling, irq_loop, start, irq_handle}
use maitland.Monitor.Handler.Verdict.{reply}
use maitland.Monitor.Handler.Progress.{
  handled, handled-push, handled-resp, handled-Stepped, handle_request-handled,
}

-- The entries from an index on.
abbrev pub window : Macros → (ℕ → Message) → ℕ → ℕ → List Message
window m entries zero i = []
window m entries (suc n) i = entries (m.slot i) ∷ window m entries n (inc i)

module _ (m : Macros) (laws : MacroLaws m) (doms : DomList) (busy : ℕ) where
  -- The answers to some requests. Each starts from the response before it.
  pub replies : Message → List Message → List Message
  replies resp [] = []
  replies resp (req ∷ reqs) = reply doms busy req resp ∷ replies (reply doms busy req resp) reqs

  -- A write at an index leaves the window behind it alone, up to a ring's size.
  window-write_entry :
      (n i d : ℕ) (msg : Message) (s : Sring)
      → 0 < d
      → d + n ≤ m.size
      → window m (write_entry (m.slot i) msg s).entries n ((i + d) % idx_mod)
        ≡ window m s.entries n ((i + d) % idx_mod)
  unfolding write_entry
  window-write_entry zero i d msg s pos room = refl
  window-write_entry (suc n) i d msg s pos room =
      let apart = laws.slot_lem i d pos (omega arith) in
      let shift : inc ((i + d) % idx_mod) ≡ (i + (d + 1)) % idx_mod = omega arith in
      rw (apart, shift)
        (ap (λ l. s.entries (m.slot ((i + d) % idx_mod)) ∷ l)
          (window-write_entry n i (d + 1) msg s (omega arith) (omega arith)))

  -- A round leaves the entries outside its own place alone.
  handled-other :
      (h : Handling) (k : ℕ)
      → (k == m.slot h.bring.rsp_prod_pvt) ≡ false
      → (handled m laws doms busy h).sring.entries k ≡ h.sring.entries k
  unfolding write_entry
  handled-other h k apart =
      ap (λ (s : Sring). s.entries k) (handled-push m laws doms busy h) ∙ rw apart refl

  -- What a loop over `n` requests from index `rc` leaves on the page.
  pub record Answered (h : Handling) (n rc : ℕ) (g : Handling) : Type 0 where
    pub answers : window m g.sring.entries n rc ≡ replies h.resp (window m h.sring.entries n rc)
    pub others :
        (k : ℕ)
        → ((d : ℕ) → d < n → (k == m.slot ((rc + d) % idx_mod)) ≡ false)
        → g.sring.entries k ≡ h.sring.entries k

  -- The pages before and after the round at `rc`.
  handled-at :
      (h : Handling) (rc : ℕ)
      → h.bring.req_cons ≡ rc
      → h.bring.rsp_prod_pvt ≡ rc
      → (handled m laws doms busy h).sring.entries (m.slot rc)
        ≡ reply doms busy (h.sring.entries (m.slot rc)) h.resp
  unfolding write_entry
  handled-at h rc e f =
      ap (λ (s : Sring). s.entries (m.slot rc)) (handled-push m laws doms busy h)
      ∙ rw (e, f, ==_refl (m.slot rc)) refl

  handled-window :
      (h : Handling) (rc n : ℕ)
      → h.bring.rsp_prod_pvt ≡ rc
      → suc n ≤ m.size
      → window m (handled m laws doms busy h).sring.entries n (inc rc)
        ≡ window m h.sring.entries n (inc rc)
  unfolding write_entry
  handled-window h rc n f room =
      ap (λ (s : Sring). window m s.entries n (inc rc)) (handled-push m laws doms busy h)
      ∙ subst
          (λ i.
            window m
              (write_entry (m.slot i)
                (reply doms busy (h.sring.entries (m.slot h.bring.req_cons)) h.resp)
                h.sring).entries
              n (inc rc)
            ≡ window m h.sring.entries n (inc rc))
          (sym f)
          (window-write_entry n rc 1
            (reply doms busy (h.sring.entries (m.slot h.bring.req_cons)) h.resp) h.sring
            (omega arith) (omega (arith, room)))

  -- One round, and then the rest.
  Answered-next :
      (h g : Handling) (rc n : ℕ)
      → h.bring.req_cons ≡ rc
      → h.bring.rsp_prod_pvt ≡ rc
      → rc < idx_mod
      → suc n ≤ m.size
      → Answered (handled m laws doms busy h) n (inc rc) g
      → Answered h (suc n) rc g
  unfolding replies
  Answered-next h g rc n e f small room a =
      let shift : (d : ℕ) → (inc rc + d) % idx_mod ≡ (rc + (d + 1)) % idx_mod = λ d. omega arith in
      let own : (d : ℕ) → d < n → (m.slot rc == m.slot ((inc rc + d) % idx_mod)) ≡ false = λ d lt.
        rw (shift d)
          (ground (arith, laws.slot_lem rc (d + 1) (omega arith) (omega (arith, lt, room)))) in
      let resp =
        handled-resp m laws doms busy h
        ∙ ap (λ i. reply doms busy (h.sring.entries (m.slot i)) h.resp) e in
      record {
        answers =
            ap (λ x. x ∷ window m g.sring.entries n (inc rc))
              (a.others (m.slot rc) own ∙ handled-at h rc e f)
            ∙ ap (λ l. reply doms busy (h.sring.entries (m.slot rc)) h.resp ∷ l)
                (a.answers
                  ∙ ap
                      (λ r.
                        replies r (window m (handled m laws doms busy h).sring.entries n (inc rc)))
                      resp
                  ∙ ap (replies (reply doms busy (h.sring.entries (m.slot rc)) h.resp))
                      (handled-window h rc n f room));
        others = λ k apart.
            let here : (rc + 0) % idx_mod ≡ rc = omega (arith, small) in
            let first : (k == m.slot rc) ≡ false =
              ap (λ i. k == m.slot i) (sym here) ∙ apart 0 (omega arith) in
            a.others k
              (λ d lt. ap (λ i. k == m.slot i) (shift d) ∙ apart (d + 1) (omega (arith, lt)))
            ∙ handled-other h k (ap (λ i. k == m.slot i) f ∙ first);
      }

  irq_loop-Answered :
      (rp rounds rc : ℕ) (h : Handling)
      → h.bring.req_cons ≡ rc
      → h.bring.rsp_prod_pvt ≡ rc
      → rc < idx_mod
      → rp < idx_mod
      → gap rp rc ≤ m.size
      → gap rp rc < rounds
      → Returns (Answered h (gap rp rc) rc) (irq_loop m doms busy rp rounds rc h)
  unfolding irq_loop replies
  irq_loop-Answered rp zero rc h e f small rp_lt room fuel = absurd (omega arith)
  irq_loop-Answered rp (suc rounds) rc h e f small rp_lt room fuel = elim (Bool-cases (rc == rp)) [
    | inl done ↦
        let arrived = (==_iff rc rp).0 done in
        let n : gap rp rc ≡ 0 = omega arith in
        rw (done, n) (returns (record { answers = refl; others = λ k apart. refl }))
    | inr more ↦
        let left : rc ≢ rp = ground arith in
        let n : gap rp rc ≡ suc (gap rp (inc rc)) = omega arith in
        let fits : m.request_cons_overflow h.bring rc ≡ false =
          rw (laws.overflow_lem h.bring rc) (ground (arith, laws.size_pos, f)) in
        let s = handled-Stepped m laws doms busy h in
        let rest =
          irq_loop-Answered rp rounds (inc rc) (handled m laws doms busy h) (s.cons ∙ ap inc e)
            (s.prod ∙ ap inc f) (omega arith) rp_lt (omega (arith, room, n))
            (omega (arith, fuel, n)) in
        rw (more, fits, handle_request-handled m laws doms busy rc h e, n)
          (Returns-mono rest
            λ g a. Answered-next h g rc (gap rp (inc rc)) e f small (omega (arith, room, n)) a)
  ]

  -- When the two indices of the monitor's half agree, the indices are below 2 ^ 32, and at most a ring
  -- of requests is pending, a run of the handler ends, and leaves the answers to the pending requests,
  -- in their order, at the places of the requests: no request is overwritten before it is read.
  pub irq_handle-replies :
      (b : Back) (s : Sring) (garbage : Message)
      → b.rsp_prod_pvt ≡ b.req_cons
      → b.req_cons < idx_mod
      → s.req_prod < idx_mod
      → gap s.req_prod b.req_cons ≤ m.size
      → Returns
          (λ h.
            window m h.sring.entries (gap s.req_prod b.req_cons) b.req_cons
            ≡ replies garbage (window m s.entries (gap s.req_prod b.req_cons) b.req_cons))
          (irq_handle m doms busy b s garbage)
  unfolding irq_handle
  irq_handle-replies b s garbage same small req_lt room =
      Returns-mono
        (irq_loop-Answered s.req_prod (gap s.req_prod b.req_cons + 1) b.req_cons (start b s garbage)
          refl same small req_lt room (omega arith))
        λ h a. a.answers
