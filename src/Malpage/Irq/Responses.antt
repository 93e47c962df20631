-- ===== src/Malpage/Irq/Responses.antt =====
-- What malpage_irq_handle does with all pending responses: the loop as a fold over them.
use maitland.Base.{
  ℕ, zero, suc, ◌+◌, ◌<◌, ◌≡◌, refl, ◌∙◌, ap, ◌≢◌, ◌==◌, false, inl, inr, if◌then◌else◌, List, [],
  ◌∷◌, ok, arith, Bool-cases, ==_iff,
}
use maitland.Ring.{Sring, Macros, MacroLaws, idx_mod, inc, gap}
use maitland.Wire.{Message}
use maitland.Malpage.Guest.{Guest}
use maitland.Malpage.Irq.{
  Handling, handle_response, responses, finish, repeats, after_loop, again, irq_handle,
}

-- The pending responses: `n` entries from index `rc` on.
unfoldable pub pending : Macros → Sring → ℕ → ℕ → List Message
pending m s zero rc = []
pending m s (suc n) rc = s.entries (m.slot rc) ∷ pending m s n (inc rc)

unfoldable pub handle_all : List Message → Handling → Handling
handle_all [] h = h
handle_all (resp ∷ resps) h = handle_all resps (handle_response resp h)

-- A response leaves the ring alone.
handle_response-ring :
    (resp : Message) (h : Handling)
    → ((handle_response resp h).guest.sring ≡ h.guest.sring)
      × ((handle_response resp h).guest.fring ≡ h.guest.fring)
unfolding handle_response
handle_response-ring resp h = ground arith

handle_all-ring :
    (resps : List Message) (h : Handling)
    → ((handle_all resps h).guest.sring ≡ h.guest.sring)
      × ((handle_all resps h).guest.fring ≡ h.guest.fring)
unfolding handle_all
handle_all-ring [] h = (refl, refl)
handle_all-ring (resp ∷ resps) h =
    let (s, f) = handle_response-ring resp h in
    let (s', f') = handle_all-ring resps (handle_response resp h) in (s' ∙ s, f' ∙ f)

module _ (m : Macros) where
  responses-handle_all :
      (rp rounds rc : ℕ) (h : Handling) (s : Sring)
      → h.guest.sring ≡ s
      → rc < idx_mod
      → rp < idx_mod
      → gap rp rc < rounds
      → responses m rp rounds rc h ≡ ok (handle_all (pending m s (gap rp rc) rc) h)
  unfolding responses pending handle_all
  responses-handle_all rp zero rc h s e rc_lt rp_lt fuel = absurd (omega arith)
  responses-handle_all rp (suc rounds) rc h s e rc_lt rp_lt fuel = elim (Bool-cases (rc == rp)) [
    | inl done ↦
        let arrived = (==_iff rc rp).0 done in let n : gap rp rc ≡ 0 = omega arith in rw (done, n)
    | inr more ↦
        let left : rc ≢ rp = ground arith in
        let n : gap rp rc ≡ suc (gap rp (inc rc)) = omega arith in
        let entry : h.guest.sring.entries (m.slot rc) ≡ s.entries (m.slot rc) =
          ap (λ (p : Sring). p.entries (m.slot rc)) e in
        let ih =
          responses-handle_all rp rounds (inc rc)
            (handle_response (h.guest.sring.entries (m.slot rc)) h) s
            ((handle_response-ring (h.guest.sring.entries (m.slot rc)) h).0 ∙ e) (omega arith) rp_lt
            (omega arith) in
        rw (more, n)
          (ih
            ∙ ap
                (λ r.
                  ok (handle_all (pending m s (gap rp (inc rc)) (inc rc)) (handle_response r h)))
                entry)
  ]

  -- The ring after a batch whose last word was not to skip: everything is consumed, and the next
  -- response is to raise an event.
  abbrev pub consumed : Guest → Guest
  consumed g = record g {
    fring = record g.fring { rsp_cons = g.sring.rsp_prod };
    sring = record g.sring { rsp_event = inc g.sring.rsp_prod };
  }

  abbrev pub settled : Handling → Guest
  settled h = if h.skip == 0 then consumed h.guest else h.guest

  module _ (laws : MacroLaws m) where
    finish-consumed :
        (rp : ℕ) (g : Guest)
        → g.sring.rsp_prod ≡ rp
        → (finish m rp g ≡ consumed g) × (repeats m rp g ≡ false)
    unfolding finish repeats
    finish-consumed rp g e = rw (← e) (
      ground (arith, laws.final_check_lem (record g.fring { rsp_cons = g.sring.rsp_prod }) g.sring),
      ground
          (arith, laws.final_notify_lem (record g.fring { rsp_cons = g.sring.rsp_prod }) g.sring),
    )

    -- With indices below 2 ^ 32, a run of the guest's handler ends. It handles the pending responses in order, each once, and
    -- then consumes them all if the last response that set `skip` set it to 0. If that response set
    -- it to 1, it consumes none of them: the indices of the ring stay as they were.
    pub irq_handle-settled :
        (skip : ℕ) (g : Guest)
        → g.fring.rsp_cons < idx_mod
        → g.sring.rsp_prod < idx_mod
        → irq_handle m skip g
          ≡ ok (
              settled (
                handle_all
                  (pending m g.sring (gap g.sring.rsp_prod g.fring.rsp_cons) g.fring.rsp_cons)
                  (record { skip = skip; guest = g })))
    unfolding irq_handle again after_loop
    irq_handle-settled skip g cons_lt prod_lt =
        let start : Handling = record { skip = skip; guest = g } in
        let resps = pending m g.sring (gap g.sring.rsp_prod g.fring.rsp_cons) g.fring.rsp_cons in
        let h = handle_all resps start in
        let loop =
          responses-handle_all g.sring.rsp_prod (gap g.sring.rsp_prod g.fring.rsp_cons + 1)
            g.fring.rsp_cons start g.sring refl cons_lt prod_lt (omega arith) in
        let same = ap (λ (s : Sring). s.rsp_prod) (handle_all-ring resps start).0 in
        let (fin, once) = finish-consumed g.sring.rsp_prod h.guest same in
        rw loop (ground (arith, fin, once))
