-- ===== src/System/Cycle/Quiet.antt =====
-- Many cycles, one after the other.
use maitland.Base.{
  ℕ, ℤ, pos, ◌+◌, ◌^◌, ◌<◌, ◌≡◌, refl, ap, ◌∙◌, sym, subst, true, false, List, [], ◌∷◌, ◌++◌, ok,
  arith, All, Returns, returns, Returns-mono, ◌>>=◌,
}
use maitland.Ring.{Back, Macros, MacroLaws, inc}
use maitland.Wire.{Message}
use maitland.Wire.Malpage
use maitland.Monitor.Watch.{DomList}
use maitland.Monitor.Watch.Checks.{is_watched}
use maitland.Monitor.Handler.{start, in_range}
use maitland.Monitor.Handler.Verdict.{reply}
use maitland.Monitor.Handler.Progress.{handled, handled-Stepped}
use maitland.Malpage.Guest.{Guest}
use maitland.Malpage.Hooks.Requests.{Fault, error_code}
use maitland.Malpage.Irq.{Handling, handle_response}
use maitland.Malpage.Irq.Responses.{settled, consumed}
use maitland.System.{InSync, cycle, cycles}
use maitland.System.Cycle.{
  IsFetch, faulted, request, monitor_answers, received, hook, guest_reacts, pushed, producer,
  reply-nonop, settled-report, alerts, Outcome,
}

module _ (m : Macros) (laws : MacroLaws m) (doms : DomList) (garbage : Message) where
  -- What a quiet cycle leaves of the guest.
  record Unchanged (g g' : Guest) : Type 0 where
    pub queue : g'.report_queue ≡ g.report_queue
    pub sem : g'.report_sem ≡ g.report_sem
    pub signals : g'.signals ≡ g.signals
    pub domid : g'.domid ≡ g.domid

  module _ (pid : ℤ) (address : ℕ) (g : Guest) (b : Back) (sync : InSync m g b) where
    back : Back
    back =
        (handled m laws doms 0
          (start b (faulted m laws doms 0 garbage pid address g b sync).sring garbage)).bring

    cycle-ok :
        (f : Fault) (skip : ℕ)
        → IsFetch f
        → cycle m doms 0 garbage skip pid address (error_code f) g b
          ≡ ok (
            settled m (
                handle_response
                  (reply doms 0 (request m laws doms 0 garbage pid address g b sync) garbage)
                  (record {
                    skip = skip;
                    guest = received m laws doms 0 garbage pid address g b sync;
                  })),
            back,
          )
    unfolding cycle back
    cycle-ok f skip fetch =
        rw
          (
            hook m laws doms 0 garbage pid address g b sync f fetch,
            monitor_answers m laws doms 0 garbage pid address g b sync,
            pushed m laws doms 0 garbage pid address g b sync,
          )
          (unfold received in
            ap (λ r. r >>= λ g2. ok (g2, back))
              (guest_reacts m laws doms 0 garbage pid address g b sync skip))

    nonop-kept :
        (resp : Message) (h : Handling)
        → resp.operation ≡ Malpage.ring_nonop
        → handle_response resp h ≡ h
    unfolding handle_response
    nonop-kept resp h e = rw e refl

    -- The guest behind a quiet cycle.
    quiet : Guest
    quiet = consumed m (received m laws doms 0 garbage pid address g b sync)

    quiet-Unchanged : Unchanged g quiet
    unfolding quiet received faulted
    quiet-Unchanged = record { queue = refl; sem = refl; signals = refl; domid = refl }

    quiet-InSync : InSync m quiet back
    unfolding quiet back received faulted
    quiet-InSync =
        let step =
          handled-Stepped m laws doms 0
            (start b (faulted m laws doms 0 garbage pid address g b sync).sring garbage) in
        let made = producer m laws doms 0 garbage pid address g b sync in
        record {
          requests = step.cons ∙ ap inc sync.requests;
          responses = step.prod ∙ sym made;
          published = made ∙ sym step.prod;
          cons_lt = omega (arith, step.cons);
          prod_lt = omega (arith, step.prod);
          room = omega (arith, step.cons, step.prod, sync.room, sync.cons_lt, sync.prod_lt);
        }

    cycle-quiet :
        (f : Fault) (p : ℕ)
        → IsFetch f
        → pid ≡ pos p
        → is_watched doms g.domid p ≡ false
        → cycle m doms 0 garbage 0 pid address (error_code f) g b ≡ ok (quiet, back)
    unfolding quiet alerts
    cycle-quiet f p fetch e unwatched =
        let none_asked =
          reply-nonop m laws doms 0 garbage pid address g b sync p e (ground (arith, unwatched)) in
        cycle-ok f 0 fetch
        ∙ ap (λ h. ok (settled m h, back))
            (nonop-kept (reply doms 0 (request m laws doms 0 garbage pid address g b sync) garbage)
              (record { skip = 0; guest = received m laws doms 0 garbage pid address g b sync })
              none_asked)

  -- An instruction fetch from a page that is not present, by a process that is not watched.
  abbrev pub Ignored : ℕ → ℤ × ℕ × ℕ → Type 0
  Ignored domid (pid, address, code) =
      (p : ℕ) × (f : Fault) × (pid ≡ pos p)
      × (code ≡ error_code f)
      × IsFetch f
      × (is_watched doms domid p ≡ false)

  -- Detection behind any number of quiet cycles: the two ends of the ring agree at first, the first
  -- value of `skip` is 0 each time, and processes that are not watched fetch instructions from
  -- pages that are not present, any number of times, each in a cycle of its own. Then a watched
  -- process of a domain in 1 to 255 does. All the cycles end; exactly that process is queued behind
  -- the reports that were queued before, the semaphore is raised by one, and nobody is signalled.
  pub cycles-report :
      (faults : List (ℤ × ℕ × ℕ)) (g : Guest) (b : Back) (p address : ℕ) (f : Fault)
      → InSync m g b
      → All (Ignored g.domid) faults
      → IsFetch f
      → p < 2 ^ 31
      → in_range (pos g.domid) ≡ true
      → is_watched doms g.domid p ≡ true
      → Returns
          (λ (g', b').
            (g'.report_queue ≡ g.report_queue ++ (pos p ∷ []))
            × (g'.report_sem ≡ g.report_sem + 1)
            × (g'.signals ≡ g.signals))
          (cycles m doms 0 garbage 0 (faults ++ ((pos p, address, error_code f) ∷ [])) g b)
  unfolding cycles alerts Outcome
  cycles-report [] g b p address f sync quiet fetch small inside watched =
      rw (cycle-ok (pos p) address g b sync f 0 fetch) (
        returns (
          settled-report m laws doms 0 garbage (pos p) address g b sync p 0 small refl
            (rw (inside, watched) refl)))
  cycles-report ((pid, addr, code) ∷ faults) g b p address f sync
        ((q, f', e, is_code, fetch', unwatched), quiet_rest) fetch small inside watched =
      let g1 = quiet pid addr g b sync in
      let same = quiet-Unchanged pid addr g b sync in
      rw (is_code, cycle-quiet pid addr g b sync f' q fetch' e unwatched)
        (Returns-mono
          (cycles-report faults g1 (back pid addr g b sync) p address f
            (quiet-InSync pid addr g b sync)
            (subst (λ d. All (Ignored d) faults) (sym same.domid) quiet_rest) fetch small
            (ap (λ d. in_range (pos d)) same.domid ∙ inside)
            (ap (λ d. is_watched doms d p) same.domid ∙ watched))
          λ (g', b') (queue, sem, signals). (
            queue ∙ ap (λ l. l ++ (pos p ∷ [])) same.queue,
            sem ∙ ap (λ n. n + 1) same.sem,
            signals ∙ same.signals,
          ))
