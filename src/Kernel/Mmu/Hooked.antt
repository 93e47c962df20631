-- ===== src/Kernel/Mmu/Hooked.antt =====
-- Which updates of page table entries are requested, and what becomes of them.
use mathlib.Core.List.{append-nil, append_assoc}
use maitland.Base.{
  ℕ, ◌%◌, ◌<◌, ◌≡◌, refl, sym, ap, ◌∙◌, ==_refl, Bool, true, false, if◌then◌else◌, some, ◌⊎◌, inl,
  inr, Bool-cases, List, [], ◌∷◌, ◌++◌, length, ℤ, Run, ok, arith,
}
use maitland.Ring.{Macros, MacroLaws}
use maitland.Malpage.Guest.{Guest}
use maitland.Malpage.Hooks.{AddrEnv, multi_mmu_update}
use maitland.Malpage.Hooks.Requests.{requested}
use maitland.Malpage.Hooks.Updates.{mmuupdate, Translated, multi_mmu_update-requested}
use maitland.Kernel.Mmu.{
  MmuUpdate, MultiCall, MmuEnv, Mmu, preserve_ad, extend_last, extend_mmu_update, call_hook,
  set_domain_pte, ptep_modify_prot_commit, batched_set_pte, native_set_pte, set_pte,
}

-- The updates of all calls, in their order.
abbrev pub all_updates : List MultiCall → List MmuUpdate
all_updates [] = []
all_updates (c ∷ calls) = c.updates ++ all_updates calls

-- Only a call that is there is extended.
abbrev pub Extendable : MmuEnv → List MultiCall → Type 0
Extendable env calls = (env.extends ≡ false) ⊎ (0 < length calls)

all_updates-append :
    (calls : List MultiCall) (c : MultiCall)
    → all_updates (calls ++ (c ∷ [])) ≡ all_updates calls ++ c.updates
all_updates-append [] c = append-nil c.updates
all_updates-append (d ∷ calls) c =
    ap (λ t. d.updates ++ t) (all_updates-append calls c)
    ∙ sym (append_assoc d.updates (all_updates calls) c.updates)

all_updates-extend_last :
    (u : MmuUpdate) (calls : List MultiCall)
    → 0 < length calls
    → all_updates (extend_last u calls) ≡ all_updates calls ++ (u ∷ [])
unfolding extend_last
all_updates-extend_last u [] h = absurd (omega arith)
all_updates-extend_last u (c ∷ []) h =
    append_assoc c.updates (u ∷ []) [] ∙ ap (λ t. t ++ (u ∷ [])) (sym (append-nil c.updates))
all_updates-extend_last u (c ∷ d ∷ calls) h =
    ap (λ t. c.updates ++ t) (all_updates-extend_last u (d ∷ calls) (omega arith))
    ∙ sym (append_assoc c.updates (all_updates (d ∷ calls)) (u ∷ []))

all_updates-extend :
    (env : MmuEnv) (u : MmuUpdate) (calls : List MultiCall)
    → Extendable env calls
    → all_updates (extend_mmu_update env u calls) ≡ all_updates calls ++ (u ∷ [])
unfolding extend_mmu_update
all_updates-extend env u calls fits = either (Bool-cases env.extends) fits
  where
    either :
        ((env.extends ≡ true) ⊎ (env.extends ≡ false))
        → Extendable env calls
        → all_updates (extend_mmu_update env u calls) ≡ all_updates calls ++ (u ∷ [])
    either (inl e) (inl f) = absurd (ground (arith, e, f))
    either (inl e) (inr there) = rw (extend_mmu_update, e) (all_updates-extend_last u calls there)
    either (inr e) fits' = rw (extend_mmu_update, e) (all_updates-append calls _)

-- malpage_multi_mmu_update as the kernel calls it in process `pid`; `dirty` says which entries are.
abbrev pub hook : Macros → (ℕ → Bool) → AddrEnv → ℤ → ℕ → ℕ → Guest → Run Guest
hook m dirty addr pid ptep pteval g = multi_mmu_update m (dirty ptep) addr pid ptep pteval g

-- The guest, with the request of the update if the entry is dirty.
abbrev pub reported : Macros → (ℕ → Bool) → ℤ → ℕ → ℕ → Mmu Guest → Guest
reported m dirty pid ptep pteval s =
    if dirty ptep then requested m (mmuupdate pid ptep pteval s.hooked) s.hooked else s.hooked

module _ (m : Macros) (laws : MacroLaws m) (dirty : ℕ → Bool) (addr : AddrEnv) (pid : ℤ)
    (env : MmuEnv) (ptep pteval : ℕ) (s : Mmu Guest) (aligned : ptep % 8 ≡ 0)
    (there : Translated addr ptep) where
  called :
      call_hook (some (hook m dirty addr pid)) ptep pteval s.hooked
      ≡ ok (reported m dirty pid ptep pteval s)
  unfolding call_hook
  called =
      multi_mmu_update-requested m (dirty ptep) addr pid ptep pteval s.hooked laws aligned there

  ptep_modify_prot_commit-requested :
      Extendable env s.calls
      → (s' : Mmu Guest) × (ptep_modify_prot_commit (some (hook m dirty addr pid)) env ptep pteval s
          ≡ ok s')
        × (s'.hooked ≡ reported m dirty pid ptep pteval s)
        × (s'.entries ≡ s.entries)
        × (all_updates s'.calls
            ≡ all_updates s.calls
              ++ (record { ptr = preserve_ad (env.machine ptep); val = env.val_ma pteval } ∷ []))
  unfolding ptep_modify_prot_commit
  ptep_modify_prot_commit-requested fits =
      let u : MmuUpdate = record {
        ptr = preserve_ad (env.machine ptep);
        val = env.val_ma pteval;
      } in
      (
        record s {
          calls = extend_mmu_update env u s.calls;
          hooked = reported m dirty pid ptep pteval s;
        },
        rw (ptep_modify_prot_commit, called) refl,
        refl,
        refl,
        all_updates-extend env u s.calls fits,
      )

  set_domain_pte-requested :
      (domid : ℕ)
      → (s' : Mmu Guest) × (set_domain_pte (some (hook m dirty addr pid)) env ptep pteval domid s
          ≡ ok s')
        × (s'.hooked ≡ reported m dirty pid ptep pteval s)
        × (s'.entries ≡ s.entries)
        × (all_updates s'.calls
            ≡ all_updates s.calls
              ++ (record { ptr = env.machine ptep; val = env.val_ma pteval } ∷ []))
  unfolding set_domain_pte
  set_domain_pte-requested domid =
      let c : MultiCall = record {
        domid = domid;
        updates = record { ptr = env.machine ptep; val = env.val_ma pteval } ∷ [];
      } in
      (
        record s { calls = s.calls ++ (c ∷ []); hooked = reported m dirty pid ptep pteval s },
        rw (set_domain_pte, called) refl,
        refl,
        refl,
        all_updates-append s.calls c,
      )

-- The update of an entry without the hook: in lazy mode it goes to the buffer, else to the entry.
pub set_pte-unrequested {ℓ} :
    {S : Type ℓ} (env : MmuEnv) (ptep pteval : ℕ) (s : Mmu S)
    → Extendable env s.calls
    → let s' = set_pte env ptep pteval s in
      (s'.hooked ≡ s.hooked)
      × (all_updates s'.calls ≡ (
          if env.lazy_mmu
          then all_updates s.calls
            ++ (record { ptr = env.machine ptep; val = env.val_ma pteval } ∷ [])
          else all_updates s.calls))
      × (s'.entries ptep ≡ (if env.lazy_mmu then s.entries ptep else pteval))
unfolding set_pte batched_set_pte native_set_pte
set_pte-unrequested env ptep pteval s fits = elim (Bool-cases env.lazy_mmu) [
  | inl e ↦ rw e (refl, all_updates-extend env _ s.calls fits, refl)
  | inr e ↦ rw (e, ==_refl ptep) (refl, refl, refl)
]

-- An entry is eight bytes long and aligned, its address can be translated, and the buffer has a call
-- to extend if one is to be extended. Then the two updates that call the hook,
-- xen_ptep_modify_prot_commit and xen_set_domain_pte, do not fault. Each sends one request of the entry and its new
-- value exactly if the entry is dirty, and adds one update of the entry to the buffer behind the
-- others. xen_set_pte writes the entry or adds the same update, in lazy mode, but sends nothing.
pub entry_updates-requested :
    (m : Macros)
    → MacroLaws m
    → (dirty : ℕ → Bool) (addr : AddrEnv) (pid : ℤ) (env : MmuEnv) (ptep pteval domid : ℕ)
      (s : Mmu Guest)
    → ptep % 8 ≡ 0
    → Translated addr ptep
    → Extendable env s.calls
    → let sent = reported m dirty pid ptep pteval s in
      ((s' : Mmu Guest) × (ptep_modify_prot_commit (some (hook m dirty addr pid)) env ptep pteval s
          ≡ ok s')
        × (s'.hooked ≡ sent)
        × (s'.entries ≡ s.entries)
        × (all_updates s'.calls
            ≡ all_updates s.calls
              ++ (record { ptr = preserve_ad (env.machine ptep); val = env.val_ma pteval } ∷ [])))
      × ((s' : Mmu Guest) × (set_domain_pte (some (hook m dirty addr pid)) env ptep pteval domid s
            ≡ ok s')
          × (s'.hooked ≡ sent)
          × (s'.entries ≡ s.entries)
          × (all_updates s'.calls
              ≡ all_updates s.calls
                ++ (record { ptr = env.machine ptep; val = env.val_ma pteval } ∷ [])))
      × (((set_pte env ptep pteval s).hooked ≡ s.hooked)
          × (all_updates (set_pte env ptep pteval s).calls ≡ (
              if env.lazy_mmu
              then all_updates s.calls
                ++ (record { ptr = env.machine ptep; val = env.val_ma pteval } ∷ [])
              else all_updates s.calls))
          × ((set_pte env ptep pteval s).entries ptep
              ≡ (if env.lazy_mmu then s.entries ptep else pteval)))
entry_updates-requested m laws dirty addr pid env ptep pteval domid s aligned there fits = (
  ptep_modify_prot_commit-requested m laws dirty addr pid env ptep pteval s aligned there fits,
  set_domain_pte-requested m laws dirty addr pid env ptep pteval s aligned there domid,
  set_pte-unrequested env ptep pteval s fits,
)
