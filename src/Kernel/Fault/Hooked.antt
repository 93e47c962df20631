-- ===== src/Kernel/Fault/Hooked.antt =====
-- Which faults reach the hook of malpage, and what it then sends.
use maitland.Base.{
  ℕ, ◌≡◌, refl, ap, ◌∙◌, sym, Bool, true, false, not, ◌&&◌, ◌||◌, if◌then◌else◌, leb, some, ℤ, inl,
  inr, ◌⊎◌, arith,
}
use maitland.Ring.{Macros, MacroLaws}
use maitland.Malpage.Guest.{Guest}
use maitland.Malpage.Hooks
use maitland.Malpage.Hooks.{has_bit, pf_prot, pf_user}
use maitland.Malpage.Hooks.Requests.{
  Fault, error_code, requested, nxviolation, do_page_fault-requested,
}
use maitland.Kernel.Fault.{FaultEnv, as_user, do_page_fault}
use maitland.Kernel.Fault.Bits.{seen, seen_lem}
use maitland.Kernel.Fault.Calls.{IsOrdinary, is_repeated, do_page_fault-hooked, do_page_fault-idle}

-- malpage_do_page_fault as the kernel calls it in process `pid`.
abbrev pub hook : Macros → ℤ → ℕ → ℕ → Guest → Guest
hook m pid address code g = Hooks.do_page_fault m pid address code g

module _ (m : Macros) (laws : MacroLaws m) (pid : ℤ) (env : FaultEnv) (address : ℕ) (f : Fault)
    (g : Guest) where
  -- The request of the fault.
  abbrev reported : Guest → Guest
  reported g' = requested m (nxviolation pid address g') g'

  -- In user mode, outside atomic code, with an address space and no probe that claims the fault, at
  -- an address below the kernel's that lies in both attempts in an area with some permission: the
  -- kernel's handler of an instruction fetch calls the hook. If the page is not present, the guest
  -- has sent one request with the process, the domain and the address, and two of them if
  -- handle_mm_fault asks to try again and mm_fault_error does not end the fault. If the page is
  -- present, so that its protection forbids the fetch, the handler ends before the hook, and nothing
  -- is sent.
  pub do_page_fault-reported :
      IsOrdinary env address
      → f.instr ≡ true
      → f.write ≡ false
      → (do_page_fault (some (hook m pid)) env address (error_code f) g).0
        ≡ (if f.prot then g else if is_repeated env then reported (reported g) else reported g)
  do_page_fault-reported ordinary instr reads =
      do_page_fault-hooked (hook m pid) env address f g ordinary reads
      ∙ either f.prot refl (is_repeated env)
    where
      sent :
          (g' : Guest)
          → f.prot ≡ false
          → hook m pid address (error_code (record f { user = true })) g' ≡ reported g'
      sent g' absent =
          do_page_fault-requested m pid address (record f { user = true }) g' laws
          ∙ rw (instr, absent) refl

      either :
          (p : Bool)
          → p ≡ f.prot
          → (again : Bool)
          → (if p
              then g
              else if again
              then hook m pid address
                  (error_code (record f { user = true }))
                  (hook m pid address (error_code (record f { user = true })) g)
              else hook m pid address (error_code (record f { user = true })) g)
            ≡ (if p then g else if again then reported (reported g) else reported g)
      either true e again = refl
      either false e true =
          ap (hook m pid address (error_code (record f { user = true }))) (sent g (sym e))
          ∙ sent (reported g) (sym e)
      either false e false = sent g (sym e)

  -- Whatever the functions that the kernel's handler calls return: a fault at a kernel's address,
  -- on a present page, from kernel mode, or that is no instruction fetch, sends nothing.
  pub do_page_fault-unreported :
      (leb env.task_size_max address || not (f.instr && ((env.user_mode || f.user) && not f.prot)))
        ≡ true
      → (do_page_fault (some (hook m pid)) env address (error_code f) g).0 ≡ g
  do_page_fault-unreported quiet =
      do_page_fault-idle (hook m pid) env address (error_code f) g
        (either (leb env.task_size_max address) refl)
    where
      still :
          (f.instr && ((env.user_mode || f.user) && not f.prot)) ≡ false
          → hook m pid address (if env.user_mode then as_user (error_code f) else error_code f) g
            ≡ g
      still e =
          ap (λ code. hook m pid address code g) (seen_lem env f)
          ∙ do_page_fault-requested m pid address (seen env f) g laws
          ∙ silent env.user_mode e
        where
          silent :
              (u : Bool)
              → (f.instr && ((u || f.user) && not f.prot)) ≡ false
              → (if (if u then record f { user = true } else f).instr
                    && ((if u then record f { user = true } else f).user
                        && not (if u then record f { user = true } else f).prot)
                  then reported g
                  else g)
                ≡ g
          silent true e = rw e refl
          silent false e = rw e refl

      either :
          (high : Bool)
          → leb env.task_size_max address ≡ high
          → (leb env.task_size_max address ≡ true)
            ⊎ (hook m pid address (if env.user_mode then as_user (error_code f) else error_code f) g
                ≡ g)
      either true e = inl e
      either false e = inr (still (ground (arith, e, quiet)))
