-- ===== src/Monitor/Handler/Commands.antt =====
-- What a command of monitor_op_process does to the ring.
use maitland.Base.{ℕ, ◌≡◌, ok, arith, ap}
use maitland.Ring.{Sring, Back, Macros, MacroLaws, inc, write_entry}
use maitland.Wire.{Message}
use maitland.Monitor.Watch.{DomList}
use maitland.Monitor.Handler.{start, irq_handle, op_process}
use maitland.Monitor.Handler.Progress.{irq_handle-overfull, IsIndexed}

module _ (m : Macros) (laws : MacroLaws m) where
  -- The command is published as one more response: it stands at the producer index, with the
  -- operation and the process id that were given.
  pub op_process_lem :
      (op pid : ℕ) (garbage : Message) (b : Back) (s : Sring)
      → op_process m op pid garbage (b, s) ≡ (
        record b { rsp_prod_pvt = inc b.rsp_prod_pvt },
        record (write_entry
            (m.slot b.rsp_prod_pvt)
            (record garbage { operation = op; process_id = pid })
            s) { rsp_prod = inc b.rsp_prod_pvt },
      )
  unfolding op_process
  op_process_lem op pid garbage b s =
      ap (λ (p : Sring). (record b { rsp_prod_pvt = inc b.rsp_prod_pvt }, p))
        (laws.check_notify_lem _ _)

  -- A command is a response without a request. Sent while the producer index equals the consumer
  -- index, all answers are published and the indices are below 2 ^ 32, it puts the producer index
  -- ahead of the consumer index, which the handler takes for an overfull ring: whatever the page
  -- holds when the handler runs next, it answers nothing and leaves everything as it is.
  pub op_process-stalls :
      (op pid : ℕ) (garbage : Message) (b : Back) (s : Sring)
      → b.rsp_prod_pvt ≡ b.req_cons
      → IsIndexed b s
      → (doms : DomList) (busy : ℕ) (s' : Sring) (garbage' : Message)
      → let b' = (op_process m op pid garbage (b, s)).0 in
        irq_handle m doms busy b' s' garbage' ≡ ok (start b' s' garbage')
  unfolding op_process
  op_process-stalls op pid garbage b s e inv doms busy s' garbage' =
      irq_handle-overfull m laws doms busy _ s' garbage' (omega (arith, laws.size_le, inv.prod_lt))
