-- ===== src/Migrater/Service/Shutdown.antt =====
-- Shutdown in src/migrater/server.py: `_shutdown_requested`, `_shutdown_complete`.
use ca_project.Common.{
  ℕ, String, ◌≡◌, refl, true, false, List, [], ◌∷◌, ok, arith, ◌⊎◌, inl, inr, Bool-cases,
}
use ca_project.Common.Int.{ℤ}
use ca_project.Float.{Float}
use ca_project.Protocol.{exit, InstructionResponse}
use ca_project.Migrater.Service.{
  waiting, idle, Migrater, Event, notifies, instructs, wakes, begins, reports, returns, closes,
  pops, samples, beats, disconnects, interrupts, new_migrater, notify_checkpoint_saved,
  handle_instruction, send_heartbeat, step, run,
}

module _ {F : Type 0} ⦃o : Float F⦄ where
  -- A shutdown is requested, and `n` transfers have been started.
  abbrev pub IsClosing : ℕ → Migrater F → Type 0
  IsClosing n m = (m.shutdown_requested ≡ true) × (m.started ≡ n)

  step-IsClosing : (n : ℕ) (e : Event F) (m : Migrater F) → IsClosing n m → IsClosing n (step e m)
  unfolding step notify_checkpoint_saved handle_instruction send_heartbeat
  step-IsClosing n (notifies size epoch total_epochs) m h = ground arith
  step-IsClosing n (instructs instruction) m h = ground arith
  step-IsClosing n (wakes j) m h = ground arith
  step-IsClosing n (begins j) m h = ground arith
  step-IsClosing n (reports j item) m h = ground arith
  step-IsClosing n (returns j) m h = ground arith
  step-IsClosing n (closes j) m h = ground arith
  step-IsClosing n pops m h = ground arith
  step-IsClosing n samples m h = ground arith
  step-IsClosing n beats m h = ground arith
  step-IsClosing n disconnects m h = ground arith
  step-IsClosing n interrupts m h = ground arith

  -- Once a shutdown is requested, it stays requested and no transfer is started any more.
  pub run-IsClosing :
      (n : ℕ) (es : List (Event F)) (m : Migrater F) → IsClosing n m → IsClosing n (run es m)
  unfolding run
  run-IsClosing n [] m h = h
  run-IsClosing n (e ∷ es) m h = run-IsClosing n es (step e m) (step-IsClosing n e m h)

  -- The shutdown is incomplete, or it has been requested.
  abbrev pub IsOrderly : Migrater F → Type 0
  IsOrderly m = (m.shutdown_complete ≡ false) ⊎ (m.shutdown_requested ≡ true)

  step-IsOrderly : (e : Event F) (m : Migrater F) → IsOrderly m → IsOrderly (step e m)
  unfolding step notify_checkpoint_saved handle_instruction send_heartbeat
  step-IsOrderly (notifies size epoch total_epochs) m h = ground arith
  step-IsOrderly (instructs instruction) m h = ground arith
  step-IsOrderly (wakes j) m h = ground arith
  step-IsOrderly (begins j) m h = ground arith
  step-IsOrderly (reports j item) m h = ground arith
  step-IsOrderly (returns j) m h = ground arith
  step-IsOrderly (closes j) m h = ground arith
  step-IsOrderly pops m h = ground arith
  step-IsOrderly samples m h = ground arith
  step-IsOrderly beats m h = ground arith
  step-IsOrderly disconnects m h = ground arith
  step-IsOrderly interrupts m h = ground arith

  run_lem : (es : List (Event F)) (m : Migrater F) → IsOrderly m → IsOrderly (run es m)
  unfolding run
  run_lem [] m h = h
  run_lem (e ∷ es) m h = run_lem es (step e m) (step-IsOrderly e m h)

  -- From the start of the service on, the shutdown is incomplete or it has been requested: no run
  -- of events ends the service without an EXIT instruction or an interrupt.
  pub run-IsOrderly :
      (hostname : String) (es : List (Event F)) → IsOrderly (run es (new_migrater hostname))
  run-IsOrderly hostname es = run_lem es (new_migrater hostname) (inl refl)

  -- At any point of any run from the start of the service on, either no shutdown has been requested,
  -- and then the service has not completed one: it does not end without an EXIT instruction or an
  -- interrupt. Or one has, and then, whatever happens next, it stays requested and no transfer is
  -- started any more.
  pub shutdown_order :
      (hostname : String) (es later : List (Event F))
      → let m = run es (new_migrater hostname) in
        ((m.shutdown_requested ≡ false) × (m.shutdown_complete ≡ false))
        ⊎ IsClosing m.started (run later m)
  shutdown_order hostname es later =
      let m = run es (new_migrater hostname) in
      elim (Bool-cases m.shutdown_requested) [
        | inl asked ↦ inr (run-IsClosing m.started later m (asked, refl))
        | inr unasked ↦ inl (
          unasked,
          elim (run-IsOrderly hostname es) [ inl incomplete ↦ incomplete | inr asked ↦ cc ],
        )
      ]

  -- A checkpoint accepted while no transfer is active is abandoned by an EXIT that comes before its
  -- transfer is let go: the reply was `true`, the transfer still waits, and the shutdown is
  -- complete. The migrater has to be without an active transfer, without a requested shutdown, and
  -- its heartbeat thread has to be at the head of its loop.
  pub exit_abandons :
      (m : Migrater F) (size : ℕ) (epoch total_epochs : ℤ) (instruction : InstructionResponse F)
      → m.transfer_active ≡ false
      → m.shutdown_requested ≡ false
      → m.beat ≡ idle
      → instruction.action ≡ exit
      → let m' = run (notifies (ok size) epoch total_epochs ∷ instructs instruction ∷ []) m in
        (m'.replies ≡ true ∷ m.replies)
        × (m'.transfers m.started ≡ waiting)
        × (m'.shutdown_complete ≡ true)
  unfolding run step notify_checkpoint_saved handle_instruction
  exit_abandons m size epoch total_epochs instruction inactive unasked at leaves = ground arith
