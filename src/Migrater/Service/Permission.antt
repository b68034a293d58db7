-- ===== src/Migrater/Service/Permission.antt =====
-- A transfer starts only when the orchestrator has permitted it.
use ca_project.Common.{All, ℕ, ◌≡◌, Bool, true, false, List, [], ◌∷◌, arith}
use ca_project.Float.{Float}
use ca_project.Protocol.{Action, hold, start_flush, change_rate, exit}
use ca_project.Migrater.Service.{
  waiting, Migrater, Event, notifies, instructs, wakes, begins, reports, returns, closes, pops,
  samples, beats, disconnects, interrupts, notify_checkpoint_saved, handle_instruction,
  send_heartbeat, step, run,
}

-- an instruction that sets `transfer_allowed`
abbrev pub permits : Action → Bool
permits hold = false
permits start_flush = true
permits change_rate = true
permits exit = true

module _ {F : Type 0} ⦃o : Float F⦄ where
  -- an instruction that permits a transfer
  abbrev pub permits_transfer : Event F → Bool
  permits_transfer (instructs instruction) = permits instruction.action
  permits_transfer e = false

  -- Transfer `i` waits, and nothing lets it go on.
  abbrev pub IsHeldBack : ℕ → Migrater F → Type 0
  IsHeldBack i m = (m.transfers i ≡ waiting) × (m.transfer_allowed ≡ false)

  step-IsHeldBack :
      (i : ℕ) (e : Event F) (m : Migrater F)
      → permits_transfer e ≡ false
      → IsHeldBack i m
      → IsHeldBack i (step e m)
  unfolding step notify_checkpoint_saved handle_instruction send_heartbeat
  step-IsHeldBack i (notifies size epoch total_epochs) m quiet h = ground arith
  step-IsHeldBack i (instructs instruction) m quiet h = ground arith
  step-IsHeldBack i (wakes j) m quiet h = ground arith
  step-IsHeldBack i (begins j) m quiet h = ground arith
  step-IsHeldBack i (reports j item) m quiet h = ground arith
  step-IsHeldBack i (returns j) m quiet h = ground arith
  step-IsHeldBack i (closes j) m quiet h = ground arith
  step-IsHeldBack i pops m quiet h = ground arith
  step-IsHeldBack i samples m quiet h = ground arith
  step-IsHeldBack i beats m quiet h = ground arith
  step-IsHeldBack i disconnects m quiet h = ground arith
  step-IsHeldBack i interrupts m quiet h = ground arith

  -- As long as no event is an instruction that permits a transfer, one that waits with the
  -- permission withheld goes on waiting.
  pub run-IsHeldBack :
      (i : ℕ) (es : List (Event F)) (m : Migrater F)
      → All (λ e. permits_transfer e ≡ false) es
      → IsHeldBack i m
      → IsHeldBack i (run es m)
  unfolding run
  run-IsHeldBack i [] m quiet h = h
  run-IsHeldBack i (e ∷ es) m quiet h =
      run-IsHeldBack i es (step e m) (quiet.1) (step-IsHeldBack i e m (quiet.0) h)
