-- ===== src/Migrater/Service/Waiting.antt =====
-- What an EXIT waits for in src/migrater/server.py.
use ca_project.Common.{ℕ, ◌≡◌, Bool, true, false, not, List, [], ◌∷◌, arith, ◌==◌, ◌⊎◌, All}
use ca_project.Float.{Float}
use ca_project.Protocol.{exit, InstructionResponse}
use ca_project.Migrater.Service.{
  Phase, absent, over, copying, stopped, Beat, Migrater, Event, notifies, instructs, wakes, begins,
  reports, returns, closes, pops, samples, beats, disconnects, interrupts, notify_checkpoint_saved,
  handle_instruction, send_heartbeat, step, run,
}

-- a thread that has been started and is not over
abbrev pub is_live : Phase → Bool
is_live absent = false
is_live over = false
is_live ph = true

abbrev pub is_stopped : Beat → Bool
is_stopped stopped = true
is_stopped b = false

module _ {F : Type 0} ⦃o : Float F⦄ where
  -- Transfer `i` copies, a shutdown is requested, and it is not complete.
  pub record IsBusy (i : ℕ) (m : Migrater F) : Type 0 where
    pub copies : m.transfers i ≡ copying
    pub active : m.transfer_active ≡ true
    pub requested : m.shutdown_requested ≡ true
    pub open_still : m.shutdown_complete ≡ false

  -- another transfer is not live
  abbrev pub IsAlone : ℕ → Migrater F → Type 0
  IsAlone i m = (j : ℕ) → (j ≡ i) ⊎ (is_live (m.transfers j) ≡ false)

  -- not the return of transfer `i`
  abbrev pub spares : ℕ → Event F → Bool
  spares i (returns j) = not (i == j)
  spares i e = true

  step-IsAlone :
      (i : ℕ) (e : Event F) (m : Migrater F)
      → m.shutdown_requested ≡ true
      → IsAlone i m
      → IsAlone i (step e m)
  unfolding step notify_checkpoint_saved handle_instruction send_heartbeat
  step-IsAlone i (notifies size epoch total_epochs) m q h k = ground (arith, h k)
  step-IsAlone i (instructs instruction) m q h k = ground (arith, h k)
  step-IsAlone i (wakes j) m q h k = ground (arith, h k)
  step-IsAlone i (begins j) m q h k = ground (arith, h k)
  step-IsAlone i (reports j item) m q h k = ground (arith, h k)
  step-IsAlone i (returns j) m q h k = ground (arith, h k)
  step-IsAlone i (closes j) m q h k = ground (arith, h k)
  step-IsAlone i pops m q h k = ground (arith, h k)
  step-IsAlone i samples m q h k = ground (arith, h k)
  step-IsAlone i beats m q h k = ground (arith, h k)
  step-IsAlone i disconnects m q h k = ground (arith, h k)
  step-IsAlone i interrupts m q h k = ground (arith, h k)

  step-IsBusy :
      (i : ℕ) (e : Event F) (m : Migrater F)
      → spares i e ≡ true
      → IsAlone i m
      → IsBusy i m
      → IsBusy i (step e m)
  unfolding step notify_checkpoint_saved handle_instruction send_heartbeat
  step-IsBusy i (notifies size epoch total_epochs) m h others b =
      ground (arith, b.copies, b.active, b.requested, b.open_still)
  step-IsBusy i (instructs instruction) m h others b =
      ground (arith, b.copies, b.active, b.requested, b.open_still)
  step-IsBusy i (wakes j) m h others b =
      ground (arith, b.copies, b.active, b.requested, b.open_still, others j)
  step-IsBusy i (begins j) m h others b =
      ground (arith, b.copies, b.active, b.requested, b.open_still, others j)
  step-IsBusy i (reports j item) m h others b =
      ground (arith, b.copies, b.active, b.requested, b.open_still, others j)
  step-IsBusy i (returns j) m h others b =
      ground (arith, b.copies, b.active, b.requested, b.open_still, others j)
  step-IsBusy i (closes j) m h others b =
      ground (arith, b.copies, b.active, b.requested, b.open_still, others j)
  step-IsBusy i pops m h others b = ground (arith, b.copies, b.active, b.requested, b.open_still)
  step-IsBusy i samples m h others b = ground (arith, b.copies, b.active, b.requested, b.open_still)
  step-IsBusy i beats m h others b = ground (arith, b.copies, b.active, b.requested, b.open_still)
  step-IsBusy i disconnects m h others b =
      ground (arith, b.copies, b.active, b.requested, b.open_still)
  step-IsBusy i interrupts m h others b =
      ground (arith, b.copies, b.active, b.requested, b.open_still)

  run-IsBusy :
      (i : ℕ) (es : List (Event F)) (m : Migrater F)
      → All (λ e. spares i e ≡ true) es
      → IsAlone i m
      → IsBusy i m
      → IsBusy i (run es m)
  unfolding run
  run-IsBusy i [] m h others b = b
  run-IsBusy i (e ∷ es) m h others b =
      run-IsBusy i es (step e m) h.1 (step-IsAlone i e m b.requested others)
        (step-IsBusy i e m h.0 others b)

  exit-IsBusy :
      (i : ℕ) (m : Migrater F) (instruction : InstructionResponse F)
      → instruction.action ≡ exit
      → is_stopped m.beat ≡ false
      → m.transfers i ≡ copying
      → m.transfer_active ≡ true
      → m.shutdown_complete ≡ false
      → IsBusy i (step (instructs instruction) m)
  unfolding step handle_instruction
  exit-IsBusy i m instruction leaves live copies active unfinished = ground arith

  exit-IsAlone :
      (i : ℕ) (m : Migrater F) (instruction : InstructionResponse F)
      → IsAlone i m
      → IsAlone i (step (instructs instruction) m)
  unfolding step handle_instruction
  exit-IsAlone i m instruction others k = ground (arith, others k)

  ends_service :
      (i : ℕ) (m : Migrater F)
      → IsBusy i m
      → (run (returns i ∷ closes i ∷ []) m).shutdown_complete ≡ true
  unfolding run step
  ends_service i m b = ground (arith, b.copies, b.requested)

  -- A shutdown waits for the transfer that copies. An EXIT comes while transfer `i` copies, no
  -- other is live, the heartbeat thread is, and the shutdown is incomplete: whatever happens
  -- then but the return of `i` from the copy, the transfer goes on copying and the shutdown stays
  -- incomplete; and it is complete when `i` returns and closes after that.
  pub exit_waits :
      (i : ℕ) (m : Migrater F) (instruction : InstructionResponse F) (es : List (Event F))
      → instruction.action ≡ exit
      → is_stopped m.beat ≡ false
      → m.transfers i ≡ copying
      → m.transfer_active ≡ true
      → m.shutdown_complete ≡ false
      → IsAlone i m
      → All (λ e. spares i e ≡ true) es
      → let m' = run es (step (instructs instruction) m) in
        (m'.transfers i ≡ copying)
        × (m'.shutdown_complete ≡ false)
        × ((run (returns i ∷ closes i ∷ []) m').shutdown_complete ≡ true)
  exit_waits i m instruction es leaves live copies active unfinished others spared =
      let b =
        run-IsBusy i es (step (instructs instruction) m) spared
          (exit-IsAlone i m instruction others)
          (exit-IsBusy i m instruction leaves live copies active unfinished) in
      (b.copies, b.open_still, ends_service i _ b)
