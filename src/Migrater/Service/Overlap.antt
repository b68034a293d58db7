-- ===== src/Migrater/Service/Overlap.antt =====
-- Two threads at a time in src/migrater/server.py: what a second checkpoint can do to the transfer
-- and to the heartbeat of the first.
use ca_project.Common.{
  ◌<◌, map, ℕ, suc, ◌≡◌, Bool, false, some, List, [], ◌∷◌, get_last?, ok, arith,
}
use ca_project.Common.Int.{ℤ}
use ca_project.Float.{Float, of_nat}
use ca_project.Protocol.{start_flush, InstructionResponse}
use ca_project.Migrater.Progress.{Progress}
use ca_project.Migrater.Service.{
  waiting, copying, idle, sampled, Migrater, notifies, instructs, wakes, begins, beats,
  notify_checkpoint_saved, handle_instruction, send_heartbeat, step, run,
}

module _ {F : Type 0} ⦃o : Float F⦄ where
  -- Two checkpoints accepted before the orchestrator permits a transfer are copied at the same time
  -- once START_FLUSH comes: `transfer_active` is tested, but it is set only after `wait`. The
  -- migrater has to be without an active transfer, without a requested shutdown, and its heartbeat
  -- thread has to be at the head of its loop.
  pub transfers_overlap :
      (m : Migrater F) (size size' : ℕ) (epoch epoch' total total' : ℤ)
      (instruction : InstructionResponse F)
      → m.transfer_active ≡ false
      → m.shutdown_requested ≡ false
      → m.beat ≡ idle
      → instruction.action ≡ start_flush
      → let i = m.started in
        let m' =
          run
            (notifies (ok size) epoch total
              ∷ notifies (ok size') epoch' total'
              ∷ instructs instruction
              ∷ wakes i
              ∷ begins i
              ∷ wakes (suc i)
              ∷ begins (suc i)
              ∷ [])
            m in
        (m'.transfers i ≡ copying) × (m'.transfers (suc i) ≡ copying)
  unfolding run step notify_checkpoint_saved handle_instruction
  transfers_overlap m size size' epoch epoch' total total' instruction inactive unasked at starts =
      ground arith

  -- A heartbeat that has taken the last report of a finished transfer, `remaining_bytes` 0, before a
  -- new checkpoint is accepted overwrites the new pending size by 0: it tells the orchestrator of 0
  -- bytes while the new transfer waits. The finished file was not empty, no transfer is active and no shutdown requested.
  pub stale_report :
      (m : Migrater F) (items : List Progress) (item : Progress) (pending size : ℕ)
      (migrating : Bool) (epoch total_epochs : ℤ)
      → m.transfer_active ≡ false
      → m.shutdown_requested ≡ false
      → m.beat ≡ sampled items pending migrating
      → get_last? items ≡ some item
      → item.remaining_bytes ≡ 0
      → 0 < item.total_bytes
      → let m' = run (notifies (ok size) epoch total_epochs ∷ beats ∷ []) m in
        (m'.pending_size ≡ 0)
        × (m'.transfers m.started ≡ waiting)
        × (map (λ request. request.checkpoint_size) m'.sent
            ≡ of_nat 0 ∷ map (λ request. request.checkpoint_size) m.sent)
  unfolding run step notify_checkpoint_saved send_heartbeat
  stale_report m items item pending size migrating epoch total_epochs inactive unasked at last done
        full =
      ground arith
