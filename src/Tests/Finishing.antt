-- ===== src/Tests/Finishing.antt =====
-- Concrete runs for the ends of transfers and of the service in src/migrater/server.py.
use ca_project.Common.{arith, ℕ, zero, suc, ◌≡◌, refl, true, false, List, [], ◌∷◌, inl, inr, ok}
use ca_project.Common.Int.{pos}
use ca_project.Float.Whole.{whole}
use ca_project.Protocol.{InstructionResponse, start_flush, exit}
use ca_project.Migrater.Service.{
  pops, samples, beats, waiting, over, copying, Migrater, Event, notifies, instructs, wakes, begins,
  returns, closes, disconnects, interrupts, new_migrater, notify_checkpoint_saved,
  handle_instruction, step, run,
}
use ca_project.Migrater.Service.Completion.{OccurIn, nothing, skips, takes}
use ca_project.Migrater.TokenBucket.{
  Copy, finished, token_bucket_copy, copy_loop, step as bucket_step, transfer, prepare,
  maybe_report,
}
use ca_project.System.Completion.{turns_of, transfer_completes}
use ca_project.Tests.Copying.{settings, files, rounds, timely}
use ca_project.Migrater.Service.Waiting.{is_stopped, IsAlone, exit_waits}

abbrev flush : InstructionResponse ℕ
flush = record { action = start_flush; rate_limit_bps = 100 }

abbrev leave : InstructionResponse ℕ
leave = record { action = exit; rate_limit_bps = 100 }

-- a checkpoint is accepted and permitted
abbrev permitted : Migrater ℕ
permitted = run (notifies (ok 5) (pos 1) (pos 9) ∷ instructs flush ∷ []) (new_migrater "node1")

-- its transfer copies
abbrev copier : Migrater ℕ
copier = run (wakes 0 ∷ begins 0 ∷ []) permitted

abbrev turns : List (Event ℕ)
turns = pops ∷ wakes 0 ∷ samples ∷ begins 0 ∷ beats ∷ returns 0 ∷ interrupts ∷ closes 0 ∷ []

permitted-waits : permitted.transfers 0 ≡ waiting
unfolding run step notify_checkpoint_saved handle_instruction
permitted-waits = refl

permitted-may : permitted.transfer_allowed ≡ true
unfolding run step notify_checkpoint_saved handle_instruction
permitted-may = refl

turns-occur : OccurIn (turns_of 0 (token_bucket_copy settings files (pos 2) 0 0 rounds)) turns
unfolding token_bucket_copy copy_loop bucket_step transfer prepare maybe_report
turns-occur = skips (takes (skips (takes (skips (takes (skips (takes nothing)))))))

transfer_completes_example :
    (d : Copy) × (token_bucket_copy settings files (pos 2) 0 0 rounds ≡ finished d)
    × (d.dst ≡ files.content)
    × ((run turns permitted).transfers 0 ≡ over)
transfer_completes_example =
    transfer_completes settings files (pos 2) 0 0 rounds 0 turns permitted (refl, refl, refl) refl
      (omega arith) timely (omega arith) permitted-waits permitted-may
      (refl, (refl, (refl, (refl, (refl, (refl, (refl, (refl, tt)))))))) turns-occur

copier-IsReady :
    (copier.transfers 0 ≡ copying)
    × (copier.transfer_active ≡ true)
    × (copier.shutdown_complete ≡ false)
unfolding run step notify_checkpoint_saved handle_instruction
copier-IsReady = (refl, refl, refl)

copier-IsLive : is_stopped copier.beat ≡ false
unfolding run step notify_checkpoint_saved handle_instruction
copier-IsLive = refl

copier-IsAlone : IsAlone 0 copier
unfolding run step notify_checkpoint_saved handle_instruction
copier-IsAlone zero = inl refl
copier-IsAlone (suc j) = inr (ground arith)

abbrev busy_events : List (Event ℕ)
busy_events = notifies (ok 7) (pos 2) (pos 9) ∷ disconnects ∷ interrupts ∷ []

exit_waits_example :
    let m' = run busy_events (step (instructs leave) copier) in
    (m'.transfers 0 ≡ copying)
    × (m'.shutdown_complete ≡ false)
    × ((run (returns 0 ∷ closes 0 ∷ []) m').shutdown_complete ≡ true)
exit_waits_example =
    let (copies, active, unfinished) = copier-IsReady in
    exit_waits 0 copier leave busy_events refl copier-IsLive copies active unfinished copier-IsAlone
      (refl, (refl, (refl, tt)))
