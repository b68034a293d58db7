-- ===== src/Tests/Migrating.antt =====
-- Concrete runs for src/migrater/server.py.
use text.Mathlib.Text.{◌==◌ as str_eq}
use text.Mathlib.TextEquality.{eq_iff}
use ca_project.Common.{
  ◌⊎◌, arith, ℕ, ◌≡◌, refl, true, false, List, [], ◌∷◌, map, ok, ◌≢◌, String, none, some,
}
use ca_project.Common.Int.{pos}
use ca_project.Float.{of_nat}
use ca_project.Float.Whole.{whole}
use ca_project.Protocol.{HeartbeatRequest, InstructionResponse, hold, start_flush, exit}
use ca_project.Migrater.Progress.{Ratio, Progress}
use ca_project.Migrater.Service.{
  waiting, copying, sampled, Migrater, Event, notifies, instructs, wakes, begins, returns, closes,
  pops, samples, beats, disconnects, new_migrater, notify_checkpoint_saved, handle_instruction,
  step, run,
}
use ca_project.Migrater.HeartbeatStream.{AreNamed, heartbeat_stream, heartbeat_stream-AreNamed}
use ca_project.Migrater.Service.Permission.{IsHeldBack, run-IsHeldBack}
use ca_project.Migrater.Service.Shutdown.{IsClosing, shutdown_order, exit_abandons}
use ca_project.Migrater.Service.Overlap.{transfers_overlap, stale_report}

abbrev idle_migrater : Migrater ℕ
idle_migrater = new_migrater "node1"

abbrev told_to_hold : InstructionResponse ℕ
told_to_hold = record { action = hold; rate_limit_bps = 0 }

abbrev told_to_flush : InstructionResponse ℕ
told_to_flush = record { action = start_flush; rate_limit_bps = 100 }

abbrev told_to_exit : InstructionResponse ℕ
told_to_exit = record { action = exit; rate_limit_bps = 100 }

abbrev saved : Event ℕ
saved = notifies (ok 5) (pos 1) (pos 9)

-- a migrater with a checkpoint that waits
abbrev waiter : Migrater ℕ
waiter = run (saved ∷ []) idle_migrater

waiter-IsHeldBack : IsHeldBack 0 waiter
unfolding run step notify_checkpoint_saved
waiter-IsHeldBack = (refl, refl)

abbrev unpermitted : List (Event ℕ)
unpermitted = wakes 0 ∷ instructs told_to_hold ∷ wakes 0 ∷ begins 0 ∷ pops ∷ samples ∷ beats ∷ []

run-IsHeldBack_example : IsHeldBack 0 (run unpermitted waiter)
run-IsHeldBack_example =
    run-IsHeldBack 0 unpermitted waiter (refl, (refl, (refl, (refl, (refl, (refl, (refl, tt)))))))
      waiter-IsHeldBack

shutdown_order_example :
    let m = run (saved ∷ instructs told_to_exit ∷ []) idle_migrater in
    ((m.shutdown_requested ≡ false) × (m.shutdown_complete ≡ false))
    ⊎ IsClosing m.started (run (saved ∷ wakes 0 ∷ disconnects ∷ []) m)
shutdown_order_example =
    shutdown_order "node1" (saved ∷ instructs told_to_exit ∷ [])
      (saved ∷ wakes 0 ∷ disconnects ∷ [])

exit_abandons_example :
    let m' = run (saved ∷ instructs told_to_exit ∷ []) idle_migrater in
    (m'.replies ≡ true ∷ []) × (m'.transfers 0 ≡ waiting) × (m'.shutdown_complete ≡ true)
exit_abandons_example =
    exit_abandons idle_migrater 5 (pos 1) (pos 9) told_to_exit refl refl refl refl

transfers_overlap_example :
    let m' =
      run
        (saved ∷ saved ∷ instructs told_to_flush ∷ wakes 0 ∷ begins 0 ∷ wakes 1 ∷ begins 1 ∷ [])
        idle_migrater in
    (m'.transfers 0 ≡ copying) × (m'.transfers 1 ≡ copying)
transfers_overlap_example =
    transfers_overlap idle_migrater 5 5 (pos 1) (pos 1) (pos 9) (pos 9) told_to_flush refl refl refl
      refl

abbrev second : Ratio
second = record { over = 1; under = 1 }

-- the last report of a transfer of five bytes
abbrev last_report : Progress
last_report = record {
  timestamp = second;
  bytes_copied = 5;
  total_bytes = 5;
  remaining_bytes = 0;
  interval_seconds = second;
  interval_throughput_bps = second;
  average_throughput_bps = second;
  configured_rate_bps = pos 5;
  chunk_size_bytes = 1;
}

abbrev sampler : Migrater ℕ
sampler = record idle_migrater { beat = sampled (last_report ∷ []) 0 false }

stale_report_example :
    let m' = run (saved ∷ beats ∷ []) sampler in
    (m'.pending_size ≡ 0)
    × (m'.transfers 0 ≡ waiting)
    × (map (λ request. request.checkpoint_size) m'.sent
        ≡ of_nat 0 ∷ map (λ request. request.checkpoint_size) sampler.sent)
stale_report_example =
    stale_report sampler (last_report ∷ []) last_report 0 5 false (pos 1) (pos 9) refl refl refl
      refl refl (omega arith)

-- two checkpoints, one after the other
abbrev in_turn : List (Event ℕ)
in_turn =
    saved
    ∷ instructs told_to_flush
    ∷ wakes 0
    ∷ begins 0
    ∷ returns 0
    ∷ closes 0
    ∷ saved
    ∷ instructs told_to_flush
    ∷ wakes 1
    ∷ begins 1
    ∷ []

second_copies : (run in_turn idle_migrater).transfers 1 ≡ copying
unfolding run step notify_checkpoint_saved handle_instruction
second_copies = refl

abbrev unnamed : HeartbeatRequest ℕ
unnamed = record {
  worker_id = "";
  checkpoint_size = 5;
  is_migrating = false;
  progress = [];
  epoch = pos 1;
  total_epochs = pos 9;
}

client_named : ◌≢◌ {A = String} "node1" ""
client_named e = let same : str_eq "node1" "" ≡ true = (eq_iff "node1" "").1 e in cc

heartbeat_stream-AreNamed_example :
    AreNamed "node1"
      (some unnamed ∷ none ∷ some unnamed ∷ [])
      (heartbeat_stream "node1" (some unnamed ∷ none ∷ some unnamed ∷ []))
heartbeat_stream-AreNamed_example =
    heartbeat_stream-AreNamed "node1" (some unnamed ∷ none ∷ some unnamed ∷ []) client_named
