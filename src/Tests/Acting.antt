-- ===== src/Tests/Acting.antt =====
-- A concrete run of a copy that finishes, its migrater and the orchestrator.
use ca_project.Common.{ℕ, ◌≡◌, ◌<◌, refl, true, false, ok, List, [], ◌∷◌, arith}
use ca_project.Common.Int.{pos}
use ca_project.Float.{of_nat}
use ca_project.Float.Whole.{whole, whole-IsOrdered}
use ca_project.Protocol.{InstructionResponse, HeartbeatRequest, start_flush}
use ca_project.Migrater.Progress.{Progress}
use ca_project.Migrater.TokenBucket.{Settings, Round, Copy, finished, maybe_report, transfer}
use ca_project.Migrater.TokenBucket as Copying
use ca_project.Migrater.TokenBucket.Exact.{IsExact}
use ca_project.Migrater.Service as Migrating
use ca_project.Orchestrator.Policy.{active_fair_share, on_hold}
use ca_project.Orchestrator.Service as Orchestrating
use ca_project.System.{beat_events, copied_is_idle}

abbrev settings : Settings
settings = record { hz = 1; chunk_size = 1; progress_update_interval = 1; reports = true }

abbrev last_round : Round
last_round = record {
  now = 3;
  rate = pos 2;
  report_now = 3;
  report_rate = pos 2;
  wall = 3;
  disk = true;
}

abbrev content : List ℕ
content = 7 ∷ 8 ∷ []

-- both bytes have been written
abbrev copied : Copy
copied = record {
  file_size = 2;
  copy_start = 0;
  bytes_copied = 2;
  last_progress_time = 2;
  last_progress_bytes = 2;
  tokens = 0;
  last = 2;
  src = [];
  dst = content;
  reported = [];
  slept = [];
}

copied-IsExact : IsExact content copied
copied-IsExact = record { total = refl; split = refl; counted = refl }

abbrev done : Copy
done = maybe_report settings true last_round (record copied { last = 3; tokens = 2 })

ends : Copying.step settings last_round copied ≡ finished done
unfolding Copying.step transfer
ends = refl

abbrev permission : InstructionResponse ℕ
permission = record { action = start_flush; rate_limit_bps = 2 }

abbrev copier : Migrating.Migrater ℕ
copier =
    Migrating.run
      (Migrating.notifies (ok 2) (pos 1) (pos 9)
        ∷ Migrating.instructs permission
        ∷ Migrating.wakes 0
        ∷ Migrating.begins 0
        ∷ [])
      (Migrating.new_migrater "node1")

copier-IsReady :
    (copier.transfers 0 ≡ Migrating.copying)
    × (copier.beat ≡ Migrating.idle)
    × (copier.shutdown_complete ≡ false)
    × (0 < copier.progress.maxlen)
unfolding Migrating.run Migrating.step Migrating.notify_checkpoint_saved
    Migrating.handle_instruction
copier-IsReady = (refl, refl, refl, omega arith)

abbrev service : Orchestrating.Service ℕ
service = Orchestrating.new_service (active_fair_share 1000)

copied_is_idle_example :
    (item : Progress) × (hb : HeartbeatRequest ℕ) × (done.reported ≡ item ∷ copied.reported)
    × ((Migrating.run (beat_events 0 item) copier).sent ≡ hb ∷ copier.sent)
    × (hb.checkpoint_size ≡ of_nat 0)
    × ((Orchestrating.run
          (Orchestrating.arrives 0 5 hb ∷ Orchestrating.answers 0 6 ∷ [])
          service).sent
        ≡ (0, on_hold) ∷ service.sent)
copied_is_idle_example =
    let (copies, at, runs, room) = copier-IsReady in
    copied_is_idle whole-IsOrdered settings last_round content copied done 0 0 copier service 5 6
      (omega arith) (omega arith) copied-IsExact ends refl (omega arith) copies at runs room refl
      refl refl
