-- ===== src/Tests/Serving.antt =====
-- Concrete runs for `OrchestratorService` of src/orchestrator/server.py.
use ca_project.Common.{ℕ, ◌≡◌, refl, true, false, ◌&&◌, none, List, [], ◌∷◌, ◌⊎◌, inl, ◌↔◌}
use ca_project.Common.Int.{pos}
use ca_project.Common.Dict.{get}
use ca_project.Float.Whole.{whole, whole-IsOrdered}
use ca_project.Protocol.{InstructionResponse, HeartbeatRequest, hold}
use ca_project.Orchestrator.Policy.{Policy, active_fair_share}
use ca_project.Orchestrator.Policy.Decisions.{holds_idle, is_idle}
use ca_project.Orchestrator.Service.{
  Event, Service, arrives, answers, ends, shutdown, new_service, exit_instruction, closed,
  answering, forget, step, run,
}
use ca_project.Orchestrator.Service.Answers.{IsSound, answered, service-IsSound, answers_lem}
use ca_project.Orchestrator.Service.Streams.{IsHeld, service-IsHeld}

abbrev heartbeat : HeartbeatRequest ℕ
heartbeat = record {
  worker_id = "node1";
  checkpoint_size = 100;
  is_migrating = false;
  progress = [];
  epoch = pos 1;
  total_epochs = pos 5;
}

abbrev other : HeartbeatRequest ℕ
other = record heartbeat { worker_id = "node2" }

abbrev fair : Policy ℕ
fair = active_fair_share 1000

-- two streams interleave, one ends, and a shutdown is requested
abbrev events : List (Event ℕ)
events =
    arrives 0 1 heartbeat ∷ arrives 1 2 other ∷ answers 1 3 ∷ ends 1 ∷ answers 0 4 ∷ shutdown ∷ []

service-IsSound_example : IsSound (run events (new_service fair))
service-IsSound_example = service-IsSound whole-IsOrdered fair events tt

abbrev busy : Service ℕ
busy = run (arrives 0 1 heartbeat ∷ []) (new_service fair)

busy-IsSound : IsSound busy
busy-IsSound = service-IsSound whole-IsOrdered fair (arrives 0 1 heartbeat ∷ []) tt

busy_phase : (busy.streams 0).phase ≡ answering heartbeat
unfolding run step
busy_phase = refl

answers_lem_example :
    ((busy.shutting_down ≡ true)
      × ((step (answers 0 2) busy).sent ≡ (0, exit_instruction) ∷ busy.sent)
      × (((step (answers 0 2) busy).streams 0).phase ≡ closed none)
      × ((step (answers 0 2) busy).cluster ≡ forget (busy.streams 0).worker_id busy.cluster))
    ⊎ ((instruction : InstructionResponse ℕ) × (busy.shutting_down ≡ false)
        × ((instruction.action ≡ hold)
            ↔ ((holds_idle busy.policy && is_idle (get "node1" busy.cluster.workers)) ≡ true))
        × (step (answers 0 2) busy ≡ answered whole-IsOrdered 0 heartbeat instruction busy))
answers_lem_example = answers_lem whole-IsOrdered 0 2 heartbeat busy busy-IsSound busy_phase

service-IsHeld_example : IsHeld (run events (new_service fair))
unfolding step
service-IsHeld_example =
    service-IsHeld fair events (inl refl, (inl refl, (tt, (tt, (tt, (tt, tt))))))
