-- ===== src/Orchestrator/Service.antt =====
-- `OrchestratorService` of src/orchestrator/server.py. Many `Monitor` streams run at once, each a
-- generator over the heartbeats of one connection. A heartbeat is handled in two steps, between
-- which other streams may run: the update of the registry, and the answer from a snapshot of it.
pub mod Answers
pub mod Streams
use text.Mathlib.Text.{◌==◌ as str_eq}
use ca_project.Common.{
  ℕ, zero, suc, String, Bool, true, false, not, Option, none, some, List, [], ◌∷◌, length,
  get_last?, if◌then◌else◌, Result, ok, raise, Exception, ◌==◌,
}
use ca_project.Float.{Float, of_nat}
use ca_project.Protocol.{Action, exit, InstructionResponse, HeartbeatRequest, TransferProgress}
use ca_project.Orchestrator.Cluster.{ClusterState, new_cluster, snapshot, remove, update}
use ca_project.Orchestrator.Policy.{Policy, decide}

-- what `metrics.info` is given
pub record LogEntry (F : Type 0) : Type 0 where
  pub worker_id : String
  pub checkpoint_size : F
  pub is_migrating : Bool
  pub action : Action
  pub latest_progress : Option (TransferProgress F)
  pub nr_progress_messages : ℕ

-- where the generator of a stream stands
pub data Phase (F : Type 0) : Type 0 where
  receiving : Phase F
  answering : HeartbeatRequest F → Phase F
  closed : Option Exception → Phase F

pub record Stream (F : Type 0) : Type 0 where
  pub worker_id : Option String
  pub phase : Phase F

-- The service, its streams by number, and what it has sent and logged, the newest first.
pub record Service (F : Type 0) : Type 0 where
  pub policy : Policy F
  pub cluster : ClusterState F
  pub shutting_down : Bool
  pub streams : ℕ → Stream F
  pub sent : List (ℕ × InstructionResponse F)
  pub log : List (LogEntry F)

-- What may happen next. A time is what `time.time()` gives there.
pub data Event (F : Type 0) : Type 0 where
  -- a heartbeat comes in on a stream
  arrives : (i : ℕ) (now : F) → HeartbeatRequest F → Event F
  -- the stream answers it
  answers : (i : ℕ) (now : F) → Event F
  -- the connection ends, by the migrater or as a cancelled one; an exception that this raises in the
  -- stream closes it all the same
  ends : (i : ℕ) → Event F
  -- `request_shutdown()`
  shutdown : Event F

module _ {F : Type 0} where
  abbrev pub set_stream : ℕ → Stream F → (ℕ → Stream F) → ℕ → Stream F
  set_stream i s streams j = if i == j then s else streams j

  abbrev pub new_service : Policy F → Service F
  new_service policy = record {
    policy = policy;
    cluster = new_cluster;
    shutting_down = false;
    streams = λ i. record { worker_id = none; phase = receiving };
    sent = [];
    log = [];
  }

  -- the `finally` of `Monitor`: `if worker_id: self.cluster.remove(worker_id)`
  abbrev pub forget : Option String → ClusterState F → ClusterState F
  forget none c = c
  forget (some id) c = if str_eq id "" then c else remove id c

  abbrev pub close : ℕ → Option Exception → Service F → Service F
  close i e s = record s {
    cluster = forget (s.streams i).worker_id s.cluster;
    streams =
        set_stream i (record { worker_id = (s.streams i).worker_id; phase = closed e }) s.streams;
  }

  module _ ⦃o : Float F⦄ where
    abbrev pub exit_instruction : InstructionResponse F
    exit_instruction = record { action = exit; rate_limit_bps = of_nat 500_000_000 }

    abbrev pub exit_log : HeartbeatRequest F → LogEntry F
    exit_log hb = record {
      worker_id = hb.worker_id;
      checkpoint_size = hb.checkpoint_size;
      is_migrating = hb.is_migrating;
      action = exit;
      latest_progress = none;
      nr_progress_messages = 0;
    }

    abbrev pub entry_for : HeartbeatRequest F → Action → LogEntry F
    entry_for hb action = record {
      worker_id = hb.worker_id;
      checkpoint_size = hb.checkpoint_size;
      is_migrating = hb.is_migrating;
      action = action;
      latest_progress = get_last? hb.progress;
      nr_progress_messages = length hb.progress;
    }

    -- `worker_id = heartbeat.worker_id` and `self.cluster.update(…)`
    receive : ℕ → F → HeartbeatRequest F → Service F → Service F
    receive i now hb s = record s {
      cluster =
          update now hb.worker_id hb.checkpoint_size hb.is_migrating hb.epoch hb.total_epochs
            s.cluster;
      streams =
          set_stream i (record { worker_id = some hb.worker_id; phase = answering hb }) s.streams;
    }

    -- the rest of the loop's body, up to the `yield`
    answer : ℕ → F → HeartbeatRequest F → Service F → Service F
    answer i now hb s =
        if s.shutting_down
        then close i none
            (record s { sent = (i, exit_instruction) ∷ s.sent; log = exit_log hb ∷ s.log })
        else (elim (decide s.policy now hb.worker_id (snapshot s.cluster)) [
          | raise e ↦ close i (some e) s
          | ok instruction ↦ record s {
            streams =
                set_stream i (record { worker_id = (s.streams i).worker_id; phase = receiving })
                  s.streams;
            sent = (i, instruction) ∷ s.sent;
            log = entry_for hb instruction.action ∷ s.log;
          }
        ])

    -- One event. One that cannot happen where the stream stands changes nothing.
    unfoldable pub step : Event F → Service F → Service F
    unfolding receive answer
    step (arrives i now hb) s = elim (s.streams i).phase [
      | receiving ↦ receive i now hb s
      | answering _ ↦ s
      | closed _ ↦ s
    ]
    step (answers i now) s = elim (s.streams i).phase [
      | receiving ↦ s
      | answering hb ↦ answer i now hb s
      | closed _ ↦ s
    ]
    step (ends i) s = elim (s.streams i).phase [
      | receiving ↦ close i none s
      | answering _ ↦ s
      | closed _ ↦ s
    ]
    step shutdown s = record s { shutting_down = true }

    unfoldable pub run : List (Event F) → Service F → Service F
    run [] s = s
    run (e ∷ es) s = run es (step e s)
