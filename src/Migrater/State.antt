-- ===== src/Migrater/State.antt =====
-- The state of `MigraterService` of src/migrater/server.py with its threads, and the events that
-- change it.
use ca_project.Common.{ℕ, String, Bool, false, List, [], ◌==◌, if◌then◌else◌, Result}
use ca_project.Common.Int.{ℤ, pos}
use ca_project.Protocol.{InstructionResponse, HeartbeatRequest}
use ca_project.Migrater.Progress.{Progress, ProgressBuffer, new_buffer}

-- where a transfer thread stands: before `wait`, after it, in `token_bucket_copy`, after the locked
-- part of the `finally`, over
pub data Phase : Type 0 where
  absent waiting released copying closing over : Phase

-- where the heartbeat thread stands: at the head of the loop of `stream`, after `pop`, after the
-- reading of pending size and activity, with a `stream` that has raised, over
pub data Beat : Type 0 where
  idle : Beat
  popped : List Progress → Beat
  sampled : List Progress → ℕ → Bool → Beat
  broken : Beat
  stopped : Beat

pub record Migrater (F : Type 0) : Type 0 where
  pub hostname : String
  pub pending_size : ℕ
  pub checkpoint_size : ℕ
  pub transfer_active : Bool
  pub current_rate : ℤ
  pub transfer_allowed : Bool
  pub progress : ProgressBuffer Progress
  pub epoch : ℤ
  pub total_epochs : ℤ
  pub shutdown_requested : Bool
  pub shutdown_complete : Bool
  -- the transfer threads by number, and how many have been started
  pub transfers : ℕ → Phase
  pub started : ℕ
  pub beat : Beat
  -- what has been sent to the orchestrator and replied to the trainer, the newest first
  pub sent : List (HeartbeatRequest F)
  pub replies : List Bool

-- What happens next. A transfer is named by its number; `size` is what `os.path.getsize` gives.
pub data Event (F : Type 0) : Type 0 where
  notifies : (size : Result ℕ) (epoch total_epochs : ℤ) → Event F
  instructs : InstructionResponse F → Event F
  wakes : ℕ → Event F
  begins : ℕ → Event F
  reports : ℕ → Progress → Event F
  returns : ℕ → Event F
  closes : ℕ → Event F
  pops : Event F
  samples : Event F
  beats : Event F
  disconnects : Event F
  interrupts : Event F

abbrev pub set_phase : ℕ → Phase → (ℕ → Phase) → ℕ → Phase
set_phase i ph transfers j = if i == j then ph else transfers j

module _ {F : Type 0} where
  abbrev pub new_migrater : String → Migrater F
  new_migrater hostname = record {
    hostname = hostname;
    pending_size = 0;
    checkpoint_size = 0;
    transfer_active = false;
    current_rate = pos 0;
    transfer_allowed = false;
    progress = new_buffer 128;
    epoch = pos 0;
    total_epochs = pos 0;
    shutdown_requested = false;
    shutdown_complete = false;
    transfers = λ i. absent;
    started = 0;
    beat = idle;
    sent = [];
    replies = [];
  }
