-- ===== src/Protocol.antt =====
-- The messages of src/protocol/cluster.proto. An int64 is an integer and a uint64 a number, without
-- their bounds; a double is a `Float`.
use ca_project.Common.{ℕ, String, Bool, List}
use ca_project.Common.Int.{ℤ}

pub data Action : Type 0 where
  hold start_flush change_rate exit : Action

pub record InstructionResponse (F : Type 0) : Type 0 where
  pub action : Action
  pub rate_limit_bps : F

pub record TransferProgress (F : Type 0) : Type 0 where
  pub timestamp : F
  pub bytes_copied : ℕ
  pub total_bytes : ℕ
  pub remaining_bytes : ℕ
  pub interval_seconds : F
  pub interval_throughput_bps : F
  pub average_throughput_bps : F
  pub configured_rate_bps : F
  pub chunk_size_bytes : ℕ

pub record HeartbeatRequest (F : Type 0) : Type 0 where
  pub worker_id : String
  pub checkpoint_size : F
  pub is_migrating : Bool
  pub progress : List (TransferProgress F)
  pub epoch : ℤ
  pub total_epochs : ℤ

pub record CheckpointSavedRequest (F : Type 0) : Type 0 where
  pub checkpoint_local_path : String
  pub checkpoint_pfs_path : String
  pub timestamp : F
  pub epoch : ℤ
  pub total_epochs : ℤ
