-- ===== src/Orchestrator/Cluster.antt =====
-- `WorkerState` and `ClusterState` of src/orchestrator/scheduler.py. Each method holds the lock from
-- its first access of the registry to its last, so it is one step; `now` is what `time.time()` gave.
pub mod Registry
pub mod Onset
use ca_project.Common.{
  ℕ, String, Bool, true, Option, none, some, if◌then◌else◌, length, List, [], ◌∷◌,
}
use ca_project.Common.Int.{ℤ}
use ca_project.Common.Dict.{Dict, get, put, pop}
use ca_project.Float.{Float, nought}

pub record WorkerState (F : Type 0) : Type 0 where
  pub worker_id : String
  pub checkpoint_size : F
  pub is_migrating : Bool
  pub last_seen : F
  pub pending_since : Option F
  pub epoch : ℤ
  pub total_epochs : ℤ

pub record ClusterState (F : Type 0) : Type 0 where
  pub workers : Dict (WorkerState F)

module _ {F : Type 0} where
  -- `ClusterState()`
  abbrev pub new_cluster : ClusterState F
  new_cluster = record { workers = [] }

  -- `prev.pending_since if prev is not None and prev.pending_since is not None else now`
  abbrev pub pending_or : F → Option (WorkerState F) → F
  pending_or now none = now
  pending_or now (some prev) = elim prev.pending_since [ none ↦ now | some t ↦ t ]

  unfoldable pub remove : String → ClusterState F → ClusterState F
  remove worker_id c = record c { workers = pop worker_id c.workers }

  -- A copy, which later updates do not change.
  abbrev pub snapshot : ClusterState F → Dict (WorkerState F)
  snapshot c = c.workers

  abbrev pub worker_count : ClusterState F → ℕ
  worker_count c = length c.workers

  module _ ⦃o : Float F⦄ where
    -- the `WorkerState` that `update` stores over `prev`
    abbrev pub state_over : Option (WorkerState F) → F → String → F → Bool → ℤ → ℤ → WorkerState F
    state_over prev now worker_id checkpoint_size is_migrating epoch total_epochs = record {
      worker_id = worker_id;
      checkpoint_size = checkpoint_size;
      is_migrating = is_migrating;
      last_seen = now;
      pending_since = if o.lt nought checkpoint_size then some (pending_or now prev) else none;
      epoch = epoch;
      total_epochs = total_epochs;
    }

    unfoldable pub update : F → String → F → Bool → ℤ → ℤ → ClusterState F → ClusterState F
    update now worker_id checkpoint_size is_migrating epoch total_epochs c =
        let prev = get worker_id c.workers in
        record c {
          workers =
              put worker_id
                (state_over prev now worker_id checkpoint_size is_migrating epoch total_epochs)
                c.workers;
        }
