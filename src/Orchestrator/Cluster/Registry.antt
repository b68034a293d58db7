-- ===== src/Orchestrator/Cluster/Registry.antt =====
-- What always holds of the registry of workers.
use text.Mathlib.TextEquality.{eq_iff}
use ca_project.Common.{String, ◌≡◌, Bool, true, false, Option, none, some, arith}
use ca_project.Common.Int.{ℤ}
use ca_project.Common.Dict.{get, get-put, get-pop, IsDistinct, put-IsDistinct, pop-IsDistinct}
use ca_project.Float.{Float, nought}
use ca_project.Orchestrator.Cluster.{
  WorkerState, ClusterState, new_cluster, remove, state_over, update,
}

abbrev is_some {ℓ} : {A : Type ℓ} → Option A → Bool
is_some none = false
is_some (some a) = true

module _ {F : Type 0} ⦃o : Float F⦄ where
  -- One entry for a worker, under its own id, with a time of onset exactly while data is pending.
  pub record IsRegistry (c : ClusterState F) : Type 0 where
    pub distinct : IsDistinct c.workers
    pub named : (k : String) (w : WorkerState F) → get k c.workers ≡ some w → w.worker_id ≡ k
    pub onset :
        (k : String) (w : WorkerState F)
        → get k c.workers ≡ some w
        → is_some w.pending_since ≡ o.lt nought w.checkpoint_size

  pub new_cluster-IsRegistry : IsRegistry new_cluster
  unfolding get
  new_cluster-IsRegistry = record { distinct = tt; named = λ k w e. cc; onset = λ k w e. cc }

  pub remove-IsRegistry :
      (id : String) (c : ClusterState F) → IsRegistry c → IsRegistry (remove id c)
  unfolding remove
  remove-IsRegistry id c r = record {
    distinct = pop-IsDistinct id c.workers r.distinct;
    named = λ k w e. ground (arith, get-pop id k c.workers, r.named k w);
    onset = λ k w e. ground (arith, get-pop id k c.workers, r.onset k w);
  }

  pub update-IsRegistry :
      (now : F) (id : String) (size : F) (migrating : Bool) (epoch total : ℤ) (c : ClusterState F)
      → IsRegistry c
      → IsRegistry (update now id size migrating epoch total c)
  unfolding update
  update-IsRegistry now id size migrating epoch total c r = record {
    distinct = put-IsDistinct id new c.workers r.distinct;
    named = λ k w e. ground (arith, get-put id k new c.workers, eq_iff id k, r.named k w);
    onset = λ k w e. ground (arith, get-put id k new c.workers, r.onset k w);
  }
    where
      new : WorkerState F
      new = state_over (get id c.workers) now id size migrating epoch total
