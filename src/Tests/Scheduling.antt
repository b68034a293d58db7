-- ===== src/Tests/Scheduling.antt =====
-- Concrete runs for src/orchestrator/scheduler.py and for the start of src/orchestrator/server.py.
use text.Mathlib.Text.{◌==◌ as str_eq}
use text.Mathlib.TextEquality.{eq_iff}
use ca_project.Common.{
  ℕ, String, ◌≡◌, refl, true, false, ◌&&◌, none, some, [], ◌∷◌, ◌↔◌, inl, inr, ok, ◌≢◌, ◌+◌, length,
  arith,
}
use ca_project.Common.Int.{pos}
use ca_project.Common.Dict.{get, put}
use ca_project.Float.Rounding.{Within}
use ca_project.Float.Whole.{whole, whole-IsOrdered, whole-Rounds}
use ca_project.Protocol.{InstructionResponse, hold}
use ca_project.Orchestrator.Cluster.{WorkerState, ClusterState, new_cluster, update, state_over}
use ca_project.Orchestrator.Cluster.Registry.{IsRegistry, new_cluster-IsRegistry, update-IsRegistry}
use ca_project.Orchestrator.Cluster.Onset.{updates, removes, run, onset_of, pending_since_onset}
use ca_project.Orchestrator.Policy.{Policy, age_priority, epoch_priority, decide}
use ca_project.Orchestrator.Policy.Decisions.{holds_idle, is_idle, decide_never_raises}
use ca_project.Orchestrator.Policy.Idle.{pending_only, decide-pending_only}
use ca_project.Orchestrator.Policy.Allocation.{total_granted, total_granted-le-bandwidth}
use ca_project.Orchestrator.Policy.Priority.{
  IsServedBefore, age_priority_order, epoch_priority_order,
}
use ca_project.Orchestrator.PriorityMap.{
  Json, number, object, no_fields, field, load_workers, get_field, load_priority_map,
}
use ca_project.Orchestrator.Start.{age_priority_policy, Args}

-- two workers with pending data; `second` has waited longer, has more, and is further
abbrev first : WorkerState ℕ
first = state_over none 5 "node1" 100 false (pos 2) (pos 10)

abbrev second : WorkerState ℕ
second = state_over none 1 "node2" 300 true (pos 4) (pos 10)

abbrev pub cluster : ClusterState ℕ
cluster =
    update 5 "node1" 100 false (pos 2) (pos 10)
      (update 1 "node2" 300 true (pos 4) (pos 10) new_cluster)

pub cluster-IsRegistry : IsRegistry cluster
cluster-IsRegistry =
    update-IsRegistry 5 "node1" 100 false (pos 2) (pos 10) _
      (update-IsRegistry 1 "node2" 300 true (pos 4) (pos 10) new_cluster new_cluster-IsRegistry)

finds_first : get "node1" cluster.workers ≡ some first
unfolding update get put
finds_first = refl

finds_second : get "node2" cluster.workers ≡ some second
unfolding update get put
finds_second = refl

abbrev by_age : Policy ℕ
by_age = age_priority 1000 1 1

abbrev by_epoch : Policy ℕ
by_epoch = epoch_priority 1000 1

apart : ◌≢◌ {A = String} "node2" "node1"
apart e = let same : str_eq "node2" "node1" ≡ true = (eq_iff "node2" "node1").1 e in cc

starts_idle : onset_of {F = ℕ} "node1" new_cluster ≡ none
unfolding get
starts_idle = refl

pending_since_onset_example :
    onset_of {F = ℕ} "node1" (
      run
        (updates 5 "node1" 100 false (pos 2) (pos 10)
          ∷ updates 6 "node2" 0 false (pos 2) (pos 10)
          ∷ updates 8 "node1" 50 true (pos 2) (pos 10)
          ∷ removes "node2"
          ∷ [])
        new_cluster)
    ≡ some 5
pending_since_onset_example =
    pending_since_onset "node1" 5 100 false (pos 2) (pos 10)
      (updates 6 "node2" 0 false (pos 2) (pos 10)
        ∷ updates 8 "node1" 50 true (pos 2) (pos 10)
        ∷ removes "node2"
        ∷ [])
      new_cluster starts_idle refl (inl apart, (inr refl, (apart, tt)))

decide_never_raises_example :
    (i : InstructionResponse ℕ) × (decide by_age 9 "node1" cluster.workers ≡ ok i)
    × ((i.action ≡ hold) ↔ ((holds_idle by_age && is_idle (get "node1" cluster.workers)) ≡ true))
decide_never_raises_example =
    decide_never_raises whole-IsOrdered 9 "node1" cluster.workers by_age (refl, refl, refl)
      (cluster-IsRegistry.named "node1")

total_granted-le-bandwidth_example :
    Within
      (length cluster.workers + 2)
      (total_granted whole-Rounds by_age 9 cluster.workers)
      (whole-Rounds.units 1000)
total_granted-le-bandwidth_example =
    total_granted-le-bandwidth whole-IsOrdered whole-Rounds by_age 9 1000 cluster.workers
      (refl, refl, refl) refl refl cluster-IsRegistry.distinct cluster-IsRegistry.named

age_priority_order_example :
    IsServedBefore whole-IsOrdered 9 cluster.workers "node1" "node2" first second finds_first
      finds_second refl refl refl refl by_age
age_priority_order_example =
    age_priority_order whole-IsOrdered 9 cluster.workers "node1" "node2" first second finds_first
      finds_second refl refl refl refl 1000 1 1 5 1 (refl, refl, refl) refl refl refl refl refl

epoch_priority_order_example :
    IsServedBefore whole-IsOrdered 9 cluster.workers "node1" "node2" first second finds_first
      finds_second refl refl refl refl by_epoch
epoch_priority_order_example =
    epoch_priority_order whole-IsOrdered 9 cluster.workers "node1" "node2" first second finds_first
      finds_second refl refl refl refl 1000 1 2 4 9 (refl, refl) refl refl refl refl refl
      (omega arith)

-- {"default": 2, "workers": {"node1": 3}}
abbrev priority_map : Json ℕ
priority_map = object (
    field "default" (number 2)
      (field "workers" (object (field "node1" (number 3) no_fields)) no_fields))

loads : load_priority_map (ok priority_map) ≡ ok (("node1", 3) ∷ [], 2)
unfolding load_priority_map load_workers get_field put
loads = refl

abbrev arguments : Args ℕ
arguments = record {
  policy = age_priority_policy;
  pfs_bw = 1000;
  priority_map = none;
  alpha = 1;
  beta = 1;
  epoch_floor = 0;
}

decide-pending_only_example :
    decide by_age 9 "node1" (pending_only cluster.workers) ≡ decide by_age 9 "node1" cluster.workers
decide-pending_only_example =
    decide-pending_only whole-IsOrdered by_age 9 "node1" cluster.workers refl
      cluster-IsRegistry.distinct
