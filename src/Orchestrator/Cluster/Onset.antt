-- ===== src/Orchestrator/Cluster/Onset.antt =====
-- `pending_since` against the history of a worker's heartbeats.
use text.Mathlib.TextEquality.{eq_iff}
use text.Mathlib.TextPositions.{eq_refl}
use ca_project.Common.{String, ◌≡◌, Bool, Option, none, some, arith, List, [], ◌∷◌, ◌≢◌, ◌⊎◌}
use ca_project.Common.Int.{ℤ}
use ca_project.Common.Dict.{get, get-put, get-pop}
use ca_project.Float.{Float, nought, ◌≺◌}
use ca_project.Orchestrator.Cluster.{ClusterState, remove, state_over, update}

-- a call on the registry
pub data Call (F : Type 0) : Type 0 where
  updates : (now : F) (id : String) (size : F) (migrating : Bool) (epoch total : ℤ) → Call F
  removes : (id : String) → Call F

module _ {F : Type 0} ⦃o : Float F⦄ where
  unfoldable pub run : List (Call F) → ClusterState F → ClusterState F
  unfolding update remove
  run [] c = c
  run (updates now id size migrating epoch total ∷ calls) c =
      run calls (update now id size migrating epoch total c)
  run (removes id ∷ calls) c = run calls (remove id c)

  -- The calls neither remove the worker nor report that it has nothing pending.
  abbrev pub KeepsPending : String → List (Call F) → Type 0
  KeepsPending k [] = Unit
  KeepsPending k (updates now id size migrating epoch total ∷ calls) =
      ((id ≢ k) ⊎ (nought ≺ size)) × KeepsPending k calls
  KeepsPending k (removes id ∷ calls) = (id ≢ k) × KeepsPending k calls

  -- when the worker's data became pending, as the registry has it
  abbrev pub onset_of : String → ClusterState F → Option F
  onset_of k c = elim (get k c.workers) [ none ↦ none | some w ↦ w.pending_since ]

  onset-update :
      (k : String) (t now : F) (id : String) (size : F) (migrating : Bool) (epoch total : ℤ)
      (c : ClusterState F)
      → onset_of k c ≡ some t
      → (id ≢ k) ⊎ (nought ≺ size)
      → onset_of k (update now id size migrating epoch total c) ≡ some t
  unfolding update
  onset-update k t now id size migrating epoch total c h pending = ground (
    arith,
    get-put id k (state_over (get id c.workers) now id size migrating epoch total) c.workers,
    eq_iff id k,
  )

  onset-remove :
      (k : String) (t : F) (id : String) (c : ClusterState F)
      → onset_of k c ≡ some t
      → id ≢ k
      → onset_of k (remove id c) ≡ some t
  unfolding remove
  onset-remove k t id c h other = ground (arith, get-pop id k c.workers, eq_iff id k)

  onset-run :
      (k : String) (t : F) (calls : List (Call F)) (c : ClusterState F)
      → onset_of k c ≡ some t
      → KeepsPending k calls
      → onset_of k (run calls c) ≡ some t
  unfolding run
  onset-run k t [] c h kept = h
  onset-run k t (updates now id size migrating epoch total ∷ calls) c h kept =
      onset-run k t calls _ (onset-update k t now id size migrating epoch total c h kept.0) kept.1
  onset-run k t (removes id ∷ calls) c h kept =
      onset-run k t calls _ (onset-remove k t id c h kept.0) kept.1

  -- `pending_since` is the time of the heartbeat at which the worker's data became pending: if
  -- the worker was idle or unknown and a heartbeat at `t` reports pending data, then `t` is kept
  -- through any calls, also about other workers, until the worker is removed or reports that it
  -- has nothing pending.
  pub pending_since_onset :
      (k : String) (t size : F) (migrating : Bool) (epoch total : ℤ) (calls : List (Call F))
      (c : ClusterState F)
      → onset_of k c ≡ none
      → nought ≺ size
      → KeepsPending k calls
      → onset_of k (run (updates t k size migrating epoch total ∷ calls) c) ≡ some t
  unfolding run
  pending_since_onset k t size migrating epoch total calls c idle pending kept =
      onset-run k t calls _ (first) kept
    where
      first : onset_of k (update t k size migrating epoch total c) ≡ some t
      first =
          unfold update in
          ground (
            arith,
            get-put k k (state_over (get k c.workers) t k size migrating epoch total) c.workers,
            eq_refl k,
          )
