-- ===== src/Orchestrator/Service/Streams.antt =====
-- Which workers stay registered while streams come and go.
use text.Mathlib.Text.{◌==◌ as str_eq}
use text.Mathlib.TextEquality.{eq_iff}
use ca_project.Common.{
  ℕ, String, ◌≡◌, ◌≢◌, refl, Bool, true, false, Option, none, some, List, [], ◌∷◌, ◌⊎◌, inl, inr,
  Result, ok, raise, Exception, arith, Bool-cases,
}
use ca_project.Common.Dict.{get, get-put, get-pop}
use ca_project.Float.{Float}
use ca_project.Protocol.{InstructionResponse, HeartbeatRequest}
use ca_project.Orchestrator.Cluster.{WorkerState, ClusterState, remove, update, state_over}
use ca_project.Orchestrator.Policy.{Policy, decide}
use ca_project.Orchestrator.Service.{
  Phase, receiving, answering, closed, Service, Event, arrives, answers, ends, shutdown,
  new_service, forget, close, exit_instruction, exit_log, receive, answer, step, run,
}
use ca_project.Orchestrator.Service.Answers.{Phase-cases}

-- whether the stream is still connected
abbrev pub is_open : {F : Type 0} → Phase F → Bool
is_open receiving = true
is_open (answering _) = true
is_open (closed _) = false

module _ {F : Type 0} where
  -- Every registered worker is the last that some open stream has named.
  abbrev pub IsHeld : Service F → Type 0
  IsHeld s =
      (k : String) (w : WorkerState F)
      → k ≢ ""
      → get k s.cluster.workers ≡ some w
      → (i : ℕ) × ((s.streams i).worker_id ≡ some k) × (is_open (s.streams i).phase ≡ true)

  get-forget :
      (id : Option String) (c : ClusterState F) (k : String) {w : WorkerState F}
      → k ≢ ""
      → get k (forget id c).workers ≡ some w
      → (get k c.workers ≡ some w) × (id ≢ some k)
  unfolding remove
  get-forget none c k ne found = (found, λ e. cc)
  get-forget (some id) c k ne found =
      ground (arith, get-pop id k c.workers, eq_iff id k, eq_iff id "", eq_iff k "")

  close-IsHeld : (i : ℕ) (e : Option Exception) (s : Service F) → IsHeld s → IsHeld (close i e s)
  close-IsHeld i e s h k w ne found =
      let (old, other) = get-forget (s.streams i).worker_id s.cluster k ne found in
      let (j, named, live) = h k w ne old in (j, ground arith, ground arith)

  module _ ⦃o : Float F⦄ where
    -- A stream names one worker all along.
    abbrev pub IsSteady : Event F → Service F → Type 0
    IsSteady (arrives i now hb) s =
        ((s.streams i).worker_id ≡ none) ⊎ ((s.streams i).worker_id ≡ some hb.worker_id)
    IsSteady _ s = Unit

    abbrev pub AreSteady : List (Event F) → Service F → Type 0
    AreSteady [] s = Unit
    AreSteady (e ∷ es) s = IsSteady e s × AreSteady es (step e s)

    receive-IsHeld :
        (i : ℕ) (now : F) (hb : HeartbeatRequest F) (s : Service F)
        → IsSteady (arrives i now hb) s
        → IsHeld s
        → IsHeld (receive i now hb s)
    unfolding receive update
    receive-IsHeld i now hb s steady h k w ne found = elim (Bool-cases (str_eq hb.worker_id k)) [
      | inl same ↦ (i, ground (arith, eq_iff hb.worker_id k), ground arith)
      | inr other ↦
          let old : get k s.cluster.workers ≡ some w =
            ground (arith, get-put hb.worker_id k new s.cluster.workers) in
          let (j, named, live) = h k w ne old in
          (j, ground (arith, eq_iff hb.worker_id k), ground (arith, eq_iff hb.worker_id k))
    ]
      where
        new : WorkerState F
        new =
            state_over (get hb.worker_id s.cluster.workers) now hb.worker_id hb.checkpoint_size
              hb.is_migrating hb.epoch hb.total_epochs

    answer-IsHeld :
        (i : ℕ) (now : F) (hb : HeartbeatRequest F) (s : Service F)
        → IsHeld s
        → IsHeld (answer i now hb s)
    unfolding answer
    answer-IsHeld i now hb s h = elim (Bool-cases s.shutting_down) [
      | inl down ↦ simp down (
          close-IsHeld i none
            (record s { sent = (i, exit_instruction) ∷ s.sent; log = exit_log hb ∷ s.log }) h)
      | inr up ↦ go up (decide s.policy now hb.worker_id s.cluster.workers) refl
    ]
      where
        go :
            s.shutting_down ≡ false
            → (d : Result (InstructionResponse F))
            → decide s.policy now hb.worker_id s.cluster.workers ≡ d
            → IsHeld (answer i now hb s)
        go up (raise e) q = simp (up, q) (close-IsHeld i (some e) s h)
        go up (ok instruction) q =
            simp (up, q)
              (λ k w ne found.
                let (j, named, live) = h k w ne found in (j, ground arith, ground arith))

    step-IsHeld : (e : Event F) (s : Service F) → IsSteady e s → IsHeld s → IsHeld (step e s)
    unfolding step
    step-IsHeld (arrives i now hb) s steady h = elim (Phase-cases (s.streams i).phase) [
      | inl here ↦ rw (here, step) (receive-IsHeld i now hb s steady h)
      | inr (inl (hb', busy)) ↦ rw (busy, step) h
      | inr (inr (e, over)) ↦ rw (over, step) h
    ]
    step-IsHeld (answers i now) s steady h = elim (Phase-cases (s.streams i).phase) [
      | inl here ↦ rw (here, step) h
      | inr (inl (hb, busy)) ↦ rw (busy, step) (answer-IsHeld i now hb s h)
      | inr (inr (e, over)) ↦ rw (over, step) h
    ]
    step-IsHeld (ends i) s steady h = elim (Phase-cases (s.streams i).phase) [
      | inl here ↦ rw (here, step) (close-IsHeld i none s h)
      | inr (inl (hb, busy)) ↦ rw (busy, step) h
      | inr (inr (e, over)) ↦ rw (over, step) h
    ]
    step-IsHeld shutdown s steady h = h

    run-IsHeld :
        (es : List (Event F)) (s : Service F) → AreSteady es s → IsHeld s → IsHeld (run es s)
    unfolding run
    run-IsHeld [] s steady h = h
    run-IsHeld (e ∷ es) s steady h = run-IsHeld es (step e s) steady.1 (step-IsHeld e s steady.0 h)

    -- No worker stays registered behind: from the start of the service on, if each stream names one
    -- worker all along, then however
    -- the streams interleave and end, a registered worker whose id is not empty is always one that
    -- an open stream has named. The bandwidth is shared among connected workers only.
    pub service-IsHeld :
        (p : Policy F) (es : List (Event F))
        → AreSteady es (new_service p)
        → IsHeld (run es (new_service p))
    unfolding get
    service-IsHeld p es steady = run-IsHeld es (new_service p) steady (λ k w ne found. cc)
