-- ===== src/Orchestrator/Service/Answers.antt =====
-- What every stream is told, in any interleaving of the streams.
use text.Mathlib.Text.{◌==◌ as str_eq}
use ca_project.Common.{
  ℕ, String, ◌≡◌, ◌≢◌, refl, true, false, ◌&&◌, Option, none, some, List, [], ◌∷◌, ◌⊎◌, inl, inr,
  ◌↔◌, ok, Exception, arith, Bool-cases,
}
use ca_project.Common.Dict.{get}
use ca_project.Float.{Float}
use ca_project.Float.Laws.{IsOrdered}
use ca_project.Protocol.{InstructionResponse, HeartbeatRequest, hold}
use ca_project.Orchestrator.Cluster.{ClusterState}
use ca_project.Orchestrator.Cluster.Registry.{
  IsRegistry, remove-IsRegistry, update-IsRegistry, new_cluster-IsRegistry,
}
use ca_project.Orchestrator.Policy.{Policy, decide}
use ca_project.Orchestrator.Policy.Decisions.{
  IsConfigured, holds_idle, is_idle, decide_never_raises,
}
use ca_project.Orchestrator.Service.{
  Phase, receiving, answering, closed, Service, Event, arrives, answers, ends, shutdown,
  new_service, forget, close, exit_instruction, exit_log, entry_for, set_stream, receive, answer,
  step, run,
}

module _ {F : Type 0} ⦃o : Float F⦄ where
  -- No stream has ended by an exception, and the registry is well formed.
  pub record IsSound (s : Service F) : Type 0 where
    pub configured : IsConfigured s.policy
    pub registry : IsRegistry s.cluster
    pub quiet : (i : ℕ) (e : Exception) → (s.streams i).phase ≢ closed (some e)

  forget-IsRegistry :
      (id : Option String) (c : ClusterState F) → IsRegistry c → IsRegistry (forget id c)
  forget-IsRegistry none c r = r
  forget-IsRegistry (some id) c r = elim (Bool-cases (str_eq id "")) [
    | inl empty ↦ rw empty r
    | inr truthy ↦ rw truthy (remove-IsRegistry id c r)
  ]

  pub new_service-IsSound : (p : Policy F) → IsConfigured p → IsSound (new_service p)
  new_service-IsSound p c = record {
    configured = c;
    registry = new_cluster-IsRegistry;
    quiet = λ i e. cc;
  }

  -- to split on where a stream stands
  pub Phase-cases :
      (p : Phase F)
      → (p ≡ receiving)
        ⊎ ((hb : HeartbeatRequest F) × (p ≡ answering hb))
        ⊎ ((e : Option Exception) × (p ≡ closed e))
  Phase-cases receiving = inl refl
  Phase-cases (answering hb) = inr (inl (hb, refl))
  Phase-cases (closed e) = inr (inr (e, refl))

  close-IsSound : (i : ℕ) (s : Service F) → IsSound s → IsSound (close i none s)
  close-IsSound i s h = record {
    configured = h.configured;
    registry = forget-IsRegistry (s.streams i).worker_id s.cluster h.registry;
    quiet = λ j e. ground (arith, h.quiet j e);
  }

  receive-IsSound :
      (i : ℕ) (now : F) (hb : HeartbeatRequest F) (s : Service F)
      → IsSound s
      → IsSound (receive i now hb s)
  unfolding receive
  receive-IsSound i now hb s h = record {
    configured = h.configured;
    registry =
        update-IsRegistry now hb.worker_id hb.checkpoint_size hb.is_migrating hb.epoch
          hb.total_epochs s.cluster h.registry;
    quiet = λ j e. ground (arith, h.quiet j e);
  }

  module _ (laws : IsOrdered F) where
    -- the service after a stream that was not told to exit has answered
    abbrev pub answered : ℕ → HeartbeatRequest F → InstructionResponse F → Service F → Service F
    answered i hb instruction s = record s {
      streams =
          set_stream i (record { worker_id = (s.streams i).worker_id; phase = receiving })
            s.streams;
      sent = (i, instruction) ∷ s.sent;
      log = entry_for hb instruction.action ∷ s.log;
    }

    answer-exit :
        (i : ℕ) (now : F) (hb : HeartbeatRequest F) (s : Service F)
        → s.shutting_down ≡ true
        → answer i now hb s
          ≡ close i none
              (record s { sent = (i, exit_instruction) ∷ s.sent; log = exit_log hb ∷ s.log })
    unfolding answer
    answer-exit i now hb s down = rw down

    answer-decision :
        (i : ℕ) (now : F) (hb : HeartbeatRequest F) (s : Service F)
        (instruction : InstructionResponse F)
        → s.shutting_down ≡ false
        → decide s.policy now hb.worker_id s.cluster.workers ≡ ok instruction
        → answer i now hb s ≡ answered i hb instruction s
    unfolding answer
    answer-decision i now hb s instruction up decided = simp (up, decided)

    answer-IsSound :
        (i : ℕ) (now : F) (hb : HeartbeatRequest F) (s : Service F)
        → IsSound s
        → IsSound (answer i now hb s)
    answer-IsSound i now hb s h = elim (Bool-cases s.shutting_down) [
      | inl down ↦ rw (answer-exit i now hb s down) (
          close-IsSound i
            (record s { sent = (i, exit_instruction) ∷ s.sent; log = exit_log hb ∷ s.log })
            (record { configured = h.configured; registry = h.registry; quiet = h.quiet }))
      | inr up ↦
          let (instruction, decided, _) =
            decide_never_raises laws now hb.worker_id s.cluster.workers s.policy h.configured
              (h.registry.named hb.worker_id) in
          rw (answer-decision i now hb s instruction up decided) (record {
            configured = h.configured;
            registry = h.registry;
            quiet = λ j e. ground (arith, h.quiet j e);
          })
    ]

    pub step-IsSound : (e : Event F) (s : Service F) → IsSound s → IsSound (step e s)
    unfolding step
    step-IsSound (arrives i now hb) s h = elim (Phase-cases (s.streams i).phase) [
      | inl here ↦ rw (here, step) (receive-IsSound i now hb s h)
      | inr (inl (hb', busy)) ↦ rw (busy, step) h
      | inr (inr (e, over)) ↦ rw (over, step) h
    ]
    step-IsSound (answers i now) s h = elim (Phase-cases (s.streams i).phase) [
      | inl here ↦ rw (here, step) h
      | inr (inl (hb, busy)) ↦ rw (busy, step) (answer-IsSound i now hb s h)
      | inr (inr (e, over)) ↦ rw (over, step) h
    ]
    step-IsSound (ends i) s h = elim (Phase-cases (s.streams i).phase) [
      | inl here ↦ rw (here, step) (close-IsSound i s h)
      | inr (inl (hb, busy)) ↦ rw (busy, step) h
      | inr (inr (e, over)) ↦ rw (over, step) h
    ]
    step-IsSound shutdown s h = record {
      configured = h.configured;
      registry = h.registry;
      quiet = h.quiet;
    }

    run-IsSound : (es : List (Event F)) (s : Service F) → IsSound s → IsSound (run es s)
    unfolding run
    run-IsSound [] s h = h
    run-IsSound (e ∷ es) s h = run-IsSound es (step e s) (step-IsSound e s h)

    -- However the streams interleave, with a shutdown at any point, from the start of the service
    -- on: no stream ends by an exception, the policy is configured, and the registry holds one
    -- entry for a worker, under its own id, with a time of onset exactly while it has data pending.
    -- The policy has passed the asserts of its constructor.
    -- The floats meet the laws of order.
    pub service-IsSound :
        (p : Policy F) (es : List (Event F)) → IsConfigured p → IsSound (run es (new_service p))
    service-IsSound p es c = run-IsSound es (new_service p) (new_service-IsSound p c)

    -- A heartbeat that is being answered gets EXIT at 500 MB/s, and its stream ends, if a shutdown
    -- is requested. Otherwise it gets one instruction, which is HOLD exactly if the policy looks at
    -- pending data and the registry has none for the worker; the stream goes on, and nothing
    -- changes in the registry.
    -- The service is sound, and the floats meet the laws of order.
    pub answers_lem :
        (i : ℕ) (now : F) (hb : HeartbeatRequest F) (s : Service F)
        → IsSound s
        → (s.streams i).phase ≡ answering hb
        → ((s.shutting_down ≡ true)
            × ((step (answers i now) s).sent ≡ (i, exit_instruction) ∷ s.sent)
            × (((step (answers i now) s).streams i).phase ≡ closed none)
            × ((step (answers i now) s).cluster ≡ forget (s.streams i).worker_id s.cluster))
          ⊎ ((instruction : InstructionResponse F) × (s.shutting_down ≡ false)
              × ((instruction.action ≡ hold)
                  ↔ ((holds_idle s.policy && is_idle (get hb.worker_id s.cluster.workers)) ≡ true))
              × (step (answers i now) s ≡ answered i hb instruction s))
    unfolding step
    answers_lem i now hb s h busy = elim (Bool-cases s.shutting_down) [
      | inl down ↦ inl (
        down,
        rw (busy, step, answer-exit i now hb s down),
        rw (busy, step, answer-exit i now hb s down) (ground arith),
        rw (busy, step, answer-exit i now hb s down),
      )
      | inr up ↦
          let (instruction, decided, held) =
            decide_never_raises laws now hb.worker_id s.cluster.workers s.policy h.configured
              (h.registry.named hb.worker_id) in
          inr (
            instruction,
            up,
            held,
            rw (busy, step, answer-decision i now hb s instruction up decided),
          )
    ]
