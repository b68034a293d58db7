-- ===== src/Migrater/HeartbeatStream.antt =====
-- `OrchestratorClient` of src/protocol/orchestrator/client.py: the heartbeats as they go out on the
-- stream. A value that is not a `HeartbeatRequest` is `none`.
use text.Mathlib.Text.{◌==◌ as str_eq}
use text.Mathlib.TextEquality.{eq_iff}
use ca_project.Common.{
  String, Option, none, some, List, [], ◌∷◌, if◌then◌else◌, Exception, type_error, ◌≡◌, ◌≢◌, refl,
  arith, ◌⊎◌,
}
use ca_project.Protocol.{HeartbeatRequest}

-- what the stream has yielded, in order, and the exception that ended it, if one did
pub record Yielded (F : Type 0) : Type 0 where
  pub heartbeats : List (HeartbeatRequest F)
  pub raised : Option Exception

module _ {F : Type 0} where
  -- `if not heartbeat.worker_id: heartbeat.worker_id = self.worker_id`
  abbrev pub with_worker_id : String → HeartbeatRequest F → HeartbeatRequest F
  with_worker_id worker_id heartbeat = record heartbeat {
    worker_id = if str_eq heartbeat.worker_id "" then worker_id else heartbeat.worker_id;
  }

  -- `_heartbeat_stream`
  unfoldable pub heartbeat_stream : String → List (Option (HeartbeatRequest F)) → Yielded F
  heartbeat_stream worker_id [] = record { heartbeats = []; raised = none }
  heartbeat_stream worker_id (none ∷ values) = record { heartbeats = []; raised = some type_error }
  heartbeat_stream worker_id (some heartbeat ∷ values) =
      let rest = heartbeat_stream worker_id values in
      record rest { heartbeats = with_worker_id worker_id heartbeat ∷ rest.heartbeats }

  -- A heartbeat as it goes out: it names a worker, the client's own where it named none.
  abbrev pub IsNamed : String → HeartbeatRequest F → HeartbeatRequest F → Type 0
  IsNamed worker_id given out =
      (out.worker_id ≢ "")
      × (out ≡ record given { worker_id = out.worker_id })
      × (((given.worker_id ≡ "") × (out.worker_id ≡ worker_id)) ⊎ (out.worker_id ≡ given.worker_id))

  -- The values that a stream has yielded are the first given ones, each named.
  abbrev pub AreNamed : String → List (Option (HeartbeatRequest F)) → Yielded F → Type 0
  AreNamed worker_id [] out = (out.heartbeats ≡ []) × (out.raised ≡ none)
  AreNamed worker_id (none ∷ values) out = (out.heartbeats ≡ []) × (out.raised ≡ some type_error)
  AreNamed worker_id (some given ∷ values) out =
      (hb : HeartbeatRequest F) × (rest : Yielded F) × (out
        ≡ record rest { heartbeats = hb ∷ rest.heartbeats })
      × IsNamed worker_id given hb
      × AreNamed worker_id values rest

  -- If the client has a worker id, every heartbeat on the stream names a worker: its own where it
  -- names one, else the client's, and is otherwise as it was given; they keep their order, up to the
  -- first value of another type, which ends the stream by a TypeError.
  pub heartbeat_stream-AreNamed :
      (worker_id : String) (values : List (Option (HeartbeatRequest F)))
      → worker_id ≢ ""
      → AreNamed worker_id values (heartbeat_stream worker_id values)
  unfolding heartbeat_stream
  heartbeat_stream-AreNamed worker_id [] ne = (refl, refl)
  heartbeat_stream-AreNamed worker_id (none ∷ values) ne = (refl, refl)
  heartbeat_stream-AreNamed worker_id (some heartbeat ∷ values) ne = (
    with_worker_id worker_id heartbeat,
    heartbeat_stream worker_id values,
    refl,
    ground (arith, eq_iff heartbeat.worker_id ""),
    heartbeat_stream-AreNamed worker_id values ne,
  )
