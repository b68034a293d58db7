-- ===== src/System.antt =====
-- How the parts of the program act together: a copy of src/migrater/token_bucket.py, the service of
-- src/migrater/server.py and the orchestrator of src/orchestrator/server.py.
pub mod Bandwidth
pub mod Completion
use mathlib.Core.Path.{subst}
use mathlib.Core.List.{append-nil}
use ca_project.Common.{
  ℕ, zero, suc, ◌≡◌, ◌<◌, ◌-◌, refl, ap, sym, ◌∙◌, true, false, ok, some, List, [], ◌∷◌, ◌++◌, map,
  length, drop, get_last?, arith, length-append,
}
use text.Mathlib.TextEquality.{eq_iff}
use ca_project.Common.Dict.{get, put, get-put}
use ca_project.Float.{Float, of_nat}
use ca_project.Float.Laws.{IsOrdered}
use ca_project.Protocol.{HeartbeatRequest}
use ca_project.Migrater.Progress.{Progress, ProgressBuffer, add, pop}
use ca_project.Migrater.TokenBucket as Copying
use ca_project.Migrater.TokenBucket.Exact.{Holds, IsExact, IsDone, step-IsExact}
use ca_project.Migrater.Service as Migrating
use ca_project.Orchestrator.Cluster.{update, state_over}
use ca_project.Orchestrator.Policy.{on_hold, decide}
use ca_project.Orchestrator.Policy.Decisions.{holds_idle, decide-idle}
use ca_project.Orchestrator.Service as Orchestrating

-- The last report of a copy that finishes.
finished-report :
    (p : Copying.Settings) (r : Copying.Round) (c d : Copying.Copy)
    → Copying.step p r c ≡ Copying.finished d
    → p.reports ≡ true
    → c.last_progress_time < r.report_now
    → (item : Progress) × (d.reported ≡ item ∷ c.reported)
      × (item.remaining_bytes ≡ d.file_size - d.bytes_copied)
      × (item.total_bytes ≡ d.file_size)
unfolding Copying.step Copying.transfer Copying.maybe_report
finished-report p r c d ends reports later =
    (Copying.report p r c, ground arith, ground arith, ground arith)

-- A copy that finishes has copied all bytes.
finished_whole :
    (p : Copying.Settings) (r : Copying.Round) (content : List ℕ) (c d : Copying.Copy)
    → 0 < p.chunk_size
    → IsExact content c
    → Copying.step p r c ≡ Copying.finished d
    → (d.bytes_copied ≡ length content) × (d.file_size ≡ length content)
finished_whole p r content c d pos_chunk h ends =
    let (exact, rest) =
      subst (Holds (IsExact content) (IsDone p content)) ends
        (step-IsExact p content r c pos_chunk h) in
    let whole : d.dst ≡ content =
      sym (append-nil d.dst) ∙ ap (λ xs. d.dst ++ xs) (sym rest) ∙ exact.split in
    (exact.counted ∙ ap length whole, exact.total)

get_last?-drop :
    {A : Type 0} (n : ℕ) (xs : List A) (x : A)
    → n < suc (length xs)
    → get_last? (drop n (xs ++ x ∷ [])) ≡ some x
get_last?-drop zero [] x h = refl
get_last?-drop zero (y ∷ []) x h = refl
get_last?-drop zero (y ∷ z ∷ xs) x h = get_last?-drop zero (z ∷ xs) x (omega arith)
get_last?-drop (suc n) [] x h = absurd (omega arith)
get_last?-drop (suc n) (y ∷ xs) x h = get_last?-drop n xs x (omega arith)

-- What is added last is the newest.
get_last?-add :
    (item : Progress) (b : ProgressBuffer Progress)
    → 0 < b.maxlen
    → get_last? (add item b).items ≡ some item
unfolding add
get_last?-add item b h =
    get_last?-drop (length (b.items ++ item ∷ []) - b.maxlen) b.items item
      (omega (arith, length-append b.items (item ∷ [])))

module _ {F : Type 0} ⦃o : Float F⦄ where
  -- the heartbeat that follows the last report
  abbrev last_heartbeat : Progress → Migrating.Migrater F → HeartbeatRequest F
  last_heartbeat item m = record {
    worker_id = m.hostname;
    checkpoint_size = of_nat item.remaining_bytes;
    is_migrating = m.transfer_active;
    progress = map Migrating.progress_to_proto (add item m.progress).items;
    epoch = m.epoch;
    total_epochs = m.total_epochs;
  }

  abbrev pub beat_events : ℕ → Progress → List (Migrating.Event F)
  beat_events i item =
      Migrating.reports i item ∷ Migrating.pops ∷ Migrating.samples ∷ Migrating.beats ∷ []

  sends_last :
      (i : ℕ) (item : Progress) (m : Migrating.Migrater F)
      → m.transfers i ≡ Migrating.copying
      → m.beat ≡ Migrating.idle
      → m.shutdown_complete ≡ false
      → 0 < m.progress.maxlen
      → 0 < item.total_bytes
      → (Migrating.run (beat_events i item) m).sent ≡ last_heartbeat item m ∷ m.sent
  unfolding Migrating.run Migrating.step Migrating.send_heartbeat pop
  sends_last i item m copies at runs room full = ground (arith, get_last?-add item m.progress room)

  module _ (laws : IsOrdered F) where
    decides_hold :
        (now now' : F) (hb : HeartbeatRequest F) (s : Orchestrating.Service F)
        → holds_idle s.policy ≡ true
        → hb.checkpoint_size ≡ of_nat 0
        → decide s.policy now' hb.worker_id
            (update now hb.worker_id hb.checkpoint_size hb.is_migrating hb.epoch hb.total_epochs
              s.cluster).workers
          ≡ ok on_hold
    unfolding update
    decides_hold now now' hb s holds empty =
        let w =
          state_over (get hb.worker_id s.cluster.workers) now hb.worker_id hb.checkpoint_size
            hb.is_migrating hb.epoch hb.total_epochs in
        decide-idle laws now' hb.worker_id (put hb.worker_id w s.cluster.workers) s.policy holds (
          ground (
            arith,
            get-put hb.worker_id hb.worker_id w s.cluster.workers,
            eq_iff hb.worker_id hb.worker_id,
            laws.le_refl (of_nat 0),
          ))

    answers_hold :
        (j : ℕ) (now now' : F) (hb : HeartbeatRequest F) (s : Orchestrating.Service F)
        → holds_idle s.policy ≡ true
        → s.shutting_down ≡ false
        → (s.streams j).phase ≡ Orchestrating.receiving
        → hb.checkpoint_size ≡ of_nat 0
        → (Orchestrating.run
            (Orchestrating.arrives j now hb ∷ Orchestrating.answers j now' ∷ [])
            s).sent
          ≡ (j, on_hold) ∷ s.sent
    unfolding Orchestrating.run Orchestrating.step
    answers_hold j now now' hb s holds up at empty =
        ground (arith, decides_hold now now' hb s holds empty)

    -- When a copy is complete, its worker drops out of the schedule. In the round in which the copy
    -- of a file that is not empty finishes, it reports that nothing remains; the service of its
    -- migrater, given that report, sends at its next heartbeat a size of zero; and the orchestrator
    -- answers that by HOLD, under every policy that looks at pending data. The copy is exact up to
    -- the round, has a callback, and its clock has moved on since its last report; the transfer
    -- copies, the heartbeat thread is at the head of its loop, and the progress buffer has room; the
    -- worker's stream is open, neither service is shut down, and the floats meet the laws of order.
    pub copied_is_idle :
        (p : Copying.Settings) (r : Copying.Round) (content : List ℕ) (c d : Copying.Copy) (i j : ℕ)
        (m : Migrating.Migrater F) (s : Orchestrating.Service F) (now now' : F)
        → 0 < p.chunk_size
        → 0 < length content
        → IsExact content c
        → Copying.step p r c ≡ Copying.finished d
        → p.reports ≡ true
        → c.last_progress_time < r.report_now
        → m.transfers i ≡ Migrating.copying
        → m.beat ≡ Migrating.idle
        → m.shutdown_complete ≡ false
        → 0 < m.progress.maxlen
        → holds_idle s.policy ≡ true
        → s.shutting_down ≡ false
        → (s.streams j).phase ≡ Orchestrating.receiving
        → (item : Progress) × (hb : HeartbeatRequest F) × (d.reported ≡ item ∷ c.reported)
          × ((Migrating.run (beat_events i item) m).sent ≡ hb ∷ m.sent)
          × (hb.checkpoint_size ≡ of_nat 0)
          × ((Orchestrating.run
                (Orchestrating.arrives j now hb ∷ Orchestrating.answers j now' ∷ [])
                s).sent
              ≡ (j, on_hold) ∷ s.sent)
    copied_is_idle p r content c d i j m s now now' pos_chunk full exact ends reports later copies
          at runs room holds up open_stream =
        let (item, reported, remains, total) = finished-report p r c d ends reports later in
        let (copied, size) = finished_whole p r content c d pos_chunk exact ends in
        let none_left : item.remaining_bytes ≡ 0 = omega (arith, remains, copied, size) in
        let empty : of_nat {F = F} item.remaining_bytes ≡ of_nat 0 = ap (λ n. of_nat n) none_left in
        (
          item,
          last_heartbeat item m,
          reported,
          sends_last i item m copies at runs room (omega (arith, total, size)),
          empty,
          answers_hold j now now' (last_heartbeat item m) s holds up open_stream empty,
        )
