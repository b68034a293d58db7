-- ===== src/Migrater/TokenBucket/Bucket.antt =====
-- What a copy promises whoever runs it, as a bucket that knows nothing of clamps, sleeps or
-- reports, and that the loop is such a bucket.
use mathlib.Core.Path.{subst}
use native.Mathlib.Nat.{mul-le-mul_right}
use ca_project.Common.{
  ℕ, suc, ◌+◌, ◌-◌, ◌*◌, ◌≤◌, ◌<◌, ◌≡◌, refl, sym, ap, ◌∙◌, Bool, true, false, List, [], ◌∷◌, ◌++◌,
  length, take, drop, arith, length-take, take-drop,
}
use ca_project.Common.Int.{pos_part, is_negative}
use ca_project.Migrater.TokenBucket.Steps.{
  maybe_report-IsReported, raises, breaks, pauses, starves, transfers, step_case,
}
use ca_project.Migrater.TokenBucket.{
  Settings, Round, Copy, Outcome, running, finished, failed, refill, capacity, maybe_report,
  transfer, paused, starved, step, copy_loop,
}
use ca_project.Common.{Exception, assertion_error, os_error, ◌⊎◌}
use ca_project.Migrater.TokenBucket.Exact.{Holds, take-nil}

-- the time up to which the rate has been credited, the credit in the unit of `tokens`, what is
-- still to be written and what has been
pub record Bucket : Type 0 where
  pub time : ℕ
  pub credit : ℕ
  pub rest : List ℕ
  pub written : List ℕ

abbrev pub view : Copy → Bucket
view c = record { time = c.last; credit = c.tokens; rest = c.src; written = c.dst }

module _ (p : Settings) where
  -- what there is to spend in a round
  abbrev pub funds : Round → Bucket → ℕ
  funds r a = a.credit + (r.now - a.time) * pos_part r.rate

  -- In a round a bucket lets nothing through, or it pays for a block of at most a chunk and writes
  -- that; it may lose credit, and it holds at most its capacity.
  pub data Turn (r : Round) (a : Bucket) : Bucket → Type 0 where
    waits :
        (b : Bucket)
        → b.time ≡ r.now
        → b.credit ≤ funds r a
        → b.credit ≤ capacity p (pos_part r.rate)
        → b.rest ≡ a.rest
        → b.written ≡ a.written
        → Turn r a b
    writes :
        (block : List ℕ) (b : Bucket)
        → b.time ≡ r.now
        → b.credit + length block * p.hz ≤ funds r a
        → b.credit ≤ capacity p (pos_part r.rate)
        → 0 < length block
        → length block ≤ p.chunk_size
        → block ++ b.rest ≡ a.rest
        → b.written ≡ a.written ++ block
        → Turn r a b

  pub data Paced : List Round → Bucket → Bucket → Type 0 where
    start : {a : Bucket} → Paced [] a a
    turn :
        {r : Round} {rs : List Round} {a b c : Bucket}
        → Turn r a b
        → Paced rs b c
        → Paced (r ∷ rs) a c

  view-maybe_report :
      (force : Bool) (r : Round) (d : Copy) → view (maybe_report p force r d) ≡ view d
  unfolding maybe_report
  view-maybe_report force r d = ground arith

  view-paused :
      (r : Round) (c : Copy)
      → view (paused p r c) ≡ record { time = r.now; credit = 0; rest = c.src; written = c.dst }
  unfolding paused
  view-paused r c = view-maybe_report true r (record c { last = r.now; tokens = 0 })

  view-starved :
      (rate tokens : ℕ) (r : Round) (c : Copy)
      → view (starved p rate tokens r c)
        ≡ record { time = r.now; credit = tokens; rest = c.src; written = c.dst }
  unfolding starved
  view-starved rate tokens r c =
      view-maybe_report false r (record c { last = r.now; tokens = tokens })

  -- The round after which there is nothing left.
  abbrev pub Closes : Round → Bucket → Copy → Type 0
  Closes r a d = Turn r a (view d) × (d.src ≡ [])

  transfer-Turn :
      (r : Round) (c : Copy) (block : List ℕ)
      → block ≡ take p.chunk_size c.src
      → 0 < p.chunk_size
      → p.chunk_size * p.hz ≤ refill p (pos_part r.rate) r c
      → Holds
          (λ d. Turn r (view c) (view d))
          (Closes r (view c))
          (transfer p (refill p (pos_part r.rate) r c) r c block)
  unfolding transfer
  transfer-Turn r c [] e pos_chunk many =
      let d : Copy = record c { last = r.now; tokens = refill p (pos_part r.rate) r c } in
      let same = maybe_report-IsReported p true r d in
      (
        rw (view-maybe_report true r d) (waits (view d) refl (omega arith) (omega arith) refl refl),
        same.src ∙ take-nil p.chunk_size c.src pos_chunk (sym e),
      )
  transfer-Turn r c (b ∷ bs) e pos_chunk many =
      let small = length-take p.chunk_size c.src in
      let size = ap length e in
      let paid : length (b ∷ bs) * p.hz ≤ p.chunk_size * p.hz =
        mul-le-mul_right p.hz (omega (arith, small, size)) in
      rw (view-maybe_report false r _) (
        writes (b ∷ bs) _ refl (omega arith) (omega arith) (omega arith)
          (omega (arith, small, size))
          (ap (λ xs. xs ++ drop p.chunk_size c.src) e ∙ take-drop p.chunk_size c.src) refl)

  step-Turn :
      (r : Round) (c : Copy)
      → 0 < p.chunk_size
      → Holds (λ d. Turn r (view c) (view d)) (Closes r (view c)) (step p r c)
  step-Turn r c pos_chunk = elim (step_case p r c) [
    | raises n e q ↦ rw q tt
    | breaks n e bad q ↦ rw q tt
    | pauses e q ↦ rw (q, view-paused r c) (waits _ refl (omega arith) (omega arith) refl refl)
    | starves n e few q ↦
        let rate : pos_part r.rate ≡ suc n = ap pos_part e in
        rw (q, view-starved (suc n) (refill p (suc n) r c) r c)
          (waits _ refl (rw rate (omega arith)) (rw rate (omega arith)) refl refl)
    | transfers n e many q ↦ rw q (
        subst
          (λ k.
            p.chunk_size * p.hz ≤ refill p k r c
            → Holds (λ d. Turn r (view c) (view d)) (Closes r (view c))
                (transfer p (refill p k r c) r c (take p.chunk_size c.src)))
          (ap pos_part e) (transfer-Turn r c (take p.chunk_size c.src) refl pos_chunk) many)
  ]

  -- why a round fails: by the assertion on a negative rate, or by the disk
  abbrev pub Fails : Round → Exception → Type 0
  Fails r x =
      ((is_negative r.rate ≡ true) × (x ≡ assertion_error)) ⊎ ((r.disk ≡ false) × (x ≡ os_error))

  step-failed : (r : Round) (c : Copy) (x : Exception) → step p r c ≡ failed x → Fails r x
  unfolding step transfer
  step-failed r c x h = ground arith

  -- how a run over the rounds looks to a client of the bucket
  abbrev pub Agrees : List Round → Bucket → Outcome → Type 0
  Agrees rs a (running d) = Paced rs a (view d)
  Agrees rs a (finished d) =
      (used later : List Round) × (used ++ later ≡ rs) × Paced used a (view d) × (d.src ≡ [])
  Agrees rs a (failed e) =
      (used later : List Round) × (r : Round) × (b : Bucket) × (used ++ r ∷ later ≡ rs)
      × Paced used a b
      × Fails r e

  extend :
      (r : Round) (rs : List Round) (a b : Bucket) (o : Outcome)
      → Turn r a b
      → Agrees rs b o
      → Agrees (r ∷ rs) a o
  extend r rs a b (running d) t h = turn t h
  extend r rs a b (finished d) t (used, later, whole, h, done) =
      (r ∷ used, later, ap (◌∷◌ r) whole, turn t h, done)
  extend r rs a b (failed e) t (used, later, z, c, whole, h, why) =
      (r ∷ used, later, z, c, ap (◌∷◌ r) whole, turn t h, why)

  -- The loop is a bucket. Over any rounds and from any state, if a chunk is not empty: while it
  -- runs, each round was a turn of the bucket; when it returns, the rounds that it used, a first
  -- part of those given, were its turns, and nothing is left to write; when it fails, it was
  -- after such turns, with an assertion error in a round of a negative rate, or with an OSError in a
  -- round in which the disk failed.
  pub loop_refines :
      (rs : List Round) (c : Copy) → 0 < p.chunk_size → Agrees rs (view c) (copy_loop p rs c)
  unfolding copy_loop
  loop_refines [] c pos_chunk = start
  loop_refines (r ∷ rs) c pos_chunk =
      go (step p r c) refl (step-Turn r c pos_chunk) (λ d. loop_refines rs d pos_chunk)
    where
      go :
          (s : Outcome)
          → step p r c ≡ s
          → Holds (λ d. Turn r (view c) (view d)) (Closes r (view c)) s
          → ((d : Copy) → Agrees rs (view d) (copy_loop p rs d))
          → Agrees (r ∷ rs) (view c) (copy_loop p (r ∷ rs) c)
      go (running d) e k rest =
          rw (e, copy_loop) (extend r rs (view c) (view d) (copy_loop p rs d) k (rest d))
      go (finished d) e k rest = rw (e, copy_loop) (r ∷ [], rs, refl, turn k.0 start, k.1)
      go (failed x) e k rest =
          rw (e, copy_loop) ([], rs, r, view c, refl, start, step-failed r c x e)
