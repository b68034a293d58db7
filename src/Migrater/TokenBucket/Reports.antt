-- ===== src/Migrater/TokenBucket/Reports.antt =====
-- What the callback is given.
use mathlib.Core.Path.{subst}
use ca_project.Common.{
  ℕ, suc, ◌+◌, ◌-◌, ◌≤◌, ◌<◌, ◌≡◌, refl, Bool, true, false, List, [], ◌∷◌, All, length, take, drop,
  length-take, length-drop, arith, Result, ok, raise, Bool-cases, inl, inr, leb, ltb, not, ◌&&◌,
  ◌||◌,
}
use ca_project.Common.Int.{ℤ}
use ca_project.Migrater.Progress.{Progress}
use ca_project.Migrater.TokenBucket.Steps.{
  prepare-eq-ok, raises, breaks, pauses, starves, transfers, step_case,
}
use ca_project.Migrater.TokenBucket.{
  Settings, Round, Copy, Outcome, running, finished, failed, refill, maybe_report, report, transfer,
  paused, starved, step, copy_loop, Files, prepare, token_bucket_copy, run_from,
}
use ca_project.Migrater.TokenBucket.Exact.{Holds}

-- No quotient of a report divides by zero, and what is copied and what remains make the file.
pub record IsFaithful (size : ℕ) (e : Progress) : Type 0 where
  pub interval_pos : 0 < e.interval_throughput_bps.under
  pub elapsed_pos : 0 < e.average_throughput_bps.under
  pub total : e.total_bytes ≡ size
  pub parts : e.bytes_copied + e.remaining_bytes ≡ size

-- What the loop keeps about reports.
pub record IsReporting (size : ℕ) (c : Copy) : Type 0 where
  pub faithful : All (IsFaithful size) c.reported
  pub began : c.copy_start ≤ c.last_progress_time
  pub file : c.file_size ≡ size
  pub within : c.bytes_copied + length c.src ≡ size

module _ (p : Settings) (size : ℕ) where
  abbrev is_quiet : Bool → ℕ → Bool
  is_quiet force interval = not p.reports || (not force && ltb interval p.progress_update_interval)

  report-IsFaithful :
      (r : Round) (c : Copy)
      → IsReporting size c
      → 0 < r.report_now - c.last_progress_time
      → IsFaithful size (report p r c)
  report-IsFaithful r c h tick = record {
    interval_pos = tick;
    elapsed_pos = ground (arith, h.began, tick);
    total = h.file;
    parts = omega (arith, h.file, h.within);
  }

  maybe_report-IsReporting :
      (force : Bool) (r : Round) (c : Copy)
      → IsReporting size c
      → IsReporting size (maybe_report p force r c)
  unfolding maybe_report
  maybe_report-IsReporting force r c h =
      elim (Bool-cases (leb (r.report_now - c.last_progress_time) 0)) [
        | inl still ↦ ground arith
        | inr tick ↦
            let e = report-IsFaithful r c h (ground arith) in
            elim (Bool-cases (is_quiet force (r.report_now - c.last_progress_time))) [
              | inl quiet ↦ rw quiet h
              | inr due ↦
                  rw (due, tick)
                    (record {
                      faithful = (e, h.faithful);
                      began = ground (arith, h.began);
                      file = h.file;
                      within = h.within;
                    })
            ]
      ]

  transfer-IsReporting :
      (tokens : ℕ) (r : Round) (c : Copy) (block : List ℕ)
      → length block + length (drop p.chunk_size c.src) ≡ length c.src
      → IsReporting size c
      → Holds (IsReporting size) (IsReporting size) (transfer p tokens r c block)
  unfolding transfer
  transfer-IsReporting tokens r c [] e h =
      maybe_report-IsReporting true r _
        (record { faithful = h.faithful; began = h.began; file = h.file; within = h.within })
  transfer-IsReporting tokens r c (b ∷ bs) e h = maybe_report-IsReporting false r _ (record {
    faithful = h.faithful;
    began = h.began;
    file = h.file;
    within = omega (arith, h.within, e);
  })

  halves : (n : ℕ) (xs : List ℕ) → length (take n xs) + length (drop n xs) ≡ length xs
  halves n xs = omega (arith, length-take n xs, length-drop n xs)

  step-IsReporting :
      (r : Round) (c : Copy)
      → IsReporting size c
      → Holds (IsReporting size) (IsReporting size) (step p r c)
  unfolding paused starved
  step-IsReporting r c h = elim (step_case p r c) [
    | raises n e q ↦ rw q tt
    | breaks n e bad q ↦ rw q tt
    | pauses e q ↦
        let d =
          maybe_report-IsReporting true r (record c { last = r.now; tokens = 0 })
            (record { faithful = h.faithful; began = h.began; file = h.file; within = h.within }) in
        rw q (record { faithful = d.faithful; began = d.began; file = d.file; within = d.within })
    | starves n e few q ↦
        let d =
          maybe_report-IsReporting false r
            (record c { last = r.now; tokens = refill p (suc n) r c })
            (record { faithful = h.faithful; began = h.began; file = h.file; within = h.within }) in
        rw q (record { faithful = d.faithful; began = d.began; file = d.file; within = d.within })
    | transfers n e many q ↦ rw q (
        transfer-IsReporting (refill p (suc n) r c) r c (take p.chunk_size c.src)
          (halves p.chunk_size c.src) h)
  ]

  loop-IsReporting :
      (rs : List Round) (c : Copy)
      → IsReporting size c
      → Holds (IsReporting size) (IsReporting size) (copy_loop p rs c)
  unfolding copy_loop
  loop-IsReporting [] c h = h
  loop-IsReporting (r ∷ rs) c h =
      go (step p r c) refl (step-IsReporting r c h) (λ d k. loop-IsReporting rs d k)
    where
      go :
          (s : Outcome)
          → step p r c ≡ s
          → Holds (IsReporting size) (IsReporting size) s
          → ((d : Copy)
              → IsReporting size d
              → Holds (IsReporting size) (IsReporting size) (copy_loop p rs d))
          → Holds (IsReporting size) (IsReporting size) (copy_loop p (r ∷ rs) c)
      go (running d) e k rest = rw (e, copy_loop) (rest d k)
      go (finished d) e k rest = rw (e, copy_loop) k
      go (failed x) e k rest = rw (e, copy_loop) tt

-- Every report that the callback is given, however a copy runs, divides by no zero, names the size
-- of the file, and its copied and remaining bytes add up to that size.
pub copy-IsReporting :
    (p : Settings) (f : Files) (rate : ℤ) (copy_start last : ℕ) (rs : List Round)
    → Holds
        (IsReporting (length f.content))
        (IsReporting (length f.content))
        (token_bucket_copy p f rate copy_start last rs)
unfolding token_bucket_copy
copy-IsReporting p f rate copy_start last rs = go (prepare p f rate copy_start last) refl
  where
    size : ℕ
    size = length f.content

    go :
        (d : Result Copy)
        → prepare p f rate copy_start last ≡ d
        → Holds (IsReporting size) (IsReporting size) (run_from p rs d)
    go (raise e) h = tt
    go (ok c) h =
        let (pos_chunk, same) = prepare-eq-ok p f rate copy_start last c h in
        loop-IsReporting p size rs c (
          subst (IsReporting size) same
            (record { faithful = tt; began = omega arith; file = refl; within = omega arith }))
