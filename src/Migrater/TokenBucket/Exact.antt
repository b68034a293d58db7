-- ===== src/Migrater/TokenBucket/Exact.antt =====
-- What is written is what is read: the copy is exact.
use mathlib.Core.Path.{subst}
use mathlib.Core.List.{append-nil, append_assoc}
use ca_project.Common.{
  ℕ, zero, suc, ◌<◌, ◌≡◌, refl, sym, ap, ◌∙◌, Bool, true, false, List, [], ◌∷◌, ◌++◌, length, take,
  drop, Result, ok, raise, arith, take-drop, length-append,
}
use ca_project.Common.Int.{ℤ}
use ca_project.Migrater.TokenBucket.Steps.{
  maybe_report-IsReported, raises, breaks, pauses, starves, transfers, step_case, prepare-eq-ok,
}
use ca_project.Migrater.TokenBucket.{
  Settings, Round, Copy, Outcome, running, finished, failed, refill, maybe_report, transfer, paused,
  starved, step, copy_loop, Files, prepare, token_bucket_copy, run_from,
}

pub take-nil {ℓ} : {A : Type ℓ} (n : ℕ) (xs : List A) → 0 < n → take n xs ≡ [] → xs ≡ []
take-nil zero xs h e = absurd (omega arith)
take-nil (suc n) [] h e = refl
take-nil (suc n) (x ∷ xs) h e = cc

-- The target holds what has been read of `content`, and the counter says how much that is.
pub record IsExact (content : List ℕ) (c : Copy) : Type 0 where
  pub total : c.file_size ≡ length content
  pub split : c.dst ++ c.src ≡ content
  pub counted : c.bytes_copied ≡ length c.dst

-- What an outcome says of the copy.
abbrev pub Holds : (Copy → Type 0) → (Copy → Type 0) → Outcome → Type 0
Holds P Q (running c) = P c
Holds P Q (finished c) = Q c
Holds P Q (failed e) = Unit

module _ (p : Settings) where
  module _ (content : List ℕ) where
    report-IsExact :
        (force : Bool) (r : Round) (c : Copy)
        → IsExact content c
        → IsExact content (maybe_report p force r c)
    report-IsExact force r c h =
        let same = maybe_report-IsReported p force r c in
        record {
          total = same.file_size ∙ h.total;
          split = rw (same.src, same.dst) h.split;
          counted = rw (same.bytes_copied, same.dst) h.counted;
        }

    -- At the end all has been read.
    abbrev pub IsDone : Copy → Type 0
    IsDone c = IsExact content c × (c.src ≡ [])

    transfer-IsExact :
        (tokens : ℕ) (r : Round) (c : Copy) (block : List ℕ)
        → block ≡ take p.chunk_size c.src
        → 0 < p.chunk_size
        → IsExact content c
        → Holds (IsExact content) IsDone (transfer p tokens r c block)
    unfolding transfer
    transfer-IsExact tokens r c [] e pos_chunk h =
        let same = maybe_report-IsReported p true r (record c { last = r.now; tokens = tokens }) in
        (
          report-IsExact true r _
              (record { total = h.total; split = h.split; counted = h.counted }),
          same.src ∙ take-nil p.chunk_size c.src pos_chunk (sym e),
        )
    transfer-IsExact tokens r c (b ∷ bs) e pos_chunk h = report-IsExact false r _ (record {
      total = h.total;
      split =
          append_assoc c.dst (b ∷ bs) (drop p.chunk_size c.src)
          ∙ ap (λ xs. c.dst ++ xs)
              (ap (λ xs. xs ++ drop p.chunk_size c.src) e ∙ take-drop p.chunk_size c.src)
          ∙ h.split;
      counted = omega (arith, h.counted, length-append c.dst (b ∷ bs));
    })

    pub step-IsExact :
        (r : Round) (c : Copy)
        → 0 < p.chunk_size
        → IsExact content c
        → Holds (IsExact content) IsDone (step p r c)
    unfolding paused starved
    step-IsExact r c pos_chunk h = elim (step_case p r c) [
      | raises n e q ↦ rw q tt
      | breaks n e bad q ↦ rw q tt
      | pauses e q ↦
          let d =
            report-IsExact true r (record c { last = r.now; tokens = 0 })
              (record { total = h.total; split = h.split; counted = h.counted }) in
          rw q (record { total = d.total; split = d.split; counted = d.counted })
      | starves n e few q ↦
          let d =
            report-IsExact false r (record c { last = r.now; tokens = refill p (suc n) r c })
              (record { total = h.total; split = h.split; counted = h.counted }) in
          rw q (record { total = d.total; split = d.split; counted = d.counted })
      | transfers n e many q ↦
          rw q
            (transfer-IsExact (refill p (suc n) r c) r c (take p.chunk_size c.src) refl pos_chunk h)
    ]

    loop-IsExact :
        (rs : List Round) (c : Copy)
        → 0 < p.chunk_size
        → IsExact content c
        → Holds (IsExact content) IsDone (copy_loop p rs c)
    unfolding copy_loop
    loop-IsExact [] c pos_chunk h = h
    loop-IsExact (r ∷ rs) c pos_chunk h =
        go (step p r c) refl (step-IsExact r c pos_chunk h) (λ d k. loop-IsExact rs d pos_chunk k)
      where
        go :
            (s : Outcome)
            → step p r c ≡ s
            → Holds (IsExact content) IsDone s
            → ((d : Copy) → IsExact content d → Holds (IsExact content) IsDone (copy_loop p rs d))
            → Holds (IsExact content) IsDone (copy_loop p (r ∷ rs) c)
        go (running d) e k rest = rw (e, copy_loop) (rest d k)
        go (finished d) e k rest = rw (e, copy_loop) k
        go (failed x) e k rest = rw (e, copy_loop) tt

  -- Whatever the clock and the throughput do, what is on the target is a prefix of the source, as
  -- long as the copy runs; when it returns, the target is the source, and the counter is its size.
  pub copy_exact :
      (f : Files) (rate : ℤ) (copy_start last : ℕ) (rs : List Round)
      → Holds
          (λ c. (c.dst ++ c.src ≡ f.content) × (c.bytes_copied ≡ length c.dst))
          (λ c. (c.dst ≡ f.content) × (c.bytes_copied ≡ length f.content))
          (token_bucket_copy p f rate copy_start last rs)
  unfolding token_bucket_copy
  copy_exact f rate copy_start last rs = go (prepare p f rate copy_start last) refl
    where
      content : List ℕ
      content = f.content

      ends :
          (o : Outcome)
          → Holds (IsExact content) (IsDone content) o
          → Holds
              (λ c. (c.dst ++ c.src ≡ content) × (c.bytes_copied ≡ length c.dst))
              (λ c. (c.dst ≡ content) × (c.bytes_copied ≡ length content))
              o
      ends (running c) h = (h.split, h.counted)
      ends (finished c) h =
          let whole : c.dst ≡ content =
            sym (append-nil c.dst) ∙ ap (λ xs. c.dst ++ xs) (sym h.1) ∙ h.0.split in
          (whole, h.0.counted ∙ ap length whole)
      ends (failed e) h = tt

      go :
          (d : Result Copy)
          → prepare p f rate copy_start last ≡ d
          → Holds
              (λ c. (c.dst ++ c.src ≡ content) × (c.bytes_copied ≡ length c.dst))
              (λ c. (c.dst ≡ content) × (c.bytes_copied ≡ length content))
              (run_from p rs d)
      go (raise e) h = tt
      go (ok c) h =
          let (pos_chunk, same) = prepare-eq-ok p f rate copy_start last c h in
          ends (copy_loop p rs c) (
            loop-IsExact content rs c pos_chunk (
              subst (IsExact content) same (record { total = refl; split = refl; counted = refl })))
