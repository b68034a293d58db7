-- ===== src/Migrater/TokenBucket/Steps.antt =====
-- The cases of one round of the loop, and what a report leaves alone.
use ca_project.Common.{
  ℕ, zero, suc, ◌*◌, ◌≤◌, ◌<◌, ◌≡◌, refl, Bool, true, false, take, ltb, arith, Bool-cases, inl, inr,
}
use ca_project.Common.Int.{ℤ, pos, negsuc}
use ca_project.Migrater.TokenBucket.{
  Settings, Round, Copy, running, failed, refill, maybe_report, transfer, paused, starved, step,
  Files, start, prepare,
}
use ca_project.Common.{assertion_error, os_error, ok}

module _ (p : Settings) where
  -- A report changes only what it is about.
  pub record IsReported (c d : Copy) : Type 0 where
    pub src : d.src ≡ c.src
    pub dst : d.dst ≡ c.dst
    pub bytes_copied : d.bytes_copied ≡ c.bytes_copied
    pub tokens : d.tokens ≡ c.tokens
    pub last : d.last ≡ c.last
    pub file_size : d.file_size ≡ c.file_size
    pub copy_start : d.copy_start ≡ c.copy_start

  pub maybe_report-IsReported :
      (force : Bool) (r : Round) (c : Copy) → IsReported c (maybe_report p force r c)
  unfolding maybe_report
  maybe_report-IsReported force r c = ground arith

  module _ (r : Round) (c : Copy) where
    pub data StepCase : Type 0 where
      raises : (n : ℕ) → r.rate ≡ negsuc n → step p r c ≡ failed assertion_error → StepCase
      pauses : r.rate ≡ pos 0 → step p r c ≡ running (paused p r c) → StepCase
      breaks :
          (n : ℕ) → r.rate ≡ pos (suc n) → r.disk ≡ false → step p r c ≡ failed os_error → StepCase
      starves :
          (n : ℕ)
          → r.rate ≡ pos (suc n)
          → refill p (suc n) r c < p.chunk_size * p.hz
          → step p r c ≡ running (starved p (suc n) (refill p (suc n) r c) r c)
          → StepCase
      transfers :
          (n : ℕ)
          → r.rate ≡ pos (suc n)
          → p.chunk_size * p.hz ≤ refill p (suc n) r c
          → step p r c ≡ transfer p (refill p (suc n) r c) r c (take p.chunk_size c.src)
          → StepCase

    enough : (a b : ℕ) → ltb a b ≡ false → b ≤ a
    enough a b h = ground arith

    below : (a b : ℕ) → ltb a b ≡ true → a < b
    below a b h = ground arith

    pub step_case : StepCase
    unfolding step maybe_report
    step_case = go r.rate refl
      where
        go : (z : ℤ) → r.rate ≡ z → StepCase
        go (negsuc n) e = StepCase.raises n e (rw (e, step))
        go (pos zero) e = StepCase.pauses e (rw (e, step))
        go (pos (suc n)) e = elim (Bool-cases (ltb (refill p (suc n) r c) (p.chunk_size * p.hz))) [
          | inl few ↦ StepCase.starves n e (below _ _ few) (rw (e, step, few))
          | inr many ↦ elim (Bool-cases r.disk) [
            | inl works ↦ StepCase.transfers n e (enough _ _ many) (rw (e, step, many, works))
            | inr bad ↦ StepCase.breaks n e bad (rw (e, step, many, bad))
          ]
        ]

  -- The loop starts with an empty target, if a chunk is not empty.
  pub prepare-eq-ok :
      (f : Files) (rate : ℤ) (copy_start last : ℕ) (c : Copy)
      → prepare p f rate copy_start last ≡ ok c
      → (0 < p.chunk_size) × (start f.content copy_start last ≡ c)
  unfolding prepare
  prepare-eq-ok f rate copy_start last c h = ground arith
