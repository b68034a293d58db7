-- ===== src/System/Completion.antt =====
-- That a permitted transfer of src/migrater/server.py ends, as its copy of
-- src/migrater/token_bucket.py does.
use ca_project.Common.{ℕ, ◌+◌, ◌*◌, ◌<◌, ◌≡◌, true, false, List, [], ◌∷◌, length}
use mathlib.Core.Path.{subst}
use ca_project.Common.Int.{ℤ, is_negative}
use ca_project.Float.{Float}
use ca_project.Migrater.Service.{
  waiting, over, Migrater, Event, wakes, begins, returns, closes, run,
}
use ca_project.Migrater.Service.Completion.{AreQuiet, OccurIn, steps_complete}
use ca_project.Migrater.TokenBucket.{
  Settings, Round, Copy, Outcome, running, finished, failed, Files, token_bucket_copy,
}
use ca_project.Migrater.TokenBucket.Ends.{AreTimely, full, copy_completes}

-- The steps of the thread of transfer `i`, by what its copy comes to: it returns from the copy only
-- when the copy has ended.
abbrev pub turns_of : {F : Type 0} → ℕ → Outcome → List (Event F)
turns_of i (running c) = wakes i ∷ begins i ∷ []
turns_of i (finished c) = wakes i ∷ begins i ∷ returns i ∷ closes i ∷ []
turns_of i (failed e) = wakes i ∷ begins i ∷ returns i ∷ closes i ∷ []

module _ {F : Type 0} ⦃o : Float F⦄ where
  -- A transfer that is permitted ends, with the whole checkpoint copied, if its thread gets its
  -- turns. The thread takes the steps that its copy allows, in their order, among whatever else
  -- happens but a further report of a checkpoint; it returns from the copy only when the copy has
  -- ended. The copy is of files that open, a chunk is not empty, the first rate is not negative, in
  -- each round the clock has moved on, the rate is above zero and no reading, writing or flushing
  -- fails, and there are enough rounds: for each byte and once more, as many as the tokens of a
  -- chunk. The transfer waits at first.
  pub transfer_completes :
      (p : Settings) (f : Files) (rate : ℤ) (copy_start last : ℕ) (rs : List Round) (i : ℕ)
      (es : List (Event F)) (m : Migrater F)
      → (f.is_file ≡ true) × (f.readable ≡ true) × (f.writable ≡ true)
      → is_negative rate ≡ false
      → 0 < p.chunk_size
      → AreTimely p last rs
      → length f.content * (full p + 1) + full p < length rs
      → m.transfers i ≡ waiting
      → m.transfer_allowed ≡ true
      → AreQuiet es
      → OccurIn (turns_of i (token_bucket_copy p f rate copy_start last rs)) es
      → (d : Copy) × (token_bucket_copy p f rate copy_start last rs ≡ finished d)
        × (d.dst ≡ f.content)
        × ((run es m).transfers i ≡ over)
  transfer_completes p f rate copy_start last rs i es m opens sign positive timely enough waits may
        quiet occur =
      let (d, ends, whole) =
        copy_completes p f rate copy_start last rs opens sign positive timely enough in
      (
        d,
        ends,
        whole,
        steps_complete i es m waits may quiet
            (subst (λ c. OccurIn {A = Event F} (turns_of i c) es) ends occur),
      )
