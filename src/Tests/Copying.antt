-- ===== src/Tests/Copying.antt =====
-- Concrete runs for src/migrater/token_bucket.py and src/migrater/progress.py: a file of two
-- bytes, chunks of one, one tick to a second.
use ca_project.Common.{ℕ, ◌+◌, ◌≤◌, ◌≡◌, refl, true, List, [], ◌∷◌, ◌++◌, length, arith}
use ca_project.Common.Int.{pos}
use ca_project.Float.Whole.{whole}
use ca_project.Migrater.Progress.{new_buffer, add_all, pop, latest, pop-add_all}
use ca_project.Migrater.TokenBucket.{
  Settings, Round, Copy, finished, Files, start, copy_loop, token_bucket_copy,
}
use ca_project.Migrater.TokenBucket.Exact.{Holds, copy_exact}
use ca_project.Migrater.TokenBucket.Bucket.{view, Agrees, loop_refines}
use ca_project.Migrater.TokenBucket.Rate.{allowance, spent, loop_rate}
use ca_project.Migrater.TokenBucket.Ends.{AreTimely, copy_completes}
use ca_project.Migrater.TokenBucket.Reports.{IsReporting, copy-IsReporting}

abbrev pub settings : Settings
settings = record { hz = 1; chunk_size = 1; progress_update_interval = 1; reports = true }

abbrev pub files : Files
files = record { is_file = true; readable = true; writable = true; content = 7 ∷ 8 ∷ [] }

-- the round at tick `n`, with a rate of 2
abbrev pub round : ℕ → Round
round n = record {
  now = n;
  rate = pos 2;
  report_now = n;
  report_rate = pos 2;
  wall = n;
  disk = true;
}

abbrev pub rounds : List Round
rounds = round 1 ∷ round 2 ∷ round 3 ∷ round 4 ∷ round 5 ∷ round 6 ∷ []

abbrev numbers : List ℕ
numbers = 1 ∷ 2 ∷ 3 ∷ []

pop-add_all_example :
    ((pop (add_all numbers (new_buffer 2))).0 ≡ latest 2 numbers)
    × (length (pop (add_all numbers (new_buffer 2))).0 ≤ 2)
    × ((pop (add_all numbers (new_buffer 2))).1 ≡ new_buffer 2)
pop-add_all_example = pop-add_all 2 numbers

copy_exact_example :
    Holds
      (λ c. (c.dst ++ c.src ≡ files.content) × (c.bytes_copied ≡ length c.dst))
      (λ c. (c.dst ≡ files.content) × (c.bytes_copied ≡ length files.content))
      (token_bucket_copy settings files (pos 2) 0 0 rounds)
copy_exact_example = copy_exact settings files (pos 2) 0 0 rounds

loop_rate_example :
    Holds
      (λ d.
        spent settings d ≤ spent settings (start files.content 0 0) + allowance settings 0 rounds)
      (λ d.
        spent settings d ≤ spent settings (start files.content 0 0) + allowance settings 0 rounds)
      (copy_loop settings rounds (start files.content 0 0))
loop_rate_example = loop_rate settings rounds (start files.content 0 0)

loop_refines_example :
    Agrees settings rounds
      (view (start files.content 0 0))
      (copy_loop settings rounds (start files.content 0 0))
loop_refines_example = loop_refines settings rounds (start files.content 0 0) (omega arith)

pub timely : AreTimely settings 0 rounds
timely = (
  omega arith,
  omega arith,
  refl,
  (
    omega arith,
    omega arith,
    refl,
    (
      omega arith,
      omega arith,
      refl,
      (
        omega arith,
        omega arith,
        refl,
        (omega arith, omega arith, refl, (omega arith, omega arith, refl, tt)),
      ),
    ),
  ),
)

copy_completes_example :
    (d : Copy) × (token_bucket_copy settings files (pos 2) 0 0 rounds ≡ finished d)
    × (d.dst ≡ files.content)
copy_completes_example =
    copy_completes settings files (pos 2) 0 0 rounds (refl, refl, refl) refl (omega arith) timely
      (omega arith)

copy-IsReporting_example :
    Holds
      (IsReporting (length files.content))
      (IsReporting (length files.content))
      (token_bucket_copy settings files (pos 2) 0 0 rounds)
copy-IsReporting_example = copy-IsReporting settings files (pos 2) 0 0 rounds
