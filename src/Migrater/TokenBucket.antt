-- ===== src/Migrater/TokenBucket.antt =====
-- `token_bucket_copy` of src/migrater/token_bucket.py. The monotonic clock is read in whole ticks,
-- `hz` of them to a second, and `tokens` is kept in units of 1/hz byte, so that elapsed * rate is
-- exact. A file is the list of its bytes. What the clock and the throughput provider return in one
-- round of the loop is that round's `Round`; the loop runs over a list of them, so a proof about all
-- lists is one about every timing.
pub mod Steps
pub mod Exact
pub mod Rate
pub mod Ends
pub mod Reports
pub mod Bucket
pub mod Steady
use ca_project.Common.{
  ℕ, zero, suc, ◌+◌, ◌-◌, ◌*◌, Bool, true, false, not, ◌&&◌, ◌||◌, List, [], ◌∷◌, ◌++◌, length,
  take, drop, ltb, leb, ◌==◌, if◌then◌else◌, min, max, Result, ok, raise, Exception,
  assertion_error, os_error, check, ◌>>=◌, ◌>>◌,
}
use ca_project.Common.Int.{ℤ, pos, negsuc, is_negative, pos_part}
use ca_project.Migrater.Progress.{Ratio, Progress}

-- the arguments of the call, and the ticks of a second
pub record Settings : Type 0 where
  pub hz : ℕ
  pub chunk_size : ℕ
  -- in ticks
  pub progress_update_interval : ℕ
  -- whether there is a callback
  pub reports : Bool

-- One round: the clock and the throughput at its start; where it reports, the clock, the throughput
-- and the wall clock there; and whether what it reads, writes, flushes or syncs succeeds.
pub record Round : Type 0 where
  pub now : ℕ
  pub rate : ℤ
  pub report_now : ℕ
  pub report_rate : ℤ
  pub wall : ℕ
  pub disk : Bool

-- The local variables, what is left to read, what has been written, and, the newest first, what
-- the callback has been given and what `time.sleep` has been asked for.
pub record Copy : Type 0 where
  pub file_size : ℕ
  pub copy_start : ℕ
  pub bytes_copied : ℕ
  pub last_progress_time : ℕ
  pub last_progress_bytes : ℕ
  pub tokens : ℕ
  pub last : ℕ
  pub src : List ℕ
  pub dst : List ℕ
  pub reported : List Progress
  pub slept : List Ratio

pub data Outcome : Type 0 where
  running : Copy → Outcome
  finished : Copy → Outcome
  failed : Exception → Outcome

-- `a if a is not above b else b` on quotients: `min(a, b)`
abbrev pub smaller : Ratio → Ratio → Ratio
smaller a b = if ltb (b.over * a.under) (a.over * b.under) then b else a

abbrev pub pause_sleep : Ratio
pause_sleep = record { over = 5; under = 100 }

abbrev pub longest_sleep : Ratio
longest_sleep = record { over = 1; under = 100 }

abbrev pub sleep : Ratio → Copy → Copy
sleep d c = record c { slept = d ∷ c.slept }

module _ (p : Settings) where
  -- what `maybe_report_progress` hands to the callback
  abbrev pub report : Round → Copy → Progress
  report r c =
      let interval = r.report_now - c.last_progress_time in
      let elapsed_total = r.report_now - c.copy_start in
      record {
        timestamp = record { over = r.wall; under = p.hz };
        bytes_copied = c.bytes_copied;
        total_bytes = c.file_size;
        remaining_bytes = c.file_size - c.bytes_copied;
        interval_seconds = record { over = interval; under = p.hz };
        interval_throughput_bps = record {
          over = (c.bytes_copied - c.last_progress_bytes) * p.hz;
          under = interval;
        };
        average_throughput_bps =
            if ltb 0 elapsed_total
            then record { over = c.bytes_copied * p.hz; under = elapsed_total }
            else record { over = 0; under = 1 };
        configured_rate_bps = r.report_rate;
        chunk_size_bytes = p.chunk_size;
      }

  -- `maybe_report_progress(force)`
  unfoldable pub maybe_report : Bool → Round → Copy → Copy
  maybe_report force r c =
      let interval = r.report_now - c.last_progress_time in
      if not p.reports || (not force && ltb interval p.progress_update_interval) || leb interval 0
      then c
      else record c {
        reported = report r c ∷ c.reported;
        last_progress_time = r.report_now;
        last_progress_bytes = c.bytes_copied;
      }

  -- `capacity = max(rate, chunk_size)`, in the unit of `tokens`
  abbrev pub capacity : ℕ → ℕ
  capacity rate = max rate p.chunk_size * p.hz

  -- `tokens` after the refill and the clamp
  abbrev pub refill : ℕ → Round → Copy → ℕ
  refill rate r c = min (min (capacity rate) (c.tokens + (r.now - c.last) * rate)) (capacity rate)

  -- the end of a round with enough tokens and a disk that works: read, and write or stop
  unfoldable pub transfer : ℕ → Round → Copy → List ℕ → Outcome
  transfer tokens r c [] =
      finished (maybe_report true r (record c { last = r.now; tokens = tokens }))
  transfer tokens r c (b ∷ bs) =
      let block = b ∷ bs in
      running (
        maybe_report false r (record c {
          last = r.now;
          src = drop p.chunk_size c.src;
          dst = c.dst ++ block;
          bytes_copied = c.bytes_copied + length block;
          tokens = tokens - length block * p.hz;
        }))

  unfoldable pub paused : Round → Copy → Copy
  paused r c = sleep pause_sleep (maybe_report true r (record c { last = r.now; tokens = 0 }))

  unfoldable pub starved : ℕ → ℕ → Round → Copy → Copy
  starved rate tokens r c =
      sleep
        (smaller (record { over = p.chunk_size * p.hz - tokens; under = p.hz * rate })
          longest_sleep)
        (maybe_report false r (record c { last = r.now; tokens = tokens }))

  -- one round of the loop
  unfoldable pub step : Round → Copy → Outcome
  unfolding transfer paused starved
  step r c = elim r.rate [
    | negsuc n ↦ failed assertion_error
    | pos zero ↦ running (paused r c)
    | pos (suc n) ↦
        let rate = suc n in
        let tokens = refill rate r c in
        if ltb tokens (p.chunk_size * p.hz)
        then running (starved rate tokens r c)
        else (if r.disk then transfer tokens r c (take p.chunk_size c.src) else failed os_error)
  ]

  -- the loop, as far as the rounds go
  unfoldable pub copy_loop : List Round → Copy → Outcome
  copy_loop [] c = running c
  copy_loop (r ∷ rs) c = elim (step r c) [
    | running c' ↦ copy_loop rs c'
    | finished c' ↦ finished c'
    | failed e ↦ failed e
  ]

-- what the checks before the loop find: the source is a file that opens, the target opens
pub record Files : Type 0 where
  pub is_file : Bool
  pub readable : Bool
  pub writable : Bool
  pub content : List ℕ

-- The state in which the loop starts: the target has been emptied.
abbrev pub start : List ℕ → ℕ → ℕ → Copy
start content copy_start last = record {
  file_size = length content;
  copy_start = copy_start;
  bytes_copied = 0;
  last_progress_time = copy_start;
  last_progress_bytes = 0;
  tokens = 0;
  last = last;
  src = content;
  dst = [];
  reported = [];
  slept = [];
}

-- The checks; `rate` is the first throughput, and the two times are the clock's before the loop.
unfoldable pub prepare : Settings → Files → ℤ → ℕ → ℕ → Result Copy
prepare p f rate copy_start last = do
  check f.is_file os_error
  check f.readable os_error
  check f.writable os_error
  check (not (is_negative rate)) assertion_error
  check (ltb 0 p.chunk_size) assertion_error
  ok (start f.content copy_start last)

abbrev pub run_from : Settings → List Round → Result Copy → Outcome
run_from p rs (ok c) = copy_loop p rs c
run_from p rs (raise e) = failed e

unfoldable pub token_bucket_copy : Settings → Files → ℤ → ℕ → ℕ → List Round → Outcome
token_bucket_copy p f rate copy_start last rs = run_from p rs (prepare p f rate copy_start last)
