-- ===== src/Tests/Plotting.antt =====
-- Concrete runs for the plotting scripts of src/backup: an idle heartbeat, then one of a transfer.
use ca_project.Plots.Drawing.{last_of, Summary, step_post, linear, Figure, draw_log, draw_ratio}
use ca_project.Plots.Drawing.Alike.{scripts_share_points}
use ca_project.Plots.Drawing.Drawn.{draw_log-print_log}
use ca_project.Common.{
  ◌++◌, ◌+◌, ℕ, ◌*◌, ◌≡◌, true, false, none, some, List, [], ◌∷◌, ok, ◌>>=◌, All, arith,
}
use ca_project.Common.Int.{pos}
use ca_project.Float.Whole.{whole, whole-IsOrdered}
use ca_project.Migrater.Progress.{Progress}
use ca_project.Migrater.Log.{Entry}
use ca_project.Plots.Metrics.{parse_migrater_metrics}
use ca_project.Plots.Metrics.ReadBack.{HasBytes, print_log, shown, read_back}

abbrev report : Progress
report = record {
  timestamp = record { over = 8; under = 1 };
  bytes_copied = 50;
  total_bytes = 200;
  remaining_bytes = 150;
  interval_seconds = record { over = 1; under = 1 };
  interval_throughput_bps = record { over = 50; under = 1 };
  average_throughput_bps = record { over = 50; under = 1 };
  configured_rate_bps = pos 60;
  chunk_size_bytes = 10;
}

abbrev entries : List (Entry ℕ)
entries =
    record {
      latest = none;
      time = 5;
      migrating = false;
      pending = 200;
      epoch = pos 1;
      total_epochs = pos 9;
    }
    ∷ record {
      latest = some report;
      time = 9;
      migrating = true;
      pending = 200;
      epoch = pos 1;
      total_epochs = pos 9;
    }
    ∷ []

abbrev hundredths : ℕ → ℕ
hundredths n = n * 100

abbrev units : ℕ → ℕ
units n = n

entries-HasBytes : All (HasBytes hundredths units) entries
entries-HasBytes = (tt, (omega arith, tt))

read_back_example :
    (print_log hundredths units entries >>= parse_migrater_metrics 1)
    ≡ ok (shown hundredths units entries)
read_back_example = read_back hundredths units 1 entries entries-HasBytes

abbrev idle_line : Entry ℕ
idle_line = record {
  latest = none;
  time = 5;
  migrating = false;
  pending = 200;
  epoch = pos 1;
  total_epochs = pos 9;
}

draw_log-print_log_example :
    (s : Summary ℕ) × (f : Figure ℕ) × (w : ℕ) × ((print_log hundredths units (idle_line ∷ entries)
        >>= draw_log true 1)
      ≡ ok (some s, some f))
    × (last_of (shown hundredths units (idle_line ∷ entries)).time ≡ ok s.monitored)
    × (last_of (shown hundredths units (idle_line ∷ entries)).effective_rate_mib ≡ ok w)
    × (f.x_step ≡ (shown hundredths units (idle_line ∷ entries)).time ++ (s.monitored + 1) ∷ [])
    × (f.y_step ≡ (shown hundredths units (idle_line ∷ entries)).effective_rate_mib ++ w ∷ [])
    × (f.style ≡ step_post)
draw_log-print_log_example =
    draw_log-print_log whole-IsOrdered hundredths units 1 idle_line entries (tt, entries-HasBytes)

scripts_share_points_example :
    (s : Summary ℕ) × (f : Figure ℕ) × (g : Figure ℕ) × (w : ℕ) × ((print_log hundredths units
          (idle_line ∷ entries)
        >>= draw_log true 1)
      ≡ ok (some s, some f))
    × ((print_log hundredths units (idle_line ∷ entries) >>= draw_ratio)
        ≡ ok (some (s.monitored, g)))
    × (last_of g.y_step ≡ ok w)
    × (f.x_step ≡ g.x_step ++ (s.monitored + 1) ∷ [])
    × (f.y_step ≡ g.y_step ++ w ∷ [])
    × (f.style ≡ step_post)
    × (g.style ≡ linear)
scripts_share_points_example =
    scripts_share_points whole-IsOrdered hundredths units 1 idle_line entries (tt, entries-HasBytes)
