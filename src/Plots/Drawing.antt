-- ===== src/Plots/Drawing.antt =====
-- What src/backup/plot_migrater_metrics.py makes of the metrics, the summary that it prints and the
-- curve that it hands to matplotlib, and what src/backup/plot_migrater_ratio.py makes of its points.
-- Titles, labels and the writing of the pictures are not modelled.
pub mod Drawn
pub mod Alike
use ca_project.Common.{
  ℕ, Bool, Option, none, some, List, [], ◌∷◌, ◌++◌, length, select, get_last?, if◌then◌else◌,
  Result, ok, raise, index_error, os_error, check, ◌>>=◌, ◌>>◌,
}
use ca_project.Float.{Float, of_nat, nought, divide, sum, maximum, max_from}
use ca_project.Plots.Ratio.{parse_migrater_v2}
use ca_project.Plots.Metrics.{Metrics, parse_migrater_metrics}

-- `xs[-1]`
abbrev pub last_of {ℓ} : {A : Type ℓ} → List A → Result A
last_of xs = elim (get_last? xs) [ none ↦ raise index_error | some x ↦ ok x ]

-- `[v for v in xs if v is not None]`
abbrev pub given {ℓ} : {A : Type ℓ} → List (Option A) → List A
given [] = []
given (none ∷ xs) = given xs
given (some x ∷ xs) = x ∷ given xs

abbrev pub final_bytes : Option ℕ → Option ℕ → Option (ℕ × ℕ)
final_bytes (some copied) (some total) = some (copied, total)
final_bytes (some copied) none = none
final_bytes none total = none

-- the lines of the summary: the time, the mean and the largest rate, the final bytes
pub record Summary (F : Type 0) : Type 0 where
  pub monitored : F
  pub throughput : Option (F × F)
  pub copied : Option (ℕ × ℕ)

-- `plt.step` with `where="post"`, or `plt.plot`
pub data Style : Type 0 where
  step_post linear : Style

-- the points of the curve, how they are joined, and the upper limit of the axis
pub record Figure (F : Type 0) : Type 0 where
  pub style : Style
  pub x_step : List F
  pub y_step : List F
  pub y_limit : Option F

module _ {F : Type 0} ⦃o : Float F⦄ where
  unfoldable pub make_step_series : F → List F → List F → Result (List F × List F)
  make_step_series interval [] y = ok ([], [])
  make_step_series interval (a ∷ x) y = do
    last_x ← last_of (a ∷ x)
    last_y ← last_of y
    ok ((a ∷ x) ++ o.add last_x interval ∷ [], y ++ last_y ∷ [])

  -- the upper limit of the axis, if one is set
  unfoldable pub limit_of : List F → Option F
  limit_of y = elim (maximum y) [
    | raise e ↦ none
    | ok max_y ↦ if o.lt nought max_y then some (o.mul max_y (o.decimal 12 1)) else none
  ]

  -- `plot_performance`
  unfoldable pub plot_performance : F → Metrics F → Result (Figure F)
  plot_performance interval metrics = do
    series ← make_step_series interval metrics.time metrics.effective_rate_mib
    ok (record {
      style = step_post;
      x_step = series.0;
      y_step = series.1;
      y_limit = limit_of metrics.effective_rate_mib;
    })

  -- the mean and the maximum of the rates above zero, if there are any
  unfoldable pub throughput_of : List F → Result (Option (F × F))
  throughput_of [] = ok none
  throughput_of (r ∷ rs) = do
    mean ← divide (sum (r ∷ rs)) (of_nat (length (r ∷ rs)))
    top ← maximum (r ∷ rs)
    ok (some (mean, top))

  -- `print_summary`; `none` is the message that there is no data
  unfoldable pub print_summary : Metrics F → Result (Option (Summary F))
  print_summary metrics = elim metrics.time [
    | [] ↦ ok none
    | a ∷ x ↦ do
      monitored ← last_of (a ∷ x)
      throughput ← throughput_of (select (λ rate. o.lt nought rate) metrics.effective_rate_mib)
      ok (
          some (record {
            monitored = monitored;
            throughput = throughput;
            copied =
                final_bytes (get_last? (given metrics.copied_bytes))
                  (get_last? (given metrics.total_bytes));
          }))
  ]

  -- `if metrics["time"]: plot_performance(…)`
  unfoldable pub plot_if_any : F → Metrics F → Result (Option (Figure F))
  plot_if_any interval metrics = elim metrics.time [
    | [] ↦ ok none
    | a ∷ x ↦ do figure ← plot_performance interval metrics; ok (some figure)
  ]

  -- what the script does with the metrics
  abbrev pub draw_metrics : F → Metrics F → Result (Option (Summary F) × Option (Figure F))
  draw_metrics heartbeat_interval metrics = do
    summary ← print_summary metrics
    figure ← plot_if_any heartbeat_interval metrics
    ok (summary, figure)

  -- the script, on the lines of a log file that may not be there
  unfoldable pub draw_log :
      Bool → F → List (List ℕ) → Result (Option (Summary F) × Option (Figure F))
  draw_log is_file heartbeat_interval lines = do
    check is_file os_error
    metrics ← parse_migrater_metrics heartbeat_interval lines
    draw_metrics heartbeat_interval metrics

  -- the script of the ratio plot: its limit is set whenever there are rates
  abbrev pub ratio_limit : List F → Option F
  ratio_limit [] = none
  ratio_limit (b ∷ y) = some (o.mul (max_from b y) (o.decimal 12 1))

  abbrev pub draw_points : List F × List F → Result (Option (F × Figure F))
  draw_points ([], y) = ok none
  draw_points (a ∷ x, y) = do
    monitored ← last_of (a ∷ x)
    ok (
        some (
          monitored,
          record { style = linear; x_step = a ∷ x; y_step = y; y_limit = ratio_limit y },
        ))

  unfoldable pub draw_ratio : List (List ℕ) → Result (Option (F × Figure F))
  draw_ratio lines = do points ← parse_migrater_v2 lines; draw_points points
