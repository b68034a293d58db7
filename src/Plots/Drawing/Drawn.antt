-- ===== src/Plots/Drawing/Drawn.antt =====
-- That src/backup/plot_migrater_metrics.py draws whatever src/migrater/server.py prints.
use ca_project.Common.{
  ℕ, ◌≡◌, refl, ap, ◌∙◌, true, Option, none, some, List, [], ◌∷◌, ◌++◌, All, map, length, select,
  get_last?, ok, ◌>>=◌, bind_assoc, arith,
}
use ca_project.Float.{Float, nought, of_nat, sum, max_from}
use ca_project.Float.Laws.{IsOrdered}
use ca_project.Float.Folds.{divide_pos}
use ca_project.Migrater.Log.{Entry}
use ca_project.Plots.Metrics.{Metrics, parse_migrater_metrics}
use ca_project.Plots.Metrics.ReadBack.{HasBytes, print_log, shown, time_of, rate_of, read_back}
use ca_project.Plots.Drawing.{
  last_of, given, final_bytes, limit_of, Summary, step_post, Figure, make_step_series,
  plot_performance, throughput_of, print_summary, plot_if_any, draw_metrics, draw_log,
}

last_of-cons {ℓ} : {A : Type ℓ} (x : A) (xs : List A) → (z : A) × (last_of (x ∷ xs) ≡ ok z)
last_of-cons x [] = (x, refl)
last_of-cons x (y ∷ xs) = last_of-cons y xs

module _ {F : Type 0} ⦃o : Float F⦄ (laws : IsOrdered F) where
  throughput_of-ok : (rs : List F) → (t : Option (F × F)) × (throughput_of rs ≡ ok t)
  unfolding throughput_of
  throughput_of-ok [] = (none, refl)
  throughput_of-ok (r ∷ rs) =
      let count : F = of_nat (length (r ∷ rs)) in
      (
        some (o.div (sum (r ∷ rs)) count, max_from r rs),
        rw
            (divide_pos laws (sum (r ∷ rs)) count
              (laws.decimal_pos (length (r ∷ rs)) 0 (omega arith)))
            refl,
      )

  -- metrics of at least one line
  module _ (a b : F) (x y : List F) (m : Metrics F) where
    abbrev some_metrics : Metrics F
    some_metrics = record m { time = a ∷ x; effective_rate_mib = b ∷ y }

    summarises :
        (s : Summary F) × (print_summary some_metrics ≡ ok (some s))
        × (last_of (a ∷ x) ≡ ok s.monitored)
    unfolding print_summary
    summarises =
        let (z, last) = last_of-cons a x in
        let (t, rates) = throughput_of-ok (select (λ rate. o.lt nought rate) (b ∷ y)) in
        (
          record {
            monitored = z;
            throughput = t;
            copied =
                final_bytes (get_last? (given m.copied_bytes)) (get_last? (given m.total_bytes));
          },
          rw (last, rates) refl,
          last,
        )

    plots :
        (interval z : F)
        → last_of (a ∷ x) ≡ ok z
        → (f : Figure F) × (w : F) × (plot_if_any interval some_metrics ≡ ok (some f))
          × (f.x_step ≡ (a ∷ x) ++ o.add z interval ∷ [])
          × (last_of (b ∷ y) ≡ ok w)
          × (f.y_step ≡ (b ∷ y) ++ w ∷ [])
          × (f.style ≡ step_post)
    unfolding plot_if_any plot_performance make_step_series
    plots interval z last =
        let (w, last_rate) = last_of-cons b y in
        (
          record {
            style = step_post;
            x_step = (a ∷ x) ++ o.add z interval ∷ [];
            y_step = (b ∷ y) ++ w ∷ [];
            y_limit = limit_of (b ∷ y);
          },
          w,
          rw (last, last_rate) refl,
          refl,
          last_rate,
          refl,
          refl,
        )

    draws :
        (interval : F)
        → (s : Summary F) × (f : Figure F) × (w : F) × (draw_metrics interval some_metrics
            ≡ ok (some s, some f))
          × (last_of (a ∷ x) ≡ ok s.monitored)
          × (last_of (b ∷ y) ≡ ok w)
          × (f.x_step ≡ (a ∷ x) ++ o.add s.monitored interval ∷ [])
          × (f.y_step ≡ (b ∷ y) ++ w ∷ [])
          × (f.style ≡ step_post)
    draws interval =
        let (s, printed, last) = summarises in
        let (f, w, plotted, along, last_rate, up, joined) = plots interval s.monitored last in
        (s, f, w, rw (printed, plotted) refl, last, last_rate, along, up, joined)

  module _ (hundredths units : F → ℕ) where
    -- The script raises nothing on the log of a migrater: from what it prints with any heartbeats, of
    -- which there is at least one, the summary and the curve come out. The summary gives the time of
    -- the last line, and the curve has a step for each line, with one more point, an interval after
    -- the last and as high. No report is on an empty file, and the log file is there; the floats
    -- meet the laws of order.
    pub draw_log-print_log :
        (interval : F) (e : Entry F) (es : List (Entry F))
        → All (HasBytes hundredths units) (e ∷ es)
        → (s : Summary F) × (f : Figure F) × (w : F) × ((print_log hundredths units (e ∷ es)
              >>= draw_log true interval)
            ≡ ok (some s, some f))
          × (last_of (shown hundredths units (e ∷ es)).time ≡ ok s.monitored)
          × (last_of (shown hundredths units (e ∷ es)).effective_rate_mib ≡ ok w)
          × (f.x_step ≡ (shown hundredths units (e ∷ es)).time ++ o.add s.monitored interval ∷ [])
          × (f.y_step ≡ (shown hundredths units (e ∷ es)).effective_rate_mib ++ w ∷ [])
          × (f.style ≡ step_post)
    unfolding draw_log
    draw_log-print_log interval e es h =
        let m = shown hundredths units (e ∷ es) in
        let start : F = time_of hundredths units e in
        let (s, f, w, drawn, at_last, rate, along, up, joined) =
          draws (o.sub start start) (rate_of hundredths units e)
            (map (λ d. o.sub (time_of hundredths units d) start) es)
            (map (rate_of hundredths units) es) m interval in
        (
          s,
          f,
          w,
          bind_assoc (print_log hundredths units (e ∷ es)) (parse_migrater_metrics interval)
                (draw_metrics interval)
              ∙ ap (λ r. r >>= draw_metrics interval)
                  (read_back hundredths units interval (e ∷ es) h)
              ∙ drawn,
          at_last,
          rate,
          along,
          up,
          joined,
        )
