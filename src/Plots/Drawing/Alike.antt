-- ===== src/Plots/Drawing/Alike.antt =====
-- The points that the two plotting scripts of src/backup hand to matplotlib.
use ca_project.Common.{
  ℕ, ◌≡◌, refl, ap, ◌∙◌, true, some, List, [], ◌∷◌, ◌++◌, All, ok, ◌>>=◌, bind_assoc,
}
use ca_project.Float.{Float}
use ca_project.Float.Laws.{IsOrdered}
use ca_project.Migrater.Log.{Entry}
use ca_project.Plots.Metrics.ReadBack.{HasBytes, print_log, shown}
use ca_project.Plots.Ratio.{parse_migrater_v2}
use ca_project.Plots.Ratio.Agreement.{read_log}
use ca_project.Plots.Drawing.{
  last_of, ratio_limit, Summary, step_post, linear, Figure, draw_log, draw_points, draw_ratio,
}
use ca_project.Plots.Drawing.Drawn.{draw_log-print_log}

module _ {F : Type 0} ⦃o : Float F⦄ (laws : IsOrdered F) (hundredths units : F → ℕ) where
  -- Both scripts make the same points of one log: from what the migrater prints with any
  -- heartbeats, of which there is at least one, neither raises, they print the same monitored time,
  -- and the points of the metrics script are those of the ratio script with one more, an interval
  -- after the last and as high. The metrics script has them joined as steps, the ratio script by
  -- straight lines; nothing is said of the limits of the axes. No report is on an empty file, and
  -- the log file is there; the floats meet the laws of order.
  pub scripts_share_points :
      (interval : F) (e : Entry F) (es : List (Entry F))
      → All (HasBytes hundredths units) (e ∷ es)
      → (s : Summary F) × (f : Figure F) × (g : Figure F) × (w : F) × ((print_log hundredths units
              (e ∷ es)
            >>= draw_log true interval)
          ≡ ok (some s, some f))
        × ((print_log hundredths units (e ∷ es) >>= draw_ratio) ≡ ok (some (s.monitored, g)))
        × (last_of g.y_step ≡ ok w)
        × (f.x_step ≡ g.x_step ++ o.add s.monitored interval ∷ [])
        × (f.y_step ≡ g.y_step ++ w ∷ [])
        × (f.style ≡ step_post)
        × (g.style ≡ linear)
  unfolding draw_ratio
  scripts_share_points interval e es h =
      let m = shown hundredths units (e ∷ es) in
      let (s, f, w, drawn, at_last, rate, along, up, joined) =
        draw_log-print_log laws hundredths units interval e es h in
      (
        s,
        f,
        record {
          style = linear;
          x_step = m.time;
          y_step = m.effective_rate_mib;
          y_limit = ratio_limit m.effective_rate_mib;
        },
        w,
        drawn,
        bind_assoc (print_log hundredths units (e ∷ es)) parse_migrater_v2 draw_points
            ∙ ap (λ r. r >>= draw_points) (read_log hundredths units (e ∷ es) h)
            ∙ rw at_last refl,
        rate,
        along,
        up,
        joined,
        refl,
      )
