-- ===== src/Plots/Ratio/Agreement.antt =====
-- That the two scripts of src/backup read the same from the log of a migrater.
use ca_project.Common.{
  ℕ, ◌≡◌, refl, ap, ◌∙◌, Option, none, some, List, [], ◌∷◌, map, All, arith, Result, ok, ◌>>=◌,
}
use ca_project.Common.Int.{pos}
use ca_project.Float.{Float}
use ca_project.Migrater.Progress.{Progress}
use ca_project.Migrater.Service.{to_float as ratio_to_float}
use ca_project.Migrater.Log.{Entry, line, copied_part, percentage, instant_rate, print_heartbeat}
use ca_project.Plots.Metrics.{Metrics, parse_migrater_metrics}
use ca_project.Plots.Metrics.ReadBack.{
  time_of, rate_of, first_of, HasBytes, print_log, shown, print_log-cons, read_back,
}
use ca_project.Plots.Ratio.{read_lines, parse_migrater_v2}
use ca_project.Plots.Ratio.Lines.{read_lines-line}

module _ {F : Type 0} ⦃o : Float F⦄ (hundredths units : F → ℕ) where
  -- The row of an entry, by a given start, before those of the entries after it.
  abbrev put_entry : F → Entry F → List F × List F → Result (List F × List F)
  put_entry start e rest =
      ok (o.sub (time_of hundredths units e) start ∷ rest.0, rate_of hundredths units e ∷ rest.1)

  -- The entry is printed, and its line is read back.
  abbrev IsRead : Option F → Entry F → Type 0
  IsRead start e =
      let first : F = first_of hundredths units start e in
      (l : List ℕ) × (print_heartbeat hundredths units e ≡ ok l)
      × ((ls : List (List ℕ))
          → read_lines start (l ∷ ls) ≡ (read_lines (some first) ls >>= put_entry first e))

  entry-IsRead :
      (start : Option F) (e : Entry F) (latest : Option Progress)
      → HasBytes hundredths units (record e { latest = latest })
      → IsRead start (record e { latest = latest })
  unfolding print_heartbeat
  entry-IsRead start e none h = (
    line (hundredths e.time) e.migrating e.epoch e.total_epochs (pos 0) 0 e.pending (10 ∷ []),
    refl,
    read_lines-line start (hundredths e.time) e.migrating e.epoch e.total_epochs (pos 0) 0 e.pending
        (10 ∷ []),
  )
  entry-IsRead start e (some item) h =
      let ts = hundredths (ratio_to_float item.timestamp) in
      let rate = units (instant_rate e.migrating item) in
      let end =
        copied_part (hundredths (percentage item)) item.bytes_copied item.total_bytes (10 ∷ []) in
      (
        line ts e.migrating e.epoch e.total_epochs item.configured_rate_bps rate
            item.remaining_bytes end,
        ground arith,
        read_lines-line start ts e.migrating e.epoch e.total_epochs item.configured_rate_bps rate
            item.remaining_bytes end,
      )

  -- what the plot is to show, from a given start on
  abbrev shown_since : F → List (Entry F) → List F × List F
  shown_since start es =
      (map (λ e. o.sub (time_of hundredths units e) start) es, map (rate_of hundredths units) es)

  read_log-cons :
      (start : Option F) (e : Entry F) (es : List (Entry F))
      → IsRead start e
      → let first : F = first_of hundredths units start e in
        (print_log hundredths units es >>= read_lines (some first)) ≡ ok (shown_since first es)
        → (print_log hundredths units (e ∷ es) >>= read_lines start)
          ≡ ok (shown_since first (e ∷ es))
  read_log-cons start e es (l, printed, read) rest =
      let first : F = first_of hundredths units start e in
      print_log-cons hundredths units (List F × List F) (read_lines start) (read_lines (some first))
        (put_entry first e) l e es printed read
      ∙ ap (λ r. r >>= put_entry first e) rest

  read_from :
      (start : F) (es : List (Entry F))
      → All (HasBytes hundredths units) es
      → (print_log hundredths units es >>= read_lines (some start)) ≡ ok (shown_since start es)
  unfolding read_lines
  read_from start [] h = refl
  read_from start (e ∷ es) h =
      read_log-cons (some start) e es (entry-IsRead (some start) e e.latest h.0)
        (read_from start es h.1)

  pub read_log :
      (es : List (Entry F))
      → All (HasBytes hundredths units) es
      → let m = shown hundredths units es in
        (print_log hundredths units es >>= parse_migrater_v2) ≡ ok (m.time, m.effective_rate_mib)
  unfolding read_lines parse_migrater_v2
  read_log [] h = refl
  read_log (e ∷ es) h =
      read_log-cons none e es (entry-IsRead none e e.latest h.0)
        (read_from (time_of hundredths units e) es h.1)

  -- Both scripts plot the same rates at the same times: of what the migrater prints with any
  -- heartbeats, the parser of the ratio plot returns the times and the rates of the other parser,
  -- and both return. No report is on an empty file. The numbers that `:.2f` and `:.0f` print are any
  -- functions of the floats.
  pub parsers_agree :
      (fallback : F) (es : List (Entry F))
      → All (HasBytes hundredths units) es
      → (m : Metrics F) × ((print_log hundredths units es >>= parse_migrater_metrics fallback)
          ≡ ok m)
        × ((print_log hundredths units es >>= parse_migrater_v2)
            ≡ ok (m.time, m.effective_rate_mib))
  parsers_agree fallback es h =
      (shown hundredths units es, read_back hundredths units fallback es h, read_log es h)
