-- ===== src/Plots/Metrics/ReadBack.antt =====
-- That src/backup/plot_migrater_metrics.py reads what src/migrater/server.py prints.
use mathlib.Core.Option.{map as map_option}
use ca_project.Common.{
  ℕ, ◌≡◌, ◌<◌, refl, ◌∙◌, Option, none, some, List, [], ◌∷◌, map, All, arith, Result, ok, raise,
  ◌>>=◌, if◌then◌else◌,
}
use ca_project.Common.Int.{pos}
use ca_project.Float.{Float, of_nat}
use ca_project.Migrater.Progress.{Progress}
use ca_project.Migrater.Service.{to_float as ratio_to_float}
use ca_project.Migrater.Log.{Entry, line, copied_part, percentage, instant_rate, print_heartbeat}
use ca_project.Plots.Metrics.{
  Metrics, no_metrics, bytes_per_mib, parse_lines, parse_migrater_metrics,
}
use ca_project.Plots.Metrics.Rows.{parse_lines-line, add_row-part}
use ca_project.Plots.Metrics.Parts.{part_found, in_part}

module _ {F : Type 0} ⦃o : Float F⦄ (hundredths units : F → ℕ) where
  -- the wall clock of an entry, as it is printed
  abbrev pub time_of : Entry F → F
  time_of e = elim e.latest [
    | none ↦ o.decimal (hundredths e.time) 2
    | some item ↦ o.decimal (hundredths (ratio_to_float item.timestamp)) 2
  ]

  abbrev pub rate_of : Entry F → F
  rate_of e =
      let printed : ℕ = elim e.latest [
        | none ↦ 0
        | some item ↦ units (instant_rate e.migrating item)
      ] in
      if e.migrating then o.div (of_nat printed) bytes_per_mib else o.decimal 0 1

  -- The row of an entry, by a given start, before those of the entries after it.
  abbrev put_entry : F → Entry F → Metrics F → Metrics F
  put_entry start e rest = record {
    time = o.sub (time_of e) start ∷ rest.time;
    effective_rate_mib = rate_of e ∷ rest.effective_rate_mib;
    pending_bytes =
        some (elim e.latest [ none ↦ e.pending | some item ↦ item.remaining_bytes ])
        ∷ rest.pending_bytes;
    copied_bytes = map_option (λ item. item.bytes_copied) e.latest ∷ rest.copied_bytes;
    total_bytes = map_option (λ item. item.total_bytes) e.latest ∷ rest.total_bytes;
    percentages =
        map_option (λ item. o.decimal (hundredths (percentage item)) 2) e.latest ∷ rest.percentages;
  }

  -- What the plot is to show of some heartbeats, from a given start on.
  abbrev pub shown_since : F → List (Entry F) → Metrics F
  shown_since start es = record {
    time = map (λ e. o.sub (time_of e) start) es;
    effective_rate_mib = map rate_of es;
    pending_bytes =
        map (λ e. some (elim e.latest [ none ↦ e.pending | some item ↦ item.remaining_bytes ])) es;
    copied_bytes = map (λ e. map_option (λ item. item.bytes_copied) e.latest) es;
    total_bytes = map (λ e. map_option (λ item. item.total_bytes) e.latest) es;
    percentages =
        map (λ e. map_option (λ item. o.decimal (hundredths (percentage item)) 2) e.latest) es;
  }

  -- The report, if there is one, is on a file that is not empty.
  abbrev pub HasBytes : Entry F → Type 0
  HasBytes e = elim e.latest [ none ↦ Unit | some item ↦ 0 < item.total_bytes ]

  abbrev pub print_log : List (Entry F) → Result (List (List ℕ))
  print_log [] = ok []
  print_log (e ∷ es) = do l ← print_heartbeat hundredths units e; ls ← print_log es; ok (l ∷ ls)

  -- what the plot is to show
  abbrev pub shown : List (Entry F) → Metrics F
  shown [] = no_metrics
  shown (e ∷ es) = shown_since (time_of e) (e ∷ es)

  abbrev pub first_of : Option F → Entry F → F
  first_of start e = elim start [ none ↦ time_of e | some s ↦ s ]

  -- The entry is printed, and its line is read back.
  abbrev IsRead : F → Option F → F → Entry F → Type 0
  IsRead fallback start synthetic e =
      (l : List ℕ) × (print_heartbeat hundredths units e ≡ ok l)
      × ((ls : List (List ℕ))
          → parse_lines fallback start synthetic (l ∷ ls) ≡ (
              parse_lines fallback (some (first_of start e)) synthetic ls
              >>= (λ rest. ok (put_entry (first_of start e) e rest))))

  entry-IsRead :
      (fallback : F) (start : Option F) (synthetic : F) (e : Entry F) (latest : Option Progress)
      → HasBytes (record e { latest = latest })
      → IsRead fallback start synthetic (record e { latest = latest })
  unfolding print_heartbeat
  entry-IsRead fallback start synthetic e none h = (
    line (hundredths e.time) e.migrating e.epoch e.total_epochs (pos 0) 0 e.pending (10 ∷ []),
    refl,
    parse_lines-line fallback start synthetic (hundredths e.time) e.migrating e.epoch e.total_epochs
        (pos 0) 0 e.pending (10 ∷ []) none
        (λ first rest. put_entry first (record e { latest = none }) rest) refl (λ first rest. refl),
  )
  entry-IsRead fallback start synthetic e (some item) h =
      let ts = hundredths (ratio_to_float item.timestamp) in
      let rate = units (instant_rate e.migrating item) in
      let percent = hundredths (percentage item) in
      let end = copied_part percent item.bytes_copied item.total_bytes (10 ∷ []) in
      (
        line ts e.migrating e.epoch e.total_epochs item.configured_rate_bps rate
            item.remaining_bytes end,
        ground arith,
        parse_lines-line fallback start synthetic ts e.migrating e.epoch e.total_epochs
            item.configured_rate_bps rate item.remaining_bytes end
            (some (in_part percent item.bytes_copied item.total_bytes (10 ∷ [])))
            (λ first rest. put_entry first (record e { latest = some item }) rest)
            (part_found percent item.bytes_copied item.total_bytes (10 ∷ []))
            (λ first rest.
              add_row-part (o.sub (o.decimal ts 2) first) _ item.remaining_bytes percent
                item.bytes_copied item.total_bytes (10 ∷ []) rest),
      )

  -- The log of an entry and more is read entry by entry.
  pub print_log-cons :
      (M : Type 0) (read next : List (List ℕ) → Result M) (put : M → Result M) (l : List ℕ)
      (e : Entry F) (es : List (Entry F))
      → print_heartbeat hundredths units e ≡ ok l
      → ((ls : List (List ℕ)) → read (l ∷ ls) ≡ (next ls >>= put))
      → (print_log (e ∷ es) >>= read) ≡ (print_log es >>= next >>= put)
  print_log-cons M read next put l e es printed reads = rw printed (go (print_log es))
    where
      go :
          (lines : Result (List (List ℕ)))
          → (lines >>= (λ ls. ok (l ∷ ls)) >>= read) ≡ (lines >>= next >>= put)
      go (raise x) = refl
      go (ok ls) = reads ls

  parse_log-cons :
      (e : Entry F) (es : List (Entry F)) (fallback : F) (start : Option F) (synthetic : F)
      → IsRead fallback start synthetic e
      → (print_log (e ∷ es) >>= parse_lines fallback start synthetic) ≡ (
          print_log es
          >>= parse_lines fallback (some (first_of start e)) synthetic
          >>= (λ rest. ok (put_entry (first_of start e) e rest)))
  parse_log-cons e es fallback start synthetic (l, printed, read) =
      print_log-cons _ (parse_lines fallback start synthetic)
        (parse_lines fallback (some (first_of start e)) synthetic) _ l e es printed read

  read_since :
      (fallback start synthetic : F) (es : List (Entry F))
      → All HasBytes es
      → (print_log es >>= parse_lines fallback (some start) synthetic) ≡ ok (shown_since start es)
  unfolding parse_lines
  read_since fallback start synthetic [] h = refl
  read_since fallback start synthetic (e ∷ es) h =
      parse_log-cons e es fallback (some start) synthetic
        (entry-IsRead fallback (some start) synthetic e e.latest h.0)
      ∙ rw (read_since fallback start synthetic es h.1) refl

  -- What the migrater prints with its heartbeats is what the plot shows: the lines of any heartbeats
  -- parse without an error, to their times since the first, as printed in hundredths of a second,
  -- to the printed rate in MiB/s where a transfer runs and 0 elsewhere, to the pending bytes, and,
  -- of each with a report, to the copied and the total bytes and the printed percentage. No report
  -- is on an empty file. The numbers that `:.2f` and `:.0f` print are any functions of the floats.
  pub read_back :
      (fallback : F) (es : List (Entry F))
      → All HasBytes es
      → (print_log es >>= parse_migrater_metrics fallback) ≡ ok (shown es)
  unfolding parse_lines parse_migrater_metrics
  read_back fallback [] h = refl
  read_back fallback (e ∷ es) h =
      parse_log-cons e es fallback none (o.decimal 0 1)
        (entry-IsRead fallback none (o.decimal 0 1) e e.latest h.0)
      ∙ rw (read_since fallback (time_of e) (o.decimal 0 1) es h.1) refl
