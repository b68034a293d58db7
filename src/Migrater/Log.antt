-- ===== src/Migrater/Log.antt =====
-- The line that `stream` of src/migrater/server.py prints with each heartbeat, as codes.
use ca_project.Common.{
  ℕ, Bool, true, false, Option, none, some, List, [], ◌∷◌, ◌++◌, ◌==◌, if◌then◌else◌, Result, ok,
  raise, zero_division_error,
}
use ca_project.Common.Int.{ℤ, pos}
use ca_project.Common.Text.{codes}
use ca_project.Common.Numerals.{show_nat, show_int, fixed2}
use ca_project.Float.{Float, of_nat}
use ca_project.Migrater.Progress.{Progress}
use ca_project.Migrater.Service.{to_float}

-- what the generator knows where it prints: the newest report, the wall clock, the two readings of
-- its state and the epochs
pub record Entry (F : Type 0) : Type 0 where
  pub latest : Option Progress
  pub time : F
  pub migrating : Bool
  pub pending : ℕ
  pub epoch : ℤ
  pub total_epochs : ℤ

abbrev pub show_bool : Bool → List ℕ
show_bool true = codes "True"
show_bool false = codes "False"

-- the parts of a text, then its end
abbrev pub join : List (List ℕ) → List ℕ → List ℕ
join [] end = end
join (part ∷ parts) end = part ++ join parts end

-- A line, where `end` is what follows the pending bytes.
abbrev pub line : ℕ → Bool → ℤ → ℤ → ℤ → ℕ → ℕ → List ℕ → List ℕ
line timestamp migrating epoch total_epochs configured rate pending end =
    join
      (codes "[migrater] timestamp="
        ∷ fixed2 timestamp
        ∷ codes ", migrating="
        ∷ show_bool migrating
        ∷ codes ", epoch="
        ∷ show_int epoch
        ∷ codes ", total_epochs="
        ∷ show_int total_epochs
        ∷ codes ", configured="
        ∷ show_int configured
        ∷ codes " B/s, rate="
        ∷ show_nat rate
        ∷ codes " B/s, pending="
        ∷ show_nat pending
        ∷ codes " bytes"
        ∷ [])
      end

abbrev pub copied_part : ℕ → ℕ → ℕ → List ℕ → List ℕ
copied_part percentage copied total = join (
    codes " (["
    ∷ fixed2 percentage
    ∷ codes "%] "
    ∷ show_nat copied
    ∷ codes "/"
    ∷ show_nat total
    ∷ codes " bytes copied)"
    ∷ [])

module _ {F : Type 0} ⦃o : Float F⦄ where
  -- `(bytes_copied / total_bytes) * 100`
  abbrev pub percentage : Progress → F
  percentage item = o.mul (o.div (of_nat item.bytes_copied) (of_nat item.total_bytes)) (of_nat 100)

  -- `instant_rate`
  abbrev pub instant_rate : Bool → Progress → F
  instant_rate migrating item =
      if migrating then to_float item.interval_throughput_bps else o.decimal 0 1

-- What Python's format makes of a float that is not negative: `hundredths` is the number that `:.2f`
-- prints, in hundredths, and `units` the one that `:.0f` prints.
module _ {F : Type 0} ⦃o : Float F⦄ (hundredths units : F → ℕ) where
  -- One `print`, with the end of the line.
  unfoldable pub print_heartbeat : Entry F → Result (List ℕ)
  print_heartbeat e = elim e.latest [
    | none ↦
        ok (
          line (hundredths e.time) e.migrating e.epoch e.total_epochs (pos 0) 0 e.pending (10 ∷ []))
    | some item ↦
        let printed =
          line (hundredths (to_float item.timestamp)) e.migrating e.epoch e.total_epochs
            item.configured_rate_bps (units (instant_rate e.migrating item)) item.remaining_bytes
            (copied_part (hundredths (percentage item)) item.bytes_copied item.total_bytes
              (10 ∷ [])) in
        if item.total_bytes == 0 then raise zero_division_error else ok printed
  ]
