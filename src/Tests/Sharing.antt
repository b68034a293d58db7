-- ===== src/Tests/Sharing.antt =====
-- A concrete run of two copies under one policy.
use ca_project.Common.{ℕ, ◌+◌, ◌-◌, ◌*◌, ◌≤◌, refl, [], ◌∷◌, All, length, arith, true}
use ca_project.Common.Int.{pos}
use ca_project.Float.Rounding.{Within}
use ca_project.Float.Whole.{whole, whole-IsOrdered, whole-Rounds}
use ca_project.Migrater.TokenBucket.{start}
use ca_project.Migrater.TokenBucket.Rate.{spent}
use ca_project.Migrater.TokenBucket.Steady.{Reaches}
use ca_project.Migrater.Service.{new_migrater}
use ca_project.Orchestrator.Policy.{Policy, active_fair_share, decide}
use ca_project.System.Bandwidth.{
  total, rate_after, Fleet, outcome, after, IsGoverned, fleet-le-bandwidth,
}
use ca_project.Tests.Scheduling.{cluster, cluster-IsRegistry}

abbrev fair : Policy ℕ
fair = active_fair_share 1000

-- at 9 the workers are answered, at 12 the clock is read
abbrev fleet : Fleet ℕ
fleet = record {
  hz = 1;
  settings = λ k. record { hz = 1; chunk_size = 2; progress_update_interval = 1; reports = true };
  copies = λ k. start (7 ∷ 8 ∷ 9 ∷ []) 9 9;
  migraters = new_migrater;
  rounds = λ k.
      record {
        now = 12;
        rate = rate_after (decide fair 9 k cluster.workers) (new_migrater k);
        report_now = 12;
        report_rate = pos 2;
        wall = 12;
        disk = true;
      }
      ∷ [];
}

fleet-IsGoverned : IsGoverned fleet fair 9 cluster.workers 9 12
fleet-IsGoverned = record {
  ticks = λ k. refl;
  begins = λ k. omega arith;
  governed = λ k. (omega arith, refl, refl, omega arith);
  held = λ k e. refl;
}

fleet-le-bandwidth_example :
    All (λ e. Reaches (outcome fleet e.0) (after fleet e.0)) cluster.workers
    × ((joint : ℕ) × Within
          (length cluster.workers + 2)
          (joint * whole-Rounds.unit)
          (whole-Rounds.units 1000)
        × (total (λ k. (after fleet k).bytes_copied * 1) cluster.workers
            ≤ total (λ k. spent (fleet.settings k) (fleet.copies k)) cluster.workers
              + (12 - 9) * joint))
fleet-le-bandwidth_example =
    fleet-le-bandwidth whole-IsOrdered whole-Rounds fleet fair 9 cluster.workers 1000 9 12 tt refl
      refl cluster-IsRegistry.distinct cluster-IsRegistry.named fleet-IsGoverned
