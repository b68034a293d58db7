-- ===== src/Migrater/Metrics.antt =====
-- The command line of src/migrater/token_bucket.py: one copy with a fixed throughput, and what it
-- measures. How long the copy took, or its exception, is a parameter; the paths, the machine and the
-- date are left out.
use ca_project.Common.{
  ℕ, zero, suc, Bool, true, false, Result, ok, raise, assertion_error, zero_division_error, ◌>>=◌,
  ◌≡◌, arith,
}
use ca_project.Common.Int.{ℤ, pos, negsuc}
use ca_project.Float.{Float, of_nat, nought, of_int, divide}
use ca_project.Float.Laws.{IsOrdered}
use ca_project.Float.Folds.{divide_pos}

pub record Metrics (F : Type 0) : Type 0 where
  pub file_size_bytes : ℕ
  pub throughput_bytes_per_second : ℤ
  pub chunk_size_bytes : ℕ
  pub expected_time_seconds : F
  pub actual_time_seconds : F
  pub expected_effective_throughput_bytes_per_second : F
  pub actual_effective_throughput_bytes_per_second : F
  pub time_ratio_actual_expected : F
  pub throughput_ratio_actual_expected : F
  pub dry_run : Bool

module _ {F : Type 0} ⦃o : Float F⦄ where
  -- `assert throughput > 0`, and the quotient
  unfoldable pub expected_copy_time : ℕ → ℤ → Result F
  expected_copy_time file_size (negsuc n) = raise assertion_error
  expected_copy_time file_size (pos zero) = raise assertion_error
  expected_copy_time file_size (pos (suc n)) = divide (of_nat file_size) (of_nat (suc n))

  unfoldable pub build_metrics : ℕ → ℤ → ℕ → F → F → Bool → Result (Metrics F)
  build_metrics file_size throughput chunk_size expected_time actual_time dry_run = do
    expected ← divide (of_nat file_size) expected_time
    actual ← divide (of_nat file_size) actual_time
    time_ratio ← divide actual_time expected_time
    ratio ← divide actual expected
    ok (record {
      file_size_bytes = file_size;
      throughput_bytes_per_second = throughput;
      chunk_size_bytes = chunk_size;
      expected_time_seconds = expected_time;
      actual_time_seconds = actual_time;
      expected_effective_throughput_bytes_per_second = expected;
      actual_effective_throughput_bytes_per_second = actual;
      time_ratio_actual_expected = time_ratio;
      throughput_ratio_actual_expected = ratio;
      dry_run = dry_run;
    })

  -- `actual_time`: of a dry run, what 95% of the throughput would take
  unfoldable pub actual_copy_time : Bool → ℕ → ℤ → Result F → Result F
  actual_copy_time true file_size throughput took =
      divide (of_nat file_size) (o.mul (of_int throughput) (o.decimal 95 2))
  actual_copy_time false file_size throughput took = took

  -- the `__main__` block up to the printing
  unfoldable pub measure : ℕ → ℤ → ℕ → Bool → Result F → Result (Metrics F)
  measure file_size throughput chunk_size dry_run took = do
    expected_time ← expected_copy_time file_size throughput
    actual_time ← actual_copy_time dry_run file_size throughput took
    build_metrics file_size throughput chunk_size expected_time actual_time dry_run

  -- For an empty file, the command line ends by a ZeroDivisionError, in a dry run or after a copy
  -- that has succeeded, at any throughput above zero. A quotient of zero is zero.
  -- The floats meet the laws of order.
  pub empty_file_fails :
      IsOrdered F
      → (n chunk_size : ℕ) (dry_run : Bool) (took : F)
      → o.eq (o.div nought (of_nat (suc n))) nought ≡ true
      → measure 0 (pos (suc n)) chunk_size dry_run (ok took) ≡ raise zero_division_error
  unfolding measure expected_copy_time actual_copy_time build_metrics
  empty_file_fails laws n chunk_size true took zero_quotient =
      rw (divide_pos laws nought (of_nat (suc n)) (laws.decimal_pos (suc n) 0 (omega arith)))
        (ground arith)
  empty_file_fails laws n chunk_size false took zero_quotient =
      rw (divide_pos laws nought (of_nat (suc n)) (laws.decimal_pos (suc n) 0 (omega arith)))
        (ground arith)
