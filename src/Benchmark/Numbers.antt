-- ===== src/Benchmark/Numbers.antt =====
-- `double`, as far as the benchmark uses it on latencies, which are never NaN.
use mvcc_lite.Prelude.{ℕ, ◌≤◌, ◌≡◌, ◌⊎◌, Bool, true}

-- The order is total, and the product of one of the three ratios with a size that was converted
-- rounds to no more than that size, and to no less for a larger ratio.
pub record Double : Type 1 where
  pub Value : Type 0
  pub le : Value → Value → Bool
  pub le_total : (a b : Value) → (le a b ≡ true) ⊎ (le b a ≡ true)
  pub le_trans : (a b c : Value) → le a b ≡ true → le b c ≡ true → le a c ≡ true
  pub nought : Value
  pub of_size : ℕ → Value
  pub divide : Value → Value → Value
  pub p50 : Value
  pub p95 : Value
  pub p99 : Value
  -- `static_cast<size_t>(p * static_cast<double>(m))`
  pub portion : Value → ℕ → ℕ
  pub portion_p50 : (m : ℕ) → portion p50 m ≤ portion p95 m
  pub portion_p95 : (m : ℕ) → portion p95 m ≤ portion p99 m
  pub portion_p99 : (m : ℕ) → portion p99 m ≤ m
