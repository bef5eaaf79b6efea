-- ===== src/Benchmark/Stats.antt =====
-- `LatencyStats`, `Summarize`, `WorkloadResult`, the part of `RunWorkload` after the join, `Median`
-- and `MedianAcrossTrials`. An index outside a vector is `none`, where C++ says nothing.
use mvcc_lite.Prelude.{
  ℕ, ◌-◌, ◌/◌, ◌==◌, nat_key, List, [], ◌∷◌, ◌++◌, map, Option, none, some, length, get_elem?, back,
  u64_add, if◌then◌else◌,
}
use mvcc_lite.VersionStore.Defs.{GcStats, no_stats}
use mvcc_lite.Benchmark.Numbers.{Double}
use mvcc_lite.Benchmark.Sorting.{sort}

infixl 5 ◌>>=◌
abbrev pub ◌>>=◌ {ℓ κ} : {A : Type ℓ} {B : Type κ} → Option A → (A → Option B) → Option B
◌>>=◌ m f = elim m [ none ↦ none | some a ↦ f a ]

pub record LatencyStats (V : Type 0) : Type 0 where
  pub count : ℕ
  pub throughput_ops_per_sec : V
  pub p50_us : V
  pub p95_us : V
  pub p99_us : V
  pub max_us : V

pub record WorkloadResult (V : Type 0) : Type 0 where
  pub reader_stats : LatencyStats V
  pub writer_stats : LatencyStats V
  pub gc_stats : GcStats

module _ (d : Double) where
  -- The members' initial values.
  abbrev pub no_latencies : LatencyStats d.Value
  no_latencies = record {
    count = 0;
    throughput_ops_per_sec = d.nought;
    p50_us = d.nought;
    p95_us = d.nought;
    p99_us = d.nought;
    max_us = d.nought;
  }

  -- The lambda of `Summarize`, on the sorted vector.
  unfoldable pub percentile : List d.Value → d.Value → Option d.Value
  percentile sorted p = get_elem? sorted (d.portion p (length sorted - 1))

  unfoldable pub summarize : List d.Value → d.Value → Option (LatencyStats d.Value)
  unfolding percentile
  summarize latencies_us wall_seconds =
      let n : ℕ = length latencies_us in
      let sorted : List d.Value = sort d latencies_us in
      if n == 0 then some no_latencies else do
        p50 ← percentile sorted d.p50
        p95 ← percentile sorted d.p95
        p99 ← percentile sorted d.p99
        last ← back sorted
        some record {
          count = n;
          throughput_ops_per_sec =
              if d.le wall_seconds d.nought then d.nought else d.divide (d.of_size n) wall_seconds;
          p50_us = p50;
          p95_us = p95;
          p99_us = p99;
          max_us = last;
        }

  -- The threads' vectors, put together in the order of the threads.
  unfoldable pub gather : List (List d.Value) → List d.Value
  gather [] = []
  gather (v ∷ rest) = v ++ gather rest

  -- `RunWorkload` once the threads have been joined: what they measured and the time that passed
  -- are its input.
  unfoldable pub run_workload :
      List (List d.Value) → List (List d.Value) → d.Value → Option (WorkloadResult d.Value)
  unfolding gather summarize
  run_workload reader_latencies writer_latencies wall_seconds = do
    readers ← summarize (gather reader_latencies) wall_seconds
    writers ← summarize (gather writer_latencies) wall_seconds
    some record { reader_stats = readers; writer_stats = writers; gc_stats = no_stats }

  unfoldable pub median : List d.Value → Option d.Value
  median values = let sorted : List d.Value = sort d values in get_elem? sorted (length sorted / 2)

  unfoldable pub total_count : List (LatencyStats d.Value) → ℕ → ℕ
  total_count [] total = total
  total_count (t ∷ trials) total = total_count trials (u64_add total t.count)

  unfoldable pub median_across_trials : List (LatencyStats d.Value) → Option (LatencyStats d.Value)
  unfolding median total_count
  median_across_trials trials =
      let n : ℕ = length trials in
      if n == 0 then some no_latencies else do
        throughput ← median (map (λ t. t.throughput_ops_per_sec) trials)
        p50 ← median (map (λ t. t.p50_us) trials)
        p95 ← median (map (λ t. t.p95_us) trials)
        p99 ← median (map (λ t. t.p99_us) trials)
        max_us ← median (map (λ t. t.max_us) trials)
        some record {
          count = total_count trials 0 / n;
          throughput_ops_per_sec = throughput;
          p50_us = p50;
          p95_us = p95;
          p99_us = p99;
          max_us = max_us;
        }
