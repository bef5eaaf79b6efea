-- ===== src/Examples/Measurements.antt =====
-- The benchmark's statistics, with whole microseconds in place of doubles.
use mvcc_lite.Prelude.{
  Option, ℕ, ◌+◌, ◌*◌, ◌/◌, ◌≡◌, ◌⊎◌, refl, List, [], ◌∷◌, some, true, leb, arith,
}
use mvcc_lite.Benchmark.Numbers.{Double}
use mvcc_lite.Benchmark.Sorting.{sort, insert}
use mvcc_lite.Benchmark.Stats.{
  no_latencies, LatencyStats, WorkloadResult, summarize, percentile, median,
}
use mvcc_lite.Benchmark.Ranks.{IsSummary, summarize-IsSummary}
use mvcc_lite.Benchmark.Report.{Line, Stack, mvcc_with_gc, stack_line, gc_line, report_stack}
use mvcc_lite.Benchmark.Blocks.{IsRow, rates, report_stack-Shows}
use mvcc_lite.Benchmark.Loops.{run_threads, push_latency, vectors}

pub leb_total : (a b : ℕ) → (leb a b ≡ true) ⊎ (leb b a ≡ true)
leb_total a b = ground arith

pub leb_trans : (a b c : ℕ) → leb a b ≡ true → leb b c ≡ true → leb a c ≡ true
leb_trans a b c p q = ground arith

abbrev pub whole : Double
whole = record {
  Value = ℕ;
  le = leb;
  le_total = leb_total;
  le_trans = leb_trans;
  nought = 0;
  of_size = λ n. n;
  divide = λ a b. a / b;
  p50 = 50;
  p95 = 95;
  p99 = 99;
  portion = λ p m. p * m / 100;
  portion_p50 = λ m. omega arith;
  portion_p95 = λ m. omega arith;
  portion_p99 = λ m. omega arith;
}

abbrev sample : List ℕ
sample = 30 ∷ 10 ∷ 20 ∷ 5 ∷ []

summarize-IsSummary_example :
    (s : LatencyStats ℕ) × (summarize whole sample 2 ≡ some s) × IsSummary whole sample 2 s
summarize-IsSummary_example = summarize-IsSummary whole sample 2 (omega arith)

summarize-sample :
    summarize whole sample 2
    ≡ some record {
      count = 4;
      throughput_ops_per_sec = 2;
      p50_us = 10;
      p95_us = 20;
      p99_us = 20;
      max_us = 30;
    }
unfolding summarize percentile sort insert
summarize-sample = refl

abbrev trial : ℕ → LatencyStats ℕ
trial n = record {
  count = 2 * n;
  throughput_ops_per_sec = n;
  p50_us = 10 + n;
  p95_us = 20;
  p99_us = 30 + 2 * n;
  max_us = 100;
}

median_of_three : median whole (30 ∷ 10 ∷ 20 ∷ []) ≡ some 20
unfolding median sort insert
median_of_three = refl

-- The runs of the three trials, and what their collectors report.
abbrev result_of : ℕ → WorkloadResult ℕ
result_of t = record {
  reader_stats = trial t;
  writer_stats = no_latencies whole;
  gc_stats = record { versions_reclaimed = 10 * t; keys_removed = 0 };
}

abbrev results : Stack → ℕ → Option (WorkloadResult ℕ)
results stack t = some (result_of (5 + t))

report_stack-Shows_example :
    (row row' : Line ℕ) × (report_stack whole results mvcc_with_gc
      ≡ some (
          stack_line mvcc_with_gc
          ∷ row
          ∷ rates whole (trial 5 ∷ trial 6 ∷ trial 7 ∷ [])
          ∷ row'
          ∷ rates whole (no_latencies whole ∷ no_latencies whole ∷ no_latencies whole ∷ [])
          ∷ gc_line (record { versions_reclaimed = 180; keys_removed = 0 })
          ∷ []))
    × IsRow whole "readers" (trial 5 ∷ trial 6 ∷ trial 7 ∷ []) row
    × IsRow whole "writers" (no_latencies whole ∷ no_latencies whole ∷ no_latencies whole ∷ []) row'
report_stack-Shows_example =
    report_stack-Shows whole results mvcc_with_gc (result_of 5) (result_of 6) (result_of 7) refl
      refl refl (omega arith) (omega arith) (omega arith) (omega arith)

-- The second reader comes back from its body twice, the first one once, in between.
abbrev turns_of_readers : List (ℕ × ℕ)
turns_of_readers = (1, 30) ∷ (0, 10) ∷ (1, 20) ∷ []

run_threads-turns : run_threads turns_of_readers (vectors 2) ≡ (10 ∷ []) ∷ (30 ∷ 20 ∷ []) ∷ []
unfolding run_threads push_latency vectors
run_threads-turns = refl
