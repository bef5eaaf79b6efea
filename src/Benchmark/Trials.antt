-- ===== src/Benchmark/Trials.antt =====
-- `RunWorkload` puts the threads' latencies together, `MedianAcrossTrials` the trials.
use mvcc_lite.Prelude.{
  ℕ, ◌+◌, ◌/◌, ◌<◌, ◌≡◌, ◌⊎◌, inl, inr, refl, ◌∙◌, List, [], ◌∷◌, map, some, length, length-append,
  u64_mod, u64_add, arith,
}
use mvcc_lite.VersionStore.Defs.{no_stats}
use mvcc_lite.Benchmark.Numbers.{Double}
use mvcc_lite.Benchmark.Sorting.{length-sort}
use mvcc_lite.Benchmark.Stats.{
  LatencyStats, summarize, gather, run_workload, WorkloadResult, median, total_count,
  median_across_trials, no_latencies,
}
use mvcc_lite.Benchmark.Ranks.{
  HasRank, IsSummary, summarize-IsSummary, sorted_exists, sort-HasRank, length-map,
}

module _ (d : Double) where
  -- The operations of all threads.
  abbrev pub measured : List (List d.Value) → ℕ
  measured [] = 0
  measured (v ∷ rest) = length v + measured rest

  length-gather : (vs : List (List d.Value)) → length (gather d vs) ≡ measured vs
  unfolding gather
  length-gather [] = refl
  length-gather (v ∷ rest) = omega (arith, length-append v (gather d rest), length-gather rest)

  -- Statistics of the latencies, all zeros if there are none.
  abbrev pub Reports : List d.Value → d.Value → LatencyStats d.Value → Type 0
  Reports xs wall s = ((xs ≡ []) × (s ≡ no_latencies d)) ⊎ IsSummary d xs wall s

  summarize-Reports :
      (xs : List d.Value) (wall : d.Value)
      → (s : LatencyStats d.Value) × (summarize d xs wall ≡ some s) × Reports xs wall s
  unfolding summarize
  summarize-Reports [] wall = (no_latencies d, refl, inl (refl, refl))
  summarize-Reports (x ∷ xs) wall =
      let (s, e, r) = summarize-IsSummary d (x ∷ xs) wall (omega arith) in (s, e, inr r)

  Reports-count :
      (xs : List d.Value) (wall : d.Value) (s : LatencyStats d.Value)
      → Reports xs wall s
      → s.count ≡ length xs
  Reports-count xs wall s (inl (p, q)) = rw (p, q)
  Reports-count xs wall s (inr r) = r.counted

  -- A run always has a result, whatever its threads measured: the statistics of the readers and of
  -- the writers count every operation of every thread of theirs and summarize all their latencies,
  -- and the collector's statistics are zeros.
  pub run_workload-Reports :
      (readers writers : List (List d.Value)) (wall : d.Value)
      → (r : WorkloadResult d.Value) × (run_workload d readers writers wall ≡ some r)
        × (r.reader_stats.count ≡ measured readers)
        × (r.writer_stats.count ≡ measured writers)
        × Reports (gather d readers) wall r.reader_stats
        × Reports (gather d writers) wall r.writer_stats
        × (r.gc_stats ≡ no_stats)
  unfolding run_workload
  run_workload-Reports readers writers wall =
      let (s, e, p) = summarize-Reports (gather d readers) wall in
      let (s', e', p') = summarize-Reports (gather d writers) wall in
      (
        record { reader_stats = s; writer_stats = s'; gc_stats = no_stats },
        simp (e, e'),
        Reports-count (gather d readers) wall s p ∙ length-gather readers,
        Reports-count (gather d writers) wall s' p' ∙ length-gather writers,
        p,
        p',
        refl,
      )

  -- A middle value: at least half of the values are at most it, at least half are at least it.
  abbrev pub IsMedian : List d.Value → d.Value → Type 0
  IsMedian xs v = HasRank d (length xs / 2) xs v

  median-IsMedian :
      (xs : List d.Value) → 0 < length xs → (v : d.Value) × (median d xs ≡ some v) × IsMedian xs v
  unfolding median
  median-IsMedian xs p =
      let (v, e) = sorted_exists d xs (length xs / 2) (omega arith) in
      (v, rw (length-sort d xs) e, sort-HasRank d xs (length xs / 2) v e)

  abbrev pub operations : List (LatencyStats d.Value) → ℕ
  operations [] = 0
  operations (t ∷ trials) = t.count + operations trials

  total_count_lem :
      (trials : List (LatencyStats d.Value)) (total : ℕ)
      → total + operations trials < u64_mod
      → total_count d trials total ≡ total + operations trials
  unfolding total_count
  total_count_lem [] total p = omega arith
  total_count_lem (t ∷ trials) total p =
      omega (arith, total_count_lem trials (u64_add total t.count) (omega arith))

  -- Each column but the count has a middle value of the trials.
  pub record AreMedians (trials : List (LatencyStats d.Value)) (s : LatencyStats d.Value)
      : Type 0 where
    pub throughput : IsMedian (map (λ t. t.throughput_ops_per_sec) trials) s.throughput_ops_per_sec
    pub p50 : IsMedian (map (λ t. t.p50_us) trials) s.p50_us
    pub p95 : IsMedian (map (λ t. t.p95_us) trials) s.p95_us
    pub p99 : IsMedian (map (λ t. t.p99_us) trials) s.p99_us
    pub max_us : IsMedian (map (λ t. t.max_us) trials) s.max_us

  -- The summary of some trials has these, and the mean of the counts.
  pub record IsAggregate (trials : List (LatencyStats d.Value)) (s : LatencyStats d.Value)
      : Type 0 where
    pub counted : s.count ≡ operations trials / length trials
    pub medians : AreMedians trials s

  column :
      (f : LatencyStats d.Value → d.Value) (trials : List (LatencyStats d.Value))
      → 0 < length trials
      → (v : d.Value) × (median d (map f trials) ≡ some v) × IsMedian (map f trials) v
  column f trials p = median-IsMedian (map f trials) (omega (arith, length-map f trials))

  -- No trial is left out, and no index is outside a column.
  pub median_across_trials_exists :
      (trials : List (LatencyStats d.Value))
      → 0 < length trials
      → (s : LatencyStats d.Value) × (median_across_trials d trials ≡ some s)
        × (s.count ≡ total_count d trials 0 / length trials)
        × AreMedians trials s
  unfolding median_across_trials
  median_across_trials_exists [] p = absurd (omega arith)
  median_across_trials_exists (t ∷ ts) p =
      let trials : List (LatencyStats d.Value) = t ∷ ts in
      let (a, ea, ma) = column (λ t. t.throughput_ops_per_sec) trials p in
      let (b, eb, mb) = column (λ t. t.p50_us) trials p in
      let (c, ec, mc) = column (λ t. t.p95_us) trials p in
      let (x, ex, mx) = column (λ t. t.p99_us) trials p in
      let (y, ey, my) = column (λ t. t.max_us) trials p in
      (
        record {
          count = total_count d trials 0 / length trials;
          throughput_ops_per_sec = a;
          p50_us = b;
          p95_us = c;
          p99_us = x;
          max_us = y;
        },
        simp (ea, eb, ec, ex, ey) (ground arith),
        refl,
        record { throughput = ma; p50 = mb; p95 = mc; p99 = mx; max_us = my },
      )

  -- The aggregate of at least one trial exists, and if the operations of all trials together fit into
  -- 64 bits it has their mean number, rounded down, and in each other column a middle value of the
  -- trials.
  pub median_across_trials-IsAggregate :
      (trials : List (LatencyStats d.Value))
      → 0 < length trials
      → operations trials < u64_mod
      → (s : LatencyStats d.Value) × (median_across_trials d trials ≡ some s) × IsAggregate trials s
  median_across_trials-IsAggregate trials p q =
      let (s, e, counted, medians) = median_across_trials_exists trials p in
      let same : total_count d trials 0 ≡ operations trials =
        omega (arith, total_count_lem trials 0 (omega arith)) in
      (s, e, record { counted = rw same at counted; medians = medians })
