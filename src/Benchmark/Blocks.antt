-- ===== src/Benchmark/Blocks.antt =====
-- The block of lines that `main` prints for one configuration of a scenario.
use mvcc_lite.Prelude.{
  ◌∙◌, ℕ, ◌+◌, ◌≤◌, ◌<◌, ◌≡◌, ◌⊎◌, ltb, List, [], ◌∷◌, map, Option, some, String, length, u64_mod,
  arith,
}
use mvcc_lite.VersionStore.Defs.{GcStats}
use mvcc_lite.Benchmark.Numbers.{Double}
use mvcc_lite.Benchmark.Stats.{LatencyStats, WorkloadResult}
use mvcc_lite.Benchmark.Trials.{operations, IsAggregate}
use mvcc_lite.Benchmark.Report.{
  Stack, Line, stack_line, none_line, row_line, trials_line, Trials, no_trials, add_trial,
  run_trials, gc_lines, report_stack,
}
use mvcc_lite.Benchmark.Rows.{print_row_with_variance-IsAggregate}

-- The statistics of the collector over three trials.
abbrev pub sum_of : GcStats → GcStats → GcStats → GcStats
sum_of a b c = record {
  versions_reclaimed = a.versions_reclaimed + b.versions_reclaimed + c.versions_reclaimed;
  keys_removed = a.keys_removed + b.keys_removed + c.keys_removed;
}

module _ (d : Double) where
  -- The row of some trials: their aggregate, or that there is none, with fewer operations than trials.
  abbrev pub IsRow : String → List (LatencyStats d.Value) → Line d.Value → Type 0
  IsRow label trials line =
      (s : LatencyStats d.Value) × IsAggregate d trials s
      × (((line ≡ none_line label) × (operations d trials < length trials))
          ⊎ ((line ≡ row_line label s) × (length trials ≤ operations d trials)))

  -- The line with the throughput of every trial, and whether there were any operations.
  abbrev pub rates : List (LatencyStats d.Value) → Line d.Value
  rates trials =
      trials_line (map (λ t. t.throughput_ops_per_sec) trials) (ltb 0 (operations d trials))

  module _ (run : Stack → ℕ → Option (WorkloadResult d.Value)) (stack : Stack)
      (r r' r'' : WorkloadResult d.Value) where
    abbrev pub readers_of_three : List (LatencyStats d.Value)
    readers_of_three = r.reader_stats ∷ r'.reader_stats ∷ r''.reader_stats ∷ []

    abbrev pub writers_of_three : List (LatencyStats d.Value)
    writers_of_three = r.writer_stats ∷ r'.writer_stats ∷ r''.writer_stats ∷ []

    trials_lem :
        run stack 0 ≡ some r
        → run stack 1 ≡ some r'
        → run stack 2 ≡ some r''
        → (sum_of r.gc_stats r'.gc_stats r''.gc_stats).versions_reclaimed < u64_mod
        → (sum_of r.gc_stats r'.gc_stats r''.gc_stats).keys_removed < u64_mod
        → run_trials d (run stack) 3 0 (no_trials d)
          ≡ some record {
            reader_trials = readers_of_three;
            writer_trials = writers_of_three;
            total_gc = sum_of r.gc_stats r'.gc_stats r''.gc_stats;
          }
    unfolding run_trials add_trial
    trials_lem e e' e'' p q =
        let all : Trials d = add_trial d r'' (add_trial d r' (add_trial d r (no_trials d))) in
        let found : run_trials d (run stack) 3 0 (no_trials d) ≡ some all = simp (e, e', e'') in
        let versions : all.total_gc.versions_reclaimed
            ≡ (sum_of r.gc_stats r'.gc_stats r''.gc_stats).versions_reclaimed =
          omega arith in
        let keys : all.total_gc.keys_removed
            ≡ (sum_of r.gc_stats r'.gc_stats r''.gc_stats).keys_removed =
          omega arith in
        found ∙ (λ i. some record {
          reader_trials = readers_of_three;
          writer_trials = writers_of_three;
          total_gc = record { versions_reclaimed = versions i; keys_removed = keys i };
        })

    -- The block for one stack shows its three trials, each of which has a result: first the row of the
    -- readers' aggregate and all their throughputs, then the same for the writers, and for the stack
    -- with a collector the sums of what this reclaimed. All counts add up to less than 2^64.
    pub report_stack-Shows :
        run stack 0 ≡ some r
        → run stack 1 ≡ some r'
        → run stack 2 ≡ some r''
        → operations d readers_of_three < u64_mod
        → operations d writers_of_three < u64_mod
        → (sum_of r.gc_stats r'.gc_stats r''.gc_stats).versions_reclaimed < u64_mod
        → (sum_of r.gc_stats r'.gc_stats r''.gc_stats).keys_removed < u64_mod
        → (row row' : Line d.Value) × (report_stack d run stack
            ≡ some (
                stack_line stack
                ∷ row
                ∷ rates readers_of_three
                ∷ row'
                ∷ rates writers_of_three
                ∷ gc_lines d stack (sum_of r.gc_stats r'.gc_stats r''.gc_stats)))
          × IsRow "readers" readers_of_three row
          × IsRow "writers" writers_of_three row'
    unfolding report_stack
    report_stack-Shows e e' e'' p q g g' =
        let (s, row, l, w, shown) =
          print_row_with_variance-IsAggregate d "readers" readers_of_three (omega arith) p in
        let (s', row', l', w', shown') =
          print_row_with_variance-IsAggregate d "writers" writers_of_three (omega arith) q in
        (row, row', simp (trials_lem e e' e'' g g', l, l'), (s, w, shown), (s', w', shown'))
