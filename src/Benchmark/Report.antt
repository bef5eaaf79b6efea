-- ===== src/Benchmark/Report.antt =====
-- `PrintRow`, `PrintRowWithVariance` and `main`: which lines are printed, and with what. The text of
-- a line is left to `printf`. What happens in a run of a workload is a parameter (`Measured`).
use mvcc_lite.Prelude.{
  ℕ, zero, suc, ◌==◌, nat_key, ltb, String, List, [], ◌∷◌, ◌++◌, map, Option, some, Bool, true,
  false, u64_add, push_back, if◌then◌else◌,
}
use mvcc_lite.VersionStore.Defs.{GcStats, no_stats}
use mvcc_lite.Benchmark.Numbers.{Double}
use mvcc_lite.Benchmark.Runs.{Sample, run_kv_store_workload, run_mvcc_workload}
use mvcc_lite.Benchmark.Stats.{◌>>=◌, LatencyStats, WorkloadResult, median_across_trials}

pub record Scenario : Type 0 where
  pub name : String
  pub readers : ℕ
  pub writers : ℕ

-- The three configurations that a scenario is run in.
pub data Stack : Type 0 where
  kv_store mvcc_without_gc mvcc_with_gc : Stack

-- What is printed in one go: a line, or the text at the beginning (`header`).
pub data Line (V : Type 0) : Type 0 where
  header : Line V
  scenario_line : Scenario → Line V
  stack_line : Stack → Line V
  none_line : (label : String) → Line V
  row_line : (label : String) → LatencyStats V → Line V
  trials_line : (throughputs : List V) → (any_nonzero : Bool) → Line V
  gc_line : GcStats → Line V

abbrev pub k_trials_per_config : ℕ
k_trials_per_config = 3

abbrev pub key_space_size : ℕ
key_space_size = 64

abbrev pub scenarios : List Scenario
scenarios =
    record { name = "Read-heavy (8R/1W)"; readers = 8; writers = 1 }
    ∷ record { name = "Balanced (4R/4W)"; readers = 4; writers = 4 }
    ∷ record { name = "Write-heavy (1R/8W)"; readers = 1; writers = 8 }
    ∷ []

-- `if (trials[i].count > 0) any_nonzero = true;` over the trials.
unfoldable pub any_nonzero {ℓ} : {V : Type ℓ} → (V → ℕ) → List V → Bool → Bool
any_nonzero count [] found = found
any_nonzero count (t ∷ trials) found =
    any_nonzero count trials (if ltb 0 (count t) then true else found)

module _ (d : Double) where
  abbrev pub Stats : Type 0
  Stats = LatencyStats d.Value

  unfoldable pub print_row : String → Stats → Line d.Value
  print_row label s = if s.count == 0 then none_line label else row_line label s

  unfoldable pub print_row_with_variance : String → List Stats → Option (List (Line d.Value))
  unfolding print_row any_nonzero
  print_row_with_variance label trials = do
    agg ← median_across_trials d trials
    some (
        print_row label agg
        ∷ trials_line (map (λ t. t.throughput_ops_per_sec) trials)
            (any_nonzero (λ (t : Stats). t.count) trials false)
        ∷ [])

  -- What the loop over the trials of one configuration collects.
  pub record Trials : Type 0 where
    pub reader_trials : List Stats
    pub writer_trials : List Stats
    pub total_gc : GcStats

  abbrev pub no_trials : Trials
  no_trials = record { reader_trials = []; writer_trials = []; total_gc = no_stats }

  unfoldable pub add_trial : WorkloadResult d.Value → Trials → Trials
  add_trial r acc = record {
    reader_trials = push_back acc.reader_trials r.reader_stats;
    writer_trials = push_back acc.writer_trials r.writer_stats;
    total_gc = record {
      versions_reclaimed = u64_add acc.total_gc.versions_reclaimed r.gc_stats.versions_reclaimed;
      keys_removed = u64_add acc.total_gc.keys_removed r.gc_stats.keys_removed;
    };
  }

  -- The trials from `t` on, of which `n` are left.
  unfoldable pub run_trials : (ℕ → Option (WorkloadResult d.Value)) → ℕ → ℕ → Trials → Option Trials
  unfolding add_trial
  run_trials run zero t acc = some acc
  run_trials run (suc n) t acc = do r ← run t; run_trials run n (suc t) (add_trial r acc)

  -- The totals of the collector are printed where there is one.
  abbrev pub gc_lines : Stack → GcStats → List (Line d.Value)
  gc_lines kv_store total = []
  gc_lines mvcc_without_gc total = []
  gc_lines mvcc_with_gc total = gc_line total ∷ []

  -- One of the three blocks in the body of the loop of `main`.
  unfoldable pub report_stack :
      (Stack → ℕ → Option (WorkloadResult d.Value)) → Stack → Option (List (Line d.Value))
  unfolding print_row_with_variance run_trials
  report_stack run stack = do
    trials ← run_trials (run stack) k_trials_per_config 0 no_trials
    readers ← print_row_with_variance "readers" trials.reader_trials
    writers ← print_row_with_variance "writers" trials.writer_trials
    some (stack_line stack ∷ (readers ++ (writers ++ gc_lines stack trials.total_gc)))

  unfoldable pub report_scenario :
      (Scenario → Stack → ℕ → Option (WorkloadResult d.Value))
      → Scenario
      → Option (List (Line d.Value))
  unfolding report_stack
  report_scenario run sc = do
    kv ← report_stack (run sc) kv_store
    mvcc ← report_stack (run sc) mvcc_without_gc
    gc ← report_stack (run sc) mvcc_with_gc
    some (scenario_line sc ∷ (kv ++ (mvcc ++ gc)))

  unfoldable pub report_scenarios :
      (Scenario → Stack → ℕ → Option (WorkloadResult d.Value))
      → List Scenario
      → Option (List (Line d.Value))
  unfolding report_scenario
  report_scenarios run [] = some []
  report_scenarios run (sc ∷ rest) = do
    lines ← report_scenario run sc
    more ← report_scenarios run rest
    some (lines ++ more)

  -- What happens in one trial: the samples of its threads, and the time that passes.
  pub record Measured : Type 0 where
    pub samples : List (Sample d.Value)
    pub wall_seconds : d.Value

  -- The run of a workload, with `fuel` for the wait in `StopBackground`.
  unfoldable pub run_stack : ℕ → Scenario → Stack → Measured → Option (WorkloadResult d.Value)
  run_stack fuel sc kv_store m = do
    (_, r) ← run_kv_store_workload d sc.readers sc.writers key_space_size m.samples m.wall_seconds
    some r
  run_stack fuel sc mvcc_without_gc m = do
    (_, r) ←
        run_mvcc_workload d sc.readers sc.writers key_space_size fuel false m.samples m.wall_seconds
    some r
  run_stack fuel sc mvcc_with_gc m = do
    (_, r) ←
        run_mvcc_workload d sc.readers sc.writers key_space_size fuel true m.samples m.wall_seconds
    some r

  -- `main` prints these lines and returns 0.
  unfoldable pub main : ℕ → (Scenario → Stack → ℕ → Measured) → Option (List (Line d.Value))
  unfolding report_scenarios run_stack
  main fuel measured = do
    lines ← report_scenarios (λ sc stack t. run_stack fuel sc stack (measured sc stack t)) scenarios
    some (header ∷ lines)
