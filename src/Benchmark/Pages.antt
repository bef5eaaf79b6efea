-- ===== src/Benchmark/Pages.antt =====
-- What `main` prints, over all runs of the workloads.
use mvcc_lite.Prelude.{
  suc, ℕ, ◌+◌, ◌*◌, ◌<◌, ◌≡◌, refl, nat_key, List, [], ◌∷◌, ◌++◌, Option, some, true, false, String,
  length, length-append, u64_mod, arith,
}
use mvcc_lite.VersionStore.Defs.{GcStats}
use mvcc_lite.Benchmark.Numbers.{Double}
use mvcc_lite.Benchmark.Stats.{◌>>=◌, LatencyStats, WorkloadResult}
use mvcc_lite.Benchmark.Trials.{median_across_trials_exists}
use mvcc_lite.Benchmark.Loops.{AllAmong}
use mvcc_lite.Benchmark.Runs.{readers_of, writers_of}
use mvcc_lite.Benchmark.Outcome.{
  run_mvcc_workload-Balances, run_kv_store_workload-run_mvcc_workload,
}
use mvcc_lite.Benchmark.Report.{
  add_trial, Measured, run_stack, key_space_size, Scenario, Stack, kv_store, mvcc_without_gc,
  mvcc_with_gc, Line, scenarios, print_row_with_variance, Trials, no_trials, run_trials, gc_lines,
  report_stack, report_scenario, report_scenarios, main,
}

abbrev pub AllScenarios : (Scenario → Type 0) → List Scenario → Type 0
AllScenarios P [] = Unit
AllScenarios P (sc ∷ scs) = P sc × AllScenarios P scs

AllScenarios-map :
    (P Q : Scenario → Type 0) (scs : List Scenario)
    → ((sc : Scenario) → P sc → Q sc)
    → AllScenarios P scs
    → AllScenarios Q scs
AllScenarios-map P Q [] f h = tt
AllScenarios-map P Q (sc ∷ scs) f h = (f sc h.0, AllScenarios-map P Q scs f h.1)

module _ (d : Double) where
  -- A call that prints `n` lines, and reads no vector out of range before.
  abbrev pub Prints : ℕ → Option (List (Line d.Value)) → Type 0
  Prints n o = (lines : List (Line d.Value)) × (o ≡ some lines) × (length lines ≡ n)

  bind-Prints :
      (n k : ℕ) (o : Option (List (Line d.Value)))
      (f : List (Line d.Value) → Option (List (Line d.Value)))
      → Prints n o
      → ((lines : List (Line d.Value)) → length lines ≡ n → Prints k (f lines))
      → Prints k (o >>= f)
  bind-Prints n k o f (lines, e, l) h = rw e (h lines l)

  print_row_with_variance-Prints :
      (label : String) (trials : List (LatencyStats d.Value))
      → 0 < length trials
      → Prints 2 (print_row_with_variance d label trials)
  unfolding print_row_with_variance
  print_row_with_variance-Prints label trials p =
      let (s, e, _, _) = median_across_trials_exists d trials p in rw e (_, refl, refl)

  -- Only the stack with a collector has a line about it.
  gc_count : Stack → ℕ
  gc_count kv_store = 0
  gc_count mvcc_without_gc = 0
  gc_count mvcc_with_gc = 1

  length-gc_lines :
      (stack : Stack) (total : GcStats) → length (gc_lines d stack total) ≡ gc_count stack
  unfolding gc_count
  length-gc_lines kv_store total = refl
  length-gc_lines mvcc_without_gc total = refl
  length-gc_lines mvcc_with_gc total = refl

  -- A run that has a result.
  abbrev Runs : Option (WorkloadResult d.Value) → Type 0
  Runs o = (r : WorkloadResult d.Value) × (o ≡ some r)

  trials_exist :
      (run : ℕ → Option (WorkloadResult d.Value))
      → ((t : ℕ) → Runs (run t))
      → (acc : Trials d) × (run_trials d run 3 0 (no_trials d) ≡ some acc)
        × (length acc.reader_trials ≡ 3)
        × (length acc.writer_trials ≡ 3)
  unfolding run_trials add_trial
  trials_exist run h =
      let (r, e) = h 0 in
      let (r', e') = h 1 in
      let (r'', e'') = h 2 in
      (
        add_trial d r'' (add_trial d r' (add_trial d r (no_trials d))),
        simp (e, e', e''),
        refl,
        refl,
      )

  report_stack-Prints :
      (run : Stack → ℕ → Option (WorkloadResult d.Value)) (stack : Stack)
      → ((t : ℕ) → Runs (run stack t))
      → Prints (5 + gc_count stack) (report_stack d run stack)
  unfolding report_stack
  report_stack-Prints run stack h =
      let (all, e, lr', lw') = trials_exist (run stack) h in
      rw e (
        bind-Prints 2 (5 + gc_count stack) _ _
          (print_row_with_variance-Prints "readers" all.reader_trials (omega (arith, lr')))
          (λ readers lr.
            bind-Prints 2 (5 + gc_count stack) _ _
              (print_row_with_variance-Prints "writers" all.writer_trials (omega (arith, lw')))
              (λ writers lw. (
                _,
                refl,
                omega (
                  arith,
                  lr,
                  lw,
                  length-gc_lines stack all.total_gc,
                  length-append readers (writers ++ gc_lines d stack all.total_gc),
                  length-append writers (gc_lines d stack all.total_gc),
                ),
              ))))

  report_scenario-Prints :
      (run : Scenario → Stack → ℕ → Option (WorkloadResult d.Value)) (sc : Scenario)
      → ((stack : Stack) (t : ℕ) → Runs (run sc stack t))
      → Prints 17 (report_scenario d run sc)
  unfolding report_scenario gc_count
  report_scenario-Prints run sc h =
      bind-Prints 5 17 _ _ (report_stack-Prints (run sc) kv_store (h kv_store)) (λ kv lk.
        bind-Prints 5 17 _ _ (report_stack-Prints (run sc) mvcc_without_gc (h mvcc_without_gc))
          (λ mvcc lm.
            bind-Prints 6 17 _ _ (report_stack-Prints (run sc) mvcc_with_gc (h mvcc_with_gc))
              (λ gc lg. (
                _,
                refl,
                omega (arith, lk, lm, lg, length-append kv (mvcc ++ gc), length-append mvcc gc),
              ))))

  report_scenarios-Prints :
      (run : Scenario → Stack → ℕ → Option (WorkloadResult d.Value)) (scs : List Scenario)
      → AllScenarios (λ sc. (stack : Stack) (t : ℕ) → Runs (run sc stack t)) scs
      → Prints (17 * length scs) (report_scenarios d run scs)
  unfolding report_scenarios
  report_scenarios-Prints run [] h = ([], refl, omega arith)
  report_scenarios-Prints run (sc ∷ scs) h =
      bind-Prints 17 (17 * length (sc ∷ scs)) _ _ (report_scenario-Prints run sc h.0) (λ lines l.
        bind-Prints (17 * length scs) (17 * length (sc ∷ scs)) _ _
          (report_scenarios-Prints run scs h.1)
          (λ more m. (_, refl, omega (arith, l, m, length-append lines more))))

  -- The samples of a trial fit the scenario: their threads are those of the scenario, and they fit
  -- into 64 bits with the keys.
  abbrev pub Fits : Scenario → Measured d → Type 0
  Fits sc m =
      AllAmong sc.readers (readers_of m.samples)
      × AllAmong sc.writers (writers_of m.samples)
      × (key_space_size + length m.samples + 1 < u64_mod)

  run_stack-Runs :
      (fuel : ℕ) (sc : Scenario) (stack : Stack) (m : Measured d)
      → Fits sc m
      → Runs (run_stack d (suc (suc (suc fuel))) sc stack m)
  unfolding run_stack
  run_stack-Runs fuel sc kv_store m (h, h', p) =
      let (kv, _, q, _, _, _, _) =
        run_kv_store_workload-run_mvcc_workload d sc.readers sc.writers key_space_size fuel false
          m.samples m.wall_seconds h h' p in
      rw q (kv.1, refl)
  run_stack-Runs fuel sc mvcc_without_gc m (h, h', p) =
      let (mvcc, q, _, _, _) =
        run_mvcc_workload-Balances d sc.readers sc.writers key_space_size fuel false m.samples
          m.wall_seconds h h' p in
      rw q (mvcc.1, refl)
  run_stack-Runs fuel sc mvcc_with_gc m (h, h', p) =
      let (mvcc, q, _, _, _) =
        run_mvcc_workload-Balances d sc.readers sc.writers key_space_size fuel true m.samples
          m.wall_seconds h h' p in
      rw q (mvcc.1, refl)

  -- The benchmark comes to its end: whatever happens in the trials, in samples that fit the three
  -- scenarios and with three rounds for the stop of a collector, `main` reads no vector out of range
  -- and prints as many lines as there are with a header and, for each scenario, its title, five lines
  -- for each stack, and one about the collector.
  pub main-Prints :
      (fuel : ℕ) (measured : Scenario → Stack → ℕ → Measured d)
      → AllScenarios (λ sc. (stack : Stack) (t : ℕ) → Fits sc (measured sc stack t)) scenarios
      → Prints (1 + 3 * (1 + 3 * 5 + 1)) (main d (suc (suc (suc fuel))) measured)
  unfolding main
  main-Prints fuel measured h =
      bind-Prints 51 52 _ _
        (report_scenarios-Prints
          (λ sc stack t. run_stack d (suc (suc (suc fuel))) sc stack (measured sc stack t))
          scenarios
          (AllScenarios-map (λ sc. (stack : Stack) (t : ℕ) → Fits sc (measured sc stack t))
            (λ sc.
              (stack : Stack) (t : ℕ)
              → Runs (run_stack d (suc (suc (suc fuel))) sc stack (measured sc stack t)))
            scenarios
            (λ sc g stack t. run_stack-Runs fuel sc stack (measured sc stack t) (g stack t)) h))
        (λ lines l. (_, refl, omega (arith, l)))
