-- ===== src/Benchmark/Rows.antt =====
-- What the lines that the benchmark prints say about the trials.
use native.Mathlib.Nat.{div-lt_iff_lt-mul}
use mvcc_lite.Prelude.{
  ℕ, ◌/◌, ◌≤◌, ◌<◌, ◌≡◌, ◌⊎◌, inl, inr, ltb, ◌==◌, nat_key, List, [], ◌∷◌, map, some, Bool, true,
  false, String, length, u64_mod, arith, Bool-cases, if◌then◌else◌,
}
use mvcc_lite.Benchmark.Numbers.{Double}
use mvcc_lite.Benchmark.Stats.{LatencyStats}
use mvcc_lite.Benchmark.Trials.{operations, IsAggregate, median_across_trials-IsAggregate}
use mvcc_lite.Benchmark.Report.{
  Line, none_line, row_line, trials_line, any_nonzero, print_row, print_row_with_variance,
}

mean_zero : (a n : ℕ) → 0 < n → ((a / n) == 0) ≡ ltb a n
mean_zero a n p =
    let below = div-lt_iff_lt-mul {k = n} {x = a} {y = 1} p in ground (arith, below.0, below.1)

module _ (d : Double) where
  any_nonzero_lem :
      (trials : List (LatencyStats d.Value)) (found : Bool)
      → any_nonzero (λ (t : LatencyStats d.Value). t.count) trials found
        ≡ (if found then true else ltb 0 (operations d trials))
  unfolding any_nonzero
  any_nonzero_lem [] found = ground arith
  any_nonzero_lem (t ∷ trials) found =
      ground (arith, any_nonzero_lem trials (if ltb 0 t.count then true else found))

  -- The two lines that are printed for some trials. The first shows their aggregate, or that there
  -- was nothing to aggregate, which is so if there were fewer operations than trials; the second shows
  -- all throughputs, and that all trials were empty exactly if there were no operations at all.
  pub print_row_with_variance-IsAggregate :
      (label : String) (trials : List (LatencyStats d.Value))
      → 0 < length trials
      → operations d trials < u64_mod
      → (s : LatencyStats d.Value) × (line : Line d.Value) × (print_row_with_variance d label trials
          ≡ some (
              line
              ∷ trials_line
                  (map (λ t. t.throughput_ops_per_sec) trials)
                  (ltb 0 (operations d trials))
              ∷ []))
        × IsAggregate d trials s
        × (((line ≡ none_line label) × (operations d trials < length trials))
            ⊎ ((line ≡ row_line label s) × (length trials ≤ operations d trials)))
  unfolding print_row_with_variance print_row
  print_row_with_variance-IsAggregate label trials p q =
      let (s, e, w) = median_across_trials-IsAggregate d trials p q in
      let shown = mean_zero (operations d trials) (length trials) p in
      (
        s,
        print_row d label s,
        simp (e, any_nonzero_lem trials false),
        w,
        elim (Bool-cases (ltb (operations d trials) (length trials))) [
          | inl few ↦ inl (ground (arith, shown, w.counted), ground arith)
          | inr many ↦ inr (ground (arith, shown, w.counted), ground arith)
        ],
      )
