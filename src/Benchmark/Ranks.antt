-- ===== src/Benchmark/Ranks.antt =====
-- What the numbers that the benchmark reports say about the measured latencies.
use mvcc_lite.Prelude.{
  ℕ, zero, suc, ◌+◌, ◌-◌, ◌≤◌, ◌<◌, ◌≡◌, refl, List, [], ◌∷◌, map, some, true, if◌then◌else◌,
  length, get_elem?, back, arith,
}
use mvcc_lite.Benchmark.Numbers.{Double}
use mvcc_lite.Benchmark.Sorting.{
  sort, count, count-sort, sort-IsSorted, length-sort, rank, get_elem?-le,
}
use mvcc_lite.Benchmark.Stats.{LatencyStats, percentile, summarize}

get_elem?_exists {ℓ} :
    {A : Type ℓ} (xs : List A) (i : ℕ) → i < length xs → (a : A) × (get_elem? xs i ≡ some a)
get_elem?_exists [] i p = absurd (omega arith)
get_elem?_exists (x ∷ xs) zero p = (x, refl)
get_elem?_exists (x ∷ xs) (suc i) p = get_elem?_exists xs i (omega arith)

back-get_elem? {ℓ} :
    {A : Type ℓ} (x : A) (xs : List A) → back (x ∷ xs) ≡ get_elem? (x ∷ xs) (length xs)
back-get_elem? x [] = refl
back-get_elem? x (y ∷ xs) = ground (arith, back-get_elem? y xs)

pub length-map {ℓ κ} :
    {A : Type ℓ} {B : Type κ} (f : A → B) (xs : List A) → length (map f xs) ≡ length xs
length-map f [] = refl
length-map f (x ∷ xs) = omega (arith, length-map f xs)

module _ (d : Double) where
  -- The value could stand at the index if the values were in order: more than `i` of them are at
  -- most `v`, and at most `i` of them are less.
  abbrev pub HasRank : ℕ → List d.Value → d.Value → Type 0
  HasRank i xs v = (i < count d (λ x. d.le x v) xs) × (length xs ≤ i + count d (λ x. d.le v x) xs)

  pub sort-HasRank :
      (xs : List d.Value) (i : ℕ) (v : d.Value) → get_elem? (sort d xs) i ≡ some v → HasRank i xs v
  sort-HasRank xs i v e =
      let r = rank d (sort d xs) i v (sort-IsSorted d xs) e in
      (
        rw (count-sort d (λ x. d.le x v) xs) at r.0,
        omega (arith, r.1, count-sort d (λ x. d.le v x) xs, length-sort d xs),
      )

  pub sorted_exists :
      (xs : List d.Value) (i : ℕ)
      → i < length xs
      → (v : d.Value) × (get_elem? (sort d xs) i ≡ some v)
  sorted_exists xs i p = get_elem?_exists (sort d xs) i (omega (arith, length-sort d xs))

  -- The statistics belong to the latencies.
  pub record IsSummary (xs : List d.Value) (wall : d.Value) (s : LatencyStats d.Value)
      : Type 0 where
    pub counted : s.count ≡ length xs
    pub p50_rank : HasRank (d.portion d.p50 (length xs - 1)) xs s.p50_us
    pub p95_rank : HasRank (d.portion d.p95 (length xs - 1)) xs s.p95_us
    pub p99_rank : HasRank (d.portion d.p99 (length xs - 1)) xs s.p99_us
    pub max_rank : HasRank (length xs - 1) xs s.max_us
    pub p50_p95 : d.le s.p50_us s.p95_us ≡ true
    pub p95_p99 : d.le s.p95_us s.p99_us ≡ true
    pub p99_max : d.le s.p99_us s.max_us ≡ true
    pub throughput :
        s.throughput_ops_per_sec
        ≡ (if d.le wall d.nought then d.nought else d.divide (d.of_size (length xs)) wall)

  back-sort :
      (xs : List d.Value) → 0 < length xs → back (sort d xs) ≡ get_elem? (sort d xs) (length xs - 1)
  back-sort xs p = back_last (sort d xs) (length-sort d xs) p
    where
      back_last :
          (ys : List d.Value)
          → length ys ≡ length xs
          → 0 < length xs
          → back ys ≡ get_elem? ys (length xs - 1)
      back_last [] e q = absurd (omega arith)
      back_last (y ∷ ys) e q = rw (← e) (ground (arith, back-get_elem? y ys))

  abbrev stats : ℕ → d.Value → d.Value → d.Value → d.Value → d.Value → LatencyStats d.Value
  stats n wall a b c m = record {
    count = n;
    throughput_ops_per_sec = if d.le wall d.nought then d.nought else d.divide (d.of_size n) wall;
    p50_us = a;
    p95_us = b;
    p99_us = c;
    max_us = m;
  }

  summarize-stats :
      (xs : List d.Value) (wall a b c m : d.Value)
      → 0 < length xs
      → get_elem? (sort d xs) (d.portion d.p50 (length xs - 1)) ≡ some a
      → get_elem? (sort d xs) (d.portion d.p95 (length xs - 1)) ≡ some b
      → get_elem? (sort d xs) (d.portion d.p99 (length xs - 1)) ≡ some c
      → get_elem? (sort d xs) (length xs - 1) ≡ some m
      → summarize d xs wall ≡ some (stats (length xs) wall a b c m)
  unfolding summarize percentile
  summarize-stats [] wall a b c m p ea eb ec em = absurd (omega arith)
  summarize-stats (x ∷ xs) wall a b c m p ea eb ec em =
      simp (length-sort d (x ∷ xs), back-sort (x ∷ xs) p, ea, eb, ec, em) (ground arith)

  -- The summary of at least one latency never reads outside the vector; it counts them, and reports
  -- the maximum and the values at the three ratios' indices of the sorted vector, which do not
  -- decrease from the median to the maximum; the throughput is the quotient of the count and the
  -- time if the time is positive, and zero else.
  pub summarize-IsSummary :
      (xs : List d.Value) (wall : d.Value)
      → 0 < length xs
      → (s : LatencyStats d.Value) × (summarize d xs wall ≡ some s) × IsSummary xs wall s
  summarize-IsSummary xs wall p =
      let n : ℕ = length xs - 1 in
      let same : length (sort d xs) ≡ length xs = length-sort d xs in
      let i = d.portion_p50 n in
      let j = d.portion_p95 n in
      let k = d.portion_p99 n in
      let (a, ea) = sorted_exists xs (d.portion d.p50 n) (omega arith) in
      let (b, eb) = sorted_exists xs (d.portion d.p95 n) (omega arith) in
      let (c, ec) = sorted_exists xs (d.portion d.p99 n) (omega arith) in
      let (m, em) = sorted_exists xs n (omega arith) in
      let sorted = sort-IsSorted d xs in
      (
        stats (length xs) wall a b c m,
        summarize-stats xs wall a b c m p ea eb ec em,
        record {
          counted = refl;
          p50_rank = sort-HasRank xs (d.portion d.p50 n) a ea;
          p95_rank = sort-HasRank xs (d.portion d.p95 n) b eb;
          p99_rank = sort-HasRank xs (d.portion d.p99 n) c ec;
          max_rank = sort-HasRank xs n m em;
          p50_p95 =
              get_elem?-le d (sort d xs) (d.portion d.p50 n) (d.portion d.p95 n) a b sorted i ea eb;
          p95_p99 =
              get_elem?-le d (sort d xs) (d.portion d.p95 n) (d.portion d.p99 n) b c sorted j eb ec;
          p99_max = get_elem?-le d (sort d xs) (d.portion d.p99 n) n c m sorted k ec em;
          throughput = refl;
        },
      )
