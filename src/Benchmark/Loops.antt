-- ===== src/Benchmark/Loops.antt =====
-- The threads of `RunWorkload`, which add to their own vectors until they see `stop`, and the
-- collector of `RunMVCCWorkload`. A schedule says which thread came back from its body next, and what
-- the body measured.
use mvcc_lite.Prelude.{
  false, ◌∙◌, ℕ, zero, suc, ◌+◌, ◌<◌, ◌≡◌, refl, List, [], ◌∷◌, Option, none, some, Bool,
  if◌then◌else◌, push_back, length, length-append, arith,
}
use mvcc_lite.VersionStore.Defs.{no_stats}
use mvcc_lite.Transaction.{Engine}
use mvcc_lite.GarbageCollector.{
  GarbageCollector, init, start_background, stop_background, cumulative_stats,
}
use mvcc_lite.GarbageCollector.Background.{IsValid, stop_background-Stopped}
use mvcc_lite.Benchmark.Numbers.{Double}
use mvcc_lite.Benchmark.Stats.{◌>>=◌, WorkloadResult, run_workload, gather}
use mvcc_lite.Benchmark.Trials.{measured, Reports, run_workload-Reports}

module _ {ℓ} {V : Type ℓ} where
  -- `std::vector<std::vector<double>>(n)`
  unfoldable pub vectors : ℕ → List (List V)
  vectors zero = []
  vectors (suc n) = [] ∷ vectors n

  -- `lat.push_back(...)` of thread `i`. There is no other thread than these.
  unfoldable pub push_latency : ℕ → V → List (List V) → List (List V)
  push_latency i x [] = []
  push_latency zero x (v ∷ vs) = push_back v x ∷ vs
  push_latency (suc i) x (v ∷ vs) = v ∷ push_latency i x vs

  unfoldable pub run_threads : List (ℕ × V) → List (List V) → List (List V)
  unfolding push_latency
  run_threads [] vs = vs
  run_threads ((i, x) ∷ schedule) vs = run_threads schedule (push_latency i x vs)

  -- The threads of the schedule are among the first `n`.
  abbrev pub AllAmong : ℕ → List (ℕ × V) → Type 0
  AllAmong n [] = Unit
  AllAmong n ((i, x) ∷ schedule) = (i < n) × AllAmong n schedule

-- The start of `RunMVCCWorkload`.
unfoldable pub start_gc : Bool → Option GarbageCollector
start_gc enable_gc = if enable_gc then some (start_background init) else none

-- The end of it.
unfoldable pub finish_gc :
    {V : Type 0}
    → ℕ
    → Engine
    → Option GarbageCollector
    → WorkloadResult V
    → Option (Engine × WorkloadResult V)
finish_gc {V} fuel e none result = some (e, result)
finish_gc {V} fuel e (some gc) result = do
  (e', stopped) ← stop_background fuel e gc
  some (e', record result { gc_stats = cumulative_stats stopped })

module _ (d : Double) where
  -- `RunWorkload` with its threads.
  unfoldable pub run_scheduled :
      ℕ → ℕ → List (ℕ × d.Value) → List (ℕ × d.Value) → d.Value → Option (WorkloadResult d.Value)
  unfolding run_threads vectors
  run_scheduled num_readers num_writers readers writers wall_seconds =
      run_workload d (run_threads readers (vectors num_readers))
        (run_threads writers (vectors num_writers)) wall_seconds

  length-push_latency :
      (i : ℕ) (x : d.Value) (vs : List (List d.Value)) → length (push_latency i x vs) ≡ length vs
  unfolding push_latency
  length-push_latency i x [] = refl
  length-push_latency zero x (v ∷ vs) = refl
  length-push_latency (suc i) x (v ∷ vs) = omega (arith, length-push_latency i x vs)

  measured-push_latency :
      (i : ℕ) (x : d.Value) (vs : List (List d.Value))
      → i < length vs
      → measured d (push_latency i x vs) ≡ suc (measured d vs)
  unfolding push_latency
  measured-push_latency i x [] p = absurd (omega arith)
  measured-push_latency zero x (v ∷ vs) p = omega (arith, length-append v (x ∷ []))
  measured-push_latency (suc i) x (v ∷ vs) p =
      omega (arith, measured-push_latency i x vs (omega arith))

  measured-run_threads :
      (schedule : List (ℕ × d.Value)) (vs : List (List d.Value))
      → AllAmong (length vs) schedule
      → measured d (run_threads schedule vs) ≡ measured d vs + length schedule
  unfolding run_threads
  measured-run_threads [] vs h = omega arith
  measured-run_threads ((i, x) ∷ schedule) vs h =
      let same = length-push_latency i x vs in
      omega (
        arith,
        measured-push_latency i x vs h.0,
        measured-run_threads schedule (push_latency i x vs) (rw same h.1),
      )

  vectors_lem : (n : ℕ) → (length (vectors {V = d.Value} n) ≡ n) × (measured d (vectors n) ≡ 0)
  unfolding vectors
  vectors_lem zero = (refl, refl)
  vectors_lem (suc n) = omega (arith, vectors_lem n)

  measured_scheduled :
      (n : ℕ) (schedule : List (ℕ × d.Value))
      → AllAmong n schedule
      → measured d (run_threads schedule (vectors n)) ≡ length schedule
  measured_scheduled n schedule h =
      let (all, nothing) = vectors_lem n in
      omega (arith, nothing, measured-run_threads schedule (vectors n) (rw all h))

  -- However the threads take turns until they see `stop`, the run has a result that counts every call
  -- of every thread, the readers' and the writers' apart, summarizes what these measured, and leaves
  -- the statistics of the collector at zero.
  pub run_scheduled-Reports :
      (num_readers num_writers : ℕ) (readers writers : List (ℕ × d.Value)) (wall : d.Value)
      → AllAmong num_readers readers
      → AllAmong num_writers writers
      → (r : WorkloadResult d.Value) × (run_scheduled num_readers num_writers readers writers wall
          ≡ some r)
        × (r.reader_stats.count ≡ length readers)
        × (r.writer_stats.count ≡ length writers)
        × Reports d (gather d (run_threads readers (vectors num_readers))) wall r.reader_stats
        × Reports d (gather d (run_threads writers (vectors num_writers))) wall r.writer_stats
        × (r.gc_stats ≡ no_stats)
  unfolding run_scheduled
  run_scheduled-Reports num_readers num_writers readers writers wall h h' =
      let vs = run_threads readers (vectors num_readers) in
      let vs' = run_threads writers (vectors num_writers) in
      let (r, e, counted, counted', reports, reports', unused) =
        run_workload-Reports d vs vs' wall in
      (
        r,
        e,
        counted ∙ measured_scheduled num_readers readers h,
        counted' ∙ measured_scheduled num_writers writers h',
        reports,
        reports',
        unused,
      )

-- The end of a run of the MVCC stack is always reached: on a well-formed collector `finish_gc`
-- returns, with the thread of the collector gone, and the statistics that the collector had then are
-- added to the result, which is as it was else.
pub finish_gc-Stopped :
    {V : Type 0} (fuel : ℕ) (e : Engine) (gc : GarbageCollector) (result : WorkloadResult V)
    → IsValid gc
    → (stopped : Engine × GarbageCollector) × (stop_background (suc (suc (suc fuel))) e gc
        ≡ some stopped)
      × (stopped.1.running ≡ false)
      × (stopped.1.background_thread ≡ none)
      × (finish_gc (suc (suc (suc fuel))) e (some gc) result
          ≡ some (stopped.0, record result { gc_stats = stopped.1.cumulative_stats }))
unfolding finish_gc
finish_gc-Stopped {V} fuel e gc result v =
    let (stopped, q, rests, gone) = stop_background-Stopped fuel e gc v in
    (stopped, q, rests, gone, rw q refl)
