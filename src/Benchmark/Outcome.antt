-- ===== src/Benchmark/Outcome.antt =====
-- The runs of the two workloads from the fill to the end.
use mvcc_lite.Prelude.{
  ℕ, suc, ◌+◌, ◌<◌, ◌≡◌, refl, ap, ◌∙◌, List, some, Bool, true, false, length, u64_mod, arith,
  String, is_empty, string_key,
}
use mvcc_lite.UnorderedMap.{find}
use mvcc_lite.KvStore as Kv
use mvcc_lite.KvStore.{KvStore}
use mvcc_lite.VersionStore.Defs as StoreDefs
use mvcc_lite.VersionStore.Defs.{no_stats}
use mvcc_lite.VersionStore.{current_version}
use mvcc_lite.VersionStore.Snapshot.{snapshot}
use mvcc_lite.VersionStore.Garbage.{total_versions}
use mvcc_lite.TransactionManager as Manager
use mvcc_lite.Transaction.{Engine}
use mvcc_lite.GarbageCollector.{init, start_background}
use mvcc_lite.GarbageCollector.Background as Background
use mvcc_lite.Benchmark.Numbers.{Double}
use mvcc_lite.Benchmark.Stats.{WorkloadResult}
use mvcc_lite.Benchmark.Workload.{kv_fill, mvcc_fill}
use mvcc_lite.Benchmark.Agreement.{filled-Alike}
use mvcc_lite.Benchmark.Loops.{AllAmong, run_scheduled-Reports, start_gc}
use mvcc_lite.Benchmark.Runs.{
  Sample, readers_of, writers_of, kv_samples, mvcc_samples, run_kv_store_workload,
  run_mvcc_workload,
}
use mvcc_lite.Benchmark.Balance.{IsBalanced, reported_by, fill-total_versions}
use mvcc_lite.Benchmark.Samples.{
  HasValid, samples-HasValid, samples-IsBalanced, finish_gc-IsBalanced,
}

abbrev filled : ℕ → Engine
filled n = record { store = mvcc_fill n 0 StoreDefs.empty; manager = Manager.init }

start_gc_lem :
    (enable_gc : Bool) → HasValid (start_gc enable_gc) × (reported_by (start_gc enable_gc) ≡ 0)
unfolding start_gc
start_gc_lem true = (
  Background.start_background-IsValid init Background.init-IsValid,
  unfold start_background in refl,
)
start_gc_lem false = (tt, refl)

filled-IsBalanced :
    (n room : ℕ) → n + room + 1 < u64_mod → IsBalanced room n 0 (kv_fill n 0 Kv.empty) (filled n)
filled-IsBalanced n room p = record {
  alike = filled-Alike n room p;
  sum =
      unfold total_versions in omega (arith, fill-total_versions n 0 StoreDefs.empty (omega arith));
  fits = omega arith;
}

module _ (d : Double) (num_readers num_writers n fuel : ℕ) (enable_gc : Bool)
    (samples : List (Sample d.Value)) (wall : d.Value)
    (h : AllAmong num_readers (readers_of samples)) (h' : AllAmong num_writers (writers_of samples))
    (p : n + length samples + 1 < u64_mod) where
  -- Both runs come to their ends, with the same statistics, and with the books balanced.
  runs-IsBalanced :
      (kv : KvStore × WorkloadResult d.Value) × (mvcc : Engine × WorkloadResult d.Value)
      × (run_kv_store_workload d num_readers num_writers n samples wall ≡ some kv)
      × (run_mvcc_workload d num_readers num_writers n (suc (suc (suc fuel))) enable_gc samples wall
          ≡ some mvcc)
      × (mvcc.1.reader_stats ≡ kv.1.reader_stats)
      × (mvcc.1.writer_stats ≡ kv.1.writer_stats)
      × (kv.1.reader_stats.count ≡ length (readers_of samples))
      × (kv.1.writer_stats.count ≡ length (writers_of samples))
      × IsBalanced 0
          (n + length (writers_of samples))
          mvcc.1.gc_stats.versions_reclaimed
          kv.0
          mvcc.0
  unfolding run_kv_store_workload run_mvcc_workload
  runs-IsBalanced =
      let (r, q, readers, writers, _, _, unused) =
        run_scheduled-Reports d num_readers num_writers (readers_of samples) (writers_of samples)
          wall h h' in
      let (valid, nothing) = start_gc_lem enable_gc in
      let started = filled-IsBalanced n (length samples) p in
      let ended =
        samples-IsBalanced samples n (kv_fill n 0 Kv.empty) (filled n) (start_gc enable_gc)
          (rw nothing started) in
      let (out, q', same, same', b) =
        finish_gc-IsBalanced fuel (n + length (writers_of samples))
          (kv_samples samples (kv_fill n 0 Kv.empty))
          (mvcc_samples samples (filled n) (start_gc enable_gc)).0
          (mvcc_samples samples (filled n) (start_gc enable_gc)).1 r
          (samples-HasValid samples (filled n) (start_gc enable_gc) valid)
          (ap (λ g. g.versions_reclaimed) unused) ended in
      (
        (kv_samples samples (kv_fill n 0 Kv.empty), r),
        out,
        rw q refl,
        rw q q',
        same,
        same',
        readers,
        writers,
        b,
      )

  -- The books of a run of the MVCC stack in which nothing interrupts a call of a body or a step of the
  -- collector's thread, so that no commit has a conflict. With or without its collector it comes to
  -- its end,
  -- counts every call of its bodies, and the versions that the collector reports as reclaimed make,
  -- with those that the store still holds, one for each key of the fill and one for each call of a
  -- writer. The threads of the samples are those of the run, and keys and samples together fit into
  -- 64 bits.
  pub run_mvcc_workload-Balances :
      (mvcc : Engine × WorkloadResult d.Value) × (run_mvcc_workload d num_readers num_writers n
          (suc (suc (suc fuel)))
          enable_gc
          samples
          wall
        ≡ some mvcc)
      × (mvcc.1.reader_stats.count ≡ length (readers_of samples))
      × (mvcc.1.writer_stats.count ≡ length (writers_of samples))
      × (mvcc.1.gc_stats.versions_reclaimed + total_versions mvcc.0.store.table
          ≡ n + mvcc.1.writer_stats.count)
  run_mvcc_workload-Balances =
      let (kv, mvcc, _, q, readers, writers, counted, counted', b) = runs-IsBalanced in
      let all = ap (λ s. s.count) writers ∙ counted' in
      (mvcc, q, ap (λ s. s.count) readers ∙ counted, all, omega (arith, b.sum, all))

  -- The two stacks over the same samples come to the same end, if nothing interrupts a call of a body
  -- or a step of the collector's thread, so that no commit has a conflict: both runs do, with the same statistics
  -- of the latencies, and every non-empty key has the same current value in both stores, whatever the
  -- collector did on the way. The threads of the samples are those of the run, and keys and samples
  -- together fit into 64 bits.
  pub run_kv_store_workload-run_mvcc_workload :
      (kv : KvStore × WorkloadResult d.Value) × (mvcc : Engine × WorkloadResult d.Value)
      × (run_kv_store_workload d num_readers num_writers n samples wall ≡ some kv)
      × (run_mvcc_workload d num_readers num_writers n (suc (suc (suc fuel))) enable_gc samples wall
          ≡ some mvcc)
      × (mvcc.1.reader_stats ≡ kv.1.reader_stats)
      × (mvcc.1.writer_stats ≡ kv.1.writer_stats)
      × ((key : String)
          → is_empty key ≡ false
          → find key kv.0.table ≡ snapshot mvcc.0.store (current_version mvcc.0.store) key)
  run_kv_store_workload-run_mvcc_workload =
      let (kv, mvcc, q, q', readers, writers, _, _, b) = runs-IsBalanced in
      (kv, mvcc, q, q', readers, writers, b.alike.same)
