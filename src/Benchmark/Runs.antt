-- ===== src/Benchmark/Runs.antt =====
-- `RunKVStoreWorkload` and `RunMVCCWorkload`. The input of a run is what its threads do, in the order
-- in which that happens, one call of a body or one step of the collector's thread at a time; the
-- steps of that thread during the fill are left out. The result comes with the store, which the
-- functions destroy when they return.
use mvcc_lite.Prelude.{ℕ, List, [], ◌∷◌, Option, none, some, Bool}
use mvcc_lite.KvStore as Kv
use mvcc_lite.KvStore.{KvStore}
use mvcc_lite.VersionStore.Defs as StoreDefs
use mvcc_lite.TransactionManager as Manager
use mvcc_lite.Transaction.{Engine}
use mvcc_lite.GarbageCollector.{GarbageCollector, thread_step}
use mvcc_lite.Benchmark.Numbers.{Double}
use mvcc_lite.Benchmark.Stats.{◌>>=◌, WorkloadResult}
use mvcc_lite.Benchmark.Workload.{kv_fill, kv_writer, mvcc_fill, mvcc_reader, mvcc_writer}
use mvcc_lite.Benchmark.Loops.{run_scheduled, start_gc, finish_gc}

-- A call of a body by a thread, on a key and with the numbers that its attempts take, and how long it took;
-- or the next step of the thread of the collector.
pub data Sample (V : Type 0) : Type 0 where
  by_reader : (thread key : ℕ) → V → Sample V
  by_writer : (thread key : ℕ) (numbers : ℕ → ℕ) → V → Sample V
  by_collector : Sample V

-- Without a collector nothing comes of its steps.
abbrev pub collector_step : Engine → Option GarbageCollector → Engine × Option GarbageCollector
collector_step e none = (e, none)
collector_step e (some gc) = ((thread_step e gc).0, some (thread_step e gc).1)

module _ {V : Type 0} where
  unfoldable pub readers_of : List (Sample V) → List (ℕ × V)
  readers_of [] = []
  readers_of (by_reader thread key us ∷ samples) = (thread, us) ∷ readers_of samples
  readers_of (by_writer thread key numbers us ∷ samples) = readers_of samples
  readers_of (by_collector ∷ samples) = readers_of samples

  unfoldable pub writers_of : List (Sample V) → List (ℕ × V)
  writers_of [] = []
  writers_of (by_reader thread key us ∷ samples) = writers_of samples
  writers_of (by_writer thread key numbers us ∷ samples) = (thread, us) ∷ writers_of samples
  writers_of (by_collector ∷ samples) = writers_of samples

  -- A reader's `Get` leaves the store as it is.
  unfoldable pub kv_samples : List (Sample V) → KvStore → KvStore
  kv_samples [] s = s
  kv_samples (by_reader thread key us ∷ samples) s = kv_samples samples s
  kv_samples (by_writer thread key numbers us ∷ samples) s =
      kv_samples samples (kv_writer key (numbers 0) s)
  kv_samples (by_collector ∷ samples) s = kv_samples samples s

  unfoldable pub mvcc_samples :
      List (Sample V) → Engine → Option GarbageCollector → Engine × Option GarbageCollector
  mvcc_samples [] e gc = (e, gc)
  mvcc_samples (by_reader thread key us ∷ samples) e gc =
      mvcc_samples samples (mvcc_reader key e).1 gc
  mvcc_samples (by_writer thread key numbers us ∷ samples) e gc =
      mvcc_samples samples (mvcc_writer key numbers e) gc
  mvcc_samples (by_collector ∷ samples) e gc =
      mvcc_samples samples (collector_step e gc).0 (collector_step e gc).1

module _ (d : Double) (num_readers num_writers key_space_size : ℕ) where
  unfoldable pub run_kv_store_workload :
      List (Sample d.Value) → d.Value → Option (KvStore × WorkloadResult d.Value)
  unfolding kv_samples readers_of writers_of
  run_kv_store_workload samples wall_seconds = do
    result ←
        run_scheduled d num_readers num_writers (readers_of samples) (writers_of samples)
          wall_seconds
    some (kv_samples samples (kv_fill key_space_size 0 Kv.empty), result)

  -- `fuel` is for the wait in `StopBackground`.
  unfoldable pub run_mvcc_workload :
      ℕ → Bool → List (Sample d.Value) → d.Value → Option (Engine × WorkloadResult d.Value)
  unfolding mvcc_samples readers_of writers_of
  run_mvcc_workload fuel enable_gc samples wall_seconds =
      let filled : Engine = record {
        store = mvcc_fill key_space_size 0 StoreDefs.empty;
        manager = Manager.init;
      } in
      let (e, gc) = mvcc_samples samples filled (start_gc enable_gc) in
      do
        result ←
            run_scheduled d num_readers num_writers (readers_of samples) (writers_of samples)
              wall_seconds
        finish_gc fuel e gc result
