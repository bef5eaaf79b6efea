-- ===== src/Benchmark/Samples.antt =====
-- The books over the samples of a run, and over the end of it.
use mathlib.Core.Path.{subst}
use mvcc_lite.Prelude.{
  ℕ, suc, ◌+◌, ◌≡◌, refl, List, [], ◌∷◌, Option, none, some, true, false, length, arith, inl, inr,
  Bool-cases, string_key,
}
use mvcc_lite.KvStore.{KvStore}
use mvcc_lite.Transaction.{Engine}
use mvcc_lite.GarbageCollector.{GarbageCollector, stop_background, request_stop}
use mvcc_lite.GarbageCollector.Background as Background
use mvcc_lite.Benchmark.Stats.{WorkloadResult}
use mvcc_lite.Benchmark.Workload.{kv_writer, mvcc_reader, mvcc_writer}
use mvcc_lite.Benchmark.Alike.{narrow}
use mvcc_lite.Benchmark.Turns.{reader-Alike, writer-Alike, mvcc_reader_engine}
use mvcc_lite.Benchmark.Loops.{finish_gc, finish_gc-Stopped}
use mvcc_lite.Benchmark.Runs.{
  Sample, by_reader, by_writer, by_collector, writers_of, kv_samples, collector_step, mvcc_samples,
}
use mvcc_lite.Benchmark.Balance.{
  IsBalanced, reported_by, thread_step-IsBalanced, wait_for_thread-IsBalanced,
  writer-total_versions,
}

reader-IsBalanced :
    (room total reported i : ℕ) (s : KvStore) (e : Engine)
    → IsBalanced (suc room) total reported s e
    → IsBalanced room total reported s (mvcc_reader i e).1
reader-IsBalanced room total reported i s e b = record {
  alike = (reader-Alike room i s e b.alike).1;
  sum = rw (mvcc_reader_engine i e) b.sum;
  fits = omega (arith, b.fits);
}

writer-IsBalanced :
    (room total reported i : ℕ) (numbers : ℕ → ℕ) (s : KvStore) (e : Engine)
    → IsBalanced (suc room) total reported s e
    → IsBalanced room (total + 1) reported (kv_writer i (numbers 0) s) (mvcc_writer i numbers e)
writer-IsBalanced room total reported i numbers s e b = record {
  alike = writer-Alike room i numbers s e b.alike;
  sum = omega (arith, writer-total_versions i numbers e b.alike.valid, b.sum);
  fits = omega (arith, b.fits);
}

narrow-IsBalanced :
    (room total reported : ℕ) (s : KvStore) (e : Engine)
    → IsBalanced (suc room) total reported s e
    → IsBalanced room total reported s e
narrow-IsBalanced room total reported s e b = record {
  alike = narrow (suc room) room s e (omega arith) b.alike;
  sum = b.sum;
  fits = omega (arith, b.fits);
}

collector_step-IsBalanced :
    (room total : ℕ) (s : KvStore) (e : Engine) (gc : Option GarbageCollector)
    → IsBalanced (suc room) total (reported_by gc) s e
    → IsBalanced room total (reported_by (collector_step e gc).1) s (collector_step e gc).0
collector_step-IsBalanced room total s e none b = narrow-IsBalanced room total 0 s e b
collector_step-IsBalanced room total s e (some gc) b =
    thread_step-IsBalanced room total s e gc
      (narrow-IsBalanced room total gc.cumulative_stats.versions_reclaimed s e b)

-- The collector, if there is one, is well-formed.
abbrev pub HasValid : Option GarbageCollector → Type 0
HasValid none = Unit
HasValid (some gc) = Background.IsValid gc

collector_step-HasValid :
    (e : Engine) (gc : Option GarbageCollector) → HasValid gc → HasValid (collector_step e gc).1
collector_step-HasValid e none v = tt
collector_step-HasValid e (some gc) v = Background.thread_step-IsValid e gc v

pub samples-HasValid :
    {V : Type 0} (samples : List (Sample V)) (e : Engine) (gc : Option GarbageCollector)
    → HasValid gc
    → HasValid (mvcc_samples samples e gc).1
unfolding mvcc_samples
samples-HasValid {V} [] e gc v = v
samples-HasValid {V} (by_reader thread key us ∷ samples) e gc v =
    samples-HasValid samples (mvcc_reader key e).1 gc v
samples-HasValid {V} (by_writer thread key numbers us ∷ samples) e gc v =
    samples-HasValid samples (mvcc_writer key numbers e) gc v
samples-HasValid {V} (by_collector ∷ samples) e gc v =
    samples-HasValid samples (collector_step e gc).0 (collector_step e gc).1
      (collector_step-HasValid e gc v)

pub samples-IsBalanced :
    {V : Type 0} (samples : List (Sample V)) (total : ℕ) (s : KvStore) (e : Engine)
    (gc : Option GarbageCollector)
    → IsBalanced (length samples) total (reported_by gc) s e
    → IsBalanced 0
        (total + length (writers_of samples))
        (reported_by (mvcc_samples samples e gc).1)
        (kv_samples samples s)
        (mvcc_samples samples e gc).0
unfolding mvcc_samples kv_samples writers_of
samples-IsBalanced {V} [] total s e gc b = record {
  alike = b.alike;
  sum = omega (arith, b.sum);
  fits = omega (arith, b.fits);
}
samples-IsBalanced {V} (by_reader thread key us ∷ samples) total s e gc b =
    samples-IsBalanced samples total s (mvcc_reader key e).1 gc
      (reader-IsBalanced (length samples) total (reported_by gc) key s e b)
samples-IsBalanced {V} (by_writer thread key numbers us ∷ samples) total s e gc b =
    subst
      (λ total'.
        IsBalanced 0 total' (reported_by (mvcc_samples samples (mvcc_writer key numbers e) gc).1)
          (kv_samples samples (kv_writer key (numbers 0) s))
          (mvcc_samples samples (mvcc_writer key numbers e) gc).0)
      (omega arith)
      (samples-IsBalanced samples (total + 1) (kv_writer key (numbers 0) s)
        (mvcc_writer key numbers e) gc
        (writer-IsBalanced (length samples) total (reported_by gc) key numbers s e b))
samples-IsBalanced {V} (by_collector ∷ samples) total s e gc b =
    samples-IsBalanced samples total s (collector_step e gc).0 (collector_step e gc).1
      (collector_step-IsBalanced (length samples) total s e gc b)

stop_background-IsBalanced :
    (fuel room total : ℕ) (s : KvStore) (e : Engine) (gc : GarbageCollector)
    (r : Engine × GarbageCollector)
    → stop_background fuel e gc ≡ some r
    → IsBalanced room total gc.cumulative_stats.versions_reclaimed s e
    → IsBalanced room total r.1.cumulative_stats.versions_reclaimed s r.0
unfolding stop_background request_stop
stop_background-IsBalanced fuel room total s e gc r q b = elim (Bool-cases gc.running) [
  | inl runs ↦
      wait_for_thread-IsBalanced fuel room total s e
        (record gc { running = true; stop_requested = true }) r
        (rw (runs, stop_background, request_stop) at q) b
  | inr rests ↦
      let same : some (e, record gc { running = false }) ≡ some r =
        rw (rests, stop_background) at q in
      let out : ((e ≡ r.0) × (record gc { running = false } ≡ r.1)) = (cc, cc) in
      rw (← out.0, ← out.1) b
]

-- What `finish_gc` leaves, with and without a collector.
pub finish_gc-IsBalanced :
    {V : Type 0} (fuel total : ℕ) (s : KvStore) (e : Engine) (gc : Option GarbageCollector)
    (result : WorkloadResult V)
    → HasValid gc
    → result.gc_stats.versions_reclaimed ≡ 0
    → IsBalanced 0 total (reported_by gc) s e
    → (out : Engine × WorkloadResult V) × (finish_gc (suc (suc (suc fuel))) e gc result ≡ some out)
      × (out.1.reader_stats ≡ result.reader_stats)
      × (out.1.writer_stats ≡ result.writer_stats)
      × IsBalanced 0 total out.1.gc_stats.versions_reclaimed s out.0
unfolding finish_gc
finish_gc-IsBalanced {V} fuel total s e none result v unused b =
    ((e, result), refl, refl, refl, rw unused b)
finish_gc-IsBalanced {V} fuel total s e (some gc) result v unused b =
    let (stopped, q, _, _, q') = finish_gc-Stopped fuel e gc result v in
    (
      (stopped.0, record result { gc_stats = stopped.1.cumulative_stats }),
      q',
      refl,
      refl,
      stop_background-IsBalanced (suc (suc (suc fuel))) 0 total s e gc stopped q b,
    )
