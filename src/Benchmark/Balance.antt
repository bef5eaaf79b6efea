-- ===== src/Benchmark/Balance.antt =====
-- The books of a run of the benchmark: what the two stacks hold in the end, and what the collector has
-- reported until then.
use mvcc_lite.Prelude.{
  ◌⊎◌, ℕ, zero, suc, ◌+◌, ◌<◌, ◌≡◌, refl, ap, ◌∙◌, Option, none, some, true, length, u64_mod, arith,
  inl, inr, Option-cases,
}
use mvcc_lite.Status.{is_ok}
use mvcc_lite.KvStore.{KvStore}
use mvcc_lite.VersionStore.Defs.{VersionStore}
use mvcc_lite.VersionStore.Invariant.{IsValid}
use mvcc_lite.VersionStore.Timeline.{status}
use mvcc_lite.VersionStore.Outcome.{status_iff}
use mvcc_lite.VersionStore.Garbage.{total_versions}
use mvcc_lite.Transaction.{Engine, ops_of}
use mvcc_lite.Retry.Attempts.{current_version-AllUntouched}
use mvcc_lite.Retry.Release.{begun_engine}
use mvcc_lite.System.{commit_call}
use mvcc_lite.System.Moves.{commit-step}
use mvcc_lite.GarbageCollector.{
  GarbageCollector, Thread, passing, waiting, returned, run_once, thread_step, join,
  wait_for_thread,
}
use mvcc_lite.GarbageCollector.Account.{step-total_versions, run_once-total_versions}
use mvcc_lite.Benchmark.Workload.{mvcc_fill, mvcc_writer}
use mvcc_lite.Benchmark.Alike.{Alike, key_name_named}
use mvcc_lite.Benchmark.Turns.{collects-Alike, mvcc_writer_lem, wrote}
use mvcc_lite.Benchmark.Agreement.{put_init, init_call, put_init_lem, put_init_effect}

put_init-total_versions :
    (i : ℕ) (s : VersionStore)
    → s.next_version + 1 < u64_mod
    → total_versions (put_init i s).table ≡ total_versions s.table + 1
put_init-total_versions i s p =
    let (_, same) = put_init_lem i s p in
    rw same (
      step-total_versions s (init_call i) refl
      ∙ ap (λ ops. total_versions s.table + length ops) (put_init_effect i s))

-- The fill makes one version for each key.
pub fill-total_versions :
    (n i : ℕ) (s : VersionStore)
    → s.next_version + n < u64_mod
    → total_versions (mvcc_fill n i s).table ≡ total_versions s.table + n
unfolding mvcc_fill
fill-total_versions zero i s p = omega arith
fill-total_versions (suc n) i s p =
    let (next, _) = put_init_lem i s (omega arith) in
    omega (
      arith,
      put_init-total_versions i s (omega arith),
      fill-total_versions n (suc i) (put_init i s) (omega (arith, next)),
    )

-- A writer makes one version.
pub writer-total_versions :
    (i : ℕ) (numbers : ℕ → ℕ) (e : Engine)
    → IsValid e.store
    → total_versions (mvcc_writer i numbers e).store.table ≡ total_versions e.store.table + 1
unfolding ops_of
writer-total_versions i numbers e v =
    let t = wrote i numbers e in
    let named = key_name_named i in
    let accepted : is_ok (status e.store (commit_call t)) ≡ true =
      (status_iff e.store (commit_call t) v).1
        ((λ q. cc), (named, tt), current_version-AllUntouched e.store (ops_of t.write_set) v) in
    rw (mvcc_writer_lem i numbers e v, commit-step (begun_engine e) t refl)
      (step-total_versions e.store (commit_call t) refl ∙ ground (arith, accepted))

-- The books at one moment of a run: `reported` versions were reclaimed so far, which make `total` with
-- those that the store holds.
pub record IsBalanced (room total reported : ℕ) (s : KvStore) (e : Engine) : Type 0 where
  pub alike : Alike room s e
  pub sum : reported + total_versions e.store.table ≡ total
  pub fits : total + room < u64_mod

-- What the collector has reported, if there is one.
abbrev pub reported_by : Option GarbageCollector → ℕ
reported_by none = 0
reported_by (some gc) = gc.cumulative_stats.versions_reclaimed

pass-IsBalanced :
    (room total : ℕ) (s : KvStore) (e : Engine) (gc : GarbageCollector)
    → IsBalanced room total gc.cumulative_stats.versions_reclaimed s e
    → IsBalanced room total
        (run_once e gc).1.cumulative_stats.versions_reclaimed
        s
        (run_once e gc).0
pass-IsBalanced room total s e gc b =
    let (_, _, same) = run_once-total_versions e gc b.alike.valid (omega (arith, b.sum, b.fits)) in
    record { alike = collects-Alike room s e gc b.alike; sum = same ∙ b.sum; fits = b.fits }

-- A step of the thread is a pass, or leaves the store and the statistics alone.
thread_step-cases :
    (e : Engine) (gc : GarbageCollector)
    → (((thread_step e gc).0 ≡ (run_once e gc).0)
        × ((thread_step e gc).1.cumulative_stats ≡ (run_once e gc).1.cumulative_stats))
      ⊎ (((thread_step e gc).0 ≡ e) × ((thread_step e gc).1.cumulative_stats ≡ gc.cumulative_stats))
unfolding thread_step
thread_step-cases e gc = at_thread gc.background_thread refl
  where
    at_thread :
        (x : Option Thread)
        → gc.background_thread ≡ x
        → (((thread_step e gc).0 ≡ (run_once e gc).0)
            × ((thread_step e gc).1.cumulative_stats ≡ (run_once e gc).1.cumulative_stats))
          ⊎ (((thread_step e gc).0 ≡ e)
              × ((thread_step e gc).1.cumulative_stats ≡ gc.cumulative_stats))
    at_thread none q = inr (rw q (refl, refl))
    at_thread (some passing) q = inl (rw q (refl, refl))
    at_thread (some waiting) q = inr (rw q (refl, refl))
    at_thread (some returned) q = inr (rw q (refl, refl))

pub thread_step-IsBalanced :
    (room total : ℕ) (s : KvStore) (e : Engine) (gc : GarbageCollector)
    → IsBalanced room total gc.cumulative_stats.versions_reclaimed s e
    → IsBalanced room total
        (thread_step e gc).1.cumulative_stats.versions_reclaimed
        s
        (thread_step e gc).0
thread_step-IsBalanced room total s e gc b = elim (thread_step-cases e gc) [
  | inl (store, stats) ↦ rw (store, stats) (pass-IsBalanced room total s e gc b)
  | inr (store, stats) ↦ rw (store, stats) b
]

join-cumulative_stats :
    (gc gc' : GarbageCollector) → join gc ≡ some gc' → gc'.cumulative_stats ≡ gc.cumulative_stats
unfolding join
join-cumulative_stats gc gc' q = ground arith

pub wait_for_thread-IsBalanced :
    (fuel room total : ℕ) (s : KvStore) (e : Engine) (gc : GarbageCollector)
    (r : Engine × GarbageCollector)
    → wait_for_thread fuel e gc ≡ some r
    → IsBalanced room total gc.cumulative_stats.versions_reclaimed s e
    → IsBalanced room total r.1.cumulative_stats.versions_reclaimed s r.0
unfolding wait_for_thread
wait_for_thread-IsBalanced zero room total s e gc r q b = cc
wait_for_thread-IsBalanced (suc fuel) room total s e gc r q b = elim (Option-cases (join gc)) [
  | inl waits ↦
      wait_for_thread-IsBalanced fuel room total s (thread_step e gc).0 (thread_step e gc).1 r
        (rw (waits, wait_for_thread) at q) (thread_step-IsBalanced room total s e gc b)
  | inr (gc', joined) ↦
      let same : some (e, gc') ≡ some r = rw (joined, wait_for_thread) at q in
      let out : ((e ≡ r.0) × (gc' ≡ r.1)) = (cc, cc) in
      rw (← out.0, ← out.1, join-cumulative_stats gc gc' joined) b
]
