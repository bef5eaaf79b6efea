-- ===== src/System/Interrupted.antt =====
-- The interleaving of GarbageCollector/Race as an execution of the threads.
use mathlib.Core.Path.{subst}
use mvcc_lite.Prelude.{none, ℕ, ◌+◌, ◌<◌, ◌≡◌, refl, ap, ◌∙◌, String, ◌++◌, arith, u64_mod}
use mvcc_lite.VersionStore.{put}
use mvcc_lite.VersionStore.Collection.{collect_garbage}
use mvcc_lite.VersionStore.Invariant.{puts, step}
use mvcc_lite.TransactionManager.{scan_start, scan_shards, k_num_shards, boundary_of}
use mvcc_lite.GarbageCollector.Race.{interrupted_pass, begin_during_pass}
use mvcc_lite.Status.{k_ok, k_not_found}
use mvcc_lite.VersionStore.{current_version}
use mvcc_lite.VersionStore.Snapshot.{snapshot}
use mvcc_lite.TransactionManager.Laws.{registered}
use mvcc_lite.Transaction.Defs.{Transaction}
use mvcc_lite.Transaction.{get}
use mvcc_lite.System.Invariant.{Reach-Owned}
use mvcc_lite.System.Release.{Reach-idle}
use mvcc_lite.Prelude.{is_empty, false, some}
use mvcc_lite.System.{
  Scan, System, idle, running, resting, scanning, bounded, update, engine, Step, Reach, wrote,
  direct_put,
}
use mvcc_lite.System.Log.{Log}
use mvcc_lite.System.Ownership.{update-eq}
use mvcc_lite.System.Alone.{silent, scan-Reach, begin-Reach}

-- A put between the scan of a pass and its read of the current version, and the rest of the pass.
late_bound-Reach :
    (log : Log) (s : System) (p : ℕ) (acc : Scan) (key y : String)
    → Reach log s
    → s.passes p ≡ scanning k_num_shards acc
    → s.store.next_version + 1 < u64_mod
    → let written = (put s.store key y none).1 in
      (t : System) × Reach (log ++ wrote s.store (puts key y)) t
      × (t.store ≡ (collect_garbage written (boundary_of acc written)).0)
      × (t.manager ≡ s.manager)
      × (t.clients ≡ s.clients)
unfolding step
late_bound-Reach log s p acc key y r scanned room =
    let r1 = Reach.next r (Step.calls (puts key y) (direct_put key y) room) in
    let r2 = silent r1 (Step.bounds p acc scanned) in
    let b = boundary_of acc (put s.store key y none).1 in
    let r3 = silent r2 (Step.reclaims p b (update-eq s.passes p p (bounded b) refl)) in
    (_, r3, refl, refl, refl)

-- From any state that the threads reach, in which a thread has no transaction, a collector rests and
-- numbers are left, they also reach the one in which the thread's `Begin` and a put by another one
-- have come between the collector's scan and its read of the current version.
pub interrupted_pass-Reach :
    (log : Log) (s : System) (i p : ℕ) (key y : String)
    → Reach log s
    → s.clients i ≡ idle
    → s.passes p ≡ resting
    → s.manager.next_txn_id + 1 < u64_mod
    → s.store.next_version + 1 < u64_mod
    → (t : System) × Reach (log ++ wrote s.store (puts key y)) t
      × (engine t ≡ (interrupted_pass (engine s) key y).0)
      × (t.clients i ≡ running (interrupted_pass (engine s) key y).1)
unfolding interrupted_pass step
interrupted_pass-Reach log s i p key y r e rest ids room =
    let r1 = silent r (Step.starts p rest) in
    let (s2, r2, store2, manager2, clients2, done) =
      scan-Reach log (record s { passes = update s.passes p (scanning 0 scan_start) }) p
        k_num_shards 0 scan_start r1 (update-eq s.passes p p (scanning 0 scan_start) refl) refl in
    let (s3, r3, store3, manager3, passes3, client3) =
      begin-Reach log s2 i r2 (rw clients2 e) (rw manager2 (omega arith)) in
    let acc = scan_shards s.manager.shards k_num_shards 0 scan_start in
    let same : s3.store ≡ s.store = store3 ∙ store2 in
    let (t, r4, store4, manager4, clients4) =
      late_bound-Reach log s3 p acc key y r3 (rw passes3 done) (rw same room) in
    (
      t,
      subst (λ store. Reach (log ++ wrote store (puts key y)) t) same r4,
      rw (store4, manager4, same, manager3, store2, manager2) refl,
      rw (clients4, client3, store2, manager2) refl,
    )

-- A calm execution is not all that the code allows. From any state that the threads reach without a
-- transaction in use, with a collector at rest, numbers left, and a key that has the value `x`, they
-- also reach one in which a transaction is in use and registered, whose read of the key gave `x` when
-- it began, and now gives `NotFound`, though nothing but a put of the key came in between.
pub Reach-lost :
    (log : Log) (s : System) (i p : ℕ) (key x y out : String)
    → Reach log s
    → ((j : ℕ) → s.clients j ≡ idle)
    → s.passes p ≡ resting
    → s.manager.next_txn_id + 1 < u64_mod
    → s.store.next_version + 1 < u64_mod
    → is_empty key ≡ false
    → snapshot s.store (current_version s.store) key ≡ some x
    → (s' : System) × (t : Transaction) × Reach (log ++ wrote s.store (puts key y)) s'
      × (s'.clients i ≡ running t)
      × (registered t.txn_id s'.manager ≡ some t.snapshot_version)
      × ((get s.store t key out).0.code ≡ k_ok)
      × ((get s.store t key out).1 ≡ x)
      × ((get s'.store t key out).0.code ≡ k_not_found)
      × ((get s'.store t key out).1 ≡ out)
Reach-lost log s i p key x y out r none_ rest ids room k shown =
    let o = Reach-Owned r in
    let (s', r', engine', client) =
      interrupted_pass-Reach log s i p key y r (none_ i) rest ids room in
    let (free, _) = Reach-idle log s r none_ in
    let (kept, code, value, lost, untouched) =
      begin_during_pass (engine s) key x y out o.store o.manager room k free shown in
    (
      s',
      (interrupted_pass (engine s) key y).1,
      r',
      client,
      rw (ap (λ e. e.manager) engine') kept,
      code,
      value,
      rw (ap (λ e. e.store) engine') lost,
      rw (ap (λ e. e.store) engine') untouched,
    )
