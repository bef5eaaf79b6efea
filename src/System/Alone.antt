-- ===== src/System/Alone.antt =====
-- The operations that no other thread interrupts, as runs of the threads' steps.
use mvcc_lite.Prelude.{ℕ, zero, suc, ◌+◌, ◌<◌, ◌≡◌, refl, [], ◌++◌, none, arith, u64_mod}
use mathlib.Core.List.{append-nil}
use mvcc_lite.VersionStore.{current_version}
use mvcc_lite.TransactionManager.{
  Scan, scan_start, scan_shards, scan_shard, k_num_shards, boundary_of, begin, fetch_txn_id,
  oldest_active_snapshot,
}
use mvcc_lite.Transaction.Defs.{Transaction, construct}
use mvcc_lite.Transaction.{commit}
use mvcc_lite.GarbageCollector.{GarbageCollector, run_once}
use mvcc_lite.System.{
  commit_release, System, Client, idle, fetched, placed, pinned, running, leaving, resting,
  scanning, bounded, update, engine, Step, Reach, wrote, commit_call,
}
use mvcc_lite.System.Log.{Log}
use mvcc_lite.System.Ownership.{update-eq}

-- A step that writes nothing.
pub silent : {log : Log} {s t : System} → Reach log s → Step s [] t → Reach log t
silent {log} {t = t} r st = rw append-nil at (Reach.next r st)

-- `Begin` of a thread without a transaction is four steps: from any state that the threads reach they
-- reach the one that `begin` describes, while an identifier is left.
pub begin-Reach :
    (log : Log) (s : System) (i : ℕ)
    → Reach log s
    → s.clients i ≡ idle
    → s.manager.next_txn_id + 1 < u64_mod
    → (t : System) × Reach log t
      × (t.store ≡ s.store)
      × (t.manager ≡ (begin s.store s.manager).0)
      × (t.passes ≡ s.passes)
      × (t.clients i ≡ running (begin s.store s.manager).1)
unfolding begin
begin-Reach log s i r e p =
    let id = (fetch_txn_id s.manager).0 in
    let now = current_version s.store in
    let c1 : ℕ → Client = update s.clients i (fetched id) in
    let c2 : ℕ → Client = update c1 i (placed id) in
    let c3 : ℕ → Client = update c2 i (pinned id now) in
    let r1 = silent r (Step.fetches i e p) in
    let r2 = silent r1 (Step.places i id (update-eq s.clients i i (fetched id) refl)) in
    let r3 = silent r2 (Step.pins i id (update-eq c1 i i (placed id) refl)) in
    let r4 = silent r3 (Step.refines i id now (update-eq c2 i i (pinned id now) refl)) in
    (_, r4, refl, refl, refl, update-eq c3 i i (running (construct id now)) refl)

-- `Commit` of a transaction in use is two steps, and adds to the log what it wrote.
pub commit-Reach :
    (log : Log) (s : System) (i : ℕ) (t : Transaction)
    → Reach log s
    → s.clients i ≡ running t
    → s.store.next_version + 1 < u64_mod
    → (s' : System) × Reach (log ++ wrote s.store (commit_call t)) s'
      × (engine s' ≡ (commit (engine s) t none none).engine)
      × (s'.clients i ≡ idle)
commit-Reach log s i t r e p =
    let c : Client = leaving (commit_release s.store t) (commit (engine s) t none none).txn in
    let r1 = Reach.next r (Step.commits i t e p) in
    let here = update-eq s.clients i i c refl in
    let r2 = silent r1 (Step.unregisters i _ _ here) in
    (_, r2, refl, update-eq (update s.clients i c) i i idle refl)

-- The scan of the shards that are left.
pub scan-Reach :
    (log : Log) (s : System) (p n i : ℕ) (acc : Scan)
    → Reach log s
    → s.passes p ≡ scanning i acc
    → i + n ≡ k_num_shards
    → (t : System) × Reach log t
      × (t.store ≡ s.store)
      × (t.manager ≡ s.manager)
      × (t.clients ≡ s.clients)
      × (t.passes p ≡ scanning k_num_shards (scan_shards s.manager.shards n i acc))
unfolding scan_shards
scan-Reach log s p zero i acc r e q =
    let last : i ≡ k_num_shards = omega arith in (s, r, refl, refl, refl, rw last at e)
scan-Reach log s p (suc n) i acc r e q =
    let acc' : Scan = scan_shard acc (s.manager.shards i) in
    let s' : System = record s { passes = update s.passes p (scanning (suc i) acc') } in
    scan-Reach log s' p n (suc i) acc' (silent r (Step.scans p i acc e (omega arith)))
      (update-eq s.passes p p (scanning (suc i) acc') refl) (omega arith)

-- A pass that is not interrupted is 19 steps, and leaves the store and the manager as `run_once` does.
pub run_once-Reach :
    (log : Log) (s : System) (p : ℕ) (g : GarbageCollector)
    → Reach log s
    → s.passes p ≡ resting
    → (t : System) × Reach log t × (engine t ≡ (run_once (engine s) g).0) × (t.passes p ≡ resting)
unfolding run_once oldest_active_snapshot
run_once-Reach log s p g r e =
    let r1 = silent r (Step.starts p e) in
    let (t, r2, store, manager, _, done) =
      scan-Reach log (record s { passes = update s.passes p (scanning 0 scan_start) }) p
        k_num_shards 0 scan_start r1 (update-eq s.passes p p (scanning 0 scan_start) refl) refl in
    let acc = scan_shards s.manager.shards k_num_shards 0 scan_start in
    let r3 = silent r2 (Step.bounds p acc done) in
    let b = boundary_of acc t.store in
    let r4 = silent r3 (Step.reclaims p b (update-eq t.passes p p (bounded b) refl)) in
    (_, r4, rw (store, manager) refl, update-eq (update t.passes p (bounded b)) p p resting refl)
