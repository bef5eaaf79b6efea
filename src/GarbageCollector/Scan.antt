-- ===== src/GarbageCollector/Scan.antt =====
-- A pass that other threads interrupt anywhere: the shards are scanned one at a time, each under its
-- own mutex, and transactions begin and end, and the store changes, between any two of them.
use mvcc_lite.Prelude.{ℕ, ◌≤◌, ◌≡◌, String, List, some, string_key, nat_key, arith}
use mvcc_lite.VersionStore.Defs.{VersionStore, WriteOp}
use mvcc_lite.VersionStore.{conflicts}
use mvcc_lite.VersionStore.Collection.{collect_garbage}
use mvcc_lite.VersionStore.Invariant.{IsValid}
use mvcc_lite.VersionStore.Snapshot.{snapshot}
use mvcc_lite.VersionStore.Timeline.{collect_garbage-snapshot}
use mvcc_lite.VersionStore.Garbage.{conflicts-collect_garbage}
use mvcc_lite.TransactionManager.{
  k_num_shards, shard_for, TransactionManager, scan_start, scan_shards, boundary_of,
}
use mvcc_lite.TransactionManager.Laws.{registered}
use mvcc_lite.TransactionManager.Oldest.{Seen, scan_shards-find}

-- `at i` is the manager when shard `i` is scanned, `now` the store when the current version is read,
-- and `later` the store when it is collected.
unfoldable pub interleaved_pass :
    (ℕ → TransactionManager) → VersionStore → VersionStore → VersionStore
interleaved_pass at now later =
    let acc = scan_shards (λ i. (at i).shards i) k_num_shards 0 scan_start in
    (collect_garbage later (boundary_of acc now)).0

interleaved_boundary :
    (at : ℕ → TransactionManager) (now : VersionStore) (id placed snap : ℕ)
    → registered id (at (shard_for id)) ≡ some placed
    → placed ≤ snap
    → boundary_of (scan_shards (λ i. (at i).shards i) k_num_shards 0 scan_start) now ≤ snap
unfolding registered boundary_of
interleaved_boundary at now id placed snap r p =
    let seen : Seen placed (scan_shards (λ i. (at i).shards i) k_num_shards 0 scan_start) =
      scan_shards-find (λ i. (at i).shards i) k_num_shards 0 scan_start (shard_for id) id placed
        (omega arith) (omega arith) r in
    ground (arith, seen)

-- Whatever other threads do between the steps of a pass, it changes nothing for a transaction that
-- stands in its shard when that shard is scanned, under its snapshot or still under the placeholder,
-- which is not above it: its snapshot shows the same at every key, and the validation of its commit
-- finds the same conflicts. The store that is collected is well formed.
interleaved_pass-snapshot :
    (at : ℕ → TransactionManager) (now later : VersionStore) (id placed snap : ℕ)
    → IsValid later
    → registered id (at (shard_for id)) ≡ some placed
    → placed ≤ snap
    → ((k : String) → snapshot (interleaved_pass at now later) snap k ≡ snapshot later snap k)
      × ((ops : List WriteOp)
          → conflicts snap (interleaved_pass at now later).table ops
            ≡ conflicts snap later.table ops)
unfolding interleaved_pass
interleaved_pass-snapshot at now later id placed snap v r p =
    let q = interleaved_boundary at now id placed snap r p in
    let b = boundary_of (scan_shards (λ i. (at i).shards i) k_num_shards 0 scan_start) now in
    (
      λ k. collect_garbage-snapshot later b snap k v q,
      λ ops. conflicts-collect_garbage later b snap ops v q,
    )
