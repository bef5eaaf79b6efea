-- ===== src/TransactionManager.antt =====
-- `class TransactionManager` of include/mvcc/transaction.h and src/transaction.cpp: the active
-- transactions with their snapshots, in 16 shards. Each shard has its own mutex, so that the steps
-- between two acquisitions are functions of their own; `begin` and `oldest_active_snapshot` are what
-- a thread does that is not interrupted. GarbageCollector/Race puts an interleaving of these parts together.
pub mod Laws
pub mod Oldest
pub mod Count
use mvcc_lite.Prelude.{
  ℕ, zero, suc, ◌%◌, List, [], ◌∷◌, Bool, true, false, if◌then◌else◌, ltb, nat_beq, nat_key,
  u64_add, u64_max,
}
use mvcc_lite.UnorderedMap
use mvcc_lite.UnorderedMap.{assign, erase}
use mvcc_lite.VersionStore.Defs.{VersionStore}
use mvcc_lite.VersionStore.{current_version}
use mvcc_lite.Transaction.Defs.{Transaction, construct}

abbrev pub k_num_shards : ℕ
k_num_shards = 16

abbrev pub shard_for : ℕ → ℕ
shard_for txn_id = txn_id % k_num_shards

-- txn_id -> snapshot
abbrev pub Shard : Type 0
Shard = List (ℕ × ℕ)

-- Only the shards below `k_num_shards` are used.
pub record TransactionManager : Type 0 where
  pub next_txn_id : ℕ  -- std::atomic<uint64_t>
  pub shards : ℕ → Shard

abbrev pub init : TransactionManager
init = record { next_txn_id = 1; shards = λ _. [] }

abbrev pub update : (ℕ → Shard) → ℕ → Shard → ℕ → Shard
update shards i shard j = if nat_beq i j then shard else shards j

-- `next_txn_id_.fetch_add(1)`: the old value, and the manager after it.
unfoldable pub fetch_txn_id : TransactionManager → ℕ × TransactionManager
fetch_txn_id m = (m.next_txn_id, record m { next_txn_id = u64_add m.next_txn_id 1 })

-- `shard.active_snapshots[txn_id] = snapshot`, under the lock of the shard
unfoldable pub register : ℕ → ℕ → TransactionManager → TransactionManager
register txn_id snapshot m = record m {
  shards =
      update m.shards (shard_for txn_id) (assign txn_id snapshot (m.shards (shard_for txn_id)));
}

-- A placeholder is registered before the version is read, and the snapshot after that.
unfoldable pub begin : VersionStore → TransactionManager → TransactionManager × Transaction
begin store m =
    let (txn_id, m1) = fetch_txn_id m in
    let m2 = register txn_id 0 m1 in
    let snapshot = current_version store in
    let m3 = register txn_id snapshot m2 in (m3, construct txn_id snapshot)

-- `any_active` and `oldest` of the scan.
pub record Scan : Type 0 where
  pub any_active : Bool
  pub oldest : ℕ

abbrev pub scan_start : Scan
scan_start = record { any_active = false; oldest = u64_max }

abbrev min : ℕ → ℕ → ℕ
min a b = if ltb b a then b else a

-- One round of the inner loop.
abbrev pub see : Scan → ℕ → Scan
see acc snapshot = record { any_active = true; oldest = min acc.oldest snapshot }

-- The inner loop, under the lock of one shard.
unfoldable pub scan_shard : Scan → Shard → Scan
scan_shard acc [] = acc
scan_shard acc ((txn_id, snapshot) ∷ shard) = scan_shard (see acc snapshot) shard

-- The shards from `i` on, of which `n` are left.
unfoldable pub scan_shards : (ℕ → Shard) → ℕ → ℕ → Scan → Scan
scan_shards shards zero i acc = acc
scan_shards shards (suc n) i acc = scan_shards shards n (suc i) (scan_shard acc (shards i))

-- What is returned after the scan: the version is read only now.
unfoldable pub boundary_of : Scan → VersionStore → ℕ
boundary_of acc store = if acc.any_active then acc.oldest else current_version store

unfoldable pub oldest_active_snapshot : VersionStore → TransactionManager → ℕ
unfolding boundary_of
oldest_active_snapshot store m = boundary_of (scan_shards m.shards k_num_shards 0 scan_start) store

-- The loop of `ActiveTransactionCount`.
unfoldable pub count_shards : (ℕ → Shard) → ℕ → ℕ → ℕ → ℕ
count_shards shards zero i total = total
count_shards shards (suc n) i total =
    count_shards shards n (suc i) (u64_add total (UnorderedMap.size (shards i)))

unfoldable pub active_transaction_count : TransactionManager → ℕ
unfolding count_shards
active_transaction_count m = count_shards m.shards k_num_shards 0 0

unfoldable pub unregister : ℕ → TransactionManager → TransactionManager
unregister txn_id m = record m {
  shards = update m.shards (shard_for txn_id) (erase txn_id (m.shards (shard_for txn_id)));
}
