-- ===== src/TransactionManager/Count.antt =====
-- What `ActiveTransactionCount` counts, and how it changes.
use mvcc_lite.Prelude.{
  ℕ, zero, suc, ◌+◌, ◌≤◌, ◌<◌, ◌≡◌, refl, ◌∙◌, some, none, arith, nat_key, nat_beq_iff, u64_mod,
  u64_add,
}
use native.Mathlib.Decide.{ℕ_discrete}
use mvcc_lite.UnorderedMap
use mvcc_lite.UnorderedMap.{assign, erase}
use mvcc_lite.UnorderedMap.Laws.{size-assign, size-erase}
use mvcc_lite.VersionStore.Defs.{VersionStore}
use mvcc_lite.VersionStore.{current_version}
use mvcc_lite.TransactionManager.{
  k_num_shards, shard_for, Shard, TransactionManager, update, fetch_txn_id, register, begin,
  unregister, count_shards, active_transaction_count,
}
use mvcc_lite.TransactionManager.Laws.{registered, registered-register, IsValid, registered_fresh}

-- The entries of the `n` shards from `i` on.
unfoldable pub entries : (ℕ → Shard) → ℕ → ℕ → ℕ
entries shards zero i = 0
entries shards (suc n) i = UnorderedMap.size (shards i) + entries shards n (suc i)

abbrev pub all_entries : TransactionManager → ℕ
all_entries m = entries m.shards k_num_shards 0

count_shards-entries :
    (shards : ℕ → Shard) (n i total : ℕ)
    → total + entries shards n i < u64_mod
    → count_shards shards n i total ≡ total + entries shards n i
unfolding count_shards entries
count_shards-entries shards zero i total p = omega arith
count_shards-entries shards (suc n) i total p =
    count_shards-entries shards n (suc i) (u64_add total (UnorderedMap.size (shards i)))
      (omega arith)
    ∙ omega arith

-- Replacing a shard outside the range changes nothing.
entries-update_outside :
    (shards : ℕ → Shard) (j : ℕ) (shard : Shard) (n i : ℕ)
    → j < i
    → entries (update shards j shard) n i ≡ entries shards n i
unfolding entries
entries-update_outside shards j shard zero i p = refl
entries-update_outside shards j shard (suc n) i p =
    ground (arith, nat_beq_iff j i, entries-update_outside shards j shard n (suc i) (omega arith))

entries-update :
    (shards : ℕ → Shard) (j : ℕ) (shard : Shard) (n i : ℕ)
    → i ≤ j
    → j < i + n
    → entries (update shards j shard) n i + UnorderedMap.size (shards j)
      ≡ entries shards n i + UnorderedMap.size shard
unfolding entries
entries-update shards j shard zero i p q = absurd (omega arith)
entries-update shards j shard (suc n) i p q = elim (ℕ_discrete j i) [
  | yes here ↦
      ground (arith, nat_beq_iff j i, entries-update_outside shards j shard n (suc i) (omega arith))
  | no other ↦
      ground (
        arith,
        nat_beq_iff j i,
        entries-update shards j shard n (suc i) (omega arith) (omega arith),
      )
]

register-entries :
    (id snapshot : ℕ) (m : TransactionManager)
    → all_entries (register id snapshot m)
      ≡ all_entries m + (elim (registered id m) [ none ↦ 1 | some _ ↦ 0 ])
unfolding register registered
register-entries id snapshot m = ground (
  arith,
  entries-update m.shards (shard_for id) (assign id snapshot (m.shards (shard_for id))) k_num_shards
      0 (omega arith) (omega arith),
  size-assign id snapshot (m.shards (shard_for id)),
)

unregister-entries :
    (id : ℕ) (m : TransactionManager)
    → all_entries (unregister id m) + (elim (registered id m) [ none ↦ 0 | some _ ↦ 1 ])
      ≡ all_entries m
unfolding unregister registered
unregister-entries id m = ground (
  arith,
  entries-update m.shards (shard_for id) (erase id (m.shards (shard_for id))) k_num_shards 0
      (omega arith) (omega arith),
  size-erase id (m.shards (shard_for id)),
)

begin-entries :
    (store : VersionStore) (m : TransactionManager)
    → IsValid m
    → all_entries (begin store m).0 ≡ all_entries m + 1
unfolding begin fetch_txn_id
begin-entries store m v =
    let m1 : TransactionManager = (fetch_txn_id m).1 in
    let fresh : registered m.next_txn_id m1 ≡ none =
      unfold registered in registered_fresh m m.next_txn_id v (omega arith) in
    ground (
      arith,
      fresh,
      register-entries m.next_txn_id 0 m1,
      registered-register m.next_txn_id 0 m.next_txn_id m1,
      nat_key.same_iff m.next_txn_id m.next_txn_id,
      register-entries m.next_txn_id (current_version store) (register m.next_txn_id 0 m1),
    )

-- `ActiveTransactionCount` counts one more after `Begin`, on a well-formed manager whose
-- transactions can be counted in 64 bits.
active_transaction_count-begin :
    (store : VersionStore) (m : TransactionManager)
    → IsValid m
    → all_entries m + 1 < u64_mod
    → active_transaction_count (begin store m).0 ≡ active_transaction_count m + 1
unfolding active_transaction_count
active_transaction_count-begin store m v p =
    let more = begin-entries store m v in
    omega (
      arith,
      more,
      count_shards-entries m.shards k_num_shards 0 0 (omega arith),
      count_shards-entries (begin store m).0.shards k_num_shards 0 0 (omega (arith, more)),
    )

-- `ActiveTransactionCount` counts one less after `Unregister` of a transaction that is registered,
-- and the same after that of another one, while the transactions can be counted in 64 bits.
active_transaction_count-unregister :
    (id : ℕ) (m : TransactionManager)
    → all_entries m < u64_mod
    → active_transaction_count (unregister id m)
        + (elim (registered id m) [ none ↦ 0 | some _ ↦ 1 ])
      ≡ active_transaction_count m
unfolding active_transaction_count
active_transaction_count-unregister id m p =
    let less = unregister-entries id m in
    omega (
      arith,
      less,
      count_shards-entries m.shards k_num_shards 0 0 (omega arith),
      count_shards-entries (unregister id m).shards k_num_shards 0 0 (omega (arith, less)),
    )
