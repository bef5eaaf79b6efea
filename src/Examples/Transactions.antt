-- ===== src/Examples/Transactions.antt =====
-- A manager with two transactions over the store of Examples/Store.
use mvcc_lite.Prelude.{
  ◌≡◌, refl, ◌↔◌, ◌⊎◌, ◌&&◌, ℕ, zero, suc, [], ◌∷◌, none, some, arith, string_key, nat_key, true,
  false, if◌then◌else◌,
}
use mvcc_lite.Status.{is_ok, is_conflict}
use mvcc_lite.UnorderedMap.{find}
use mvcc_lite.UnorderedMap.Laws.{Distinct, Entries}
use mvcc_lite.VersionStore.Visible.{newest}
use mvcc_lite.VersionStore.Snapshot.{snapshot}
use mvcc_lite.VersionStore.Validation.{AllUntouched}
use mvcc_lite.TransactionManager.{Shard, TransactionManager, unregister, oldest_active_snapshot}
use mvcc_lite.TransactionManager.Laws.{IsPlaced, IsValid}
use mvcc_lite.TransactionManager.Oldest.{oldest-Attained, Attained}
use mvcc_lite.Transaction.Defs.{Transaction, k_active, is_active}
use mvcc_lite.Transaction.{Engine, commit, ops_of}
use mvcc_lite.Transaction.Commit.{IsWellFormed}
use mvcc_lite.Transaction.Atomic.{commit_outcome, commit-snapshot}
use mvcc_lite.Examples.Store.{stocked, stocked-IsValid}

-- An old reader, and a transaction that began at the current version: both fall into shard 1.
abbrev pub busy_shards : ℕ → Shard
busy_shards zero = []
busy_shards (suc zero) = (1, 2) ∷ (17, 4) ∷ []
busy_shards (suc (suc i)) = []

abbrev pub busy : TransactionManager
busy = record { next_txn_id = 18; shards = busy_shards }

abbrev pub engine : Engine
engine = record { store = stocked; manager = busy }

-- A transaction with a put and a delete in its buffer.
abbrev pub writer : Transaction
writer = record {
  txn_id = 17;
  snapshot_version = 4;
  state = k_active;
  write_set = ("a", some "w") ∷ ("c", some "q") ∷ [];
}

pub writer-IsWellFormed : IsWellFormed writer
unfolding find
writer-IsWellFormed = record { distinct = (refl, (refl, tt)); named = (refl, (refl, tt)) }

busy-Distinct : (i : ℕ) → Distinct (busy_shards i)
unfolding find
busy-Distinct zero = tt
busy-Distinct (suc zero) = (refl, (refl, tt))
busy-Distinct (suc (suc i)) = tt

busy-IsPlaced : (i : ℕ) → Entries (IsPlaced 18 i) (busy_shards i)
busy-IsPlaced zero = tt
busy-IsPlaced (suc zero) =
    ((refl, omega arith, omega arith), ((refl, omega arith, omega arith), tt))
busy-IsPlaced (suc (suc i)) = tt

pub busy-IsValid : IsValid busy
busy-IsValid = record {
  positive = omega arith;
  room = omega arith;
  distinct = busy-Distinct;
  placed = busy-IsPlaced;
}

commit_outcome_example :
    ((is_ok (commit engine writer none none).status ≡ true)
      ↔ AllUntouched 4 stocked.table (ops_of writer.write_set))
    × ((is_ok (commit engine writer none none).status ≡ true)
        ⊎ ((is_conflict (commit engine writer none none).status ≡ true)
            × ((commit engine writer none none).engine.store ≡ stocked)))
    × (is_active (commit engine writer none none).txn ≡ false)
    × ((commit engine writer none none).engine.manager ≡ unregister 17 busy)
commit_outcome_example =
    commit_outcome engine writer none none stocked-IsValid writer-IsWellFormed refl

commit-snapshot_example :
    snapshot (commit engine writer none none).engine.store 5 "c"
    ≡ (if is_ok (commit engine writer none none).status && true then some "q" else none)
unfolding newest find
commit-snapshot_example =
    commit-snapshot engine writer none none 5 "c" stocked-IsValid writer-IsWellFormed refl

oldest-Attained_example : Attained stocked busy (oldest_active_snapshot stocked busy)
oldest-Attained_example = oldest-Attained stocked busy busy-IsValid
