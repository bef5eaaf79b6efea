-- ===== src/Transaction.antt =====
-- `class Transaction` of include/mvcc/transaction.h and src/transaction.cpp. The store and the
-- manager that a transaction refers to are the `Engine` here. A method is what a thread does that is
-- not interrupted; each of its calls of the store is one step of the store.
pub mod Defs
pub mod View
pub mod Commit
pub mod Atomic
pub mod Order
use Defs.{Transaction, k_committed, k_aborted, is_active}
use mvcc_lite.Prelude.{
  ℕ, String, List, [], ◌∷◌, Option, none, some, not, is_empty, if◌then◌else◌, write, string_key,
}
use mvcc_lite.Prelude.Text.{concat}
use mvcc_lite.Status.{Status, ok, is_ok, not_found, invalid_argument}
use mvcc_lite.UnorderedMap.{find, assign}
use mvcc_lite.VersionStore.Defs.{VersionStore, WriteOp}
use mvcc_lite.VersionStore.{get_as_of, apply_batch_if_no_conflict}
use mvcc_lite.TransactionManager.{TransactionManager, unregister}

pub record Engine : Type 0 where
  pub store : VersionStore
  pub manager : TransactionManager

abbrev pub not_active : Status
not_active = invalid_argument "transaction is not active"

-- The second component is what `*out_value` holds afterwards.
unfoldable pub get : VersionStore → Transaction → String → String → Status × String
get store t key out_value =
    if not (is_active t) then (not_active, out_value) else elim (find key t.write_set) [
      | some buffered ↦ elim buffered [
        | some value ↦ (ok, value)
        | none ↦ (not_found (concat "key deleted within this transaction: " key), out_value)
      ]
      | none ↦ get_as_of store key t.snapshot_version out_value
    ]

unfoldable pub put : Transaction → String → String → Status × Transaction
put t key value =
    if not (is_active t)
    then (not_active, t)
    else if is_empty key
    then (invalid_argument "key must not be empty", t)
    else (ok, record t { write_set = assign key (some value) t.write_set })

unfoldable pub delete : VersionStore → Transaction → String → Status × Transaction
delete store t key =
    if not (is_active t)
    then (not_active, t)
    else if is_empty key
    then (invalid_argument "key must not be empty", t)
    else elim (find key t.write_set) [
      | some buffered ↦ elim buffered [
        | none ↦ (not_found (concat "key already deleted within this transaction: " key), t)
        | some value ↦ (ok, record t { write_set = assign key none t.write_set })
      ]
      | none ↦
          let s = (get_as_of store key t.snapshot_version "").0 in
          if not (is_ok s)
          then (s, t)
          else (ok, record t { write_set = assign key none t.write_set })
    ]

-- The loop that turns the write set into a batch.
unfoldable pub ops_of : List (String × Option String) → List WriteOp
ops_of [] = []
ops_of ((key, value) ∷ rest) = record { key = key; value = value } ∷ ops_of rest

-- What a method that ends the transaction leaves: the engine, the transaction, and the outputs.
pub record Ended : Type 0 where
  pub status : Status
  pub engine : Engine
  pub txn : Transaction
  pub out_commit_version : Option ℕ
  pub out_conflicting_keys : Option (List String)

-- The part of `Commit` after the store has answered.
unfoldable pub finish_commit :
    Engine
    → Transaction
    → Status × VersionStore × Option ℕ × Option (List String)
    → Option ℕ
    → Ended
finish_commit e t (s, store', commit_version, out_conflicting_keys) out_commit_version =
    if not (is_ok s)
    then record {
      status = s;
      engine = record { store = store'; manager = unregister t.txn_id e.manager };
      txn = record t { write_set = []; state = k_aborted };
      out_commit_version = out_commit_version;
      out_conflicting_keys = out_conflicting_keys;
    }
    else record {
      status = ok;
      engine = record { store = store'; manager = unregister t.txn_id e.manager };
      txn = record t { state = k_committed };
      out_commit_version = elim commit_version [
        | none ↦ out_commit_version
        | some v ↦ write out_commit_version v
      ];
      out_conflicting_keys = out_conflicting_keys;
    }

-- The part of `Commit` for an active transaction. Its `commit_version` starts at 0.
unfoldable pub commit_active :
    Engine → Transaction → List (String × Option String) → Option ℕ → Option (List String) → Ended
unfolding finish_commit ops_of
commit_active e t [] out_commit_version out_conflicting_keys = record {
  status = ok;
  engine = record e { manager = unregister t.txn_id e.manager };
  txn = record t { state = k_committed };
  out_commit_version = write out_commit_version t.snapshot_version;
  out_conflicting_keys = out_conflicting_keys;
}
commit_active e t (w ∷ write_set) out_commit_version out_conflicting_keys =
    finish_commit e t
      (apply_batch_if_no_conflict e.store (ops_of (w ∷ write_set)) t.snapshot_version (some 0)
        out_conflicting_keys)
      out_commit_version

unfoldable pub commit : Engine → Transaction → Option ℕ → Option (List String) → Ended
commit e t out_commit_version out_conflicting_keys =
    if not (is_active t)
    then record {
      status = not_active;
      engine = e;
      txn = t;
      out_commit_version = out_commit_version;
      out_conflicting_keys = out_conflicting_keys;
    }
    else commit_active e t t.write_set out_commit_version out_conflicting_keys

unfoldable pub abort : Engine → Transaction → Status × Engine × Transaction
abort e t = if not (is_active t) then (not_active, e, t) else (
  ok,
  record e { manager = unregister t.txn_id e.manager },
  record t { write_set = []; state = k_aborted },
)

-- The destructor.
unfoldable pub destroy : Engine → Transaction → Engine
destroy e t = if is_active t then record e { manager = unregister t.txn_id e.manager } else e
