-- ===== src/Transaction/Defs.antt =====
-- The state of a transaction, `class Transaction` of include/mvcc/transaction.h. Its references to
-- the store and the manager are arguments of the operations.
use mvcc_lite.Prelude.{ℕ, String, List, [], Option, Bool, true, false}

pub data State : Type 0 where
  k_active k_committed k_aborted : State

pub record Transaction : Type 0 where
  pub txn_id : ℕ  -- uint64_t
  pub snapshot_version : ℕ  -- uint64_t
  pub state : State
  pub write_set : List (String × Option String)  -- `none` is a buffered delete

-- The constructor.
abbrev pub construct : ℕ → ℕ → Transaction
construct txn_id snapshot_version = record {
  txn_id = txn_id;
  snapshot_version = snapshot_version;
  state = k_active;
  write_set = [];
}

abbrev pub state_is_active : State → Bool
state_is_active k_active = true
state_is_active _ = false

abbrev pub is_active : Transaction → Bool
is_active t = state_is_active t.state
