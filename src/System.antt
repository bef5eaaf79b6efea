-- ===== src/System.antt =====
-- The classes of include/mvcc together: any number of threads, each with a transaction or with a pass
-- of the collector, interleaved at every acquisition of a lock. A thread that uses several
-- transactions at a time stands here as several.
pub mod Log
pub mod Spec
pub mod Agreement
pub mod Ownership
pub mod Moves
pub mod Invariant
pub mod Guards
pub mod Calm
pub mod Safety
pub mod Isolation
pub mod Truth
pub mod Always
pub mod Books
pub mod Release
pub mod Conflicts
pub mod Alone
pub mod Interrupted
pub mod Replies
pub mod Reads
pub mod Acts
pub mod Refinement
pub mod Roundtrip
use mvcc_lite.Prelude.{
  ℕ, zero, suc, ◌+◌, ◌<◌, ◌≡◌, String, List, [], ◌∷◌, ◌++◌, Option, none, some, true, if◌then◌else◌,
  nat_beq, u64_mod,
}
use mvcc_lite.VersionStore.Defs as StoreDefs
use mvcc_lite.VersionStore.Defs.{VersionStore, WriteOp}
use mvcc_lite.VersionStore.{current_version}
use mvcc_lite.VersionStore.Collection.{collect_garbage}
use mvcc_lite.VersionStore.Invariant.{Call, puts, deletes, batches, validates, collects, step}
use mvcc_lite.VersionStore.Timeline.{writes}
use mvcc_lite.VersionStore.Runs.{advances}
use mvcc_lite.TransactionManager
use mvcc_lite.TransactionManager.{
  TransactionManager, k_num_shards, Scan, scan_start, scan_shard, boundary_of, fetch_txn_id,
  register,
}
use mvcc_lite.Transaction.Defs.{Transaction, construct}
use mvcc_lite.Transaction.{Engine, put, delete, ops_of, commit, abort, destroy}

-- Where a thread stands that uses a transaction: without one, at each point of `Begin`, with the
-- transaction, and where the transaction has ended but the method that ended it has still to do what
-- it does to the manager (`release`).
pub data Client : Type 0 where
  idle : Client
  fetched : (txn_id : ℕ) → Client
  placed : (txn_id : ℕ) → Client
  pinned : (txn_id snapshot : ℕ) → Client
  running : Transaction → Client
  leaving : (release : TransactionManager → TransactionManager) → Transaction → Client

-- Where a thread stands in `RunOnce`: outside, before the scan of shard `i`, and with the boundary.
pub data Pass : Type 0 where
  resting : Pass
  scanning : (i : ℕ) → Scan → Pass
  bounded : ℕ → Pass

pub record System : Type 0 where
  pub store : VersionStore
  pub manager : TransactionManager
  pub clients : ℕ → Client
  pub passes : ℕ → Pass

abbrev pub engine : System → Engine
engine s = record { store = s.store; manager = s.manager }

abbrev pub update {ℓ} : {A : Type ℓ} → (ℕ → A) → ℕ → A → ℕ → A
update f i a j = if nat_beq i j then a else f j

abbrev pub init : System
init = record {
  store = StoreDefs.empty;
  manager = TransactionManager.init;
  clients = λ _. idle;
  passes = λ _. resting;
}

-- The batches that a call of the store adds to what was written: one if it writes, else none.
abbrev pub wrote : VersionStore → Call → List (List WriteOp)
wrote s c = if advances s c then writes c ∷ [] else []

-- The call that a `Commit` comes to.
abbrev pub commit_call : Transaction → Call
commit_call t = validates (ops_of t.write_set) t.snapshot_version

-- What `Commit`, `Abort` and the destructor do to the manager, on which they act last, when others
-- may have changed it: `Commit` has had the answer of the store by then.
abbrev pub commit_release : VersionStore → Transaction → TransactionManager → TransactionManager
commit_release store t m =
    (commit (record { store = store; manager = m }) t none none).engine.manager

abbrev pub abort_release : VersionStore → Transaction → TransactionManager → TransactionManager
abort_release store t m = (abort (record { store = store; manager = m }) t).1.manager

abbrev pub destroy_release : VersionStore → Transaction → TransactionManager → TransactionManager
destroy_release store t m = (destroy (record { store = store; manager = m }) t).manager

-- Calls that threads make on the store directly.
pub data IsDirect : Call → Type 0 where
  direct_put : (key value : String) → IsDirect (puts key value)
  direct_delete : (key : String) → IsDirect (deletes key)
  direct_batch : (ops : List WriteOp) → IsDirect (batches ops)

-- What one thread does under one lock, and the batches that this writes. The counters have a number
-- left whenever one is taken.
pub data Step (s : System) : List (List WriteOp) → System → Type 0 where
  fetches :
      (i : ℕ)
      → s.clients i ≡ idle
      → s.manager.next_txn_id + 1 < u64_mod
      → Step s [] (record s {
        manager = (fetch_txn_id s.manager).1;
        clients = update s.clients i (fetched (fetch_txn_id s.manager).0);
      })
  places :
      (i id : ℕ)
      → s.clients i ≡ fetched id
      → Step s []
          (record s { manager = register id 0 s.manager; clients = update s.clients i (placed id) })
  pins :
      (i id : ℕ)
      → s.clients i ≡ placed id
      → Step s [] (record s { clients = update s.clients i (pinned id (current_version s.store)) })
  refines :
      (i id snapshot : ℕ)
      → s.clients i ≡ pinned id snapshot
      → Step s [] (record s {
        manager = register id snapshot s.manager;
        clients = update s.clients i (running (construct id snapshot));
      })
  buffers_put :
      (i : ℕ) (t : Transaction) (key value : String)
      → s.clients i ≡ running t
      → Step s [] (record s { clients = update s.clients i (running (put t key value).1) })
  buffers_delete :
      (i : ℕ) (t : Transaction) (key : String)
      → s.clients i ≡ running t
      → Step s [] (record s { clients = update s.clients i (running (delete s.store t key).1) })
  -- `Transaction::Get`, which changes nothing.
  gets : (i : ℕ) (t : Transaction) (key out_value : String) → s.clients i ≡ running t → Step s [] s
  -- `Commit` up to the answer of the store.
  commits :
      (i : ℕ) (t : Transaction)
      → s.clients i ≡ running t
      → s.store.next_version + 1 < u64_mod
      → Step s (wrote s.store (commit_call t)) (record s {
        store = (commit (engine s) t none none).engine.store;
        clients =
            update s.clients i
              (leaving (commit_release s.store t) (commit (engine s) t none none).txn);
      })
  aborts :
      (i : ℕ) (t : Transaction)
      → s.clients i ≡ running t
      → Step s [] (record s {
        clients = update s.clients i (leaving (abort_release s.store t) (abort (engine s) t).2);
      })
  -- The destructor of an active transaction.
  drops :
      (i : ℕ) (t : Transaction)
      → s.clients i ≡ running t
      → Step s []
          (record s { clients = update s.clients i (leaving (destroy_release s.store t) t) })
  -- The last action of `Commit`, `Abort` and the destructor.
  unregisters :
      (i : ℕ) (release : TransactionManager → TransactionManager) (t : Transaction)
      → s.clients i ≡ leaving release t
      → Step s [] (record s { manager = release s.manager; clients = update s.clients i idle })
  calls :
      (c : Call)
      → IsDirect c
      → s.store.next_version + 1 < u64_mod
      → Step s (wrote s.store c) (record s { store = step s.store c })
  -- `VersionStore::Get`, which changes nothing.
  gets_now : (key out_value : String) (out_version : Option ℕ) → Step s [] s
  starts :
      (p : ℕ)
      → s.passes p ≡ resting
      → Step s [] (record s { passes = update s.passes p (scanning 0 scan_start) })
  scans :
      (p i : ℕ) (acc : Scan)
      → s.passes p ≡ scanning i acc
      → i < k_num_shards
      → Step s [] (record s {
        passes = update s.passes p (scanning (suc i) (scan_shard acc (s.manager.shards i)));
      })
  bounds :
      (p : ℕ) (acc : Scan)
      → s.passes p ≡ scanning k_num_shards acc
      → Step s [] (record s { passes = update s.passes p (bounded (boundary_of acc s.store)) })
  reclaims :
      (p b : ℕ)
      → s.passes p ≡ bounded b
      → Step s []
          (record s { store = (collect_garbage s.store b).0; passes = update s.passes p resting })

-- The states that the threads can reach, with all that was written on the way, the oldest first.
pub data Reach : List (List WriteOp) → System → Type 0 where
  start : Reach [] init
  next :
      {log wrote : List (List WriteOp)} {s t : System}
      → Reach log s
      → Step s wrote t
      → Reach (log ++ wrote) t
