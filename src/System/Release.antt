-- ===== src/System/Release.antt =====
-- What the threads leave registered.
use mvcc_lite.Prelude.{ℕ, ◌≤◌, ◌≡◌, List, some, none, ap, Option-cases, inl, inr}
use mvcc_lite.VersionStore.Defs.{WriteOp}
use mvcc_lite.VersionStore.{current_version}
use mvcc_lite.TransactionManager.{oldest_active_snapshot}
use mvcc_lite.TransactionManager.Laws.{registered}
use mvcc_lite.TransactionManager.Oldest.{oldest-Attained, oldest-le-registered}
use mvcc_lite.Transaction.Defs.{Transaction}
use mvcc_lite.System.{System, idle, running, Reach}
use mvcc_lite.System.Ownership.{id_of}
use mvcc_lite.System.Invariant.{Owned, Reach-Owned, at-Stands}

-- In every execution, at any point of it, a transaction in use is registered under its snapshot, and
-- `OldestActiveSnapshot` in one go is not above it.
pub Reach-registered :
    (log : List (List WriteOp)) (s : System) (i : ℕ) (t : Transaction)
    → Reach log s
    → s.clients i ≡ running t
    → (registered t.txn_id s.manager ≡ some t.snapshot_version)
      × (oldest_active_snapshot s.store s.manager ≤ t.snapshot_version)
Reach-registered log s i t r e =
    let here = (at-Stands s i (running t) (Reach-Owned r) e).0 in
    (here, oldest-le-registered s.store s.manager t.txn_id t.snapshot_version here)

unregistered :
    (s : System) (id : ℕ)
    → Owned s
    → ((i : ℕ) → s.clients i ≡ idle)
    → registered id s.manager ≡ none
unregistered s id w all = elim (Option-cases (registered id s.manager)) [
  | inl absent ↦ absent
  | inr (snapshot, r) ↦ let (i, e) = w.owner id snapshot r in cc (e, ap id_of (all i))
]

-- In every execution, whenever no thread uses a transaction or begins or ends one, no registration
-- is left, and `OldestActiveSnapshot` is the current version: commits, conflicts, aborts and dropped
-- transactions hold back no garbage.
pub Reach-idle :
    (log : List (List WriteOp)) (s : System)
    → Reach log s
    → ((i : ℕ) → s.clients i ≡ idle)
    → ((id : ℕ) → registered id s.manager ≡ none)
      × (oldest_active_snapshot s.store s.manager ≡ current_version s.store)
Reach-idle log s r all =
    let w = Reach-Owned r in
    let free : (id : ℕ) → registered id s.manager ≡ none = λ id. unregistered s id w all in
    (
      free,
      elim (oldest-Attained s.store s.manager w.manager) [
        | inl (id, here) ↦ cc (free id, here)
        | inr (_, b) ↦ b
      ],
    )
