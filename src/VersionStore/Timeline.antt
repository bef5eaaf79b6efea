-- ===== src/VersionStore/Timeline.antt =====
-- Each operation of src/version_store.cpp as a change of what the versions show.
use mvcc_lite.Prelude.{
  ℕ, ◌≤◌, ◌≡◌, String, List, [], ◌∷◌, none, some, arith, string_key, leb, if◌then◌else◌,
}
use mvcc_lite.Status.{Status, ok, is_ok}
use mvcc_lite.VersionStore.Defs.{WriteOp, VersionStore, no_stats}
use mvcc_lite.VersionStore.{
  put, delete, apply_batch, apply_validated, conflicts, apply_batch_if_no_conflict,
}
use mvcc_lite.VersionStore.Collection.{collect_garbage}
use mvcc_lite.VersionStore.Sweep.{sweep-value_at}
use mvcc_lite.VersionStore.Invariant.{
  IsValid, Call, puts, deletes, batches, validates, collects, step,
}
use mvcc_lite.VersionStore.Snapshot.{snapshot, overlay, append-value_at, apply_ops-value_at}

-- The status that the operation returns; `CollectGarbage` returns none and always goes through.
unfoldable pub status : VersionStore → Call → Status
status s (puts key value) = (put s key value none).0
status s (deletes key) = (delete s key none).0
status s (batches ops) = (apply_batch s ops none).0
status s (validates ops snapshot) = (apply_batch_if_no_conflict s ops snapshot none none).0
status s (collects safe_boundary) = ok

-- The writes that a call asks for.
abbrev pub writes : Call → List WriteOp
writes (puts key value) = record { key = key; value = some value } ∷ []
writes (deletes key) = record { key = key; value = none } ∷ []
writes (batches ops) = ops
writes (validates ops snap) = ops
writes (collects safe_boundary) = []

-- Those that it makes.
abbrev pub effect : VersionStore → Call → List WriteOp
effect s c = if is_ok (status s c) then writes c else []

-- The oldest version whose snapshot the call leaves alone.
abbrev pub horizon : Call → ℕ
horizon (collects safe_boundary) = safe_boundary
horizon _ = 0

-- The snapshot at `n` after some writes at version `version`.
abbrev pub Written : VersionStore → List WriteOp → VersionStore → ℕ → String → Type 0
Written s ops s' n k =
    snapshot s' n k
    ≡ (if leb s.next_version n then overlay ops k (snapshot s n k) else snapshot s n k)

put-Written :
    (s : VersionStore) (key value : String) (n : ℕ) (k : String)
    → Written s (effect s (puts key value)) (put s key value none).1 n k
unfolding put status
put-Written s key value n k = ground (
  arith,
  append-value_at n key k (record { version = s.next_version; value = some value }) s.table,
)

delete-Written :
    (s : VersionStore) (key : String) (n : ℕ) (k : String)
    → Written s (effect s (deletes key)) (delete s key none).1 n k
unfolding delete status
delete-Written s key n k =
    ground
      (arith, append-value_at n key k (record { version = s.next_version; value = none }) s.table)

apply_batch-Written :
    (s : VersionStore) (ops : List WriteOp) (n : ℕ) (k : String)
    → Written s (effect s (batches ops)) (apply_batch s ops none).1 n k
unfolding apply_batch status
apply_batch-Written s [] n k = ground arith
apply_batch-Written s (op ∷ ops) n k =
    ground (arith, apply_ops-value_at n s.next_version k (op ∷ ops) s.table)

apply_validated-Written :
    (s : VersionStore) (ops : List WriteOp) (keys : List String) (n : ℕ) (k : String)
    → Written s
        (if is_ok (apply_validated s ops keys none none).0 then ops else [])
        (apply_validated s ops keys none none).1
        n
        k
apply_validated-Written s ops [] n k =
    ground (arith, apply_ops-value_at n s.next_version k ops s.table)
apply_validated-Written s ops (key ∷ keys) n k = ground arith

apply_batch_if_no_conflict-Written :
    (s : VersionStore) (ops : List WriteOp) (snap n : ℕ) (k : String)
    → Written s
        (effect s (validates ops snap))
        (apply_batch_if_no_conflict s ops snap none none).1
        n
        k
unfolding apply_batch_if_no_conflict status
apply_batch_if_no_conflict-Written s [] snap n k = ground arith
apply_batch_if_no_conflict-Written s (op ∷ ops) snap n k =
    ground (arith, apply_validated-Written s (op ∷ ops) (conflicts snap s.table (op ∷ ops)) n k)

-- At the boundary and after it, a garbage collection changes no snapshot.
pub collect_garbage-snapshot :
    (s : VersionStore) (b n : ℕ) (k : String)
    → IsValid s
    → b ≤ n
    → snapshot (collect_garbage s b).0 n k ≡ snapshot s n k
unfolding collect_garbage
collect_garbage-snapshot s b n k v p =
    sweep-value_at b n s.next_version k s.table no_stats p v.entries v.distinct

-- An operation on a well-formed store, at every version that its garbage collection does not reach
-- below, and at every key: from the version of a successful call on, the snapshot is the old one
-- with the call's writes over it, and before that version it is the old one. A call that fails
-- changes no snapshot.
pub step-snapshot :
    (s : VersionStore) (c : Call) (n : ℕ) (k : String)
    → IsValid s
    → horizon c ≤ n
    → snapshot (step s c) n k
      ≡ (if leb s.next_version n then overlay (effect s c) k (snapshot s n k) else snapshot s n k)
unfolding step
step-snapshot s (puts key value) n k v p = put-Written s key value n k
step-snapshot s (deletes key) n k v p = delete-Written s key n k
step-snapshot s (batches ops) n k v p = apply_batch-Written s ops n k
step-snapshot s (validates ops snap) n k v p = apply_batch_if_no_conflict-Written s ops snap n k
step-snapshot s (collects b) n k v p =
    unfold status in ground (arith, collect_garbage-snapshot s b n k v p)
