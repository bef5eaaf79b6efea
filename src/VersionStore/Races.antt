-- ===== src/VersionStore/Races.antt =====
-- How each operation of the store changes what a validation finds.
use mvcc_lite.Prelude.{
  ℕ, ◌≤◌, ◌≡◌, refl, String, List, [], ◌∷◌, none, some, Bool, false, arith, back, back-push_back,
  ltb, ◌==◌, ◌||◌, string_key, if◌then◌else◌,
}
use mvcc_lite.UnorderedMap.{find}
use mvcc_lite.Status.{is_ok}
use mvcc_lite.VersionStore.Defs.{VersionedValue, WriteOp, VersionStore, no_stats}
use mvcc_lite.VersionStore.{
  History, history_of, append, put, delete, apply_ops, apply_batch, apply_validated, is_newer,
  conflicts, apply_batch_if_no_conflict,
}
use mvcc_lite.VersionStore.Collection.{collect_garbage}
use mvcc_lite.VersionStore.Sweep.{find-sweep}
use mvcc_lite.VersionStore.Invariant.{
  IsValid, Call, puts, deletes, batches, validates, collects, step,
}
use mvcc_lite.VersionStore.Snapshot.{history_of-append}
use mvcc_lite.VersionStore.Timeline.{status, effect, horizon}
use mvcc_lite.VersionStore.Garbage.{entry_after-newer}

-- The last version of the key that the store holds is newer than the snapshot.
abbrev pub newer : VersionStore → ℕ → String → Bool
newer s snap key = is_newer snap (back (history_of key s.table))

-- The batch writes the key.
abbrev pub writes_key : String → List WriteOp → Bool
writes_key key [] = false
writes_key key (op ∷ ops) = op.key == key || writes_key key ops

append-newer :
    (snap : ℕ) (key k : String) (v : VersionedValue) (table : List (String × History))
    → is_newer snap (back (history_of k (append key v table)))
      ≡ (if key == k then ltb snap v.version else is_newer snap (back (history_of k table)))
unfolding is_newer
append-newer snap key k v table =
    ground (arith, history_of-append key k v table, back-push_back (history_of k table) v)

apply_ops-newer :
    (snap version : ℕ) (k : String) (ops : List WriteOp) (table : List (String × History))
    → is_newer snap (back (history_of k (apply_ops version ops table)))
      ≡ (if writes_key k ops then ltb snap version else is_newer snap (back (history_of k table)))
unfolding apply_ops
apply_ops-newer snap version k [] table = refl
apply_ops-newer snap version k (op ∷ ops) table =
    let v : VersionedValue = record { version = version; value = op.value } in
    ground (
      arith,
      apply_ops-newer snap version k ops (append op.key v table),
      append-newer snap op.key k v table,
    )

-- The key counts as newer than the snapshot exactly if the batch wrote it at a later version, or
-- did not write it and it counted so before.
abbrev pub Validated : VersionStore → List WriteOp → VersionStore → ℕ → String → Type 0
Validated s ops s' snap k =
    newer s' snap k ≡ (if writes_key k ops then ltb snap s.next_version else newer s snap k)

apply_validated-Validated :
    (s : VersionStore) (ops : List WriteOp) (keys : List String) (snap : ℕ) (k : String)
    → Validated s
        (if is_ok (apply_validated s ops keys none none).0 then ops else [])
        (apply_validated s ops keys none none).1
        snap
        k
apply_validated-Validated s ops [] snap k = apply_ops-newer snap s.next_version k ops s.table
apply_validated-Validated s ops (key ∷ keys) snap k = refl

pub collect_garbage-Validated :
    (s : VersionStore) (b snap : ℕ) (k : String)
    → IsValid s
    → b ≤ snap
    → newer (collect_garbage s b).0 snap k ≡ newer s snap k
unfolding collect_garbage
collect_garbage-Validated s b snap k v p = ground (
  arith,
  find-sweep b s.next_version k s.table no_stats v.entries v.distinct,
  entry_after-newer b snap (find k s.table) p,
)

-- How any operation changes what a later validation with the snapshot `snap` finds at a key.
pub step-Validated :
    (s : VersionStore) (c : Call) (snap : ℕ) (k : String)
    → IsValid s
    → horizon c ≤ snap
    → Validated s (effect s c) (step s c) snap k
unfolding step status
step-Validated s (puts key value) snap k v p =
    unfold put in
    ground (
      arith,
      append-newer snap key k (record { version = s.next_version; value = some value }) s.table,
    )
step-Validated s (deletes key) snap k v p =
    unfold delete in
    ground
      (arith, append-newer snap key k (record { version = s.next_version; value = none }) s.table)
step-Validated s (batches []) snap k v p = unfold apply_batch in refl
step-Validated s (batches (op ∷ ops)) snap k v p =
    unfold apply_batch in ground (arith, apply_ops-newer snap s.next_version k (op ∷ ops) s.table)
step-Validated s (validates [] n) snap k v p = unfold apply_batch_if_no_conflict in refl
step-Validated s (validates (op ∷ ops) n) snap k v p =
    unfold apply_batch_if_no_conflict in
    ground (arith, apply_validated-Validated s (op ∷ ops) (conflicts n s.table (op ∷ ops)) snap k)
step-Validated s (collects b) snap k v p = collect_garbage-Validated s b snap k v p
