-- ===== src/VersionStore/Outcome.antt =====
-- When an operation succeeds, and what a call that fails leaves behind.
use mvcc_lite.Prelude.{
  ℕ, ◌≡◌, ◌≢◌, refl, ◌↔◌, String, List, [], ◌∷◌, none, true, false, is_empty, arith, ◌⊎◌, inl, inr,
  u64_sub, string_key,
}
use mvcc_lite.UnorderedMap.{find}
use mvcc_lite.Status.{is_conflict, is_ok}
use mvcc_lite.VersionStore.Defs.{WriteOp, VersionStore}
use mvcc_lite.VersionStore.{
  history_of, put, delete, currently_visible, current_version, has_empty_key, apply_batch,
  apply_validated, conflicts, apply_batch_if_no_conflict,
}
use mvcc_lite.VersionStore.Validation.{AllUntouched, conflicts_iff}
use mvcc_lite.VersionStore.Invariant.{
  IsValid, Call, puts, deletes, batches, validates, collects, step, history_of-Versions,
}
use mvcc_lite.VersionStore.Snapshot.{snapshot, newest_all}
use mvcc_lite.VersionStore.Timeline.{status}

-- Every write of the batch names a key.
abbrev pub AllNamed : List WriteOp → Type 0
AllNamed [] = Unit
AllNamed (op ∷ ops) = (is_empty op.key ≡ false) × AllNamed ops

-- What each operation requires.
abbrev pub Allowed : VersionStore → Call → Type 0
Allowed s (puts key value) = is_empty key ≡ false
Allowed s (deletes key) = (is_empty key ≡ false) × (snapshot s (current_version s) key ≢ none)
Allowed s (batches ops) = (ops ≢ []) × AllNamed ops
Allowed s (validates ops snap) = (ops ≢ []) × AllNamed ops × AllUntouched snap s.table ops
Allowed s (collects safe_boundary) = Unit

pub has_empty_key_iff : (ops : List WriteOp) → (has_empty_key ops ≡ false) ↔ AllNamed ops
unfolding has_empty_key
has_empty_key_iff [] = (λ p. tt, λ p. refl)
has_empty_key_iff (op ∷ ops) =
    let rest = has_empty_key_iff ops in
    (λ p. (ground arith, rest.0 (ground arith)), λ p. rw (p.0) (rest.1 p.1))

batches_iff :
    (s : VersionStore) (ops : List WriteOp)
    → (is_ok (status s (batches ops)) ≡ true) ↔ Allowed s (batches ops)
unfolding status apply_batch
batches_iff s [] = (λ p. cc, λ p. absurd (p.0 refl))
batches_iff s (op ∷ ops) =
    let named = has_empty_key_iff (op ∷ ops) in
    (λ p. (λ e. cc, named.0 (ground arith)), λ p. ground (arith, named.1 p.1))

validates_iff :
    (s : VersionStore) (ops : List WriteOp) (snap : ℕ)
    → IsValid s
    → (is_ok (status s (validates ops snap)) ≡ true) ↔ Allowed s (validates ops snap)
unfolding status apply_batch_if_no_conflict
validates_iff s [] snap v = (λ p. cc, λ p. absurd (p.0 refl))
validates_iff s (op ∷ ops) snap v =
    let named = has_empty_key_iff (op ∷ ops) in
    let untouched = conflicts_iff snap s.next_version s.table (op ∷ ops) v.entries in
    (
      λ p. (λ e. cc, named.0 (ground arith), untouched.0 (ground arith)),
      λ p. ground (arith, named.1 p.1, untouched.1 p.2),
    )

-- The last entry of a valid history is what the current version sees.
currently_visible-snapshot :
    (s : VersionStore) (key : String)
    → IsValid s
    → (currently_visible (find key s.table) ≡ true) ↔ (snapshot s (current_version s) key ≢ none)
unfolding currently_visible current_version
currently_visible-snapshot s key v =
    let last =
      newest_all (u64_sub s.next_version 1) 1 s.next_version (history_of key s.table)
        (omega (arith, v.positive, v.room))
        (history_of-Versions s.next_version key s.table v.entries) in
    (λ p e. ground (arith, last), λ p. ground (arith, last))

deletes_iff :
    (s : VersionStore) (key : String)
    → IsValid s
    → (is_ok (status s (deletes key)) ≡ true) ↔ Allowed s (deletes key)
unfolding status delete
deletes_iff s key v =
    let visible = currently_visible-snapshot s key v in
    (λ p. (ground arith, visible.0 (ground arith)), λ p. ground (arith, visible.1 p.1))

puts_iff :
    (s : VersionStore) (key value : String)
    → (is_ok (status s (puts key value)) ≡ true) ↔ Allowed s (puts key value)
unfolding status put
puts_iff s key value = (λ p. ground arith, λ p. ground arith)

-- On a well-formed store an operation succeeds exactly if what it requires holds: `Put` wants a key,
-- `Delete` a key with a value at the current version, a batch some writes with a key each, and a
-- validated batch in addition that the store holds no version of its keys that is newer than the
-- snapshot (a version that was collected does not count).
pub status_iff :
    (s : VersionStore) (c : Call) → IsValid s → (is_ok (status s c) ≡ true) ↔ Allowed s c
status_iff s (puts key value) v = puts_iff s key value
status_iff s (deletes key) v = deletes_iff s key v
status_iff s (batches ops) v = batches_iff s ops
status_iff s (validates ops snap) v = validates_iff s ops snap v
status_iff s (collects b) v = (λ p. tt, λ p. unfold status in refl)

pub apply_validated-conflict :
    (s : VersionStore) (ops : List WriteOp) (keys : List String)
    → keys ≢ []
    → is_conflict (apply_validated s ops keys none none).0 ≡ true
apply_validated-conflict s ops [] p = absurd (p refl)
apply_validated-conflict s ops (key ∷ keys) p = refl

-- On a well-formed store a validated batch is refused with `Conflict` exactly if it has writes, each
-- with a key, and it is not so that the store holds no version of its keys that is newer than the
-- snapshot (a version that was collected does not count).
pub conflict_iff :
    (s : VersionStore) (ops : List WriteOp) (snap : ℕ)
    → IsValid s
    → (is_conflict (status s (validates ops snap)) ≡ true)
      ↔ ((ops ≢ []) × AllNamed ops × (¬ AllUntouched snap s.table ops))
unfolding status apply_batch_if_no_conflict
conflict_iff s [] snap v = (λ p. cc, λ p. absurd (p.0 refl))
conflict_iff s (op ∷ ops) snap v =
    let named = has_empty_key_iff (op ∷ ops) in
    let untouched = conflicts_iff snap s.next_version s.table (op ∷ ops) v.entries in
    (
      λ p. (λ e. cc, named.0 (ground arith), λ u. ground (arith, untouched.1 u)),
      λ p. ground (
        arith,
        named.1 p.1,
        apply_validated-conflict s (op ∷ ops) (conflicts snap s.table (op ∷ ops))
            (λ e. p.2 (untouched.0 e)),
      ),
    )

apply_validated-failed :
    (s : VersionStore) (ops : List WriteOp) (keys : List String)
    → is_ok (apply_validated s ops keys none none).0 ≡ false
    → (apply_validated s ops keys none none).1 ≡ s
apply_validated-failed s ops [] e = cc
apply_validated-failed s ops (key ∷ keys) e = refl

-- An operation that fails leaves the whole store as it was.
pub step_failed : (s : VersionStore) (c : Call) → is_ok (status s c) ≡ false → step s c ≡ s
unfolding step status
step_failed s (puts key value) e = unfold put in ground arith
step_failed s (deletes key) e = unfold delete in ground arith
step_failed s (batches []) e = unfold apply_batch in refl
step_failed s (batches (op ∷ ops)) e = unfold apply_batch in ground arith
step_failed s (validates [] snap) e = unfold apply_batch_if_no_conflict in refl
step_failed s (validates (op ∷ ops) snap) e =
    unfold apply_batch_if_no_conflict in
    ground (arith, apply_validated-failed s (op ∷ ops) (conflicts snap s.table (op ∷ ops)))
step_failed s (collects b) e = cc

apply_validated_outcome :
    (s : VersionStore) (ops : List WriteOp) (keys : List String)
    → (is_ok (apply_validated s ops keys none none).0 ≡ true)
      ⊎ (is_conflict (apply_validated s ops keys none none).0 ≡ true)
apply_validated_outcome s ops [] = inl refl
apply_validated_outcome s ops (key ∷ keys) = inr refl

-- A validated batch with writes, each with a key, succeeds or conflicts.
pub validates_outcome :
    (s : VersionStore) (op : WriteOp) (ops : List WriteOp) (snap : ℕ)
    → AllNamed (op ∷ ops)
    → (is_ok (status s (validates (op ∷ ops) snap)) ≡ true)
      ⊎ (is_conflict (status s (validates (op ∷ ops) snap)) ≡ true)
unfolding status apply_batch_if_no_conflict
validates_outcome s op ops snap named = ground (
  arith,
  (has_empty_key_iff (op ∷ ops)).1 named,
  apply_validated_outcome s (op ∷ ops) (conflicts snap s.table (op ∷ ops)),
)
