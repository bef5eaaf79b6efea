-- ===== src/VersionStore/Reports.antt =====
-- What `ApplyBatchIfNoConflict` reports of a conflict.
use mvcc_lite.Prelude.{
  ◌≡◌, ◌≢◌, refl, String, List, [], ◌∷◌, Option, some, Bool, true, false, arith, ◌&&◌, ◌||◌, ◌==◌,
  string_key, ℕ,
}
use mvcc_lite.Prelude.Text.{to_string}
use mvcc_lite.Status.{is_conflict}
use mvcc_lite.VersionStore.Defs.{VersionStore, WriteOp}
use mvcc_lite.VersionStore.{apply_validated, conflicts, apply_batch_if_no_conflict}
use mvcc_lite.VersionStore.Races.{newer, writes_key}

abbrev pub mentions : String → List String → Bool
mentions j [] = false
mentions j (key ∷ keys) = key == j || mentions j keys

conflicts-mentions :
    (s : VersionStore) (snap : ℕ) (ops : List WriteOp) (j : String)
    → mentions j (conflicts snap s.table ops) ≡ (writes_key j ops && newer s snap j)
unfolding conflicts
conflicts-mentions s snap [] j = refl
conflicts-mentions s snap (op ∷ ops) j =
    ground (arith, conflicts-mentions s snap ops j, string_key.same_iff op.key j)

-- The output is a list of the keys of the batch whose last version in the store is newer than the
-- snapshot.
abbrev pub Names : VersionStore → List WriteOp → ℕ → Option (List String) → Type 0
Names s ops snap out =
    (keys : List String) × (out ≡ some keys)
    × ((j : String) → mentions j keys ≡ (writes_key j ops && newer s snap j))

apply_validated-Names :
    (s : VersionStore) (ops : List WriteOp) (snap : ℕ) (ov : Option ℕ) (old keys : List String)
    → ((j : String) → mentions j keys ≡ (writes_key j ops && newer s snap j))
    → is_conflict (apply_validated s ops keys ov (some old)).0 ≡ true
    → Names s ops snap (apply_validated s ops keys ov (some old)).3
apply_validated-Names s ops snap ov old [] h e = cc
apply_validated-Names s ops snap ov old (key ∷ keys) h e = (key ∷ keys, refl, h)

-- With an output for them, a conflict reports the keys that conflict: a key is in the list exactly
-- if the batch writes it and its last version in the store is newer than the snapshot.
pub apply_batch_if_no_conflict-Names :
    (s : VersionStore) (ops : List WriteOp) (snap : ℕ) (ov : Option ℕ) (old : List String)
    → is_conflict (apply_batch_if_no_conflict s ops snap ov (some old)).0 ≡ true
    → Names s ops snap (apply_batch_if_no_conflict s ops snap ov (some old)).3
unfolding apply_batch_if_no_conflict
apply_batch_if_no_conflict-Names s [] snap ov old e = cc
apply_batch_if_no_conflict-Names s (op ∷ ops) snap ov old e = ground (
  arith,
  apply_validated-Names s (op ∷ ops) snap ov old (conflicts snap s.table (op ∷ ops))
      (conflicts-mentions s snap (op ∷ ops)),
)

apply_validated-message :
    (s : VersionStore) (ops : List WriteOp) (ov : Option ℕ) (old keys : List String)
    → is_conflict (apply_validated s ops keys ov (some old)).0 ≡ true
    → (apply_validated s ops keys ov (some old)).0.message ≡ "write-write conflict on 0 key(s)"
unfolding to_string
apply_validated-message s ops ov old [] e = cc
apply_validated-message s ops ov old (key ∷ keys) e = refl

-- With an output for the keys that conflict, the message of a conflict always speaks of 0 keys,
-- although there is one at least: the keys are counted after they were moved into the output.
conflict_message :
    (s : VersionStore) (ops : List WriteOp) (snap : ℕ) (ov : Option ℕ) (old : List String)
    → is_conflict (apply_batch_if_no_conflict s ops snap ov (some old)).0 ≡ true
    → ((apply_batch_if_no_conflict s ops snap ov (some old)).0.message
        ≡ "write-write conflict on 0 key(s)")
      × (conflicts snap s.table ops ≢ [])
unfolding apply_batch_if_no_conflict
conflict_message s [] snap ov old e = cc
conflict_message s (op ∷ ops) snap ov old e = (
  ground (arith, apply_validated-message s (op ∷ ops) ov old (conflicts snap s.table (op ∷ ops))),
  λ q. ground arith,
)
