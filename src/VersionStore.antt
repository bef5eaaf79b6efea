-- ===== src/VersionStore.antt =====
-- include/mvcc/version_store.h and src/version_store.cpp: a history of versions for each key. Each
-- method holds the mutex, shared or exclusively, for all that it does to the table and the counter,
-- so that a method is one step. Collection has `CollectGarbage`, and the other modules below have the
-- proofs.
pub mod Defs
pub mod History
pub mod Collection
pub mod Visible
pub mod Trim
pub mod Sweep
pub mod Invariant
pub mod Snapshot
pub mod Timeline
pub mod Validation
pub mod Outcome
pub mod Garbage
pub mod Loss
pub mod Races
pub mod Runs
pub mod Reports
use Defs.{VersionedValue, WriteOp, VersionStore, at_or_before, partition_point}
use mvcc_lite.Prelude.{
  ℕ, zero, suc, ◌-◌, String, List, [], ◌∷◌, Option, none, some, Bool, true, false, not, ◌||◌,
  is_empty, if◌then◌else◌, length, back, push_back, get_elem?, ltb, u64_add, u64_sub, write,
  string_key,
}
use mvcc_lite.Prelude.Text.{concat, to_string}
use mvcc_lite.Status.{Status, ok, not_found, invalid_argument, conflict}
use mvcc_lite.UnorderedMap
use mvcc_lite.UnorderedMap.{find, assign}

abbrev pub History : Type 0
History = List VersionedValue

-- `table_[key]`, which is a new empty history for a new key
abbrev pub history_of : String → List (String × History) → History
history_of key table = elim (find key table) [ none ↦ [] | some h ↦ h ]

-- `table_[key].push_back(v)`
unfoldable pub append : String → VersionedValue → List (String × History) → List (String × History)
append key v table = assign key (push_back (history_of key table) v) table

-- `out_version` stands for a pointer, which may be null: see `write`.
unfoldable pub put : VersionStore → String → String → Option ℕ → Status × VersionStore × Option ℕ
put s key value out_version =
    if is_empty key
    then (invalid_argument "key must not be empty", s, out_version)
    else let v : VersionedValue = record { version = s.next_version; value = some value } in
      let s' : VersionStore = record {
        table = append key v s.table;
        next_version = u64_add s.next_version 1;
      } in
      (ok, s', write out_version s.next_version)

abbrev has_value : Option VersionedValue → Bool
has_value none = false
has_value (some v) = elim v.value [ none ↦ false | some _ ↦ true ]

-- `it != table_.end() && !it->second.empty() && it->second.back().value.has_value()`
unfoldable pub currently_visible : Option History → Bool
currently_visible none = false
currently_visible (some h) = has_value (back h)

unfoldable pub delete : VersionStore → String → Option ℕ → Status × VersionStore × Option ℕ
unfolding currently_visible
delete s key out_version =
    if is_empty key
    then (invalid_argument "key must not be empty", s, out_version)
    else if not (currently_visible (find key s.table))
    then (not_found (concat "key not present: " key), s, out_version)
    else let v : VersionedValue = record { version = s.next_version; value = none } in
      let s' : VersionStore = record {
        table = append key v s.table;
        next_version = u64_add s.next_version 1;
      } in
      (ok, s', write out_version s.next_version)

-- The last two components are what the outputs hold afterwards.
unfoldable pub get : VersionStore → String → String → Option ℕ → Status × String × Option ℕ
get s key out_value out_version =
    if is_empty key
    then (invalid_argument "key must not be empty", out_value, out_version)
    else elim (back (history_of key s.table)) [
      | none ↦ (not_found (concat "key not present: " key), out_value, out_version)
      | some latest ↦ elim latest.value [
        | none ↦ (not_found (concat "key not present (deleted): " key), out_value, out_version)
        | some value ↦ (ok, value, write out_version latest.version)
      ]
    ]

-- `*std::prev(boundary)`, or `none` if the boundary is the beginning
unfoldable pub visible_entry : ℕ → History → Option VersionedValue
visible_entry as_of history = elim (partition_point (at_or_before as_of) history) [
  | zero ↦ none
  | suc i ↦ get_elem? history i
]

unfoldable pub get_as_of : VersionStore → String → ℕ → String → Status × String
get_as_of s key as_of out_value =
    if is_empty key
    then (invalid_argument "key must not be empty", out_value)
    else elim (find key s.table) [
      | none ↦ (not_found (concat "key not present: " key), out_value)
      | some history ↦ elim (visible_entry as_of history) [
        | none ↦
            (not_found (concat "key did not exist as of version " (to_string as_of)), out_value)
        | some visible ↦ elim visible.value [
          | none ↦
              (not_found (concat "key was deleted as of version " (to_string as_of)), out_value)
          | some value ↦ (ok, value)
        ]
      ]
    ]

unfoldable pub key_count : VersionStore → ℕ
key_count s = UnorderedMap.size s.table

unfoldable pub version_count : VersionStore → String → ℕ
version_count s key = elim (find key s.table) [ none ↦ 0 | some h ↦ length h ]

unfoldable pub current_version : VersionStore → ℕ
current_version s = u64_sub s.next_version 1

unfoldable pub has_empty_key : List WriteOp → Bool
has_empty_key [] = false
has_empty_key (op ∷ ops) = is_empty op.key || has_empty_key ops

unfoldable pub apply_ops : ℕ → List WriteOp → List (String × History) → List (String × History)
apply_ops version [] table = table
apply_ops version (op ∷ ops) table =
    apply_ops version ops (append op.key (record { version = version; value = op.value }) table)

unfoldable pub apply_batch :
    VersionStore → List WriteOp → Option ℕ → Status × VersionStore × Option ℕ
apply_batch s [] out_version = (invalid_argument "ops must not be empty", s, out_version)
apply_batch s (op ∷ ops) out_version =
    if has_empty_key (op ∷ ops)
    then (invalid_argument "key must not be empty", s, out_version)
    else let s' : VersionStore = record {
      table = apply_ops s.next_version (op ∷ ops) s.table;
      next_version = u64_add s.next_version 1;
    } in
      (ok, s', write out_version s.next_version)

-- The latest version of a key, if it has one that is newer than the snapshot.
unfoldable pub is_newer : ℕ → Option VersionedValue → Bool
is_newer snapshot_version none = false
is_newer snapshot_version (some latest) = ltb snapshot_version latest.version

-- The validation pass: the keys of the batch that conflict, in the order of the batch.
unfoldable pub conflicts : ℕ → List (String × History) → List WriteOp → List String
unfolding is_newer
conflicts snapshot_version table [] = []
conflicts snapshot_version table (op ∷ ops) =
    let rest = conflicts snapshot_version table ops in
    if is_newer snapshot_version (back (history_of op.key table)) then op.key ∷ rest else rest

-- `conflicts.size()` in the message. With an output the vector was moved into it before, and a vector
-- that was moved from is empty.
abbrev pub counted_conflicts : List String → Option (List String) → ℕ
counted_conflicts keys none = length keys
counted_conflicts keys (some _) = 0

abbrev pub apply_validated :
    VersionStore
    → List WriteOp
    → List String
    → Option ℕ
    → Option (List String)
    → Status × VersionStore × Option ℕ × Option (List String)
apply_validated s ops (key ∷ keys) out_version out_conflicting_keys = (
  conflict (
      concat "write-write conflict on "
        (concat (to_string (counted_conflicts (key ∷ keys) out_conflicting_keys)) " key(s)")),
  s,
  out_version,
  write out_conflicting_keys (key ∷ keys),
)
apply_validated s ops [] out_version out_conflicting_keys =
    let s' : VersionStore = record {
      table = apply_ops s.next_version ops s.table;
      next_version = u64_add s.next_version 1;
    } in
    (ok, s', write out_version s.next_version, out_conflicting_keys)

unfoldable pub apply_batch_if_no_conflict :
    VersionStore
    → List WriteOp
    → ℕ
    → Option ℕ
    → Option (List String)
    → Status × VersionStore × Option ℕ × Option (List String)
apply_batch_if_no_conflict s [] snapshot_version out_version out_conflicting_keys =
    (invalid_argument "ops must not be empty", s, out_version, out_conflicting_keys)
apply_batch_if_no_conflict s (op ∷ ops) snapshot_version out_version out_conflicting_keys =
    if has_empty_key (op ∷ ops)
    then (invalid_argument "key must not be empty", s, out_version, out_conflicting_keys)
    else apply_validated s (op ∷ ops) (conflicts snapshot_version s.table (op ∷ ops)) out_version
        out_conflicting_keys
