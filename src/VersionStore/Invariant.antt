-- ===== src/VersionStore/Invariant.antt =====
-- The well-formedness of the store, and its operations as calls.
use mvcc_lite.Prelude.{
  ℕ, suc, ◌+◌, ◌≤◌, ◌<◌, ◌≡◌, refl, String, List, [], ◌∷◌, Option, none, some, false, is_empty,
  push_back, length-append, u64_mod, u64_add, arith, string_key, Bool-cases, inl, inr,
}
use mvcc_lite.UnorderedMap.{find}
use mvcc_lite.UnorderedMap.Laws.{
  Distinct, Entries, Distinct-assign, Entries-assign, Entries-find, Entries-map,
}
use mvcc_lite.VersionStore.Defs.{VersionedValue, WriteOp, VersionStore, empty, no_stats}
use mvcc_lite.VersionStore.{
  History, history_of, append, put, delete, has_empty_key, apply_ops, apply_batch,
  currently_visible, apply_validated, apply_batch_if_no_conflict,
}
use mvcc_lite.VersionStore.Collection.{collect_garbage}
use mvcc_lite.VersionStore.Sweep.{IsEntry, sweep-Entries, sweep-Distinct}
use mvcc_lite.VersionStore.Visible.{Versions, Versions-widen, Versions-push_back}

-- Each key has one entry, every entry is well formed, and the counter has not wrapped around.
pub record IsValid (s : VersionStore) : Type 0 where
  pub positive : 1 ≤ s.next_version
  pub room : s.next_version < u64_mod
  pub distinct : Distinct s.table
  pub entries : Entries (IsEntry s.next_version) s.table

pub empty-IsValid : IsValid empty
empty-IsValid = record { positive = omega arith; room = omega arith; distinct = tt; entries = tt }

-- The operations that change the store.
pub data Call : Type 0 where
  puts : (key value : String) → Call
  deletes : (key : String) → Call
  batches : List WriteOp → Call
  validates : List WriteOp → (snapshot : ℕ) → Call
  collects : (safe_boundary : ℕ) → Call

unfoldable pub step : VersionStore → Call → VersionStore
step s (puts key value) = (put s key value none).1
step s (deletes key) = (delete s key none).1
step s (batches ops) = (apply_batch s ops none).1
step s (validates ops snapshot) = (apply_batch_if_no_conflict s ops snapshot none none).1
step s (collects safe_boundary) = (collect_garbage s safe_boundary).0

found-Versions :
    (n : ℕ) (key : String) (table : List (String × History)) (o : Option History)
    → Entries (IsEntry n) table
    → find key table ≡ o
    → Versions 1 n (elim o [ none ↦ [] | some h ↦ h ])
found-Versions n key table none e q = tt
found-Versions n key table (some h) e q = (Entries-find (IsEntry n) key table e q).2

pub history_of-Versions :
    (n : ℕ) (key : String) (table : List (String × History))
    → Entries (IsEntry n) table
    → Versions 1 n (history_of key table)
history_of-Versions n key table e = found-Versions n key table (find key table) e refl

append-Entries :
    (n : ℕ) (key : String) (v : VersionedValue) (table : List (String × History))
    → 1 ≤ n
    → v.version ≡ n
    → is_empty key ≡ false
    → Entries (IsEntry (suc n)) table
    → Entries (IsEntry (suc n)) (append key v table)
unfolding append
append-Entries n key v table p q k e =
    Entries-assign (IsEntry (suc n)) key (push_back (history_of key table) v) table
      (
        k,
        omega (arith, length-append (history_of key table) (v ∷ [])),
        Versions-push_back 1 n (history_of key table) v p q
            (history_of-Versions (suc n) key table e),
      )
      e

append-Distinct :
    (key : String) (v : VersionedValue) (table : List (String × History))
    → Distinct table
    → Distinct (append key v table)
unfolding append
append-Distinct key v table d = Distinct-assign key _ table d

widen :
    (n : ℕ) (table : List (String × History))
    → Entries (IsEntry n) table
    → Entries (IsEntry (suc n)) table
widen n table =
    Entries-map (IsEntry n) (IsEntry (suc n)) table
      λ k h e. (e.0, e.1, Versions-widen 1 n 1 (suc n) h (omega arith) (omega arith) e.2)

apply_ops-Entries :
    (n : ℕ) (ops : List WriteOp) (table : List (String × History))
    → 1 ≤ n
    → has_empty_key ops ≡ false
    → Entries (IsEntry (suc n)) table
    → Entries (IsEntry (suc n)) (apply_ops n ops table)
unfolding apply_ops has_empty_key
apply_ops-Entries n [] table p q e = e
apply_ops-Entries n (op ∷ ops) table p q e =
    apply_ops-Entries n ops _ p (ground arith)
      (append-Entries n op.key _ table p refl (ground arith) e)

apply_ops-Distinct :
    (n : ℕ) (ops : List WriteOp) (table : List (String × History))
    → Distinct table
    → Distinct (apply_ops n ops table)
unfolding apply_ops
apply_ops-Distinct n [] table d = d
apply_ops-Distinct n (op ∷ ops) table d =
    apply_ops-Distinct n ops _ (append-Distinct op.key _ table d)

-- A write at the version that the counter holds, which then moves on.
written-IsValid :
    (s : VersionStore) (table : List (String × History))
    → s.next_version + 1 < u64_mod
    → IsValid s
    → Distinct table
    → Entries (IsEntry (suc s.next_version)) table
    → IsValid (record { table = table; next_version = u64_add s.next_version 1 })
written-IsValid s table p v d e = record {
  positive = omega (arith, v.positive);
  room = omega arith;
  distinct = d;
  entries = rw next e;
}
  where
    next : u64_add s.next_version 1 ≡ suc s.next_version
    next = omega arith

module _ (s : VersionStore) (p : s.next_version + 1 < u64_mod) (v : IsValid s) where
  append-IsValid :
      (key : String) (value : Option String)
      → is_empty key ≡ false
      → IsValid (record {
        table = append key (record { version = s.next_version; value = value }) s.table;
        next_version = u64_add s.next_version 1;
      })
  append-IsValid key value k = written-IsValid s _ p v (append-Distinct key _ s.table v.distinct) (
      append-Entries s.next_version key _ s.table v.positive refl k
        (widen s.next_version s.table v.entries))

  apply_ops-IsValid :
      (ops : List WriteOp)
      → has_empty_key ops ≡ false
      → IsValid (record {
        table = apply_ops s.next_version ops s.table;
        next_version = u64_add s.next_version 1;
      })
  apply_ops-IsValid ops k =
      written-IsValid s _ p v (apply_ops-Distinct s.next_version ops s.table v.distinct) (
        apply_ops-Entries s.next_version ops s.table v.positive k
          (widen s.next_version s.table v.entries))

  put-IsValid : (key value : String) → IsValid (put s key value none).1
  unfolding put
  put-IsValid key value = elim (Bool-cases (is_empty key)) [
    | inl e ↦ rw e v
    | inr e ↦ rw e (append-IsValid key (some value) e)
  ]

  delete-IsValid : (key : String) → IsValid (delete s key none).1
  unfolding delete
  delete-IsValid key = elim (Bool-cases (is_empty key)) [
    | inl e ↦ rw e v
    | inr e ↦ elim (Bool-cases (currently_visible (find key s.table))) [
      | inl present ↦ rw (e, present) (append-IsValid key none e)
      | inr absent ↦ rw (e, absent) v
    ]
  ]

  apply_batch-IsValid : (ops : List WriteOp) → IsValid (apply_batch s ops none).1
  unfolding apply_batch
  apply_batch-IsValid [] = v
  apply_batch-IsValid (op ∷ ops) = elim (Bool-cases (has_empty_key (op ∷ ops))) [
    | inl e ↦ rw e v
    | inr e ↦ rw e (apply_ops-IsValid (op ∷ ops) e)
  ]

  apply_validated-IsValid :
      (ops : List WriteOp) (keys : List String)
      → has_empty_key ops ≡ false
      → IsValid (apply_validated s ops keys none none).1
  apply_validated-IsValid ops [] k = apply_ops-IsValid ops k
  apply_validated-IsValid ops (key ∷ keys) k = v

  apply_batch_if_no_conflict-IsValid :
      (ops : List WriteOp) (snapshot : ℕ)
      → IsValid (apply_batch_if_no_conflict s ops snapshot none none).1
  unfolding apply_batch_if_no_conflict
  apply_batch_if_no_conflict-IsValid [] snapshot = v
  apply_batch_if_no_conflict-IsValid (op ∷ ops) snapshot =
      elim (Bool-cases (has_empty_key (op ∷ ops))) [
        | inl e ↦ rw e v
        | inr e ↦ rw e (apply_validated-IsValid (op ∷ ops) _ e)
      ]

pub collect_garbage-Entries :
    (s : VersionStore) (b : ℕ)
    → IsValid s
    → Entries (IsEntry s.next_version) (collect_garbage s b).0.table
unfolding collect_garbage
collect_garbage-Entries s b v = sweep-Entries b s.next_version s.table no_stats v.entries

pub collect_garbage-IsValid :
    (s : VersionStore) (b : ℕ) → IsValid s → IsValid (collect_garbage s b).0
unfolding collect_garbage
collect_garbage-IsValid s b v = record {
  positive = v.positive;
  room = v.room;
  distinct = sweep-Distinct b s.next_version s.table no_stats v.entries v.distinct;
  entries = collect_garbage-Entries s b v;
}

-- Every operation, whatever its arguments, keeps the store well formed while the 64-bit counter has
-- a number left.
pub step-IsValid :
    (s : VersionStore) (c : Call) → s.next_version + 1 < u64_mod → IsValid s → IsValid (step s c)
unfolding step
step-IsValid s (puts key value) p v = put-IsValid s p v key value
step-IsValid s (deletes key) p v = delete-IsValid s p v key
step-IsValid s (batches ops) p v = apply_batch-IsValid s p v ops
step-IsValid s (validates ops snapshot) p v = apply_batch_if_no_conflict-IsValid s p v ops snapshot
step-IsValid s (collects b) p v = collect_garbage-IsValid s b v
