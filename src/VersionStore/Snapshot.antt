-- ===== src/VersionStore/Snapshot.antt =====
-- The store as a timeline: what each version sees at each key, and what `GetAsOf` and `Get` answer.
use mvcc_lite.Prelude.{
  ℕ, suc, ◌≤◌, ◌≡◌, refl, String, List, [], ◌∷◌, Option, none, some, false, is_empty, push_back,
  back, arith, string_key, ◌==◌, leb, if◌then◌else◌, u64_sub, ◌&&◌,
}
use mvcc_lite.Status.{Status, Code, k_ok, k_not_found}
use mvcc_lite.UnorderedMap.{find}
use mvcc_lite.UnorderedMap.Laws.{Entries-find, find-assign}
use mvcc_lite.VersionStore.Defs.{VersionedValue, WriteOp, VersionStore}
use mvcc_lite.VersionStore.{History, history_of, append, apply_ops, get, get_as_of, current_version}
use mvcc_lite.VersionStore.Visible.{
  newest, value_at, newest-push_back, Versions, visible_entry-eq-newest,
}
use mvcc_lite.VersionStore.Sweep.{IsEntry}
use mvcc_lite.VersionStore.Invariant.{IsValid, history_of-Versions}

-- The value of `key` that a snapshot at version `n` shows, if it shows one.
abbrev pub snapshot : VersionStore → ℕ → String → Option String
snapshot s n key = value_at n (history_of key s.table)

abbrev pub code_for : Option String → Code
code_for none = k_not_found
code_for (some _) = k_ok

abbrev pub value_or : Option String → String → String
value_or none out = out
value_or (some x) out = x

-- A read with the output `out` returns the value that it should see, or `NotFound` with the output
-- untouched where there is none.
abbrev pub Answers : Option String → String → Status × String → Type 0
Answers o out r = (r.0.code ≡ code_for o) × (r.1 ≡ value_or o out)

found-Answers :
    (o : Option History) (s : VersionStore) (key : String) (n : ℕ) (out : String)
    → IsValid s
    → is_empty key ≡ false
    → find key s.table ≡ o
    → Answers (value_at n (elim o [ none ↦ [] | some h ↦ h ])) out (get_as_of s key n out)
unfolding get_as_of newest
found-Answers none s key n out v k f = rw (k, f) (refl, refl)
found-Answers (some h) s key n out v k f =
    let e : IsEntry s.next_version key h =
      Entries-find (IsEntry s.next_version) key s.table v.entries f in
    rw (k, f, visible_entry-eq-newest n 1 s.next_version h e.2) (ground arith)

-- From a well-formed store `GetAsOf` of a non-empty key returns the value that the snapshot shows,
-- and `NotFound` with the output untouched where it shows none.
pub get_as_of-Answers :
    (s : VersionStore) (key : String) (n : ℕ) (out : String)
    → IsValid s
    → is_empty key ≡ false
    → Answers (snapshot s n key) out (get_as_of s key n out)
get_as_of-Answers s key n out v k = found-Answers (find key s.table) s key n out v k refl

pub history_of-append :
    (key k : String) (v : VersionedValue) (table : List (String × History))
    → history_of k (append key v table)
      ≡ (if key == k then push_back (history_of k table) v else history_of k table)
unfolding append
history_of-append key k v table =
    ground (
      arith,
      find-assign key k (push_back (history_of key table) v) table,
      string_key.same_iff key k,
    )

-- The last entry of a history that is below the bound is what the bound sees.
pub newest_all : (n lo hi : ℕ) (h : History) → hi ≤ suc n → Versions lo hi h → newest n h ≡ back h
unfolding newest
newest_all n lo hi [] p r = refl
newest_all n lo hi (v ∷ h) p r = ground (arith, newest_all n v.version hi h p r.2)

-- On a well-formed store `Get` of a non-empty key returns the value that the snapshot at the
-- current version shows, and `NotFound` with the output untouched where it shows none.
pub get-Answers :
    (s : VersionStore) (key out : String) (out_version : Option ℕ)
    → IsValid s
    → is_empty key ≡ false
    → Answers
        (snapshot s (current_version s) key)
        out
        ((get s key out out_version).0, (get s key out out_version).1)
unfolding get current_version
get-Answers s key out out_version v k =
    rw
      (
        k,
        newest_all (u64_sub s.next_version 1) 1 s.next_version (history_of key s.table)
            (omega (arith, v.positive, v.room))
            (history_of-Versions s.next_version key s.table v.entries),
      )
      (ground arith)

pub append-value_at :
    (n : ℕ) (key k : String) (v : VersionedValue) (table : List (String × History))
    → value_at n (history_of k (append key v table))
      ≡ (if key == k && leb v.version n then v.value else value_at n (history_of k table))
append-value_at n key k v table =
    ground (arith, history_of-append key k v table, newest-push_back n (history_of k table) v)

-- The last write of a batch to the key.
abbrev pub last_write : String → List WriteOp → Option (Option String)
last_write k [] = none
last_write k (op ∷ ops) = elim (last_write k ops) [
  | none ↦ if op.key == k then some op.value else none
  | some w ↦ some w
]

-- The value after the writes of a batch, from the value before.
abbrev pub overlay : List WriteOp → String → Option String → Option String
overlay ops k before = elim (last_write k ops) [ none ↦ before | some w ↦ w ]

pub apply_ops-value_at :
    (n version : ℕ) (k : String) (ops : List WriteOp) (table : List (String × History))
    → value_at n (history_of k (apply_ops version ops table)) ≡ (
        if leb version n
        then overlay ops k (value_at n (history_of k table))
        else value_at n (history_of k table))
unfolding apply_ops
apply_ops-value_at n version k [] table = ground arith
apply_ops-value_at n version k (op ∷ ops) table =
    let v : VersionedValue = record { version = version; value = op.value } in
    ground (
      arith,
      apply_ops-value_at n version k ops (append op.key v table),
      append-value_at n op.key k v table,
    )
