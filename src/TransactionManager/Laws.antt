-- ===== src/TransactionManager/Laws.antt =====
-- Which transactions are registered, and the well-formedness of the manager.
use mvcc_lite.Prelude.{
  ℕ, ◌+◌, ◌≤◌, ◌<◌, ◌≡◌, refl, Option, none, some, if◌then◌else◌, nat_beq, nat_beq_iff, nat_key,
  arith, ◌==◌, u64_add, u64_max, u64_mod, Bool-cases, Option-cases, inl, inr,
}
use mvcc_lite.UnorderedMap.{find}
use mvcc_lite.UnorderedMap.Laws.{
  Entries, Entries-find, Entries-assign, Entries-erase, Entries-map, Distinct, find-assign,
  find-erase, Distinct-assign, Distinct-erase,
}
use mvcc_lite.VersionStore.Defs.{VersionStore}
use mvcc_lite.VersionStore.{current_version}
use mvcc_lite.TransactionManager.{
  shard_for, Shard, TransactionManager, init, update, fetch_txn_id, register, begin, unregister,
}

-- The snapshot under which a transaction is registered.
unfoldable pub registered : ℕ → TransactionManager → Option ℕ
registered txn_id m = find txn_id (m.shards (shard_for txn_id))

pub registered-register :
    (id snapshot j : ℕ) (m : TransactionManager)
    → registered j (register id snapshot m) ≡ (if id == j then some snapshot else registered j m)
unfolding registered register
registered-register id snapshot j m =
    ground (arith, find-assign id j snapshot (m.shards (shard_for id)))

-- Every shard holds each transaction once.
abbrev pub AllDistinct : TransactionManager → Type 0
AllDistinct m = (i : ℕ) → Distinct (m.shards i)

pub registered-unregister :
    (id j : ℕ) (m : TransactionManager)
    → AllDistinct m
    → registered j (unregister id m) ≡ (if id == j then none else registered j m)
unfolding registered unregister
registered-unregister id j m d =
    ground (arith, find-erase id j (m.shards (shard_for id)) (d (shard_for id)))

abbrev pub IsPlaced : ℕ → ℕ → ℕ → ℕ → Type 0
IsPlaced next i id snapshot = (shard_for id ≡ i) × (id < next) × (snapshot < u64_max)

pub update-all {ℓ} :
    (P : Shard → Type ℓ) (shards : ℕ → Shard) (i : ℕ) (shard : Shard) (j : ℕ)
    → ((k : ℕ) → P (shards k))
    → P shard
    → P (update shards i shard j)
update-all P shards i shard j h p = elim (Bool-cases (nat_beq i j)) [
  | inl here ↦ rw here p
  | inr other ↦ rw other (h j)
]

register-AllDistinct :
    (id snapshot : ℕ) (m : TransactionManager)
    → AllDistinct m
    → AllDistinct (register id snapshot m)
unfolding register
register-AllDistinct id snapshot m d = λ i.
    update-all Distinct m.shards (shard_for id) _ i d
      (Distinct-assign id snapshot (m.shards (shard_for id)) (d (shard_for id)))

pub unregister-AllDistinct :
    (id : ℕ) (m : TransactionManager) → AllDistinct m → AllDistinct (unregister id m)
unfolding unregister
unregister-AllDistinct id m d = λ i.
    update-all Distinct m.shards (shard_for id) _ i d
      (Distinct-erase id (m.shards (shard_for id)) (d (shard_for id)))

-- Each transaction is in its own shard, once, with an identifier that was given out, and its
-- snapshot is not the value that the scan starts from.
pub record IsValid (m : TransactionManager) : Type 0 where
  pub positive : 1 ≤ m.next_txn_id
  pub room : m.next_txn_id < u64_mod
  pub distinct : (i : ℕ) → Distinct (m.shards i)
  pub placed : (i : ℕ) → Entries (IsPlaced m.next_txn_id i) (m.shards i)

pub init-IsValid : IsValid init
init-IsValid = record {
  positive = omega arith;
  room = omega arith;
  distinct = λ i. tt;
  placed = λ i. tt;
}

pub register-IsValid :
    (id snapshot : ℕ) (m : TransactionManager)
    → IsValid m
    → id < m.next_txn_id
    → snapshot < u64_max
    → IsValid (register id snapshot m)
unfolding register
register-IsValid id snapshot m v p q = record {
  positive = v.positive;
  room = v.room;
  distinct = register-AllDistinct id snapshot m v.distinct;
  placed = λ i. elim (Bool-cases (nat_beq (shard_for id) i)) [
    | inl here ↦
        rw (here, ← (nat_beq_iff (shard_for id) i).0 here)
          (Entries-assign (IsPlaced m.next_txn_id (shard_for id)) id snapshot
            (m.shards (shard_for id)) (refl, p, q) (v.placed (shard_for id)))
    | inr other ↦ rw other (v.placed i)
  ];
}

pub unregister-IsValid : (id : ℕ) (m : TransactionManager) → IsValid m → IsValid (unregister id m)
unfolding unregister
unregister-IsValid id m v = record {
  positive = v.positive;
  room = v.room;
  distinct = unregister-AllDistinct id m v.distinct;
  placed = λ i. elim (Bool-cases (nat_beq (shard_for id) i)) [
    | inl here ↦
        rw (here, ← (nat_beq_iff (shard_for id) i).0 here)
          (Entries-erase (IsPlaced m.next_txn_id (shard_for id)) id (m.shards (shard_for id))
            (v.placed (shard_for id)))
    | inr other ↦ rw other (v.placed i)
  ];
}

pub fetch_txn_id-IsValid :
    (m : TransactionManager) → m.next_txn_id + 1 < u64_mod → IsValid m → IsValid (fetch_txn_id m).1
unfolding fetch_txn_id
fetch_txn_id-IsValid m p v = record {
  positive = omega (arith, v.positive);
  room = omega arith;
  distinct = v.distinct;
  placed = λ i.
      Entries-map (IsPlaced m.next_txn_id i) (IsPlaced (u64_add m.next_txn_id 1) i) (m.shards i)
        (λ id s h. (h.0, omega (arith, h.1), h.2)) (v.placed i);
}

-- An identifier that was not given out yet is not registered.
pub registered_fresh :
    (m : TransactionManager) (id : ℕ) → IsValid m → m.next_txn_id ≤ id → registered id m ≡ none
unfolding registered
registered_fresh m id v p = elim (Option-cases (find id (m.shards (shard_for id)))) [
  | inl absent ↦ absent
  | inr (s, found) ↦ absurd (
      omega (
        arith,
        (Entries-find (IsPlaced m.next_txn_id (shard_for id)) id (m.shards (shard_for id))
            (v.placed (shard_for id)) found).1,
      ))
]

-- A registered snapshot is below the value that the scan starts from.
pub registered-lt-max :
    (m : TransactionManager) (id s : ℕ)
    → IsValid m
    → registered id m ≡ some s
    → (s < u64_max) × (id < m.next_txn_id)
unfolding registered
registered-lt-max m id s v found =
    let e =
      Entries-find (IsPlaced m.next_txn_id (shard_for id)) id (m.shards (shard_for id))
        (v.placed (shard_for id)) found in
    (e.2, e.1)

current_version-lt-max :
    (store : VersionStore)
    → 1 ≤ store.next_version
    → store.next_version < u64_mod
    → current_version store < u64_max
unfolding current_version
current_version-lt-max store p q = omega arith

pub registered-fetch_txn_id :
    (j : ℕ) (m : TransactionManager) → registered j (fetch_txn_id m).1 ≡ registered j m
unfolding registered fetch_txn_id
registered-fetch_txn_id j m = refl

-- `Begin` keeps the manager well formed, while the counter of identifiers has a number left and
-- the counter of versions is positive and in range.
pub begin-IsValid :
    (store : VersionStore) (m : TransactionManager)
    → m.next_txn_id + 1 < u64_mod
    → IsValid m
    → 1 ≤ store.next_version
    → store.next_version < u64_mod
    → IsValid (begin store m).0
unfolding begin fetch_txn_id register
begin-IsValid store m p v positive room =
    register-IsValid m.next_txn_id (current_version store) _
      (register-IsValid m.next_txn_id 0 _ (fetch_txn_id-IsValid m p v)
        (unfold fetch_txn_id in omega arith) (omega arith))
      (unfold fetch_txn_id register in omega arith) (current_version-lt-max store positive room)

-- `Begin` registers the new transaction under its snapshot, the current version, and leaves the
-- others as they were.
pub registered-begin :
    (store : VersionStore) (m : TransactionManager) (j : ℕ)
    → registered j (begin store m).0
      ≡ (if m.next_txn_id == j then some (current_version store) else registered j m)
unfolding begin fetch_txn_id
registered-begin store m j =
    let m1 : TransactionManager = (fetch_txn_id m).1 in
    ground (
      arith,
      registered-register m.next_txn_id (current_version store) j (register m.next_txn_id 0 m1),
      registered-register m.next_txn_id 0 j m1,
      registered-fetch_txn_id j m,
    )

pub begin-AllDistinct :
    (store : VersionStore) (m : TransactionManager) → AllDistinct m → AllDistinct (begin store m).0
unfolding begin fetch_txn_id
begin-AllDistinct store m d =
    register-AllDistinct m.next_txn_id (current_version store) _
      (register-AllDistinct m.next_txn_id 0 (fetch_txn_id m).1 d)

pub begin-next_txn_id :
    (store : VersionStore) (m : TransactionManager)
    → (begin store m).0.next_txn_id ≡ u64_add m.next_txn_id 1
unfolding begin fetch_txn_id register
begin-next_txn_id store m = refl
