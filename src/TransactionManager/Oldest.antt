-- ===== src/TransactionManager/Oldest.antt =====
-- What the scan of `OldestActiveSnapshot` over the shards returns.
use mvcc_lite.Prelude.{
  ℕ, zero, suc, ◌+◌, ◌≤◌, ◌<◌, ◌≡◌, refl, [], ◌∷◌, none, some, true, false, ltb, nat_key, arith,
  ◌==◌, u64_max, Bool-cases, Option-cases, inl, inr, ◌⊎◌,
}
use native.Mathlib.Decide.{ℕ_discrete}
use mvcc_lite.UnorderedMap.{find}
use mvcc_lite.UnorderedMap.Laws.{Distinct-find, Entries, Entries-map, Entries-both}
use mvcc_lite.VersionStore.Defs.{VersionStore}
use mvcc_lite.VersionStore.{current_version}
use mvcc_lite.TransactionManager.{
  k_num_shards, shard_for, Shard, TransactionManager, Scan, scan_start, see, scan_shard,
  scan_shards, boundary_of, oldest_active_snapshot,
}
use mvcc_lite.TransactionManager.Laws.{IsValid, IsPlaced, registered}

-- The scan has seen a transaction with the snapshot.
abbrev pub Seen : ℕ → Scan → Type 0
Seen snapshot acc = (acc.any_active ≡ true) × (acc.oldest ≤ snapshot)

see-Seen : (acc : Scan) (s snapshot : ℕ) → Seen snapshot acc → Seen snapshot (see acc s)
see-Seen acc s snapshot h = ground arith

pub scan_shard-Seen :
    (acc : Scan) (shard : Shard) (snapshot : ℕ)
    → Seen snapshot acc
    → Seen snapshot (scan_shard acc shard)
unfolding scan_shard
scan_shard-Seen acc [] snapshot h = h
scan_shard-Seen acc ((id, s) ∷ shard) snapshot h =
    scan_shard-Seen (see acc s) shard snapshot (see-Seen acc s snapshot h)

scan_shards-Seen :
    (shards : ℕ → Shard) (n i : ℕ) (acc : Scan) (snapshot : ℕ)
    → Seen snapshot acc
    → Seen snapshot (scan_shards shards n i acc)
unfolding scan_shards
scan_shards-Seen shards zero i acc snapshot h = h
scan_shards-Seen shards (suc n) i acc snapshot h =
    scan_shards-Seen shards n (suc i) (scan_shard acc (shards i)) snapshot
      (scan_shard-Seen acc (shards i) snapshot h)

-- The scan of a shard sees each of its entries.
pub scan_shard-find :
    (acc : Scan) (shard : Shard) (id snapshot : ℕ)
    → find id shard ≡ some snapshot
    → Seen snapshot (scan_shard acc shard)
unfolding scan_shard find
scan_shard-find acc [] id snapshot h = cc
scan_shard-find acc ((i, s) ∷ shard) id snapshot h = elim (Bool-cases (i == id)) [
  | inl hit ↦ scan_shard-Seen (see acc s) shard snapshot (ground arith)
  | inr miss ↦ scan_shard-find (see acc s) shard id snapshot (ground arith)
]

pub scan_shards-find :
    (shards : ℕ → Shard) (n i : ℕ) (acc : Scan) (j id snapshot : ℕ)
    → i ≤ j
    → j < i + n
    → find id (shards j) ≡ some snapshot
    → Seen snapshot (scan_shards shards n i acc)
unfolding scan_shards
scan_shards-find shards zero i acc j id snapshot p q h = absurd (omega arith)
scan_shards-find shards (suc n) i acc j id snapshot p q h = elim (ℕ_discrete i j) [
  | yes here ↦
      scan_shards-Seen shards n (suc i) (scan_shard acc (shards i)) snapshot
        (scan_shard-find acc (shards i) id snapshot (rw here h))
  | no other ↦
      scan_shards-find shards n (suc i) (scan_shard acc (shards i)) j id snapshot (omega arith)
        (omega arith) h
]

abbrev pub whole_scan : TransactionManager → Scan
whole_scan m = scan_shards m.shards k_num_shards 0 scan_start

-- Whoever is registered has been seen by the whole scan.
whole_scan-registered :
    (m : TransactionManager) (id snapshot : ℕ)
    → registered id m ≡ some snapshot
    → Seen snapshot (whole_scan m)
unfolding registered
whole_scan-registered m id snapshot h =
    scan_shards-find m.shards k_num_shards 0 scan_start (shard_for id) id snapshot (omega arith)
      (omega arith) h

-- The boundary is at or below the snapshot of every registered transaction.
pub oldest-le-registered :
    (store : VersionStore) (m : TransactionManager) (id snapshot : ℕ)
    → registered id m ≡ some snapshot
    → oldest_active_snapshot store m ≤ snapshot
unfolding oldest_active_snapshot registered
oldest-le-registered store m id snapshot h = ground (arith, whole_scan-registered m id snapshot h)

-- A scan has met nobody so far, or its result is the snapshot of a registered transaction.
abbrev pub Found : TransactionManager → Scan → Type 0
Found m acc =
    ((acc.any_active ≡ false) × (acc.oldest ≡ u64_max))
    ⊎ ((id : ℕ) × (acc.any_active ≡ true) × (registered id m ≡ some acc.oldest))

abbrev IsHere : TransactionManager → ℕ → ℕ → Type 0
IsHere m id snapshot = (registered id m ≡ some snapshot) × (snapshot < u64_max)

see-Found :
    (m : TransactionManager) (acc : Scan) (id s : ℕ)
    → IsHere m id s
    → Found m acc
    → Found m (see acc s)
see-Found m acc id s h (inl e) = inr (id, refl, ground arith)
see-Found m acc id s h (inr (j, a, e)) = elim (Bool-cases (ltb s acc.oldest)) [
  | inl lower ↦ inr (id, refl, rw lower h.0)
  | inr same ↦ inr (j, refl, rw same e)
]

scan_shard-Found :
    (m : TransactionManager) (acc : Scan) (shard : Shard)
    → Entries (IsHere m) shard
    → Found m acc
    → Found m (scan_shard acc shard)
unfolding scan_shard
scan_shard-Found m acc [] e f = f
scan_shard-Found m acc ((id, s) ∷ shard) e f =
    scan_shard-Found m (see acc s) shard e.1 (see-Found m acc id s e.0 f)

scan_shards-Found :
    (m : TransactionManager) (n i : ℕ) (acc : Scan)
    → ((j : ℕ) → Entries (IsHere m) (m.shards j))
    → Found m acc
    → Found m (scan_shards m.shards n i acc)
unfolding scan_shards
scan_shards-Found m zero i acc e f = f
scan_shards-Found m (suc n) i acc e f =
    scan_shards-Found m n (suc i) (scan_shard acc (m.shards i)) e
      (scan_shard-Found m acc (m.shards i) (e i) f)

all-IsHere : (m : TransactionManager) → IsValid m → (j : ℕ) → Entries (IsHere m) (m.shards j)
unfolding registered
all-IsHere m v j =
    Entries-map (λ id s. IsPlaced m.next_txn_id j id s × (find id (m.shards j) ≡ some s)) (IsHere m)
      (m.shards j) (λ id s h. (rw (h.0.0) h.1, h.0.2))
      (Entries-both (IsPlaced m.next_txn_id j) (λ id s. find id (m.shards j) ≡ some s) (m.shards j)
        (v.placed j) (Distinct-find (m.shards j) (v.distinct j)))

pub nobody :
    (m : TransactionManager) (id : ℕ) → (whole_scan m).any_active ≡ false → registered id m ≡ none
nobody m id quiet = elim (Option-cases (registered id m)) [
  | inl absent ↦ absent
  | inr (s, here) ↦ cc (quiet, (whole_scan-registered m id s here).0)
]

-- What the boundary is: the snapshot of a registered transaction, or the current version while no
-- transaction is registered.
abbrev pub Attained : VersionStore → TransactionManager → ℕ → Type 0
Attained store m b =
    ((id : ℕ) × (registered id m ≡ some b))
    ⊎ (((id : ℕ) → registered id m ≡ none) × (b ≡ current_version store))

Found-Attained :
    (store : VersionStore) (m : TransactionManager)
    → Found m (whole_scan m)
    → Attained store m (boundary_of (whole_scan m) store)
unfolding boundary_of
Found-Attained store m (inl (quiet, start)) = inr ((λ id. nobody m id quiet), rw quiet refl)
Found-Attained store m (inr (id, active, here)) = inl (id, rw active here)

-- On a well-formed manager the boundary is the snapshot of an active transaction if one is active,
-- and the current version if none is.
pub oldest-Attained :
    (store : VersionStore) (m : TransactionManager)
    → IsValid m
    → Attained store m (oldest_active_snapshot store m)
unfolding oldest_active_snapshot
oldest-Attained store m v =
    Found-Attained store m
      (scan_shards-Found m k_num_shards 0 scan_start (all-IsHere m v) (inl (refl, refl)))

-- While nobody is registered, the scan meets nobody.
pub whole_scan-idle :
    (m : TransactionManager)
    → IsValid m
    → ((id : ℕ) → registered id m ≡ none)
    → (whole_scan m).any_active ≡ false
whole_scan-idle m v idle =
    elim (scan_shards-Found m k_num_shards 0 scan_start (all-IsHere m v) (inl (refl, refl))) [
      | inl (quiet, _) ↦ quiet
      | inr (id, _, here) ↦ cc (idle id, here)
    ]
