-- ===== src/System/Guards.antt =====
-- What keeps a pass of the collector away from a snapshot that is still in use.
use mvcc_lite.Prelude.{ℕ, suc, ◌≤◌, ◌<◌, ◌≡◌, [], ◌∷◌, some, false, nat_key, arith, inl, inr, ◌⊎◌}
use native.Mathlib.Decide.{ℕ_discrete}
use mvcc_lite.UnorderedMap.Laws.{Entries}
use mvcc_lite.VersionStore.Defs.{VersionStore}
use mvcc_lite.VersionStore.{current_version}
use mvcc_lite.VersionStore.Invariant.{IsValid}
use mvcc_lite.TransactionManager.{
  TransactionManager, Shard, shard_for, k_num_shards, Scan, see, scan_start, scan_shard,
  boundary_of,
}
use mvcc_lite.TransactionManager.Laws.{registered}
use mvcc_lite.TransactionManager.Oldest.{Seen, scan_shard-Seen, scan_shard-find}
use mvcc_lite.System.{
  Client, idle, fetched, placed, pinned, running, leaving, Pass, resting, scanning, bounded,
}
use mvcc_lite.System.Ownership.{Stands}

-- A pass has seen the registration `id` once it has scanned its shard, and its boundary is not above
-- the snapshot.
abbrev pub Spared : Pass → ℕ → ℕ → Type 0
Spared resting id snapshot = Unit
Spared (scanning i acc) id snapshot = (i ≤ shard_for id) ⊎ Seen snapshot acc
Spared (bounded b) id snapshot = b ≤ snapshot

-- The same for a thread, which need not have a snapshot yet. The placeholder counts as the snapshot 0
-- for the scan, and for nothing once the scan is over.
abbrev pub Guards : Pass → Client → Type 0
Guards p idle = Unit
Guards p (fetched id) = Unit
Guards resting (placed id) = Unit
Guards (scanning i acc) (placed id) = (i ≤ shard_for id) ⊎ Seen 0 acc
Guards (bounded b) (placed id) = Unit
Guards p (pinned id snapshot) = Spared p id snapshot
Guards p (running t) = Spared p t.txn_id t.snapshot_version
Guards p (leaving release t) = Unit

-- What a pass has found so far was given out.
abbrev pub InRange : ℕ → Pass → Type 0
InRange next resting = Unit
InRange next (scanning i acc) = (acc.any_active ≡ false) ⊎ (acc.oldest < next)
InRange next (bounded b) = b < next

pub InRange-widen : (next next' : ℕ) (p : Pass) → next ≤ next' → InRange next p → InRange next' p
InRange-widen next next' resting q h = tt
InRange-widen next next' (scanning i acc) q h = ground arith
InRange-widen next next' (bounded b) q h = omega arith

see-InRange :
    (next i j : ℕ) (acc : Scan) (snapshot : ℕ)
    → snapshot < next
    → InRange next (scanning i acc)
    → InRange next (scanning j (see acc snapshot))
see-InRange next i j acc snapshot p h = ground arith

pub scan_shard-InRange :
    (next i j : ℕ) (acc : Scan) (shard : Shard)
    → Entries (λ _ snapshot. snapshot < next) shard
    → InRange next (scanning i acc)
    → InRange next (scanning j (scan_shard acc shard))
unfolding scan_shard
scan_shard-InRange next i j acc [] e h = h
scan_shard-InRange next i j acc ((id, s) ∷ shard) e h =
    scan_shard-InRange next j j (see acc s) shard e.1 (see-InRange next i j acc s e.0 h)

pub boundary_of-InRange :
    (store : VersionStore) (i : ℕ) (acc : Scan)
    → IsValid store
    → InRange store.next_version (scanning i acc)
    → boundary_of acc store < store.next_version
unfolding boundary_of current_version
boundary_of-InRange store i acc v h = ground (arith, v.positive, v.room)

-- The scan of a shard keeps a registration spared, and sees it if it is in this shard.
scan-Spared :
    (m : TransactionManager) (i id snapshot value : ℕ) (acc : Scan)
    → registered id m ≡ some value
    → value ≤ snapshot
    → Spared (scanning i acc) id snapshot
    → Spared (scanning (suc i) (scan_shard acc (m.shards i))) id snapshot
unfolding registered
scan-Spared m i id snapshot value acc r p (inr seen) =
    inr (scan_shard-Seen acc (m.shards i) snapshot seen)
scan-Spared m i id snapshot value acc r p (inl later) = elim (ℕ_discrete i (shard_for id)) [
  | yes here ↦
      let seen : Seen value (scan_shard acc (m.shards i)) =
        scan_shard-find acc (m.shards i) id value (rw here r) in
      inr (seen.0, omega arith)
  | no other ↦ inl (omega arith)
]

-- Where every shard has been scanned, the boundary spares it.
bound-Spared :
    (store : VersionStore) (id snapshot : ℕ) (acc : Scan)
    → Spared (scanning k_num_shards acc) id snapshot
    → boundary_of acc store ≤ snapshot
unfolding boundary_of
bound-Spared store id snapshot acc (inl later) = absurd (omega arith)
bound-Spared store id snapshot acc (inr seen) = ground arith

-- The placeholder is not above any snapshot.
pub Spared-pins :
    (p : Pass) (id snapshot next : ℕ)
    → InRange next p
    → next ≤ suc snapshot
    → Guards p (placed id)
    → Spared p id snapshot
Spared-pins resting id snapshot next r q g = tt
Spared-pins (scanning i acc) id snapshot next r q (inl later) = inl later
Spared-pins (scanning i acc) id snapshot next r q (inr seen) = inr (seen.0, omega (arith, seen.1))
Spared-pins (bounded b) id snapshot next r q g = omega arith

-- How a pass stands to a thread after its next step.
pub scan-Guards :
    (m : TransactionManager) (next i : ℕ) (acc : Scan) (c : Client)
    → Stands m next c
    → Guards (scanning i acc) c
    → Guards (scanning (suc i) (scan_shard acc (m.shards i))) c
scan-Guards m next i acc idle h g = tt
scan-Guards m next i acc (fetched id) h g = tt
scan-Guards m next i acc (placed id) h g = scan-Spared m i id 0 0 acc h (omega arith) g
scan-Guards m next i acc (pinned id s) h g = scan-Spared m i id s 0 acc h.0 (omega arith) g
scan-Guards m next i acc (running t) h g =
    scan-Spared m i t.txn_id t.snapshot_version t.snapshot_version acc h.0 (omega arith) g
scan-Guards m next i acc (leaving release t) h g = tt

pub bound-Guards :
    (store : VersionStore) (acc : Scan) (c : Client)
    → Guards (scanning k_num_shards acc) c
    → Guards (bounded (boundary_of acc store)) c
bound-Guards store acc idle g = tt
bound-Guards store acc (fetched id) g = tt
bound-Guards store acc (placed id) g = tt
bound-Guards store acc (pinned id s) g = bound-Spared store id s acc g
bound-Guards store acc (running t) g = bound-Spared store t.txn_id t.snapshot_version acc g
bound-Guards store acc (leaving release t) g = tt

pub start-Guards : (c : Client) → Guards (scanning 0 scan_start) c
start-Guards idle = tt
start-Guards (fetched id) = tt
start-Guards (placed id) = inl (omega arith)
start-Guards (pinned id s) = inl (omega arith)
start-Guards (running t) = inl (omega arith)
start-Guards (leaving release t) = tt

pub rest-Guards : (c : Client) → Guards resting c
rest-Guards idle = tt
rest-Guards (fetched id) = tt
rest-Guards (placed id) = tt
rest-Guards (pinned id s) = tt
rest-Guards (running t) = tt
rest-Guards (leaving release t) = tt
