-- ===== src/VersionStore/Garbage.antt =====
-- What `CollectGarbage` counts, and what it means for the validation of later commits.
use mvcc_lite.Prelude.{
  ℕ, zero, suc, ◌+◌, ◌≤◌, ◌<◌, ◌≡◌, refl, sym, ap, ◌∙◌, String, List, [], ◌∷◌, Option, none, some,
  true, false, arith, back, drop, length, length-drop, Bool-cases, inl, inr, u64_mod, string_key,
}
use mvcc_lite.UnorderedMap.{find}
use mvcc_lite.UnorderedMap.Laws.{Entries}
use mvcc_lite.VersionStore.Defs.{
  VersionedValue, WriteOp, GcStats, VersionStore, at_or_before, no_stats,
}
use mvcc_lite.VersionStore.{History, is_newer, conflicts, key_count}
use mvcc_lite.VersionStore.Collection.{
  is_lone_tombstone, collect_entry, keep_entry, sweep, collect_garbage,
}
use mvcc_lite.VersionStore.History.{prefix_length, prefix_length-le, partition_point-eq}
use mvcc_lite.VersionStore.Visible.{Versions, Versions-IsPartitioned}
use mvcc_lite.VersionStore.Trim.{old_count, trim}
use mvcc_lite.VersionStore.Sweep.{IsEntry, entry_after, find-sweep}
use mvcc_lite.VersionStore.Invariant.{IsValid}

-- All versions of all keys.
unfoldable pub total_versions : List (String × History) → ℕ
total_versions [] = 0
total_versions ((key, h) ∷ table) = length h + total_versions table

abbrev kept_length : Option History → ℕ
kept_length none = 0
kept_length (some h) = length h

abbrev kept_count : Option History → ℕ
kept_count none = 0
kept_count (some h) = 1

lone_tombstone-length : (h : History) → is_lone_tombstone h ≡ true → length h ≡ 1
unfolding is_lone_tombstone
lone_tombstone-length [] p = cc
lone_tombstone-length (v ∷ h) p = ground arith

-- The counts after one entry, against those before it.
abbrev Counted : ℕ → History → GcStats → Type 0
Counted b h stats =
    ((collect_entry b h stats).1.versions_reclaimed + kept_length (collect_entry b h stats).0
      ≡ stats.versions_reclaimed + length h)
    × ((collect_entry b h stats).1.keys_removed + kept_count (collect_entry b h stats).0
        ≡ stats.keys_removed + 1)

collect_entry-Counted :
    (b n c : ℕ) (h : History) (stats : GcStats)
    → Versions 1 n h
    → stats.versions_reclaimed + length h < u64_mod
    → stats.keys_removed + 1 < u64_mod
    → old_count b h ≡ c
    → Counted b h stats
unfolding collect_entry
collect_entry-Counted b n zero h stats r p q e =
    ground (arith, partition_point-eq (at_or_before b) h (Versions-IsPartitioned b 1 n h r))
collect_entry-Counted b n (suc i) h stats r p q e = ground (
  arith,
  partition_point-eq (at_or_before b) h (Versions-IsPartitioned b 1 n h r),
  prefix_length-le (at_or_before b) h,
  lone_tombstone-length (drop i h),
  length-drop i h,
)

keep_entry-counts :
    (key : String) (o : Option History) (rest : List (String × History))
    → (total_versions (keep_entry key o rest) ≡ kept_length o + total_versions rest)
      × (length (keep_entry key o rest) ≡ kept_count o + length rest)
unfolding total_versions
keep_entry-counts key none rest = omega arith
keep_entry-counts key (some h) rest = omega arith

sweep-counts :
    (b n : ℕ) (table : List (String × History)) (stats : GcStats)
    → Entries (IsEntry n) table
    → stats.versions_reclaimed + total_versions table < u64_mod
    → stats.keys_removed + length table < u64_mod
    → ((sweep b table stats).1.versions_reclaimed + total_versions (sweep b table stats).0
        ≡ stats.versions_reclaimed + total_versions table)
      × ((sweep b table stats).1.keys_removed + length (sweep b table stats).0
          ≡ stats.keys_removed + length table)
unfolding sweep total_versions
sweep-counts b n [] stats e p q = omega arith
sweep-counts b n ((key, h) ∷ table) stats e p q =
    let one =
      collect_entry-Counted b n (old_count b h) h stats e.0.2 (omega arith) (omega arith) refl in
    let stats' : GcStats = (collect_entry b h stats).1 in
    let rest = sweep-counts b n table stats' e.1 (omega arith) (omega arith) in
    let both = keep_entry-counts key (collect_entry b h stats).0 (sweep b table stats').0 in
    omega (arith, one, rest, both)

-- On a well-formed store whose versions and keys can be counted in 64 bits, a pass reports exactly
-- by how many versions and by how many keys the store has shrunk.
pub collect_garbage-counts :
    (s : VersionStore) (b : ℕ)
    → IsValid s
    → total_versions s.table < u64_mod
    → key_count s < u64_mod
    → ((collect_garbage s b).1.versions_reclaimed + total_versions (collect_garbage s b).0.table
        ≡ total_versions s.table)
      × ((collect_garbage s b).1.keys_removed + key_count (collect_garbage s b).0 ≡ key_count s)
unfolding collect_garbage key_count
collect_garbage-counts s b v p q =
    omega
      (arith, sweep-counts b s.next_version s.table no_stats v.entries (omega arith) (omega arith))

drop_old :
    (b i : ℕ) (h : History) (v : VersionedValue) (rest : History)
    → old_count b h ≡ suc i
    → drop i h ≡ v ∷ rest
    → v.version ≤ b
unfolding prefix_length
drop_old b zero [] v rest p e = cc
drop_old b zero (w ∷ h) v rest p e = ground arith
drop_old b (suc i) [] v rest p e = cc
drop_old b (suc i) (w ∷ h) v rest p e = drop_old b i h v rest (ground arith) e

back-drop : (i : ℕ) (h : History) → i < length h → back (drop i h) ≡ back h
back-drop zero h p = refl
back-drop (suc i) [] p = refl
back-drop (suc i) (v ∷ []) p = absurd (omega arith)
back-drop (suc i) (v ∷ w ∷ h) p = ground (arith, back-drop i (w ∷ h))

-- A snapshot at or after the boundary takes a dropped tombstone for no newer version.
lone_tombstone-not-newer :
    (b snap i : ℕ) (h h' : History)
    → b ≤ snap
    → old_count b h ≡ suc i
    → drop i h ≡ h'
    → is_lone_tombstone h' ≡ true
    → is_newer snap (back h') ≡ false
unfolding is_lone_tombstone is_newer
lone_tombstone-not-newer b snap i h [] p q e l = cc
lone_tombstone-not-newer b snap i h (v ∷ []) p q e l = ground (arith, drop_old b i h v [] q e)
lone_tombstone-not-newer b snap i h (v ∷ w ∷ r) p q e l = ground arith

abbrev pub or_empty : Option History → History
or_empty none = []
or_empty (some h) = h

trim-newer :
    (b snap c : ℕ) (h : History)
    → b ≤ snap
    → old_count b h ≡ c
    → is_newer snap (back (or_empty (trim c h))) ≡ is_newer snap (back h)
unfolding trim
trim-newer b snap zero h p q = refl
trim-newer b snap (suc i) h p q =
    let last = back-drop i h (omega (arith, prefix_length-le (at_or_before b) h)) in
    elim (Bool-cases (is_lone_tombstone (drop i h))) [
      | inl lone ↦ rw lone (
          unfold is_newer in
          sym (lone_tombstone-not-newer b snap i h (drop i h) p q refl lone)
          ∙ ap (is_newer snap) last)
      | inr more ↦ rw more (ap (is_newer snap) last)
    ]

pub entry_after-newer :
    (b snap : ℕ) (o : Option History)
    → b ≤ snap
    → is_newer snap (back (or_empty (entry_after b o))) ≡ is_newer snap (back (or_empty o))
entry_after-newer b snap none p = refl
entry_after-newer b snap (some h) p = trim-newer b snap (old_count b h) h p refl

-- On a well-formed store the validation of a commit whose snapshot is at or after the boundary of
-- a garbage collection finds the same conflicts after the collection as before it.
pub conflicts-collect_garbage :
    (s : VersionStore) (b snap : ℕ) (ops : List WriteOp)
    → IsValid s
    → b ≤ snap
    → conflicts snap (collect_garbage s b).0.table ops ≡ conflicts snap s.table ops
unfolding conflicts collect_garbage
conflicts-collect_garbage s b snap [] v p = refl
conflicts-collect_garbage s b snap (op ∷ ops) v p = ground (
  arith,
  find-sweep b s.next_version op.key s.table no_stats v.entries v.distinct,
  entry_after-newer b snap (find op.key s.table) p,
  conflicts-collect_garbage s b snap ops v p,
)
