-- ===== src/VersionStore/Collection.antt =====
-- `CollectGarbage` of src/version_store.cpp.
use mvcc_lite.Prelude.{
  ℕ, zero, suc, String, List, [], ◌∷◌, Option, none, some, Bool, true, false, ◌&&◌, if◌then◌else◌,
  length, drop, ltb, nat_beq, u64_add,
}
use mvcc_lite.VersionStore.Defs.{GcStats, no_stats, VersionStore, at_or_before, partition_point}
use mvcc_lite.VersionStore.{History}

-- `history.size() == 1 && !history.front().value.has_value()`
unfoldable pub is_lone_tombstone : History → Bool
is_lone_tombstone [] = false
is_lone_tombstone (v ∷ h) =
    nat_beq (length (v ∷ h)) 1 && elim v.value [ none ↦ true | some _ ↦ false ]

-- One round of the loop of `CollectGarbage`: `none` is an erased entry.
unfoldable pub collect_entry : ℕ → History → GcStats → Option History × GcStats
unfolding is_lone_tombstone
collect_entry safe_boundary history stats =
    elim (partition_point (at_or_before safe_boundary) history) [
      | zero ↦ (some history, stats)
      | suc num_reclaimable ↦
          let trimmed = drop num_reclaimable history in
          let reclaimed =
            if ltb 0 num_reclaimable
            then u64_add stats.versions_reclaimed num_reclaimable
            else stats.versions_reclaimed in
          if is_lone_tombstone trimmed
          then (
            none,
            record {
              versions_reclaimed = u64_add reclaimed 1;
              keys_removed = u64_add stats.keys_removed 1;
            },
          )
          else (some trimmed, record stats { versions_reclaimed = reclaimed })
    ]

abbrev pub keep_entry : String → Option History → List (String × History) → List (String × History)
keep_entry key none rest = rest
keep_entry key (some h) rest = (key, h) ∷ rest

unfoldable pub sweep : ℕ → List (String × History) → GcStats → List (String × History) × GcStats
sweep safe_boundary [] stats = ([], stats)
sweep safe_boundary ((key, history) ∷ rest) stats =
    let (kept, stats') = collect_entry safe_boundary history stats in
    let (rest', stats'') = sweep safe_boundary rest stats' in (keep_entry key kept rest', stats'')

unfoldable pub collect_garbage : VersionStore → ℕ → VersionStore × GcStats
collect_garbage s safe_boundary =
    let (table, stats) = sweep safe_boundary s.table no_stats in (record s { table = table }, stats)
