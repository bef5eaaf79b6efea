-- ===== src/VersionStore/Sweep.antt =====
-- The loop of `CollectGarbage` over the table, one key at a time.
use mvcc_lite.Prelude.{
  ℕ, ◌≤◌, ◌<◌, ◌≡◌, refl, sym, ap, ◌∙◌, String, List, [], ◌∷◌, Option, none, some, false, is_empty,
  length, arith, string_key, ◌==◌, if◌then◌else◌,
}
use mvcc_lite.UnorderedMap.{find}
use mvcc_lite.UnorderedMap.Laws.{Distinct, Entries}
use mvcc_lite.VersionStore.Defs.{GcStats}
use mvcc_lite.VersionStore.{History, history_of}
use mvcc_lite.VersionStore.Collection.{collect_entry, keep_entry, sweep}
use mvcc_lite.VersionStore.Visible.{newest, value_at, Versions}
use mvcc_lite.VersionStore.Trim.{
  old_count, trim, trim-value_at, collect_entry-trim, kept_value_at, KeptVersions,
  collect_entry-KeptVersions,
}

-- The key is not empty, and neither is its history, whose versions do not fall and lie from 1 up to
-- the last one that was given out.
abbrev pub IsEntry : ℕ → String → History → Type 0
IsEntry next key h = (is_empty key ≡ false) × (0 < length h) × Versions 1 next h

keep_entry-Entries :
    (n : ℕ) (key : String) (o : Option History) (rest : List (String × History))
    → is_empty key ≡ false
    → KeptVersions 1 n o
    → Entries (IsEntry n) rest
    → Entries (IsEntry n) (keep_entry key o rest)
keep_entry-Entries n key none rest k v e = e
keep_entry-Entries n key (some h) rest k v e = ((k, v.0, v.1), e)

pub sweep-Entries :
    (b n : ℕ) (table : List (String × History)) (stats : GcStats)
    → Entries (IsEntry n) table
    → Entries (IsEntry n) (sweep b table stats).0
unfolding sweep
sweep-Entries b n [] stats e = tt
sweep-Entries b n ((key, h) ∷ table) stats e =
    keep_entry-Entries n key (collect_entry b h stats).0 _ e.0.0
      (collect_entry-KeptVersions b 1 n h stats e.0.1 e.0.2)
      (sweep-Entries b n table (collect_entry b h stats).1 e.1)

-- What an entry becomes.
abbrev pub entry_after : ℕ → Option History → Option History
entry_after b none = none
entry_after b (some h) = trim (old_count b h) h

find-keep_entry :
    (key k : String) (o : Option History) (rest : List (String × History))
    → find k (keep_entry key o rest)
      ≡ (if key == k then (elim o [ none ↦ find k rest | some h ↦ some h ]) else find k rest)
unfolding find
find-keep_entry key k none rest = ground arith
find-keep_entry key k (some h) rest = refl

pub find-sweep :
    (b n : ℕ) (k : String) (table : List (String × History)) (stats : GcStats)
    → Entries (IsEntry n) table
    → Distinct table
    → find k (sweep b table stats).0 ≡ entry_after b (find k table)
unfolding sweep find
find-sweep b n k [] stats e d = refl
find-sweep b n k ((key, h) ∷ table) stats e d = ground (
  arith,
  find-keep_entry key k (collect_entry b h stats).0 (sweep b table (collect_entry b h stats).1).0,
  collect_entry-trim b 1 n h stats e.0.2,
  find-sweep b n k table (collect_entry b h stats).1 e.1 d.1,
  string_key.same_iff key k,
)

keep_entry-Distinct :
    (key : String) (o : Option History) (rest : List (String × History))
    → find key rest ≡ none
    → Distinct rest
    → Distinct (keep_entry key o rest)
keep_entry-Distinct key none rest p d = d
keep_entry-Distinct key (some h) rest p d = (p, d)

pub sweep-Distinct :
    (b n : ℕ) (table : List (String × History)) (stats : GcStats)
    → Entries (IsEntry n) table
    → Distinct table
    → Distinct (sweep b table stats).0
unfolding sweep
sweep-Distinct b n [] stats e d = tt
sweep-Distinct b n ((key, h) ∷ table) stats e d =
    let stats' : GcStats = (collect_entry b h stats).1 in
    keep_entry-Distinct key (collect_entry b h stats).0 (sweep b table stats').0
      (find-sweep b n key table stats' e.1 d.1 ∙ ap (entry_after b) d.0)
      (sweep-Distinct b n table stats' e.1 d.1)

pub found-value_at :
    (m : ℕ) (o : Option History)
    → value_at m (elim o [ none ↦ [] | some h ↦ h ]) ≡ kept_value_at m o
unfolding newest
found-value_at m none = refl
found-value_at m (some h) = refl

entry_after-value_at :
    (b m : ℕ) (o : Option History) → b ≤ m → kept_value_at m (entry_after b o) ≡ kept_value_at m o
entry_after-value_at b m none p = refl
entry_after-value_at b m (some h) p = trim-value_at b m (old_count b h) h p refl

-- A reader at or after the boundary sees the same in the swept table.
pub sweep-value_at :
    (b m n : ℕ) (k : String) (table : List (String × History)) (stats : GcStats)
    → b ≤ m
    → Entries (IsEntry n) table
    → Distinct table
    → value_at m (history_of k (sweep b table stats).0) ≡ value_at m (history_of k table)
sweep-value_at b m n k table stats p e d =
    found-value_at m (find k (sweep b table stats).0)
    ∙ ap (kept_value_at m) (find-sweep b n k table stats e d)
    ∙ entry_after-value_at b m (find k table) p
    ∙ sym (found-value_at m (find k table))
