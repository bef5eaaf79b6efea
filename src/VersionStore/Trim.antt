-- ===== src/VersionStore/Trim.antt =====
-- What `CollectGarbage` leaves of one history, and what a snapshot sees of that.
use mvcc_lite.Prelude.{
  ℕ, zero, suc, ◌≤◌, ◌<◌, ◌≡◌, refl, sym, ◌∙◌, ap, String, [], ◌∷◌, Option, none, some, true,
  length, drop, length-drop, arith, if◌then◌else◌, Bool-cases, inl, inr,
}
use mvcc_lite.VersionStore.Defs.{GcStats, at_or_before}
use mvcc_lite.VersionStore.{History}
use mvcc_lite.VersionStore.Collection.{is_lone_tombstone, collect_entry}
use mvcc_lite.VersionStore.History.{prefix_length, prefix_length-le, partition_point-eq}
use mvcc_lite.VersionStore.Visible.{
  newest, value_of, value_at, newest-drop, Versions, Versions-drop, Versions-IsPartitioned,
}

-- How many entries of the history are at or before the bound.
abbrev pub old_count : ℕ → History → ℕ
old_count b h = prefix_length (at_or_before b) h

-- With `n` entries at or before the boundary, all but the last of them go, and the rest too if it
-- is a single tombstone.
unfoldable pub trim : ℕ → History → Option History
trim zero h = some h
trim (suc i) h = if is_lone_tombstone (drop i h) then none else some (drop i h)

-- The entry that the loop leaves does not depend on the counts so far.
pub collect_entry-trim :
    (b lo hi : ℕ) (h : History) (stats : GcStats)
    → Versions lo hi h
    → (collect_entry b h stats).0 ≡ trim (old_count b h) h
unfolding collect_entry trim
collect_entry-trim b lo hi h stats r =
    ground (arith, partition_point-eq (at_or_before b) h (Versions-IsPartitioned b lo hi h r))

abbrev pub kept_value_at : ℕ → Option History → Option String
kept_value_at n none = none
kept_value_at n (some h) = value_at n h

lone_tombstone-value_at : (n : ℕ) (h : History) → is_lone_tombstone h ≡ true → value_at n h ≡ none
unfolding is_lone_tombstone newest
lone_tombstone-value_at n [] p = cc
lone_tombstone-value_at n (v ∷ []) p = ground arith
lone_tombstone-value_at n (v ∷ w ∷ h) p = ground arith

pub trim-value_at :
    (b n c : ℕ) (h : History)
    → b ≤ n
    → old_count b h ≡ c
    → kept_value_at n (trim c h) ≡ value_at n h
unfolding trim
trim-value_at b n zero h p q = refl
trim-value_at b n (suc i) h p q = elim (Bool-cases (is_lone_tombstone (drop i h))) [
  | inl lone ↦
      rw lone
        (sym (lone_tombstone-value_at n (drop i h) lone) ∙ ap value_of (newest-drop b n i h p q))
  | inr more ↦ rw more (ap value_of (newest-drop b n i h p q))
]

-- A reader at or after the boundary sees the same in what is left.
collect_entry-value_at :
    (b n lo hi : ℕ) (h : History) (stats : GcStats)
    → b ≤ n
    → Versions lo hi h
    → kept_value_at n (collect_entry b h stats).0 ≡ value_at n h
collect_entry-value_at b n lo hi h stats p r =
    ap (kept_value_at n) (collect_entry-trim b lo hi h stats r)
    ∙ trim-value_at b n (old_count b h) h p refl

-- The history that is left, if any, is not empty and its versions do not fall.
abbrev pub KeptVersions : ℕ → ℕ → Option History → Type 0
KeptVersions lo hi none = Unit
KeptVersions lo hi (some h) = (0 < length h) × Versions lo hi h

trim-KeptVersions :
    (lo hi c : ℕ) (h : History)
    → 0 < length h
    → c ≤ length h
    → Versions lo hi h
    → KeptVersions lo hi (trim c h)
unfolding trim
trim-KeptVersions lo hi zero h p q r = (p, r)
trim-KeptVersions lo hi (suc i) h p q r = elim (Bool-cases (is_lone_tombstone (drop i h))) [
  | inl lone ↦ rw lone tt
  | inr more ↦ rw more (omega (arith, length-drop i h), Versions-drop i lo hi h r)
]

pub collect_entry-KeptVersions :
    (b lo hi : ℕ) (h : History) (stats : GcStats)
    → 0 < length h
    → Versions lo hi h
    → KeptVersions lo hi (collect_entry b h stats).0
collect_entry-KeptVersions b lo hi h stats p r =
    rw (collect_entry-trim b lo hi h stats r)
      (trim-KeptVersions lo hi (old_count b h) h p (prefix_length-le (at_or_before b) h) r)
