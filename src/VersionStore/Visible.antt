-- ===== src/VersionStore/Visible.antt =====
-- What a snapshot sees of one key's history, described without the search.
use mvcc_lite.Prelude.{
  ℕ, zero, suc, ◌≤◌, ◌<◌, ◌≡◌, refl, ◌≢◌, String, [], ◌∷◌, Option, none, some, length, get_elem?,
  drop, push_back, leb, if◌then◌else◌, arith,
}
use mvcc_lite.VersionStore.Defs.{VersionedValue, at_or_before}
use mvcc_lite.VersionStore.History.{
  None, IsPartitioned, prefix_length, prefix_length-le, partition_point-eq,
}
use mvcc_lite.VersionStore.{History, visible_entry}

-- The last entry whose version is at most the bound.
unfoldable pub newest : ℕ → History → Option VersionedValue
newest bound [] = none
newest bound (v ∷ h) = elim (newest bound h) [
  | none ↦ if leb v.version bound then some v else none
  | some w ↦ some w
]

abbrev pub value_of : Option VersionedValue → Option String
value_of none = none
value_of (some v) = v.value

-- What a reader at `bound` sees: nothing, if there is no such entry or it is a tombstone.
abbrev pub value_at : ℕ → History → Option String
value_at bound h = value_of (newest bound h)

-- Versions that do not fall, from `lo` on and below `hi`.
abbrev pub Versions : ℕ → ℕ → History → Type 0
Versions lo hi [] = Unit
Versions lo hi (v ∷ h) = (lo ≤ v.version) × (v.version < hi) × Versions v.version hi h

pub Versions-widen :
    (lo hi lo' hi' : ℕ) (h : History) → lo' ≤ lo → hi ≤ hi' → Versions lo hi h → Versions lo' hi' h
Versions-widen lo hi lo' hi' [] p q r = tt
Versions-widen lo hi lo' hi' (v ∷ h) p q r =
    (omega arith, omega arith, Versions-widen v.version hi v.version hi' h (omega arith) q r.2)

pub Versions-push_back :
    (lo n : ℕ) (h : History) (w : VersionedValue)
    → lo ≤ n
    → w.version ≡ n
    → Versions lo (suc n) h
    → Versions lo (suc n) (push_back h w)
Versions-push_back lo n [] w p q r = (omega arith, omega arith, tt)
Versions-push_back lo n (v ∷ h) w p q r =
    (r.0, r.1, Versions-push_back v.version n h w (omega arith) q r.2)

pub Versions-drop : (i lo hi : ℕ) (h : History) → Versions lo hi h → Versions lo hi (drop i h)
Versions-drop zero lo hi h r = r
Versions-drop (suc i) lo hi [] r = tt
Versions-drop (suc i) lo hi (v ∷ h) r =
    Versions-drop i lo hi h (Versions-widen v.version hi lo hi h r.0 (omega arith) r.2)

None-above : (b lo hi : ℕ) (h : History) → b < lo → Versions lo hi h → None (at_or_before b) h
None-above b lo hi [] p r = tt
None-above b lo hi (v ∷ h) p r = (ground arith, None-above b v.version hi h (omega arith) r.2)

pub Versions-IsPartitioned :
    (b lo hi : ℕ) (h : History) → Versions lo hi h → IsPartitioned (at_or_before b) h
Versions-IsPartitioned b lo hi [] r = tt
Versions-IsPartitioned b lo hi (v ∷ h) r = (
  λ e. None-above b v.version hi h (ground arith) r.2,
  Versions-IsPartitioned b v.version hi h r.2,
)

newest_above : (b : ℕ) (h : History) → None (at_or_before b) h → newest b h ≡ none
unfolding newest
newest_above b [] r = refl
newest_above b (v ∷ h) r = ground (arith, newest_above b h r.1)

-- The element before the boundary, if there is one.
abbrev before : ℕ → History → Option VersionedValue
before zero h = none
before (suc i) h = get_elem? h i

get_elem?-ne-none : (h : History) (i : ℕ) → i < length h → get_elem? h i ≢ none
get_elem?-ne-none [] i p = elim p [ ]
get_elem?-ne-none (v ∷ h) zero p = λ e. cc
get_elem?-ne-none (v ∷ h) (suc i) p = get_elem?-ne-none h i (omega arith)

before-suc :
    (v : VersionedValue) (h : History) (n : ℕ)
    → n ≤ length h
    → before (suc n) (v ∷ h) ≡ (elim (before n h) [ none ↦ some v | some w ↦ some w ])
before-suc v h zero p = refl
before-suc v h (suc i) p = ground (arith, get_elem?-ne-none h i p)

before-prefix_length :
    (b : ℕ) (h : History)
    → IsPartitioned (at_or_before b) h
    → before (prefix_length (at_or_before b) h) h ≡ newest b h
unfolding newest prefix_length
before-prefix_length b [] r = refl
before-prefix_length b (v ∷ h) r = ground (
  arith,
  before-suc v h (prefix_length (at_or_before b) h),
  prefix_length-le (at_or_before b) h,
  before-prefix_length b h r.1,
  newest_above b h,
)

-- On a history whose versions do not fall, the binary search finds the last entry at or before the
-- bound.
pub visible_entry-eq-newest :
    (b lo hi : ℕ) (h : History) → Versions lo hi h → visible_entry b h ≡ newest b h
unfolding visible_entry
visible_entry-eq-newest b lo hi h r = ground (
  arith,
  partition_point-eq (at_or_before b) h (Versions-IsPartitioned b lo hi h r),
  before-prefix_length b h (Versions-IsPartitioned b lo hi h r),
)

pub newest-push_back :
    (b : ℕ) (h : History) (w : VersionedValue)
    → newest b (push_back h w) ≡ (if leb w.version b then some w else newest b h)
unfolding newest
newest-push_back b [] w = refl
newest-push_back b (v ∷ h) w = ground (arith, newest-push_back b h w)

-- A history that begins at or before `b` shows something to every later reader.
newest_found :
    (b n : ℕ) (h : History) → b ≤ n → 0 < prefix_length (at_or_before b) h → newest n h ≢ none
unfolding newest prefix_length
newest_found b n [] p q = absurd (omega arith)
newest_found b n (v ∷ h) p q = ground arith

-- Dropping what lies before the last entry at or before `b` changes nothing for later readers.
pub newest-drop :
    (b n i : ℕ) (h : History)
    → b ≤ n
    → prefix_length (at_or_before b) h ≡ suc i
    → newest n (drop i h) ≡ newest n h
unfolding newest prefix_length
newest-drop b n zero h p q = refl
newest-drop b n (suc i) [] p q = refl
newest-drop b n (suc i) (v ∷ h) p q = ground (arith, newest-drop b n i h, newest_found b n h p)
