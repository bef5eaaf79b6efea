-- ===== src/VersionStore/Loss.antt =====
-- What a garbage collection leaves to a reader below its boundary.
use mvcc_lite.Prelude.{
  back, false, Bool, true, ℕ, zero, suc, ◌≡◌, refl, sym, ap, ◌∙◌, String, [], ◌∷◌, Option, none,
  some, drop, arith, string_key, Bool-cases, Option-cases, inl, inr, ◌⊎◌,
}
use mvcc_lite.UnorderedMap.{find}
use mvcc_lite.VersionStore.Defs.{VersionStore, no_stats}
use mvcc_lite.VersionStore.{is_newer, History}
use mvcc_lite.VersionStore.Collection.{is_lone_tombstone, collect_garbage, sweep}
use mvcc_lite.VersionStore.Visible.{newest, value_of, value_at}
use mvcc_lite.VersionStore.Trim.{old_count, trim, kept_value_at}
use mvcc_lite.VersionStore.Sweep.{entry_after, find-sweep, found-value_at}
use mvcc_lite.VersionStore.Snapshot.{snapshot}
use mvcc_lite.VersionStore.Races.{newer}
use mvcc_lite.VersionStore.Invariant.{IsValid}

-- The same as before, or nothing.
abbrev pub SameOrNone {ℓ} : {A : Type ℓ} → Option A → Option A → Type ℓ
SameOrNone x' x = (x' ≡ x) ⊎ (x' ≡ none)

newest-drop-SameOrNone : (n i : ℕ) (h : History) → SameOrNone (newest n (drop i h)) (newest n h)
unfolding newest
newest-drop-SameOrNone n zero h = inl refl
newest-drop-SameOrNone n (suc i) [] = inl refl
newest-drop-SameOrNone n (suc i) (v ∷ h) =
    let below = newest-drop-SameOrNone n i h in
    elim (Option-cases (newest n h)) [
      | inl e ↦ inr (ground (arith, e, below))
      | inr (w, e) ↦ ground (arith, e, below)
    ]

trim-SameOrNone : (n c : ℕ) (h : History) → SameOrNone (kept_value_at n (trim c h)) (value_at n h)
unfolding trim
trim-SameOrNone n zero h = inl refl
trim-SameOrNone n (suc i) h = elim (Bool-cases (is_lone_tombstone (drop i h))) [
  | inl lone ↦ inr (rw lone refl)
  | inr more ↦ elim (newest-drop-SameOrNone n i h) [
    | inl e ↦ inl (rw more (ap value_of e))
    | inr e ↦ inr (rw more (ap value_of e))
  ]
]

entry_after-SameOrNone :
    (b n : ℕ) (o : Option History)
    → SameOrNone (kept_value_at n (entry_after b o)) (kept_value_at n o)
entry_after-SameOrNone b n none = inl refl
entry_after-SameOrNone b n (some h) = trim-SameOrNone n (old_count b h) h

-- Whatever the boundary, a collection leaves every version of every key as it was, or without a
-- value.
pub collect_garbage-SameOrNone :
    (s : VersionStore) (b n : ℕ) (k : String)
    → IsValid s
    → SameOrNone (snapshot (collect_garbage s b).0 n k) (snapshot s n k)
unfolding collect_garbage
collect_garbage-SameOrNone s b n k v =
    let after =
      found-value_at n (find k (sweep b s.table no_stats).0)
      ∙ ap (kept_value_at n)
          (find-sweep b s.next_version k s.table no_stats v.entries v.distinct) in
    let before = found-value_at n (find k s.table) in
    elim (entry_after-SameOrNone b n (find k s.table)) [
      | inl e ↦ inl (after ∙ e ∙ sym before)
      | inr e ↦ inr (after ∙ e)
    ]

-- The last of fewer entries is the last of all, if there is one.
back-drop-is_newer :
    (n i : ℕ) (h : History) → is_newer n (back (drop i h)) ≡ true → is_newer n (back h) ≡ true
unfolding is_newer
back-drop-is_newer n zero h p = p
back-drop-is_newer n (suc i) [] p = p
back-drop-is_newer n (suc i) (v ∷ h) p =
    let below = back-drop-is_newer n i h p in
    elim (Option-cases (back h)) [
      | inl e ↦ absurd (ground (arith, e, below))
      | inr (w, e) ↦ ground (arith, e, below)
    ]

abbrev is_kept_newer : ℕ → Option History → Bool
is_kept_newer n none = false
is_kept_newer n (some h) = is_newer n (back h)

trim-is_newer :
    (n c : ℕ) (h : History) → is_kept_newer n (trim c h) ≡ true → is_newer n (back h) ≡ true
unfolding trim
trim-is_newer n zero h p = p
trim-is_newer n (suc i) h p = elim (Bool-cases (is_lone_tombstone (drop i h))) [
  | inl lone ↦ cc (rw lone at p)
  | inr more ↦ back-drop-is_newer n i h (rw more at p)
]

entry_after-is_newer :
    (b n : ℕ) (o : Option History)
    → is_kept_newer n (entry_after b o) ≡ true
    → is_kept_newer n o ≡ true
entry_after-is_newer b n none p = p
entry_after-is_newer b n (some h) p = trim-is_newer n (old_count b h) h p

found-is_newer :
    (n : ℕ) (o : Option History)
    → is_newer n (back (elim o [ none ↦ [] | some h ↦ h ])) ≡ is_kept_newer n o
unfolding is_newer
found-is_newer n none = refl
found-is_newer n (some h) = refl

-- Whatever the boundary, a collection makes no key look newer than it did.
pub collect_garbage-newer :
    (s : VersionStore) (b n : ℕ) (k : String)
    → IsValid s
    → newer (collect_garbage s b).0 n k ≡ true
    → newer s n k ≡ true
unfolding collect_garbage
collect_garbage-newer s b n k v p =
    let here = find-sweep b s.next_version k s.table no_stats v.entries v.distinct in
    found-is_newer n (find k s.table)
    ∙ entry_after-is_newer b n (find k s.table) (
        ap (is_kept_newer n) (sym here)
        ∙ sym (found-is_newer n (find k (sweep b s.table no_stats).0))
        ∙ p)
