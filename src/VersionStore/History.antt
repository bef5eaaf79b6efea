-- ===== src/VersionStore/History.antt =====
-- One key's history and `std::partition_point` on it.
use mvcc_lite.Prelude.{
  ℕ, zero, suc, ◌+◌, ◌-◌, ◌/◌, ◌≤◌, ◌<◌, ◌≡◌, refl, List, [], ◌∷◌, Bool, false, length, ltb,
  if◌then◌else◌, arith,
}
use mvcc_lite.VersionStore.Defs.{holds_at, bisect, partition_point}

module _ {ℓ} {A : Type ℓ} (pred : A → Bool) where
  -- No element from here on has the property.
  abbrev pub None : List A → Type 0
  None [] = Unit
  None (x ∷ xs) = (pred x ≡ false) × None xs

  -- Those with the property come first.
  abbrev pub IsPartitioned : List A → Type 0
  IsPartitioned [] = Unit
  IsPartitioned (x ∷ xs) = (pred x ≡ false → None xs) × IsPartitioned xs

  -- How many elements with the property the list begins with.
  unfoldable pub prefix_length : List A → ℕ
  prefix_length [] = 0
  prefix_length (x ∷ xs) = if pred x then suc (prefix_length xs) else 0

  None-holds_at : (xs : List A) (i : ℕ) → None xs → holds_at pred xs i ≡ false
  None-holds_at [] i h = refl
  None-holds_at (x ∷ xs) zero h = h.0
  None-holds_at (x ∷ xs) (suc i) h = None-holds_at xs i h.1

  holds_at-prefix_length :
      (xs : List A) (i : ℕ) → IsPartitioned xs → holds_at pred xs i ≡ ltb i (prefix_length xs)
  unfolding prefix_length
  holds_at-prefix_length [] i p = ground arith
  holds_at-prefix_length (x ∷ xs) zero p = ground arith
  holds_at-prefix_length (x ∷ xs) (suc i) p =
      ground (arith, holds_at-prefix_length xs i p.1, None-holds_at xs i)

  pub prefix_length-le : (xs : List A) → prefix_length xs ≤ length xs
  unfolding prefix_length
  prefix_length-le [] = omega arith
  prefix_length-le (x ∷ xs) = ground (arith, prefix_length-le xs)

  bisect-eq :
      (fuel : ℕ) (xs : List A) (first len : ℕ)
      → IsPartitioned xs
      → first ≤ prefix_length xs
      → prefix_length xs ≤ first + len
      → len < fuel
      → bisect pred fuel xs first len ≡ prefix_length xs
  unfolding bisect
  bisect-eq zero xs first len p lo hi f = absurd (omega arith)
  bisect-eq (suc fuel) xs first zero p lo hi f = omega arith
  bisect-eq (suc fuel) xs first (suc l) p lo hi f = ground (
    arith,
    holds_at-prefix_length xs (first + suc l / 2) p,
    bisect-eq fuel xs (first + suc l / 2 + 1) (suc l - suc l / 2 - 1) p,
    bisect-eq fuel xs first (suc l / 2) p,
  )

  -- On a list whose elements with the property come first, the halving search counts them.
  pub partition_point-eq :
      (xs : List A) → IsPartitioned xs → partition_point pred xs ≡ prefix_length xs
  unfolding partition_point
  partition_point-eq xs p =
      bisect-eq (suc (length xs)) xs 0 (length xs) p (omega arith)
        (omega (arith, prefix_length-le xs)) (omega arith)
