-- ===== src/Benchmark/Sorting.antt =====
-- `std::sort` on a vector of doubles.
use mvcc_lite.Prelude.{
  ℕ, zero, suc, ◌+◌, ◌≤◌, ◌<◌, ◌≡◌, refl, List, [], ◌∷◌, some, Bool, true, if◌then◌else◌, length,
  get_elem?, arith, Bool-cases, inl, inr,
}
use mvcc_lite.Benchmark.Numbers.{Double}

module _ (d : Double) where
  unfoldable pub insert : d.Value → List d.Value → List d.Value
  insert x [] = x ∷ []
  insert x (y ∷ ys) = if d.le x y then x ∷ y ∷ ys else y ∷ insert x ys

  unfoldable pub sort : List d.Value → List d.Value
  unfolding insert
  sort [] = []
  sort (x ∷ xs) = insert x (sort xs)

  -- How many values pass the test.
  unfoldable pub count : (d.Value → Bool) → List d.Value → ℕ
  count test [] = 0
  count test (x ∷ xs) = (if test x then 1 else 0) + count test xs

  abbrev pub AllFrom : d.Value → List d.Value → Type 0
  AllFrom x [] = Unit
  AllFrom x (y ∷ ys) = (d.le x y ≡ true) × AllFrom x ys

  abbrev pub IsSorted : List d.Value → Type 0
  IsSorted [] = Unit
  IsSorted (x ∷ xs) = AllFrom x xs × IsSorted xs

  AllFrom-trans :
      (x y : d.Value) (xs : List d.Value) → d.le x y ≡ true → AllFrom y xs → AllFrom x xs
  AllFrom-trans x y [] p h = tt
  AllFrom-trans x y (z ∷ zs) p h = (d.le_trans x y z p h.0, AllFrom-trans x y zs p h.1)

  AllFrom-insert :
      (x y : d.Value) (xs : List d.Value) → d.le x y ≡ true → AllFrom x xs → AllFrom x (insert y xs)
  unfolding insert
  AllFrom-insert x y [] p h = (p, tt)
  AllFrom-insert x y (z ∷ zs) p h = ground (arith, AllFrom-insert x y zs p h.1)

  le_refl : (x : d.Value) → d.le x x ≡ true
  le_refl x = elim (d.le_total x x) [ inl p ↦ p | inr p ↦ p ]

  insert-IsSorted : (x : d.Value) (xs : List d.Value) → IsSorted xs → IsSorted (insert x xs)
  unfolding insert
  insert-IsSorted x [] h = (tt, tt)
  insert-IsSorted x (y ∷ ys) h = elim (Bool-cases (d.le x y)) [
    | inl p ↦ rw p ((p, AllFrom-trans x y ys p h.0), h)
    | inr p ↦
        let q : d.le y x ≡ true = ground (arith, d.le_total x y) in
        rw p (AllFrom-insert y x ys q h.0, insert-IsSorted x ys h.1)
  ]

  pub sort-IsSorted : (xs : List d.Value) → IsSorted (sort xs)
  unfolding sort
  sort-IsSorted [] = tt
  sort-IsSorted (x ∷ xs) = insert-IsSorted x (sort xs) (sort-IsSorted xs)

  count-insert :
      (test : d.Value → Bool) (x : d.Value) (xs : List d.Value)
      → count test (insert x xs) ≡ count test (x ∷ xs)
  unfolding count insert
  count-insert test x [] = refl
  count-insert test x (y ∷ ys) = ground (arith, count-insert test x ys)

  -- Sorting keeps every value, as often as it was there.
  pub count-sort :
      (test : d.Value → Bool) (xs : List d.Value) → count test (sort xs) ≡ count test xs
  unfolding count sort
  count-sort test [] = refl
  count-sort test (x ∷ xs) = ground (arith, count-insert test x (sort xs), count-sort test xs)

  length-insert : (x : d.Value) (xs : List d.Value) → length (insert x xs) ≡ suc (length xs)
  unfolding insert
  length-insert x [] = refl
  length-insert x (y ∷ ys) = ground (arith, length-insert x ys)

  pub length-sort : (xs : List d.Value) → length (sort xs) ≡ length xs
  unfolding sort
  length-sort [] = refl
  length-sort (x ∷ xs) = omega (arith, length-insert x (sort xs), length-sort xs)

  -- In a sorted vector the elements do not fall with the index.
  AllFrom-get_elem? :
      (x y : d.Value) (xs : List d.Value) (i : ℕ)
      → AllFrom x xs
      → get_elem? xs i ≡ some y
      → d.le x y ≡ true
  AllFrom-get_elem? x y [] i h e = cc
  AllFrom-get_elem? x y (z ∷ zs) zero h e = ground arith
  AllFrom-get_elem? x y (z ∷ zs) (suc i) h e = AllFrom-get_elem? x y zs i h.1 e

  pub get_elem?-le :
      (xs : List d.Value) (i j : ℕ) (a b : d.Value)
      → IsSorted xs
      → i ≤ j
      → get_elem? xs i ≡ some a
      → get_elem? xs j ≡ some b
      → d.le a b ≡ true
  get_elem?-le [] i j a b s p e f = cc
  get_elem?-le (x ∷ xs) zero zero a b s p e f = ground (arith, le_refl a)
  get_elem?-le (x ∷ xs) zero (suc j) a b s p e f = ground (arith, AllFrom-get_elem? x b xs j s.0)
  get_elem?-le (x ∷ xs) (suc i) zero a b s p e f = absurd (omega arith)
  get_elem?-le (x ∷ xs) (suc i) (suc j) a b s p e f = get_elem?-le xs i j a b s.1 (omega arith) e f

  count_all : (x : d.Value) (xs : List d.Value) → AllFrom x xs → count (d.le x) xs ≡ length xs
  unfolding count
  count_all x [] h = refl
  count_all x (y ∷ ys) h = ground (arith, count_all x ys)

  -- The element at index `i` of a sorted vector: more than `i` elements are at most it, and all from
  -- `i` on are at least it.
  pub rank :
      (xs : List d.Value) (i : ℕ) (a : d.Value)
      → IsSorted xs
      → get_elem? xs i ≡ some a
      → (i < count (λ x. d.le x a) xs) × (length xs ≤ i + count (d.le a) xs)
  unfolding count
  rank [] i a s e = cc
  rank (x ∷ xs) zero a s e = ground (arith, le_refl x, count_all x xs s.0)
  rank (x ∷ xs) (suc i) a s e = ground (arith, rank xs i a s.1 e, AllFrom-get_elem? x a xs i s.0 e)
