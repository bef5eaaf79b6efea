-- ===== src/UnorderedMap/Laws.antt =====
-- The laws of `UnorderedMap` that its users rely on.
use mathlib.Core.Path.{subst₂}
use mvcc_lite.Prelude.{
  Bool-cases, inl, inr, ◌+◌, ◌≡◌, refl, List, [], ◌∷◌, none, some, Key, ◌==◌, if◌then◌else◌, arith,
}
use mvcc_lite.UnorderedMap.{find, assign, erase, contains, size}

-- Every key stands once.
abbrev pub Distinct {ℓ κ} : {K : Type ℓ} {V : Type κ} → ⦃e : Key K⦄ → List (K × V) → Type κ
Distinct [] = Unit
Distinct ((k, v) ∷ m) = (find k m ≡ none) × Distinct m

-- Every entry satisfies `P`.
abbrev pub Entries {ℓ κ μ} : {K : Type ℓ} {V : Type κ} → (K → V → Type μ) → List (K × V) → Type μ
Entries P [] = Unit
Entries P ((k, v) ∷ m) = P k v × Entries P m

module _ {ℓ κ} {K : Type ℓ} {V : Type κ} ⦃e : Key K⦄ where
  pub find-assign :
      (k j : K) (v : V) (m : List (K × V))
      → find j (assign k v m) ≡ (if k == j then some v else find j m)
  unfolding find assign
  find-assign k j v [] = refl
  find-assign k j v ((i, w) ∷ m) =
      ground (arith, e.same_iff k j, e.same_iff i k, e.same_iff i j, find-assign k j v m)

  find-erase_self : (k : K) (m : List (K × V)) → Distinct m → find k (erase k m) ≡ none
  unfolding find erase
  find-erase_self k [] d = refl
  find-erase_self k ((i, w) ∷ m) d = ground (arith, e.same_iff i k, find-erase_self k m d.1)

  pub find-erase :
      (k j : K) (m : List (K × V))
      → Distinct m
      → find j (erase k m) ≡ (if k == j then none else find j m)
  unfolding find erase
  find-erase k j [] d = ground arith
  find-erase k j ((i, w) ∷ m) d =
      ground (arith, e.same_iff k j, e.same_iff i k, e.same_iff i j, find-erase k j m d.1)

  pub Distinct-assign : (k : K) (v : V) (m : List (K × V)) → Distinct m → Distinct (assign k v m)
  unfolding find assign
  Distinct-assign k v [] d = (refl, tt)
  Distinct-assign k v ((i, w) ∷ m) d =
      ground (arith, e.same_iff i k, e.same_iff k i, find-assign k i v m, Distinct-assign k v m d.1)

  find-erase-none : (k j : K) (m : List (K × V)) → find j m ≡ none → find j (erase k m) ≡ none
  unfolding find erase
  find-erase-none k j [] h = refl
  find-erase-none k j ((i, w) ∷ m) h = ground (arith, find-erase-none k j m)

  pub Distinct-erase : (k : K) (m : List (K × V)) → Distinct m → Distinct (erase k m)
  unfolding find erase
  Distinct-erase k [] d = tt
  Distinct-erase k ((i, w) ∷ m) d = ground (arith, find-erase-none k i m, Distinct-erase k m d.1)

  -- The entry that is found satisfies what all entries do.
  pub Entries-find {μ} :
      (P : K → V → Type μ) (k : K) (m : List (K × V)) {v : V}
      → Entries P m
      → find k m ≡ some v
      → P k v
  unfolding find
  Entries-find P k [] a h = cc
  Entries-find P k ((i, w) ∷ m) {v} a h = elim (Bool-cases (i == k)) [
    | inl hit ↦
        let same : w ≡ v = ground (arith, hit, h) in subst₂ P ((e.same_iff i k).0 hit) same a.0
    | inr miss ↦ Entries-find P k m a.1 (ground (arith, miss, h))
  ]

  pub Entries-assign {μ} :
      (P : K → V → Type μ) (k : K) (v : V) (m : List (K × V))
      → P k v
      → Entries P m
      → Entries P (assign k v m)
  unfolding assign
  Entries-assign P k v [] p a = (p, tt)
  Entries-assign P k v ((i, w) ∷ m) p a =
      ground (arith, e.same_iff i k, Entries-assign P k v m p a.1)

  pub Entries-erase {μ} :
      (P : K → V → Type μ) (k : K) (m : List (K × V)) → Entries P m → Entries P (erase k m)
  unfolding erase
  Entries-erase P k [] a = tt
  Entries-erase P k ((i, w) ∷ m) a = ground (arith, Entries-erase P k m a.1)

  -- A new key adds an entry, and an old one keeps the number of entries.
  pub size-assign :
      (k : K) (v : V) (m : List (K × V))
      → size (assign k v m) ≡ (if contains k m then size m else size m + 1)
  unfolding find assign
  size-assign k v [] = refl
  size-assign k v ((i, w) ∷ m) = ground (arith, size-assign k v m)

  pub size-erase :
      (k : K) (m : List (K × V)) → size (erase k m) + (if contains k m then 1 else 0) ≡ size m
  unfolding find erase
  size-erase k [] = refl
  size-erase k ((i, w) ∷ m) = ground (arith, size-erase k m)

  pub Entries-map {μ ν} :
      (P : K → V → Type μ) (Q : K → V → Type ν) (m : List (K × V))
      → ((k : K) (v : V) → P k v → Q k v)
      → Entries P m
      → Entries Q m
  Entries-map P Q [] f a = tt
  Entries-map P Q ((i, w) ∷ m) f a = (f i w a.0, Entries-map P Q m f a.1)

  pub Entries-both {μ ν} :
      (P : K → V → Type μ) (Q : K → V → Type ν) (m : List (K × V))
      → Entries P m
      → Entries Q m
      → Entries (λ k v. P k v × Q k v) m
  Entries-both P Q [] a b = tt
  Entries-both P Q ((i, w) ∷ m) a b = ((a.0, b.0), Entries-both P Q m a.1 b.1)

  -- Where every key stands once, every entry is the one that is found.
  pub Distinct-find : (m : List (K × V)) → Distinct m → Entries (λ k v. find k m ≡ some v) m
  unfolding find
  Distinct-find [] d = tt
  Distinct-find ((i, w) ∷ m) d = (
    ground (arith, e.same_iff i i),
    Entries-map (λ k v. find k m ≡ some v) (λ k v. find k ((i, w) ∷ m) ≡ some v) m
        (λ k v h. ground (arith, e.same_iff i k)) (Distinct-find m d.1),
  )
