-- ===== src/UnorderedMap.antt =====
-- `std::unordered_map` as an association list with one entry for each key. Its order of iteration,
-- which the standard leaves open, is the order of the list: an entry keeps its place when its value
-- is overwritten, and a new key goes to the end.
pub mod Laws
use mvcc_lite.Prelude.{
  ℕ, List, [], ◌∷◌, Option, none, some, Bool, true, false, Key, ◌==◌, if◌then◌else◌, length,
}

module _ {ℓ κ} {K : Type ℓ} {V : Type κ} ⦃e : Key K⦄ where
  -- `m.find(k)`: the value, or `none` for `m.end()`
  unfoldable pub find : K → List (K × V) → Option V
  find k [] = none
  find k ((j, v) ∷ m) = if j == k then some v else find k m

  -- `m[k] = v`
  unfoldable pub assign : K → V → List (K × V) → List (K × V)
  assign k v [] = (k, v) ∷ []
  assign k v ((j, w) ∷ m) = if j == k then (j, v) ∷ m else (j, w) ∷ assign k v m

  -- `m.erase(k)`
  unfoldable pub erase : K → List (K × V) → List (K × V)
  erase k [] = []
  erase k ((j, v) ∷ m) = if j == k then m else (j, v) ∷ erase k m

  -- `m.find(k) != m.end()`
  abbrev pub contains : K → List (K × V) → Bool
  contains k m = elim (find k m) [ none ↦ false | some _ ↦ true ]

  -- `m.size()`
  abbrev pub size : List (K × V) → ℕ
  size = length
