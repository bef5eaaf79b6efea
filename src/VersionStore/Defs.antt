-- ===== src/VersionStore/Defs.antt =====
-- The data of the store, and `std::partition_point`.
use mvcc_lite.Prelude.{
  ℕ, zero, suc, ◌+◌, ◌-◌, ◌/◌, String, List, [], Option, none, some, Bool, true, false, length,
  get_elem?, leb,
}

pub record VersionedValue : Type 0 where
  pub version : ℕ  -- uint64_t
  pub value : Option String  -- `none` is a tombstone

pub record WriteOp : Type 0 where
  pub key : String
  pub value : Option String

pub record GcStats : Type 0 where
  pub versions_reclaimed : ℕ  -- size_t
  pub keys_removed : ℕ  -- size_t

abbrev pub no_stats : GcStats
no_stats = record { versions_reclaimed = 0; keys_removed = 0 }

pub record VersionStore : Type 0 where
  pub table : List (String × List VersionedValue)
  pub next_version : ℕ  -- uint64_t

abbrev pub empty : VersionStore
empty = record { table = []; next_version = 1 }

-- The lambda `pred` of `GetAsOf` and `CollectGarbage`.
abbrev pub at_or_before : ℕ → VersionedValue → Bool
at_or_before bound v = leb v.version bound

module _ {ℓ} {A : Type ℓ} (pred : A → Bool) where
  abbrev pub holds_at : List A → ℕ → Bool
  holds_at xs i = elim (get_elem? xs i) [ none ↦ false | some x ↦ pred x ]

  -- The halving loop over `len` elements from `first` on; each round leaves fewer than it had.
  unfoldable pub bisect : ℕ → List A → ℕ → ℕ → ℕ
  bisect zero xs first len = first
  bisect (suc fuel) xs first zero = first
  bisect (suc fuel) xs first (suc l) =
      let half = suc l / 2 in
      elim (holds_at xs (first + half)) [
        | true ↦ bisect fuel xs (first + half + 1) (suc l - half - 1)
        | false ↦ bisect fuel xs first half
      ]

  -- The position of the first element without the property, in a range that begins with those that
  -- have it.
  unfoldable pub partition_point : List A → ℕ
  unfolding bisect
  partition_point xs = bisect (suc (length xs)) xs 0 (length xs)
