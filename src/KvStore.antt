-- ===== src/KvStore.antt =====
-- include/mvcc/kv_store.h and src/kv_store.cpp: the baseline store. Each method holds the one mutex
-- for its whole body, so that a method is one step on the table.
pub mod Refinement
use mvcc_lite.Prelude.{string_key, ℕ, String, List, [], none, some, Bool, is_empty, if◌then◌else◌}
use mvcc_lite.Prelude.Text.{concat}
use mvcc_lite.Status.{Status, ok, not_found, invalid_argument}
use mvcc_lite.UnorderedMap
use mvcc_lite.UnorderedMap.{find, assign, erase}

pub record KvStore : Type 0 where
  pub table : List (String × String)

abbrev pub empty : KvStore
empty = record { table = [] }

unfoldable pub put : KvStore → String → String → Status × KvStore
put s key value =
    if is_empty key
    then (invalid_argument "key must not be empty", s)
    else (ok, record s { table = assign key value s.table })

-- The second component is what `*out_value` holds afterwards.
unfoldable pub get : KvStore → String → String → Status × String
get s key out_value =
    if is_empty key
    then (invalid_argument "key must not be empty", out_value)
    else elim (find key s.table) [
      | none ↦ (not_found (concat "key not present: " key), out_value)
      | some value ↦ (ok, value)
    ]

pub delete : KvStore → String → Status × KvStore
delete s key =
    if is_empty key
    then (invalid_argument "key must not be empty", s)
    else elim (find key s.table) [
      | none ↦ (not_found (concat "key not present: " key), s)
      | some _ ↦ (ok, record s { table = erase key s.table })
    ]

pub contains : KvStore → String → Bool
contains s key = UnorderedMap.contains key s.table

pub size : KvStore → ℕ
size s = UnorderedMap.size s.table
