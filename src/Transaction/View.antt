-- ===== src/Transaction/View.antt =====
-- What a transaction sees: its write set over the snapshot of its version.
use mvcc_lite.Prelude.{
  ◌≡◌, ◌≢◌, ◌↔◌, String, Option, none, some, true, false, is_empty, if◌then◌else◌, ◌==◌, string_key,
  arith, ◌&&◌, ◌⊎◌,
}
use mvcc_lite.Status.{is_ok}
use mvcc_lite.UnorderedMap.{find}
use mvcc_lite.UnorderedMap.Laws.{find-assign}
use mvcc_lite.VersionStore.Defs.{VersionStore}
use mvcc_lite.VersionStore.Invariant.{IsValid}
use mvcc_lite.VersionStore.Snapshot.{snapshot, Answers, get_as_of-Answers}
use mvcc_lite.Transaction.Defs.{Transaction, is_active}
use mvcc_lite.Transaction.{get, put, delete}

-- The write that is buffered for the key, or the value of the snapshot.
abbrev pub view : VersionStore → Transaction → String → Option String
view store t key = elim (find key t.write_set) [
  | some buffered ↦ buffered
  | none ↦ snapshot store t.snapshot_version key
]

-- On a well-formed store an active transaction reads a non-empty key through its own view: the
-- buffered write if there is one, and the snapshot that it began with otherwise.
pub get-view :
    (store : VersionStore) (t : Transaction) (key out : String)
    → IsValid store
    → is_active t ≡ true
    → is_empty key ≡ false
    → Answers (view store t key) out (get store t key out)
unfolding get
get-view store t key out v a k =
    ground (arith, get_as_of-Answers store key t.snapshot_version out v k)

-- `Put` of a non-empty key in an active transaction succeeds, and changes the view at that key only,
-- to the value.
put-view :
    (store : VersionStore) (t : Transaction) (key value : String)
    → is_active t ≡ true
    → is_empty key ≡ false
    → (is_ok (put t key value).0 ≡ true)
      × ((j : String)
          → view store (put t key value).1 j ≡ (if key == j then some value else view store t j))
unfolding put
put-view store t key value a k =
    (ground arith, λ j. ground (arith, find-assign key j (some value) t.write_set))

-- On a well-formed store `Delete` of a non-empty key in an active transaction succeeds exactly if
-- the view has a value for the key. If it succeeds, the view has none for the key and is as before
-- at the other keys; if it fails, the view and the transaction are as before.
delete-view :
    (store : VersionStore) (t : Transaction) (key : String)
    → IsValid store
    → is_active t ≡ true
    → is_empty key ≡ false
    → ((is_ok (delete store t key).0 ≡ true) ↔ (view store t key ≢ none))
      × ((j : String)
          → view store (delete store t key).1 j
            ≡ (if is_ok (delete store t key).0 && key == j then none else view store t j))
      × ((is_ok (delete store t key).0 ≡ true) ⊎ ((delete store t key).1 ≡ t))
unfolding delete
delete-view store t key v a k =
    let read = get_as_of-Answers store key t.snapshot_version "" v k in
    (
      (λ p e. ground (arith, read), λ p. ground (arith, read)),
      λ j. ground (arith, read, find-assign key j none t.write_set),
      ground (arith, read),
    )
