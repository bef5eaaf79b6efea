-- ===== src/Transaction/Order.antt =====
-- The order in which `Commit` goes through the write set, which is the order of a hash table.
use mvcc_lite.Prelude.{
  ℕ, ◌≡◌, ◌↔◌, sym, ◌∙◌, String, List, [], ◌∷◌, Option, none, some, true, string_key, arith,
}
use mvcc_lite.Status.{is_ok}
use mvcc_lite.UnorderedMap.{find}
use mvcc_lite.UnorderedMap.Laws.{Distinct-find, Distinct, Entries, Entries-find, Entries-map}
use mvcc_lite.VersionStore.Defs.{VersionStore}
use mvcc_lite.VersionStore.{history_of}
use mvcc_lite.VersionStore.Invariant.{IsValid}
use mvcc_lite.VersionStore.Snapshot.{snapshot}
use mvcc_lite.VersionStore.Validation.{Untouched, AllUntouched}
use mvcc_lite.Transaction.Defs.{Transaction, is_active}
use mvcc_lite.Transaction.{Engine, ops_of, commit}
use mvcc_lite.Transaction.Commit.{IsWellFormed}
use mvcc_lite.Transaction.Atomic.{commit_outcome, commit-snapshot}

-- Every key of the write set is untouched.
abbrev KeysUntouched : ℕ → VersionStore → List (String × Option String) → Type 0
KeysUntouched snap s ws = Entries (λ key _. Untouched snap (history_of key s.table)) ws

AllUntouched-ops_of :
    (snap : ℕ) (s : VersionStore) (ws : List (String × Option String))
    → AllUntouched snap s.table (ops_of ws) ↔ KeysUntouched snap s ws
unfolding ops_of
AllUntouched-ops_of snap s [] = (λ p. tt, λ p. tt)
AllUntouched-ops_of snap s ((key, w) ∷ ws) =
    let rest = AllUntouched-ops_of snap s ws in (λ p. (p.0, rest.0 p.1), λ p. (p.0, rest.1 p.1))

-- A property of all entries of one table holds of another one with the same content.
Entries-order :
    (P : String → Type 0) (ws ws' : List (String × Option String))
    → Distinct ws
    → ((key : String) → find key ws ≡ find key ws')
    → Entries (λ key _. P key) ws'
    → Entries (λ key _. P key) ws
Entries-order P ws ws' d same h =
    Entries-map (λ key w. find key ws ≡ some w) (λ key _. P key) ws
      (λ key w e. Entries-find (λ k _. P k) key ws' h (sym (same key) ∙ e)) (Distinct-find ws d)

module _ (e : Engine) (t t' : Transaction) (v : IsValid e.store) (w : IsWellFormed t)
    (w' : IsWellFormed t') (a : is_active t ≡ true) (a' : is_active t' ≡ true)
    (snap : t.snapshot_version ≡ t'.snapshot_version)
    (same : (key : String) → find key t.write_set ≡ find key t'.write_set) where
  ok_order :
      is_ok (commit e t' none none).status ≡ true → is_ok (commit e t none none).status ≡ true
  ok_order p =
      let iff = (commit_outcome e t none none v w a).0 in
      let iff' = (commit_outcome e t' none none v w' a').0 in
      let s : VersionStore = e.store in
      let n : ℕ = t.snapshot_version in
      let all' : KeysUntouched n s t'.write_set =
        rw snap ((AllUntouched-ops_of t'.snapshot_version s t'.write_set).0 (iff'.0 p)) in
      let all : KeysUntouched n s t.write_set =
        Entries-order (λ key. Untouched n (history_of key s.table)) t.write_set t'.write_set
          w.distinct same all' in
      iff.1 ((AllUntouched-ops_of n s t.write_set).1 all)

-- Two active transactions with the same snapshot and the same buffered writes, in whatever order
-- their tables hold them, commit alike on a well-formed store: one succeeds if the other does, and
-- afterwards every version shows the same at every key.
pub commit_order :
    (e : Engine) (t t' : Transaction)
    → IsValid e.store
    → IsWellFormed t
    → IsWellFormed t'
    → is_active t ≡ true
    → is_active t' ≡ true
    → t.snapshot_version ≡ t'.snapshot_version
    → ((key : String) → find key t.write_set ≡ find key t'.write_set)
    → (is_ok (commit e t none none).status ≡ is_ok (commit e t' none none).status)
      × ((n : ℕ) (k : String)
          → snapshot (commit e t none none).engine.store n k
            ≡ snapshot (commit e t' none none).engine.store n k)
commit_order e t t' v w w' a a' snap same =
    let codes : is_ok (commit e t none none).status ≡ is_ok (commit e t' none none).status =
      ground (
        arith,
        ok_order e t t' v w w' a a' snap same,
        ok_order e t' t v w' w a' a (sym snap) (λ key. sym (same key)),
      ) in
    (
      codes,
      λ n k. ground (
        arith,
        codes,
        same k,
        commit-snapshot e t none none n k v w a,
        commit-snapshot e t' none none n k v w' a',
      ),
    )
