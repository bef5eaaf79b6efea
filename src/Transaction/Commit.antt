-- ===== src/Transaction/Commit.antt =====
-- The write set of a transaction, and `Transaction::Commit` as a validated batch of the store.
use mvcc_lite.Prelude.{
  true, ℕ, ◌≡◌, refl, ◌⊎◌, inl, inr, String, List, [], ◌∷◌, Option, none, some, false, is_empty,
  if◌then◌else◌, string_key, arith, Bool-cases, write,
}
use mvcc_lite.Status.{is_ok, is_conflict}
use mvcc_lite.UnorderedMap.{find, assign}
use mvcc_lite.UnorderedMap.Laws.{Distinct, Distinct-assign, Entries, Entries-assign}
use mvcc_lite.VersionStore.Defs.{VersionStore, WriteOp}
use mvcc_lite.VersionStore.{has_empty_key, apply_validated, conflicts, apply_batch_if_no_conflict}
use mvcc_lite.VersionStore.Invariant.{step, validates}
use mvcc_lite.VersionStore.Snapshot.{last_write}
use mvcc_lite.VersionStore.Timeline.{status}
use mvcc_lite.VersionStore.Outcome.{AllNamed}
use mvcc_lite.TransactionManager.{unregister}
use mvcc_lite.Transaction.Defs.{Transaction, is_active}
use mvcc_lite.Transaction.{commit, Engine, put, delete, ops_of, Ended, commit_active}

-- The write set holds each key once, and no empty key.
pub record IsWellFormed (t : Transaction) : Type 0 where
  pub distinct : Distinct t.write_set
  pub named : Entries (λ key _. is_empty key ≡ false) t.write_set

assigned-IsWellFormed :
    (t : Transaction) (key : String) (value : Option String)
    → is_empty key ≡ false
    → IsWellFormed t
    → IsWellFormed (record t { write_set = assign key value t.write_set })
assigned-IsWellFormed t key value named w = record {
  distinct = Distinct-assign key value t.write_set w.distinct;
  named = Entries-assign (λ k _. is_empty k ≡ false) key value t.write_set named w.named;
}

-- A buffered write leaves the transaction alone, or overwrites the entry of a non-empty key.
abbrev Buffers : Transaction → String → Option String → Transaction → Type 0
Buffers t key value t' =
    (t' ≡ t)
    ⊎ ((is_empty key ≡ false) × (t' ≡ record t { write_set = assign key value t.write_set }))

put-Buffers :
    (t : Transaction) (key value : String) → Buffers t key (some value) (put t key value).1
unfolding put
put-Buffers t key value = ground arith

delete-Buffers :
    (store : VersionStore) (t : Transaction) (key : String)
    → Buffers t key none (delete store t key).1
unfolding delete
delete-Buffers store t key = ground arith

Buffers-IsWellFormed :
    {t t' : Transaction} (key : String) (value : Option String)
    → Buffers t key value t'
    → IsWellFormed t
    → IsWellFormed t'
Buffers-IsWellFormed key value (inl same) w = rw same w
Buffers-IsWellFormed {t} key value (inr (named, e)) w =
    rw e (assigned-IsWellFormed t key value named w)

-- `Put` keeps the write set well formed: each key once, and no empty key.
pub put-IsWellFormed :
    (t : Transaction) (key value : String) → IsWellFormed t → IsWellFormed (put t key value).1
put-IsWellFormed t key value = Buffers-IsWellFormed key (some value) (put-Buffers t key value)

-- `Delete` keeps the write set well formed: each key once, and no empty key.
pub delete-IsWellFormed :
    (store : VersionStore) (t : Transaction) (key : String)
    → IsWellFormed t
    → IsWellFormed (delete store t key).1
delete-IsWellFormed store t key = Buffers-IsWellFormed key none (delete-Buffers store t key)

pub ops_of-last_write :
    (k : String) (ws : List (String × Option String))
    → Distinct ws
    → last_write k (ops_of ws) ≡ find k ws
unfolding ops_of find
ops_of-last_write k [] d = refl
ops_of-last_write k ((j, w) ∷ ws) d =
    ground (arith, ops_of-last_write k ws d.1, string_key.same_iff j k)

pub ops_of-AllNamed :
    (ws : List (String × Option String))
    → Entries (λ key _. is_empty key ≡ false) ws
    → AllNamed (ops_of ws)
unfolding ops_of
ops_of-AllNamed [] e = tt
ops_of-AllNamed ((j, w) ∷ ws) e = (e.0, ops_of-AllNamed ws e.1)

-- The outputs change neither the code nor the store.
apply-outputs :
    (s : VersionStore) (ops : List WriteOp) (snap : ℕ) (ov : Option ℕ) (oc : Option (List String))
    → ((apply_batch_if_no_conflict s ops snap ov oc).0.code ≡ (status s (validates ops snap)).code)
      × ((apply_batch_if_no_conflict s ops snap ov oc).1 ≡ step s (validates ops snap))
      × ((apply_batch_if_no_conflict s ops snap ov oc).2
          ≡ (if is_ok (status s (validates ops snap)) then write ov s.next_version else ov))
unfolding apply_batch_if_no_conflict status step
apply-outputs s [] snap ov oc = (refl, refl, refl)
apply-outputs s (op ∷ ops) snap ov oc = elim (Bool-cases (has_empty_key (op ∷ ops))) [
  | inl bad ↦ ground arith
  | inr good ↦ ground (arith, outputs (conflicts snap s.table (op ∷ ops)))
]
  where
    outputs :
        (keys : List String)
        → ((apply_validated s (op ∷ ops) keys ov oc).0.code
            ≡ (apply_validated s (op ∷ ops) keys none none).0.code)
          × ((apply_validated s (op ∷ ops) keys ov oc).1
              ≡ (apply_validated s (op ∷ ops) keys none none).1)
          × ((apply_validated s (op ∷ ops) keys ov oc).2 ≡ (
              if is_ok (apply_validated s (op ∷ ops) keys none none).0
              then write ov s.next_version
              else ov))
    outputs [] = (refl, refl, refl)
    outputs (key ∷ keys) = (refl, refl, refl)

-- What a committed or refused transaction leaves behind, for any write set.
abbrev pub Ends : Engine → Transaction → Ended → Type 0
Ends e t r = (is_active r.txn ≡ false) × (r.engine.manager ≡ unregister t.txn_id e.manager)

pub commit_active-Ends :
    (e : Engine) (t : Transaction) (ws : List (String × Option String)) (ov : Option ℕ)
    (oc : Option (List String))
    → Ends e t (commit_active e t ws ov oc)
unfolding commit_active
commit_active-Ends e t [] ov oc = (refl, refl)
commit_active-Ends e t (w ∷ ws) ov oc = ground arith

pub commit-Ends :
    (e : Engine) (t : Transaction) → is_active t ≡ true → Ends e t (commit e t none none)
unfolding commit
commit-Ends e t a = rw a (commit_active-Ends e t t.write_set none none)

-- The store after the commit, and the status.
abbrev pub Applies : Engine → Transaction → List (String × Option String) → Ended → Type 0
Applies e t ws r =
    let c = validates (ops_of ws) t.snapshot_version in
    (is_ok r.status ≡ is_ok (status e.store c))
    × (is_conflict r.status ≡ is_conflict (status e.store c))
    × (r.engine.store ≡ step e.store c)

pub commit_active-Applies :
    (e : Engine) (t : Transaction) (w : String × Option String) (ws : List (String × Option String))
    (ov : Option ℕ) (oc : Option (List String))
    → Applies e t (w ∷ ws) (commit_active e t (w ∷ ws) ov oc)
unfolding commit_active
commit_active-Applies e t w ws ov oc =
    ground (arith, apply-outputs e.store (ops_of (w ∷ ws)) t.snapshot_version (some 0) oc)
