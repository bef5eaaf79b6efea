-- ===== src/Transaction/Atomic.antt =====
-- `Transaction::Commit` of src/transaction.cpp: the outcome, and what later readers see of it.
use mvcc_lite.Prelude.{
  ℕ, ◌≡◌, refl, ◌↔◌, ◌⊎◌, inl, inr, String, List, [], ◌∷◌, Option, none, some, true, false,
  if◌then◌else◌, string_key, arith, leb, ◌&&◌,
}
use mvcc_lite.Status.{is_ok, is_conflict}
use mvcc_lite.UnorderedMap.{find}
use mvcc_lite.UnorderedMap.Laws.{Distinct}
use mvcc_lite.VersionStore.Defs.{WriteOp}
use mvcc_lite.VersionStore.Invariant.{IsValid, step, validates}
use mvcc_lite.VersionStore.Snapshot.{snapshot}
use mvcc_lite.VersionStore.Timeline.{status, step-snapshot}
use mvcc_lite.VersionStore.Validation.{AllUntouched}
use mvcc_lite.VersionStore.Outcome.{AllNamed, validates_outcome, status_iff, step_failed}
use mvcc_lite.TransactionManager.{unregister}
use mvcc_lite.Transaction.Defs.{Transaction, is_active}
use mvcc_lite.Transaction.{Engine, ops_of, Ended, commit_active, commit}
use mvcc_lite.Transaction.Commit.{
  IsWellFormed, commit_active-Ends, commit_active-Applies, ops_of-last_write, ops_of-AllNamed,
}

-- The write set, as a change of one key.
abbrev pub buffered : List (String × Option String) → String → Option String → Option String
buffered ws k before = elim (find k ws) [ none ↦ before | some w ↦ w ]

-- The outcome of a commit of the write set `ws`.
abbrev Outcome : Engine → Transaction → List (String × Option String) → Ended → Type 0
Outcome e t ws r =
    ((is_ok r.status ≡ true) ↔ AllUntouched t.snapshot_version e.store.table (ops_of ws))
    × ((is_ok r.status ≡ true) ⊎ ((is_conflict r.status ≡ true) × (r.engine.store ≡ e.store)))

store_outcome :
    (e : Engine) (t : Transaction) (op : WriteOp) (ops : List WriteOp)
    → IsValid e.store
    → AllNamed (op ∷ ops)
    → let c = validates (op ∷ ops) t.snapshot_version in
      ((is_ok (status e.store c) ≡ true) ↔ AllUntouched t.snapshot_version e.store.table (op ∷ ops))
      × ((is_ok (status e.store c) ≡ true)
          ⊎ ((is_conflict (status e.store c) ≡ true) × (step e.store c ≡ e.store)))
store_outcome e t op ops v named =
    let c = validates (op ∷ ops) t.snapshot_version in
    let allowed = status_iff e.store c v in
    (
      (λ p. (allowed.0 p).2, λ p. allowed.1 ((λ q. cc), named, p)),
      elim (validates_outcome e.store op ops t.snapshot_version named) [
        | inl p ↦ inl p
        | inr p ↦ inr (p, step_failed e.store c (ground arith))
      ],
    )

commit_active-Outcome :
    (e : Engine) (t : Transaction) (ws : List (String × Option String)) (ov : Option ℕ)
    (oc : Option (List String))
    → IsValid e.store
    → AllNamed (ops_of ws)
    → Outcome e t ws (commit_active e t ws ov oc)
unfolding ops_of
commit_active-Outcome e t [] ov oc v named =
    unfold commit_active in ((λ _. tt, λ _. refl), inl refl)
commit_active-Outcome e t (w ∷ ws) ov oc v named =
    let (same, conflicted, stored) = commit_active-Applies e t w ws ov oc in
    rw (same, conflicted, stored)
      (store_outcome e t (record { key = w.0; value = w.1 }) (ops_of ws) v named)

-- `Commit` of an active transaction with a well-formed write set, on a well-formed store, succeeds
-- exactly if the store holds no version of a key of the write set that is newer than the
-- transaction's snapshot (a version that was collected does not count). Otherwise it returns
-- `Conflict` and leaves the store as it was. Either way the transaction is no longer active, and is
-- unregistered.
pub commit_outcome :
    (e : Engine) (t : Transaction) (ov : Option ℕ) (oc : Option (List String))
    → IsValid e.store
    → IsWellFormed t
    → is_active t ≡ true
    → ((is_ok (commit e t ov oc).status ≡ true)
        ↔ AllUntouched t.snapshot_version e.store.table (ops_of t.write_set))
      × ((is_ok (commit e t ov oc).status ≡ true)
          ⊎ ((is_conflict (commit e t ov oc).status ≡ true)
              × ((commit e t ov oc).engine.store ≡ e.store)))
      × (is_active (commit e t ov oc).txn ≡ false)
      × ((commit e t ov oc).engine.manager ≡ unregister t.txn_id e.manager)
unfolding commit
commit_outcome e t ov oc v w a =
    let (iff, ended) =
      commit_active-Outcome e t t.write_set ov oc v (ops_of-AllNamed t.write_set w.named) in
    let (inactive, unregistered) = commit_active-Ends e t t.write_set ov oc in
    rw a (iff, ended, inactive, unregistered)

abbrev Visible : Engine → List (String × Option String) → Ended → Type 0
Visible e ws r =
    (n : ℕ) (k : String)
    → snapshot r.engine.store n k ≡ (
        if is_ok r.status && leb e.store.next_version n
        then buffered ws k (snapshot e.store n k)
        else snapshot e.store n k)

commit_active-Visible :
    (e : Engine) (t : Transaction) (ws : List (String × Option String)) (ov : Option ℕ)
    (oc : Option (List String))
    → IsValid e.store
    → Distinct ws
    → Visible e ws (commit_active e t ws ov oc)
commit_active-Visible e t [] ov oc v d n k = unfold commit_active find in ground arith
commit_active-Visible e t (w ∷ ws) ov oc v d n k =
    let c = validates (ops_of (w ∷ ws)) t.snapshot_version in
    ground (
      arith,
      commit_active-Applies e t w ws ov oc,
      step-snapshot e.store c n k v (omega arith),
      ops_of-last_write k (w ∷ ws) d,
    )

-- After `Commit` of an active transaction with a well-formed write set, on a well-formed store,
-- every version from the new one on shows the buffered writes, all of them, over what it showed
-- before, if the commit succeeded; nothing else changes, neither at the versions before nor at
-- other keys, and nothing at all if it did not succeed.
pub commit-snapshot :
    (e : Engine) (t : Transaction) (ov : Option ℕ) (oc : Option (List String)) (n : ℕ) (k : String)
    → IsValid e.store
    → IsWellFormed t
    → is_active t ≡ true
    → snapshot (commit e t ov oc).engine.store n k ≡ (
        if is_ok (commit e t ov oc).status && leb e.store.next_version n
        then buffered t.write_set k (snapshot e.store n k)
        else snapshot e.store n k)
unfolding commit
commit-snapshot e t ov oc n k v w a =
    rw a (commit_active-Visible e t t.write_set ov oc v w.distinct n k)
