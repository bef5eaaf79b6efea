-- ===== src/Retry/Progress.antt =====
-- What a conflict of `RunWithRetry` costs the other threads.
use mvcc_lite.Prelude.{
  ℕ, zero, suc, ◌+◌, ◌≤◌, ◌<◌, ◌≡◌, ◌⊎◌, inl, inr, ap, ◌∙◌, List, [], ◌∷◌, none, true, false,
  Bool-cases, ltb, u64_sub, pos, arith, string_key,
}
use mvcc_lite.Status.{Status, ok, is_ok, is_conflict}
use mvcc_lite.VersionStore.{current_version, history_of}
use mvcc_lite.VersionStore.Defs.{VersionStore, WriteOp}
use mvcc_lite.VersionStore.Invariant.{IsValid, history_of-Versions}
use mvcc_lite.VersionStore.Validation.{AllUntouched}
use mvcc_lite.Transaction.Defs.{Transaction, is_active}
use mvcc_lite.Transaction.{Engine, commit, destroy, ops_of, Ended}
use mvcc_lite.Transaction.Commit.{IsWellFormed}
use mvcc_lite.Transaction.Atomic.{commit_outcome}
use mvcc_lite.Retry.{Body, attempt, conclude, conflicted, retry, run_with_retry}
use mvcc_lite.Retry.Release.{Round-cases, retry_returned, retry_conflicted, begun_engine, begun_txn}
use mvcc_lite.Retry.Attempts.{NeverConflicts, attempt-returns, begun_alone, Versions-Untouched}

-- While the function runs, other threads may use the store in any way that keeps it well formed and
-- never lowers the counter, which does not run over. The function keeps the snapshot of its
-- transaction, leaves its write set well formed, and does not end it.
pub record IsLawful (fn : Body) : Type 0 where
  pub store : (e : Engine) (t : Transaction) → IsValid e.store → IsValid (fn e t).1.store
  pub grows : (e : Engine) (t : Transaction) → e.store.next_version ≤ (fn e t).1.store.next_version
  pub snapshot : (e : Engine) (t : Transaction) → (fn e t).2.snapshot_version ≡ t.snapshot_version
  pub formed : (e : Engine) (t : Transaction) → IsWellFormed t → IsWellFormed (fn e t).2
  pub active : (e : Engine) (t : Transaction) → is_active t ≡ true → is_active (fn e t).2 ≡ true

-- No version was written after the snapshot.
fresh-AllUntouched :
    (s : VersionStore) (snap : ℕ) (ops : List WriteOp)
    → IsValid s
    → s.next_version ≤ suc snap
    → AllUntouched snap s.table ops
fresh-AllUntouched s snap [] v p = tt
fresh-AllUntouched s snap (op ∷ ops) v p = (
  Versions-Untouched 1 s.next_version snap (history_of op.key s.table) p
      (history_of-Versions s.next_version op.key s.table v.entries),
  fresh-AllUntouched s snap ops v p,
)

conclude-conflicted :
    (b : Status × Engine × Transaction) (s : Status) (e' : Engine)
    → IsValid b.1.store
    → IsWellFormed b.2
    → is_active b.2 ≡ true
    → conclude b ≡ conflicted s e'
    → (e'.store ≡ b.1.store) × (suc b.2.snapshot_version < b.1.store.next_version)
unfolding conclude destroy
conclude-conflicted b s e' v w a q =
    let r : Ended = commit b.1 b.2 none none in
    let (iff, ended, inactive, _) = commit_outcome b.1 b.2 none none v w a in
    let lost : (is_ok r.status ≡ false) × (e' ≡ r.engine) = ground (arith, q, inactive) in
    let kept : r.engine.store ≡ b.1.store = ground (arith, lost.0, ended) in
    let fresh = fresh-AllUntouched b.1.store b.2.snapshot_version (ops_of b.2.write_set) v in
    (
      ap (λ (x : Engine). x.store) lost.1 ∙ kept,
      elim (Bool-cases (ltb (suc b.2.snapshot_version) b.1.store.next_version)) [
        | inl later ↦ ground arith
        | inr not_later ↦ cc (lost.0, iff.1 (fresh (ground arith)))
      ],
    )

attempt-conflicted :
    (fn : Body) (e : Engine) (s : Status) (e' : Engine)
    → IsLawful fn
    → IsValid e.store
    → attempt fn e ≡ conflicted s e'
    → IsValid e'.store × (e.store.next_version < e'.store.next_version)
unfolding attempt current_version
attempt-conflicted fn e s e' l v q =
    let (snapshot, active, formed) = begun_alone e in
    let b : Engine = begun_engine e in
    let t : Transaction = begun_txn e in
    let (kept, later) =
      conclude-conflicted (fn b t) s e' (l.store b t v) (l.formed b t formed) (l.active b t active)
        q in
    let base : (fn b t).2.snapshot_version ≡ u64_sub e.store.next_version 1 =
      l.snapshot b t ∙ snapshot in
    (rw kept (l.store b t v), rw kept (omega (arith, later, base, v.positive, v.room)))

retry_pays :
    (fn : Body) (left : ℕ) (e : Engine) (s : Status)
    → IsLawful fn
    → NeverConflicts fn
    → IsValid e.store
    → (is_conflict (retry fn left e s).0 ≡ false)
      ⊎ (e.store.next_version + left ≤ (retry fn left e s).1.store.next_version)
unfolding retry
retry_pays fn zero e s l c v = inr (omega arith)
retry_pays fn (suc left) e s l c v = elim (Round-cases (attempt fn e)) [
  | inl (s', e', q) ↦ rw (retry_returned fn left e s s' e' q) (inl (attempt-returns fn e s' e' c q))
  | inr (s', e', q) ↦
      let (v', later) = attempt-conflicted fn e s' e' l v q in
      rw (retry_conflicted fn left e s s' e' q) (elim (retry_pays fn left e' s' l c v') [
        | inl other ↦ inl other
        | inr paid ↦ inr (omega arith)
      ])
]

-- Progress: `RunWithRetry` on a well-formed store does not report a conflict, unless the counter of
-- versions has risen meanwhile by at least one for each allowed attempt. The function does not
-- report a conflict itself and keeps its transaction in use, and other threads use the store as they
-- like while it runs, without the counter running over.
pub run_with_retry_pays :
    (fn : Body) (n : ℕ) (e : Engine)
    → IsLawful fn
    → NeverConflicts fn
    → IsValid e.store
    → (is_conflict (run_with_retry fn (pos (suc n)) e).0 ≡ false)
      ⊎ (e.store.next_version + suc n ≤ (run_with_retry fn (pos (suc n)) e).1.store.next_version)
unfolding run_with_retry
run_with_retry_pays fn n e l c v = retry_pays fn (suc n) e ok l c v
