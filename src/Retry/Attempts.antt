-- ===== src/Retry/Attempts.antt =====
-- How many attempts `RunWithRetry` makes.
use mvcc_lite.Prelude.{
  ℕ, zero, suc, ◌+◌, ◌≤◌, ◌<◌, ◌≡◌, ◌⊎◌, refl, sym, ap, ◌∙◌, true, false, none, ℤ, pos, negsuc,
  arith, if◌then◌else◌, inl, inr, u64_mod, List, [], ◌∷◌,
}
use mvcc_lite.Status.{Status, ok, is_ok, is_conflict}
use mvcc_lite.VersionStore.Defs.{VersionStore, WriteOp}
use mvcc_lite.VersionStore.{History, current_version, history_of}
use mvcc_lite.VersionStore.Visible.{Versions}
use mvcc_lite.VersionStore.Invariant.{IsValid, history_of-Versions}
use mvcc_lite.VersionStore.Validation.{Untouched, AllUntouched}
use mvcc_lite.TransactionManager.{begin, unregister}
use mvcc_lite.Transaction.Defs.{Transaction, is_active}
use mvcc_lite.Transaction.{Engine, ops_of}
use mvcc_lite.Transaction.Commit.{IsWellFormed}
use mvcc_lite.Transaction.Atomic.{commit_outcome}
use mvcc_lite.Retry.{Body, returns, conclude, attempt, retry, run_with_retry}
use mvcc_lite.Retry.Release.{
  UsesOnly, IsTidy, Round-cases, attempt-UsesUp, attempt-manager, retry_returned, retry_conflicted,
  rounds, begun_engine, begun_txn, engine_of,
}

-- The function itself never reports a conflict.
abbrev pub NeverConflicts : Body → Type 0
NeverConflicts fn = (e : Engine) (t : Transaction) → is_conflict (fn e t).0 ≡ false

conclude-returns :
    (b : Status × Engine × Transaction) (s : Status) (e : Engine)
    → is_conflict b.0 ≡ false
    → conclude b ≡ returns s e
    → is_conflict s ≡ false
unfolding conclude
conclude-returns b s e p q = ground arith

pub attempt-returns :
    (fn : Body) (e : Engine) (s : Status) (e' : Engine)
    → NeverConflicts fn
    → attempt fn e ≡ returns s e'
    → is_conflict s ≡ false
unfolding attempt
attempt-returns fn e s e' p q =
    conclude-returns (fn (begun_engine e) (begun_txn e)) s e' (p (begun_engine e) (begun_txn e)) q

retry_exhausts :
    (fn : Body) (left : ℕ) (e : Engine) (s : Status)
    → UsesOnly fn
    → NeverConflicts fn
    → e.manager.next_txn_id + left < u64_mod
    → IsTidy e.manager
    → (is_conflict (retry fn left e s).0 ≡ false)
      ⊎ ((retry fn left e s).1.manager.next_txn_id ≡ e.manager.next_txn_id + left)
unfolding retry
retry_exhausts fn zero e s u c p v = inr (omega arith)
retry_exhausts fn (suc left) e s u c p v = elim (Round-cases (attempt fn e)) [
  | inl (s', e', q) ↦ rw (retry_returned fn left e s s' e' q) (inl (attempt-returns fn e s' e' c q))
  | inr (s', e', q) ↦
      let (tidy, next, _) = rw q at (attempt-UsesUp fn e u (omega arith) v) in
      rw (retry_conflicted fn left e s s' e' q)
        (elim (retry_exhausts fn left e' s' u c (omega arith) tidy) [
          | inl other ↦ inl other
          | inr all ↦ inr (omega arith)
        ])
]

-- `RunWithRetry` reports a conflict only after it has begun `max_attempts` transactions, if the
-- function does not report one itself. The function may change the store, but neither ends its
-- transaction nor begins or ends another one; identifiers are left for all attempts.
pub run_with_retry_exhausts :
    (fn : Body) (max_attempts : ℤ) (e : Engine)
    → UsesOnly fn
    → NeverConflicts fn
    → e.manager.next_txn_id + rounds max_attempts < u64_mod
    → IsTidy e.manager
    → (is_conflict (run_with_retry fn max_attempts e).0 ≡ false)
      ⊎ ((run_with_retry fn max_attempts e).1.manager.next_txn_id
          ≡ e.manager.next_txn_id + rounds max_attempts)
unfolding run_with_retry
run_with_retry_exhausts fn (pos zero) e u c p v = inl refl
run_with_retry_exhausts fn (pos (suc n)) e u c p v = retry_exhausts fn (suc n) e ok u c p v
run_with_retry_exhausts fn (negsuc n) e u c p v = inl refl

-- Nobody changes the store while the function runs, and the function keeps the snapshot of its
-- transaction and leaves its write set well formed.
abbrev pub LeavesStore : Body → Type 0
LeavesStore fn =
    (e : Engine) (t : Transaction)
    → IsWellFormed t
    → ((fn e t).1.store ≡ e.store)
      × ((fn e t).2.snapshot_version ≡ t.snapshot_version)
      × IsWellFormed (fn e t).2

pub Versions-Untouched :
    (lo hi snap : ℕ) (h : History) → hi ≤ suc snap → Versions lo hi h → Untouched snap h
Versions-Untouched lo hi snap [] p r = tt
Versions-Untouched lo hi snap (v ∷ h) p r =
    (omega arith, Versions-Untouched v.version hi snap h p r.2)

pub current_version-AllUntouched :
    (s : VersionStore) (ops : List WriteOp)
    → IsValid s
    → AllUntouched (current_version s) s.table ops
unfolding current_version
current_version-AllUntouched s [] v = tt
current_version-AllUntouched s (op ∷ ops) v = (
  Versions-Untouched 1 s.next_version (current_version s) (history_of op.key s.table)
      (omega (arith, v.positive, v.room))
      (history_of-Versions s.next_version op.key s.table v.entries),
  current_version-AllUntouched s ops v,
)

-- The status of a round that nobody interferes with.
abbrev pub first_status : Body → Engine → Status
first_status fn e = let s = (fn (begun_engine e) (begun_txn e)).0 in if is_ok s then ok else s

conclude_alone :
    (s : Status) (e : Engine) (t : Transaction)
    → IsValid e.store
    → IsWellFormed t
    → is_active t ≡ true
    → t.snapshot_version ≡ current_version e.store
    → conclude (s, e, t) ≡ returns (if is_ok s then ok else s) (engine_of (conclude (s, e, t)))
unfolding conclude
conclude_alone s e t v w a q =
    let untouched : AllUntouched t.snapshot_version e.store.table (ops_of t.write_set) =
      rw q (current_version-AllUntouched e.store (ops_of t.write_set) v) in
    ground (arith, (commit_outcome e t none none v w a).0.1 untouched)

pub begun_alone :
    (e : Engine)
    → ((begun_txn e).snapshot_version ≡ current_version e.store)
      × (is_active (begun_txn e) ≡ true)
      × IsWellFormed (begun_txn e)
unfolding begin
begun_alone e = (refl, refl, record { distinct = tt; named = tt })

attempt_alone :
    (fn : Body) (e : Engine)
    → UsesOnly fn
    → LeavesStore fn
    → IsValid e.store
    → attempt fn e ≡ returns (first_status fn e) (engine_of (attempt fn e))
unfolding attempt
attempt_alone fn e u l v =
    let b = fn (begun_engine e) (begun_txn e) in
    let (snapshot, active, formed) = begun_alone e in
    let (_, _, live) = u (begun_engine e) (begun_txn e) active in
    let (store, kept, formed') = l (begun_engine e) (begun_txn e) formed in
    conclude_alone b.0 b.1 b.2 (rw store v) formed' live
      (kept ∙ snapshot ∙ sym (ap current_version store))

-- If nobody else changes the store meanwhile, one attempt is enough, however many are allowed:
-- `RunWithRetry` begins one transaction and returns `OK` if the function did, and the status of the
-- function otherwise. The function neither ends its transaction nor begins or ends another one, and
-- the store is well formed.
pub run_with_retry_alone :
    (fn : Body) (n : ℕ) (e : Engine)
    → UsesOnly fn
    → LeavesStore fn
    → IsValid e.store
    → ((run_with_retry fn (pos (suc n)) e).0 ≡ first_status fn e)
      × ((run_with_retry fn (pos (suc n)) e).1.manager
          ≡ unregister e.manager.next_txn_id (begin e.store e.manager).0)
unfolding run_with_retry
run_with_retry_alone fn n e u l v =
    let q =
      retry_returned fn n e ok (first_status fn e) (engine_of (attempt fn e))
        (attempt_alone fn e u l v) in
    (ap (λ r. r.0) q, ap (λ r. r.1.manager) q ∙ attempt-manager fn e u)
