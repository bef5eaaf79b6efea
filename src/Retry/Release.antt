-- ===== src/Retry/Release.antt =====
-- What `RunWithRetry` leaves registered.
use mvcc_lite.Prelude.{
  ℕ, zero, suc, ◌+◌, ◌≤◌, ◌<◌, ◌≡◌, ◌⊎◌, refl, ◌∙◌, true, none, ℤ, pos, negsuc, arith, nat_key, inl,
  inr, u64_mod,
}
use mvcc_lite.Status.{Status, ok}
use mvcc_lite.VersionStore.Defs.{VersionStore}
use mvcc_lite.TransactionManager.{fetch_txn_id, TransactionManager, begin, unregister}
use mvcc_lite.TransactionManager.Laws.{
  registered, registered-begin, registered-unregister, AllDistinct, begin-AllDistinct,
  unregister-AllDistinct, begin-next_txn_id,
}
use mvcc_lite.Transaction.Defs.{Transaction, is_active}
use mvcc_lite.Transaction.{Engine, abort, destroy}
use mvcc_lite.Transaction.Commit.{commit-Ends}
use mvcc_lite.Retry.{Body, Round, returns, conflicted, conclude, attempt, retry, run_with_retry}

-- The engine after a round.
abbrev pub engine_of : Round → Engine
engine_of (returns s e) = e
engine_of (conflicted s e) = e

-- The function uses the transaction that it is given: it neither ends it nor begins or ends another
-- one. It may change the store.
abbrev pub UsesOnly : Body → Type 0
UsesOnly fn =
    (e : Engine) (t : Transaction)
    → is_active t ≡ true
    → ((fn e t).1.manager ≡ e.manager)
      × ((fn e t).2.txn_id ≡ t.txn_id)
      × (is_active (fn e t).2 ≡ true)

conclude-manager :
    (s : Status) (e : Engine) (t : Transaction)
    → is_active t ≡ true
    → (engine_of (conclude (s, e, t))).manager ≡ unregister t.txn_id e.manager
unfolding conclude abort destroy
conclude-manager s e t a = ground (arith, commit-Ends e t a)

begun :
    (store : VersionStore) (m : TransactionManager)
    → ((begin store m).1.txn_id ≡ m.next_txn_id) × (is_active (begin store m).1 ≡ true)
unfolding begin fetch_txn_id
begun store m = (refl, refl)

-- The engine and the transaction that the function of an attempt is given.
abbrev pub begun_engine : Engine → Engine
begun_engine e = record e { manager = (begin e.store e.manager).0 }

abbrev pub begun_txn : Engine → Transaction
begun_txn e = (begin e.store e.manager).1

pub attempt-manager :
    (fn : Body) (e : Engine)
    → UsesOnly fn
    → (engine_of (attempt fn e)).manager
      ≡ unregister e.manager.next_txn_id (begin e.store e.manager).0
unfolding attempt
attempt-manager fn e u =
    let b = fn (begun_engine e) (begun_txn e) in
    let (id, active) = begun e.store e.manager in
    let (same, own, live) = u (begun_engine e) (begun_txn e) active in
    conclude-manager b.0 b.1 b.2 live ∙ rw (same, own, id) refl

-- Each transaction is in its shard once, and none is registered under an identifier that was not
-- given out.
pub record IsTidy (m : TransactionManager) : Type 0 where
  pub distinct : AllDistinct m
  pub fresh : (id : ℕ) → m.next_txn_id ≤ id → registered id m ≡ none

-- What a round does to the manager: one identifier is used up, and nothing else changes.
abbrev pub UsesUp : ℕ → TransactionManager → TransactionManager → Type 0
UsesUp n m m' =
    IsTidy m' × (m'.next_txn_id ≡ m.next_txn_id + n) × ((j : ℕ) → registered j m' ≡ registered j m)

begin-unregister-UsesUp :
    (store : VersionStore) (m : TransactionManager)
    → m.next_txn_id + 1 < u64_mod
    → IsTidy m
    → UsesUp 1 m (unregister m.next_txn_id (begin store m).0)
begin-unregister-UsesUp store m p v =
    let m1 : TransactionManager = (begin store m).0 in
    let m2 : TransactionManager = unregister m.next_txn_id m1 in
    let next : m2.next_txn_id ≡ m.next_txn_id + 1 =
      unfold unregister in ground (arith, begin-next_txn_id store m) in
    let same : (j : ℕ) → registered j m2 ≡ registered j m = λ j. ground (
      arith,
      registered-unregister m.next_txn_id j m1 (begin-AllDistinct store m v.distinct),
      registered-begin store m j,
      nat_key.same_iff m.next_txn_id j,
      v.fresh j,
    ) in
    (
      record {
        distinct = unregister-AllDistinct m.next_txn_id m1 (begin-AllDistinct store m v.distinct);
        fresh = λ id q. same id ∙ v.fresh id (omega arith);
      },
      next,
      same,
    )

pub attempt-UsesUp :
    (fn : Body) (e : Engine)
    → UsesOnly fn
    → e.manager.next_txn_id + 1 < u64_mod
    → IsTidy e.manager
    → UsesUp 1 e.manager (engine_of (attempt fn e)).manager
attempt-UsesUp fn e u p v =
    rw (attempt-manager fn e u) (begin-unregister-UsesUp e.store e.manager p v)

-- To split on what a round comes to and keep the equation.
pub Round-cases :
    (r : Round)
    → ((s : Status) × (e : Engine) × (r ≡ returns s e))
      ⊎ ((s : Status) × (e : Engine) × (r ≡ conflicted s e))
Round-cases (returns s e) = inl (s, e, refl)
Round-cases (conflicted s e) = inr (s, e, refl)

-- What some rounds do to the manager: they use up `n` identifiers at most, and change nothing else.
abbrev pub Keeps : ℕ → TransactionManager → TransactionManager → Type 0
Keeps n m m' =
    IsTidy m' × (m'.next_txn_id ≤ m.next_txn_id + n) × ((j : ℕ) → registered j m' ≡ registered j m)

pub retry_returned :
    (fn : Body) (left : ℕ) (e : Engine) (s s' : Status) (e' : Engine)
    → attempt fn e ≡ returns s' e'
    → retry fn (suc left) e s ≡ (s', e')
unfolding retry
retry_returned fn left e s s' e' q = ground (arith, q)

pub retry_conflicted :
    (fn : Body) (left : ℕ) (e : Engine) (s s' : Status) (e' : Engine)
    → attempt fn e ≡ conflicted s' e'
    → retry fn (suc left) e s ≡ retry fn left e' s'
unfolding retry
retry_conflicted fn left e s s' e' q = ground (arith, q)

retry-Keeps :
    (fn : Body) (left : ℕ) (e : Engine) (s : Status)
    → UsesOnly fn
    → e.manager.next_txn_id + left < u64_mod
    → IsTidy e.manager
    → Keeps left e.manager (retry fn left e s).1.manager
unfolding retry
retry-Keeps fn zero e s u p v = (v, omega arith, λ j. refl)
retry-Keeps fn (suc left) e s u p v = elim (Round-cases (attempt fn e)) [
  | inl (s', e', q) ↦
      let (tidy, next, same) = rw q at (attempt-UsesUp fn e u (omega arith) v) in
      rw (retry_returned fn left e s s' e' q) (tidy, omega arith, same)
  | inr (s', e', q) ↦
      let (tidy, next, same) = rw q at (attempt-UsesUp fn e u (omega arith) v) in
      let (tidy', next', same') = retry-Keeps fn left e' s' u (omega arith) tidy in
      rw (retry_conflicted fn left e s s' e' q) (tidy', omega arith, λ j. same' j ∙ same j)
]

-- `max_attempts`, as the number of rounds that it stands for.
abbrev pub rounds : ℤ → ℕ
rounds (pos n) = n
rounds (negsuc n) = 0

-- When `RunWithRetry` returns, every transaction is registered that was before, under the same
-- snapshot, and no other: whatever the attempts came to, none of their transactions is left behind.
-- It has begun at most `max_attempts` of them. The function may change the store, but neither ends
-- its transaction nor begins or ends another one; identifiers are left for all attempts.
pub run_with_retry-Keeps :
    (fn : Body) (max_attempts : ℤ) (e : Engine)
    → UsesOnly fn
    → e.manager.next_txn_id + rounds max_attempts < u64_mod
    → IsTidy e.manager
    → Keeps (rounds max_attempts) e.manager (run_with_retry fn max_attempts e).1.manager
unfolding run_with_retry
run_with_retry-Keeps fn (pos zero) e u p v = (v, omega arith, λ j. refl)
run_with_retry-Keeps fn (pos (suc n)) e u p v = retry-Keeps fn (suc n) e ok u p v
run_with_retry-Keeps fn (negsuc n) e u p v = (v, omega arith, λ j. refl)
