-- ===== src/Retry.antt =====
-- `RunWithRetry` of src/transaction.cpp. The caller's function is a parameter: it gets the engine
-- and the transaction, and returns its status and both of them as they are afterwards. What other
-- threads do to the engine meanwhile counts as a part of it.
pub mod Attempts
pub mod Progress
pub mod Release
use mvcc_lite.Prelude.{ℕ, zero, suc, ℤ, pos, negsuc, not, none, if◌then◌else◌}
use mvcc_lite.Status.{Status, ok, is_ok, is_conflict, invalid_argument}
use mvcc_lite.TransactionManager.{begin}
use mvcc_lite.Transaction.Defs.{Transaction}
use mvcc_lite.Transaction.{Engine, Ended, commit, abort, destroy}

abbrev pub Body : Type 0
Body = Engine → Transaction → Status × Engine × Transaction

-- What one round of the loop comes to: a return, or a conflict and another round.
pub data Round : Type 0 where
  returns : Status → Engine → Round
  conflicted : Status → Engine → Round

-- The part of a round after `fn`: the transaction is destroyed at the end, whatever happens.
unfoldable pub conclude : Status × Engine × Transaction → Round
conclude (body_status, e, t) =
    let aborted : Status × Engine × Transaction = abort e t in
    let r : Ended = commit e t none none in
    let e' : Engine = destroy r.engine r.txn in
    if not (is_ok body_status)
    then returns body_status (destroy aborted.1 aborted.2)
    else if is_ok r.status
    then returns ok e'
    else if not (is_conflict r.status)
    then returns r.status e'
    else conflicted r.status e'

unfoldable pub attempt : Body → Engine → Round
unfolding conclude
attempt fn e =
    let (manager, t) = begin e.store e.manager in conclude (fn (record e { manager = manager }) t)

-- The loop, with `left` attempts to go.
unfoldable pub retry : Body → ℕ → Engine → Status → Status × Engine
unfolding attempt
retry fn zero e last_status = (last_status, e)
retry fn (suc left) e last_status = elim (attempt fn e) [
  | returns s e' ↦ (s, e')
  | conflicted s e' ↦ retry fn left e' s
]

unfoldable pub run_with_retry : Body → ℤ → Engine → Status × Engine
unfolding retry
run_with_retry fn (pos zero) e = (invalid_argument "max_attempts must be positive", e)
run_with_retry fn (pos (suc n)) e = retry fn (suc n) e ok
run_with_retry fn (negsuc n) e = (invalid_argument "max_attempts must be positive", e)
