-- ===== src/Examples/Retries.antt =====
-- A function that is left alone, and one that always loses the race.
use mvcc_lite.Prelude.{
  ◌≡◌, ◌⊎◌, refl, true, false, none, pos, arith, string_key, ltb, u64_mod, ◌+◌, ◌≤◌, inl, inr,
  Bool-cases, if◌then◌else◌,
}
use mvcc_lite.Status.{ok, is_conflict}
use mvcc_lite.UnorderedMap.{find, assign}
use mvcc_lite.VersionStore as Store
use mvcc_lite.TransactionManager.{begin, unregister, fetch_txn_id}
use mvcc_lite.TransactionManager.Laws.{registered_fresh}
use mvcc_lite.Transaction.{put, commit, commit_active, destroy}
use mvcc_lite.Transaction.Commit.{put-IsWellFormed}
use mvcc_lite.Retry.{Body, run_with_retry}
use mvcc_lite.Retry.Release.{UsesOnly, IsTidy, Keeps, run_with_retry-Keeps}
use mvcc_lite.Retry.Attempts.{
  NeverConflicts, LeavesStore, run_with_retry_exhausts, run_with_retry_alone,
}
use mvcc_lite.Retry.Progress.{IsLawful, run_with_retry_pays}
use mvcc_lite.VersionStore.Invariant.{puts, step, step-IsValid}
use mvcc_lite.VersionStore.Runs.{step-next_version-bounds}
use mvcc_lite.Examples.Store.{stocked, stocked-IsValid}
use mvcc_lite.Examples.Transactions.{busy, busy-IsValid, engine}

abbrev putting : Body
putting e t = ((put t "c" "q").0, e, (put t "c" "q").1)

-- Another thread puts the same key each time.
abbrev racing : Body
racing e t =
    ((put t "c" "q").0, record e { store = (Store.put e.store "c" "r" none).1 }, (put t "c" "q").1)

putting-UsesOnly : UsesOnly putting
unfolding put
putting-UsesOnly e t a = ground arith

putting-LeavesStore : LeavesStore putting
unfolding put
putting-LeavesStore e t w = (refl, ground arith, put-IsWellFormed t "c" "q" w)

racing-UsesOnly : UsesOnly racing
unfolding put
racing-UsesOnly e t a = ground arith

racing-NeverConflicts : NeverConflicts racing
unfolding put
racing-NeverConflicts e t = ground arith

busy-IsTidy : IsTidy busy
busy-IsTidy = record {
  distinct = busy-IsValid.distinct;
  fresh = λ id p. registered_fresh busy id busy-IsValid p;
}

run_with_retry-Keeps_example : Keeps 3 busy (run_with_retry racing (pos 3) engine).1.manager
run_with_retry-Keeps_example =
    run_with_retry-Keeps racing (pos 3) engine racing-UsesOnly (omega arith) busy-IsTidy

run_with_retry_exhausts_example :
    (is_conflict (run_with_retry racing (pos 3) engine).0 ≡ false)
    ⊎ ((run_with_retry racing (pos 3) engine).1.manager.next_txn_id ≡ 21)
run_with_retry_exhausts_example =
    run_with_retry_exhausts racing (pos 3) engine racing-UsesOnly racing-NeverConflicts
      (omega arith) busy-IsTidy

run_with_retry_alone_example :
    ((run_with_retry putting (pos 3) engine).0 ≡ ok)
    × ((run_with_retry putting (pos 3) engine).1.manager ≡ unregister 18 (begin stocked busy).0)
unfolding put begin
run_with_retry_alone_example =
    run_with_retry_alone putting 2 engine putting-UsesOnly putting-LeavesStore stocked-IsValid

-- The same race, which ends with the numbers.
abbrev crowding : Body
crowding e t = (
  (put t "c" "q").0,
  (if ltb (e.store.next_version + 1) u64_mod
      then record e { store = step e.store (puts "c" "r") }
      else e),
  (put t "c" "q").1,
)

crowding-IsLawful : IsLawful crowding
unfolding put
crowding-IsLawful = record {
  store = λ e t v. elim (Bool-cases (ltb (e.store.next_version + 1) u64_mod)) [
    | inl room ↦ rw room (step-IsValid e.store (puts "c" "r") (ground arith) v)
    | inr full ↦ rw full v
  ];
  grows = λ e t. elim (Bool-cases (ltb (e.store.next_version + 1) u64_mod)) [
    | inl room ↦ rw room ((step-next_version-bounds e.store (puts "c" "r") (ground arith)).0)
    | inr full ↦ rw full (omega arith)
  ];
  snapshot = λ e t. ground arith;
  formed = λ e t w. put-IsWellFormed t "c" "q" w;
  active = λ e t a. ground arith;
}

crowding-NeverConflicts : NeverConflicts crowding
unfolding put
crowding-NeverConflicts e t = ground arith

run_with_retry_pays_example :
    (is_conflict (run_with_retry crowding (pos 3) engine).0 ≡ false)
    ⊎ (8 ≤ (run_with_retry crowding (pos 3) engine).1.store.next_version)
run_with_retry_pays_example =
    run_with_retry_pays crowding 2 engine crowding-IsLawful crowding-NeverConflicts stocked-IsValid

run_with_retry-test : is_conflict (run_with_retry racing (pos 2) engine).0 ≡ true
unfolding run_with_retry put begin find assign fetch_txn_id commit destroy Store.put Store.append
    Store.conflicts Store.current_version Store.apply_batch_if_no_conflict commit_active
    Store.has_empty_key
run_with_retry-test = refl
