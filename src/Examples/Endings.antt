-- ===== src/Examples/Endings.antt =====
-- The execution of Examples/Threads up to the end of its transaction, whose commit has a conflict, and
-- the commit of a write that has none.
use mvcc_lite.Prelude.{
  ◌∷◌, [], List, ℕ, ◌≡◌, ◌↔◌, ◌⊎◌, ◌+◌, ◌++◌, ◌&&◌, String, none, some, true, string_key, nat_key,
  arith, refl,
}
use mvcc_lite.UnorderedMap.{find, assign, contains}
use mvcc_lite.Status.{is_ok, is_conflict}
use mvcc_lite.VersionStore as Store
use mvcc_lite.VersionStore.{current_version}
use mvcc_lite.VersionStore.Garbage.{total_versions}
use mvcc_lite.VersionStore.Invariant.{puts, step}
use mvcc_lite.VersionStore.Timeline.{writes, status}
use mvcc_lite.VersionStore.Reports.{mentions}
use mvcc_lite.TransactionManager.{oldest_active_snapshot}
use mvcc_lite.TransactionManager.Laws.{registered}
use mvcc_lite.Transaction.Defs.{Transaction}
use mvcc_lite.Transaction.{put, commit, commit_active, ops_of}
use mvcc_lite.System.{
  System, Client, idle, leaving, engine, update, Step, Reach, wrote, commit_call, commit_release,
}
use mvcc_lite.System.Log.{Log, touched_after}
use mvcc_lite.System.Calm.{CalmReach-Reach}
use mvcc_lite.System.Isolation.{NoneTouched, CalmReach-commit}
use mvcc_lite.System.Conflicts.{CalmReach-conflicting_keys}
use mvcc_lite.System.Release.{Reach-idle}
use mvcc_lite.System.Books.{size, reclaimed, Reach-total_versions}
use mvcc_lite.System.Alone.{silent}
use mvcc_lite.Examples.Threads.{log1, log2, reader, late, apart, late-CalmReach, apart-CalmReach}

CalmReach-commit_example :
    ((is_ok (commit (engine apart) (put reader "b" "z").1 none none).status ≡ true)
      ↔ NoneTouched
          (log1 ++ log2)
          (put reader "b" "z").1.snapshot_version
          (put reader "b" "z").1.write_set)
    × ((is_ok (commit (engine apart) (put reader "b" "z").1 none none).status ≡ true)
        ⊎ ((is_conflict (commit (engine apart) (put reader "b" "z").1 none none).status ≡ true)
            × ((commit (engine apart) (put reader "b" "z").1 none none).engine.store
                ≡ apart.store)))
CalmReach-commit_example =
    CalmReach-commit (log1 ++ log2) apart 0 (put reader "b" "z").1 apart-CalmReach refl

-- The late writer, whose commit has a conflict.
abbrev loser : Transaction
loser = (put reader "a" "z").1

CalmReach-conflicting_keys_example :
    (keys : List String) × ((commit (engine late) loser none (some [])).out_conflicting_keys
      ≡ some keys)
    × ((key : String)
        → mentions key keys ≡ (
            contains key loser.write_set
            && touched_after (log1 ++ (writes (puts "a" "y") ∷ [])) loser.snapshot_version key))
unfolding put assign commit commit_active status step Store.put Store.append Store.conflicts
    Store.is_newer Store.apply_batch_if_no_conflict Store.has_empty_key find
CalmReach-conflicting_keys_example =
    CalmReach-conflicting_keys (log1 ++ (writes (puts "a" "y") ∷ [])) late 0 loser [] late-CalmReach
      refl refl

abbrev beaten : Client
beaten = leaving (commit_release late.store loser) (commit (engine late) loser none none).txn

abbrev ended : System
ended = record late {
  store = (commit (engine late) loser none none).engine.store;
  manager = commit_release late.store loser late.manager;
  clients = update (update late.clients 0 beaten) 0 idle;
}

abbrev log3 : Log
log3 = log1 ++ (writes (puts "a" "y") ∷ []) ++ wrote late.store (commit_call loser)

ended-Reach : Reach log3 ended
ended-Reach =
    silent
      (Reach.next (CalmReach-Reach late-CalmReach)
        (Step.commits 0 loser refl (unfold step Store.put in omega arith)))
      (Step.unregisters 0 (commit_release late.store loser)
        (commit (engine late) loser none none).txn refl)

Reach-idle_example :
    ((id : ℕ) → registered id ended.manager ≡ none)
    × (oldest_active_snapshot ended.store ended.manager ≡ current_version ended.store)
Reach-idle_example = Reach-idle log3 ended ended-Reach (λ i. ground arith)

Reach-total_versions_example : reclaimed ended-Reach + total_versions ended.store.table ≡ size log3
Reach-total_versions_example = Reach-total_versions ended-Reach (
    unfold size status Store.put put assign step Store.append Store.apply_batch_if_no_conflict
      ops_of Store.has_empty_key Store.conflicts find in
    omega arith)
