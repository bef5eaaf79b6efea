-- ===== src/Examples/Store.antt =====
-- A store in which `a` has two versions and `b` has a value and a tombstone.
use mvcc_lite.Prelude.{◌≡◌, refl, ◌≢◌, ◌↔◌, List, [], ◌∷◌, none, some, arith, string_key, true}
use mvcc_lite.Status.{k_ok, is_ok, is_conflict}
use mvcc_lite.UnorderedMap.{find}
use mvcc_lite.VersionStore.Defs.{VersionStore, WriteOp, bisect, partition_point}
use mvcc_lite.VersionStore.{
  put, delete, get_as_of, visible_entry, currently_visible, has_empty_key, apply_batch,
}
use mvcc_lite.VersionStore.Collection.{collect_garbage, sweep, collect_entry, is_lone_tombstone}
use mvcc_lite.VersionStore.Visible.{newest, visible_entry-eq-newest}
use mvcc_lite.VersionStore.Invariant.{
  IsValid, Call, puts, deletes, batches, validates, collects, step, step-IsValid,
}
use mvcc_lite.VersionStore.Snapshot.{snapshot}
use mvcc_lite.VersionStore.Timeline.{status, step-snapshot}
use mvcc_lite.VersionStore.Validation.{AllUntouched}
use mvcc_lite.VersionStore.Outcome.{AllNamed, Allowed, status_iff, conflict_iff, step_failed}
use mvcc_lite.VersionStore.Runs.{run, run-get_as_of, first_committer_wins}

abbrev pub stocked : VersionStore
stocked = record {
  table =
      (
        "a",
        record { version = 1; value = some "x" } ∷ record { version = 3; value = some "y" } ∷ [],
      )
      ∷ ("b", record { version = 2; value = some "z" } ∷ record { version = 4; value = none } ∷ [])
      ∷ [];
  next_version = 5;
}

pub stocked-IsValid : IsValid stocked
unfolding find
stocked-IsValid = record {
  positive = omega arith;
  room = omega arith;
  distinct = (refl, (refl, tt));
  entries = ((refl, omega arith, omega arith), ((refl, omega arith, omega arith), tt));
}

-- What happens next: a put, a collection, a delete, and a batch.
abbrev pub history : List Call
history =
    puts "a" "w"
    ∷ collects 3
    ∷ deletes "a"
    ∷ batches (record { key = "c"; value = some "q" } ∷ [])
    ∷ []

abbrev pub batch : List WriteOp
batch = record { key = "b"; value = some "n" } ∷ record { key = "a"; value = none } ∷ []

run-get_as_of_example :
    ((get_as_of (run stocked history) "a" 3 "").0.code ≡ k_ok)
    × ((get_as_of (run stocked history) "a" 3 "").1 ≡ "y")
unfolding get_as_of visible_entry partition_point bisect find
run-get_as_of_example =
    run-get_as_of stocked history "a" 3 "" (omega arith) stocked-IsValid refl (omega arith)
      (omega arith)

first_committer_wins_example :
    is_conflict (status (run (step stocked (puts "a" "w")) history) (validates batch 3)) ≡ true
unfolding status put has_empty_key
first_committer_wins_example =
    first_committer_wins stocked (puts "a" "w") history "a" batch 3 (omega arith) stocked-IsValid
      (omega arith) (omega arith) refl refl refl refl

step-snapshot_example : (snapshot (step stocked (batches batch)) 5 "b" ≡ some "n")
unfolding newest find status apply_batch has_empty_key
step-snapshot_example = step-snapshot stocked (batches batch) 5 "b" stocked-IsValid (omega arith)

step-IsValid_example : IsValid (step stocked (validates batch 4))
step-IsValid_example = step-IsValid stocked (validates batch 4) (omega arith) stocked-IsValid

status_iff_example : (is_ok (status stocked (deletes "b")) ≡ true) ↔ Allowed stocked (deletes "b")
status_iff_example = status_iff stocked (deletes "b") stocked-IsValid

conflict_iff_example :
    (is_conflict (status stocked (validates batch 3)) ≡ true)
    ↔ ((batch ≢ []) × AllNamed batch × (¬ AllUntouched 3 stocked.table batch))
conflict_iff_example = conflict_iff stocked batch 3 stocked-IsValid

step_failed_example : step stocked (deletes "b") ≡ stocked
unfolding status delete currently_visible find
step_failed_example = step_failed stocked (deletes "b") refl

visible_entry-eq-newest_example :
    visible_entry 3
      (record { version = 2; value = some "z" } ∷ record { version = 4; value = none } ∷ [])
    ≡ some (record { version = 2; value = some "z" })
unfolding newest
visible_entry-eq-newest_example = visible_entry-eq-newest 3 1 5 _ (omega arith)

-- The tombstone of `b`, alone after the collection, goes as well.
collect_garbage-test : collect_garbage stocked 4 ≡ (
  record { table = ("a", record { version = 3; value = some "y" } ∷ []) ∷ []; next_version = 5 },
  record { versions_reclaimed = 3; keys_removed = 1 },
)
unfolding collect_garbage sweep collect_entry is_lone_tombstone partition_point bisect
collect_garbage-test = refl
