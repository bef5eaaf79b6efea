-- ===== src/Examples/Baseline.antt =====
-- Some calls of the baseline store.
use mvcc_lite.Prelude.{◌≡◌, refl, [], ◌∷◌, none, some, true, false, string_key}
use mvcc_lite.UnorderedMap.{find}
use mvcc_lite.Status.{k_ok, k_not_found}
use mvcc_lite.KvStore.{KvStore}
use mvcc_lite.KvStore.Refinement.{gets, deletes, asks, replied, run, spec_run, run-refines}

abbrev shelf : KvStore
shelf = record { table = ("a", "x") ∷ ("b", "y") ∷ [] }

run-refines_example :
    run shelf (gets "a" ∷ deletes "a" ∷ gets "a" ∷ asks "b" ∷ [])
    ≡ replied k_ok (some "x") false
      ∷ replied k_ok none false
      ∷ replied k_not_found none false
      ∷ replied k_ok none true
      ∷ []
unfolding spec_run find
run-refines_example =
    run-refines shelf (gets "a" ∷ deletes "a" ∷ gets "a" ∷ asks "b" ∷ [])
      (unfold find in (refl, (refl, tt)))
