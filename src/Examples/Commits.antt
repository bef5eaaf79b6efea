-- ===== src/Examples/Commits.antt =====
-- Commits over the store of Examples/Store: the order of the write set, and the next reader.
use mvcc_lite.Prelude.{
  ℕ, ◌≡◌, refl, String, [], ◌∷◌, none, some, true, string_key, nat_key, arith, Bool-cases, ◌==◌,
  inl, inr,
}
use mathlib.Core.Path.{subst}
use mvcc_lite.Status.{is_ok}
use mvcc_lite.UnorderedMap.{find}
use mvcc_lite.VersionStore.{
  current_version, apply_batch_if_no_conflict, has_empty_key, conflicts, is_newer,
}
use mvcc_lite.VersionStore.Snapshot.{snapshot, Answers}
use mvcc_lite.Transaction.Defs.{Transaction}
use mvcc_lite.Transaction.{commit, commit_active, finish_commit, ops_of}
use mvcc_lite.Transaction.Commit.{IsWellFormed}
use mvcc_lite.Transaction.Atomic.{buffered}
use mvcc_lite.Transaction.Order.{commit_order}
use mvcc_lite.System.Roundtrip.{read_now, commit-read_now}
use mvcc_lite.Examples.Store.{stocked, stocked-IsValid}
use mvcc_lite.Examples.Transactions.{engine, writer, writer-IsWellFormed}

abbrev turned : Transaction
turned = record writer { write_set = ("c", some "q") ∷ ("a", some "w") ∷ [] }

turned-IsWellFormed : IsWellFormed turned
unfolding find
turned-IsWellFormed = record { distinct = (refl, (refl, tt)); named = (refl, (refl, tt)) }

same_buffer : (key : String) → find key writer.write_set ≡ find key turned.write_set
unfolding find
same_buffer key = elim (Bool-cases ("a" == key)) [
  | inl p ↦
      let e : ◌≡◌ {A = String} "a" key = (string_key.same_iff "a" key).0 p in
      subst (λ k. find k writer.write_set ≡ find k turned.write_set) e refl
  | inr p ↦ ground arith
]

commit_order_example :
    (is_ok (commit engine writer none none).status ≡ is_ok (commit engine turned none none).status)
    × ((n : ℕ) (k : String)
        → snapshot (commit engine writer none none).engine.store n k
          ≡ snapshot (commit engine turned none none).engine.store n k)
commit_order_example =
    commit_order engine writer turned stocked-IsValid writer-IsWellFormed turned-IsWellFormed refl
      refl refl same_buffer

writer_succeeds : is_ok (commit engine writer none none).status ≡ true
unfolding commit commit_active finish_commit ops_of apply_batch_if_no_conflict has_empty_key
    conflicts is_newer find
writer_succeeds = refl

commit-read_now_example :
    Answers
      (buffered writer.write_set "a" (snapshot stocked (current_version stocked) "a"))
      ""
      (read_now (commit engine writer none none).engine "a" "")
commit-read_now_example =
    commit-read_now engine writer "a" "" stocked-IsValid writer-IsWellFormed refl (omega arith)
      writer_succeeds refl
