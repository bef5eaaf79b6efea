-- ===== src/System/Always.antt =====
-- What reads are good for in every execution.
use mvcc_lite.Prelude.{
  [], ◌∷◌, List, true, ℕ, ◌≡◌, String, Option, none, false, is_empty, length, string_key, arith,
  inl, inr, ◌⊎◌, Option-cases,
}
use mvcc_lite.UnorderedMap.{find}
use mvcc_lite.VersionStore as Store
use mvcc_lite.VersionStore.{current_version}
use mvcc_lite.VersionStore.Snapshot.{snapshot, Answers, get-Answers}
use mvcc_lite.VersionStore.Loss.{SameOrNone}
use mvcc_lite.Transaction.Defs.{Transaction}
use mvcc_lite.Transaction.{get, commit, ops_of}
use mvcc_lite.Transaction.View.{view, get-view}
use mvcc_lite.System.{engine, System, running, Reach}
use mvcc_lite.System.Log.{Log, contents}
use mvcc_lite.System.Invariant.{at-Stands}
use mvcc_lite.System.Isolation.{sees, NoneTouched}
use mvcc_lite.VersionStore.Races.{newer}
use mvcc_lite.VersionStore.Validation.{AllUntouched, not-newer-Untouched}
use mvcc_lite.VersionStore.{history_of}
use mvcc_lite.VersionStore.Defs.{VersionStore}
use mvcc_lite.VersionStore.Invariant.{IsValid, history_of-Versions}
use mvcc_lite.Transaction.Atomic.{commit_outcome}
use mvcc_lite.Status.{is_ok}
use mvcc_lite.System.Log.{touched_after}
use mvcc_lite.System.Truth.{Reach-IsTrue}

-- In every execution, calm or not, a read of the store itself is exact: `Get` of a non-empty key
-- returns the value that the last write to it left, or `NotFound` if there is none, as the log of all
-- that was written has it.
pub Reach-current :
    (log : Log) (s : System) (key out : String) (out_version : Option ℕ)
    → Reach log s
    → is_empty key ≡ false
    → Answers
        (contents log (length log) key)
        out
        ((Store.get s.store key out out_version).0, (Store.get s.store key out out_version).1)
Reach-current log s key out out_version r k =
    let (o, w) = Reach-IsTrue r in
    let last : current_version s.store ≡ length log =
      unfold current_version in omega (arith, w.agrees.counter, o.store.positive, o.store.room) in
    let shown : snapshot s.store (current_version s.store) key ≡ contents log (length log) key =
      rw (← last) (
        w.agrees.shows (current_version s.store) key
          (unfold current_version in omega (arith, w.below, o.store.positive, o.store.room))) in
    rw shown at (get-Answers s.store key out out_version o.store k)

-- In every execution, calm or not, a transaction in use never reads a wrong value: `Get` of a
-- non-empty key answers from its own writes and the version that it began with, as the log has it,
-- or with `NotFound` and the output untouched.
pub Reach-get :
    (log : Log) (s : System) (i : ℕ) (t : Transaction) (key out : String)
    → Reach log s
    → s.clients i ≡ running t
    → is_empty key ≡ false
    → Answers (sees log t key) out (get s.store t key out)
      ⊎ Answers none out (get s.store t key out)
Reach-get log s i t key out r e k =
    let (o, w) = Reach-IsTrue r in
    let st = at-Stands s i (running t) o e in
    let answers = get-view s.store t key out o.store st.2 k in
    elim (view-SameOrNone (w.never_wrong t.snapshot_version key)) [
      | inl right ↦ inl (rw right at answers)
      | inr nothing ↦ inr (rw nothing at answers)
    ]
  where
    view-SameOrNone :
        SameOrNone (snapshot s.store t.snapshot_version key) (contents log t.snapshot_version key)
        → SameOrNone (view s.store t key) (sees log t key)
    view-SameOrNone h = elim (Option-cases (find key t.write_set)) [
      | inl none_ ↦ elim h [
        | inl right ↦ inl (ground (arith, none_, right))
        | inr nothing ↦ inr (ground (arith, none_, nothing))
      ]
      | inr (buffered, own) ↦ inl (ground (arith, own))
    ]

Untouched_if :
    (log : Log) (s : VersionStore) (n : ℕ) (ws : List (String × Option String))
    → IsValid s
    → ((key : String) → newer s n key ≡ true → touched_after log n key ≡ true)
    → NoneTouched log n ws
    → AllUntouched n s.table (ops_of ws)
unfolding ops_of
Untouched_if log s n [] v h p = tt
Untouched_if log s n ((key, value) ∷ ws) v h p = (
  not-newer-Untouched n 1 s.next_version (history_of key s.table)
      (history_of-Versions s.next_version key s.table v.entries) (ground (arith, h key, p.0)),
  Untouched_if log s n ws v h p.1,
)

-- In every execution, calm or not, a conflict is never spurious: `Commit` of a transaction in use
-- succeeds if the log has no write to a key of its write set after the version that it began with,
-- whatever was written to other keys and whatever was collected.
pub Reach-commit :
    (log : Log) (s : System) (i : ℕ) (t : Transaction)
    → Reach log s
    → s.clients i ≡ running t
    → NoneTouched log t.snapshot_version t.write_set
    → is_ok (commit (engine s) t none none).status ≡ true
Reach-commit log s i t r e free =
    let (o, w) = Reach-IsTrue r in
    let st = at-Stands s i (running t) o e in
    (commit_outcome (engine s) t none none o.store st.3 st.2).0.1 (
      Untouched_if log s.store t.snapshot_version t.write_set o.store
        (w.never_early t.snapshot_version) free)
