-- ===== src/System/Conflicts.antt =====
-- Two writers of one key, anywhere in an execution.
use mvcc_lite.Prelude.{
  ◌&&◌, Bool, refl, ℕ, zero, suc, ◌≤◌, ◌≡◌, String, List, [], ◌∷◌, ◌++◌, Option, none, some, true,
  false, drop, length, string_key, arith, inl, inr,
}
use mvcc_lite.Status.{is_conflict}
use mvcc_lite.UnorderedMap.{find, contains}
use mvcc_lite.UnorderedMap.Laws.{Entries-find}
use mvcc_lite.VersionStore.Defs.{WriteOp}
use mvcc_lite.VersionStore.Races.{writes_key, newer}
use mvcc_lite.VersionStore.Reports.{mentions, apply_batch_if_no_conflict-Names}
use mvcc_lite.Transaction.{Engine, ops_of, commit_active, finish_commit}
use mvcc_lite.VersionStore.{apply_batch_if_no_conflict}
use mvcc_lite.VersionStore.Defs.{VersionStore}
use mvcc_lite.Status.{Status, is_ok}
use mvcc_lite.System.Safety.{CalmReach-Kept, at-IsHigh}
use mvcc_lite.System.Invariant.{at-Stands}
use mvcc_lite.Prelude.{Bool-cases, ap, ◌∙◌}
use mvcc_lite.Transaction.Defs.{Transaction}
use mvcc_lite.Transaction.{commit}
use mvcc_lite.System.{System, running, engine}
use mvcc_lite.System.Log.{Log, touches, touched_after}
use mvcc_lite.System.Calm.{CalmReach}
use mvcc_lite.System.Isolation.{CalmReach-commit}

touches-drop :
    (n : ℕ) (log more : Log) (ops : List WriteOp) (key : String)
    → n ≤ length log
    → writes_key key ops ≡ true
    → touches (drop n (log ++ (ops ∷ more))) key ≡ true
unfolding touches
touches-drop zero [] more ops key p w = ground arith
touches-drop zero (x ∷ log) more ops key p w =
    ground (arith, touches-drop zero log more ops key (omega arith) w)
touches-drop (suc n) [] more ops key p w = absurd (omega arith)
touches-drop (suc n) (x ∷ log) more ops key p w = touches-drop n log more ops key (omega arith) w

-- No lost updates: in every calm execution, once a batch that writes a key is in the log, `Commit`
-- of a transaction in use that has buffered a write of the key and began with an older version
-- returns `Conflict` and leaves the store as it was, whoever wrote the batch and however long ago.
pub CalmReach-conflict :
    (log more : Log) (ops : List WriteOp) (s : System) (i : ℕ) (t : Transaction) (key : String)
    (w : Option String)
    → CalmReach (log ++ (ops ∷ more)) s
    → s.clients i ≡ running t
    → t.snapshot_version ≤ length log
    → writes_key key ops ≡ true
    → find key t.write_set ≡ some w
    → (is_conflict (commit (engine s) t none none).status ≡ true)
      × ((commit (engine s) t none none).engine.store ≡ s.store)
CalmReach-conflict log more ops s i t key w r e p q f =
    let all : Log = log ++ (ops ∷ more) in
    let (iff, ended) = CalmReach-commit all s i t r e in
    elim ended [
      | inl won ↦
          let clean : touched_after all t.snapshot_version key ≡ false =
            Entries-find (λ k _. touched_after all t.snapshot_version k ≡ false) key t.write_set
              (iff.0 won) f in
          cc (clean, touches-drop t.snapshot_version log more ops key p q)
      | inr lost ↦ lost
    ]

writes_key-ops_of :
    (key : String) (ws : List (String × Option String))
    → writes_key key (ops_of ws) ≡ contains key ws
unfolding ops_of find
writes_key-ops_of key [] = refl
writes_key-ops_of key ((k, w) ∷ ws) = ground (arith, writes_key-ops_of key ws)

finish_commit-conflicting_keys :
    (e : Engine) (t : Transaction) (r : Status × VersionStore × Option ℕ × Option (List String))
    → is_conflict (finish_commit e t r none).status ≡ true
    → (is_conflict r.0 ≡ true) × ((finish_commit e t r none).out_conflicting_keys ≡ r.3)
unfolding finish_commit
finish_commit-conflicting_keys e t (s, store, version, keys) p = elim (Bool-cases (is_ok s)) [
  | inl good ↦ cc (rw (good, finish_commit) at p)
  | inr bad ↦ (rw (bad, finish_commit) at p, ground (arith, bad))
]

-- The keys that a commit has in conflict, as `Commit` gives them out.
commit_active-conflicting_keys :
    (e : Engine) (t : Transaction) (ws : List (String × Option String)) (old : List String)
    → is_conflict (commit_active e t ws none (some old)).status ≡ true
    → (keys : List String) × ((commit_active e t ws none (some old)).out_conflicting_keys
        ≡ some keys)
      × ((key : String)
          → mentions key keys ≡ (contains key ws && newer e.store t.snapshot_version key))
unfolding commit_active
commit_active-conflicting_keys e t [] old p = cc
commit_active-conflicting_keys e t (w ∷ ws) old p =
    let answer =
      apply_batch_if_no_conflict e.store (ops_of (w ∷ ws)) t.snapshot_version (some 0) (some old) in
    let (refused, out) = finish_commit-conflicting_keys e t answer p in
    let (keys, listed, named) =
      apply_batch_if_no_conflict-Names e.store (ops_of (w ∷ ws)) t.snapshot_version (some 0) old
        refused in
    (
      keys,
      out ∙ listed,
      λ key.
          named key
          ∙ ap (λ (b : Bool). b && newer e.store t.snapshot_version key)
              (writes_key-ops_of key (w ∷ ws)),
    )

-- What `Commit` reports of a conflict: in every calm execution, if `Commit` of a transaction in use
-- gets an output for the keys and returns `Conflict`, the output is a list with a key in it exactly if
-- the key is in the write set and the log has a write to it after the version that the transaction
-- began with.
pub CalmReach-conflicting_keys :
    (log : Log) (s : System) (i : ℕ) (t : Transaction) (old : List String)
    → CalmReach log s
    → s.clients i ≡ running t
    → is_conflict (commit (engine s) t none (some old)).status ≡ true
    → (keys : List String) × ((commit (engine s) t none (some old)).out_conflicting_keys
        ≡ some keys)
      × ((key : String)
          → mentions key keys
            ≡ (contains key t.write_set && touched_after log t.snapshot_version key))
unfolding commit
CalmReach-conflicting_keys log s i t old r e p =
    let (o, (floor, w)) = CalmReach-Kept r in
    let (h, _) = at-IsHigh log s floor i (running t) w e in
    let active = (at-Stands s i (running t) o e).2 in
    let (keys, listed, named) =
      commit_active-conflicting_keys (engine s) t t.write_set old (rw (active, commit) at p) in
    (
      keys,
      rw active listed,
      λ key.
          named key
          ∙ ap (λ (b : Bool). contains key t.write_set && b)
              (w.agrees.knows t.snapshot_version key h),
    )
