-- ===== src/GarbageCollector/Account.antt =====
-- The collector's books: what its passes have reclaimed, against all that was written.
use mvcc_lite.Prelude.{
  ℕ, suc, ◌+◌, ◌≤◌, ◌<◌, ◌≡◌, refl, String, List, [], ◌∷◌, none, some, Bool, true, false,
  if◌then◌else◌, push_back, length, length-append, u64_mod, arith, string_key,
}
use mvcc_lite.Status.{is_ok}
use mvcc_lite.UnorderedMap.{find, assign}
use mvcc_lite.UnorderedMap.Laws.{Entries}
use mvcc_lite.VersionStore.Defs.{VersionedValue, WriteOp, VersionStore}
use mvcc_lite.VersionStore.{
  History, history_of, append, put, delete, apply_ops, apply_batch, apply_validated,
  apply_batch_if_no_conflict, conflicts, key_count,
}
use mvcc_lite.VersionStore.Collection.{collect_garbage}
use mvcc_lite.VersionStore.Sweep.{IsEntry}
use mvcc_lite.VersionStore.Invariant.{
  IsValid, Call, puts, deletes, batches, validates, collects, step, step-IsValid,
  collect_garbage-IsValid,
}
use mvcc_lite.VersionStore.Timeline.{effect, status}
use mvcc_lite.VersionStore.Runs.{step-next_version-bounds}
use mvcc_lite.VersionStore.Garbage.{total_versions, collect_garbage-counts}
use mvcc_lite.TransactionManager.{oldest_active_snapshot}
use mvcc_lite.Transaction.{Engine}
use mvcc_lite.GarbageCollector.{GarbageCollector, run_once, add_stats}

assign-total_versions :
    (key : String) (h' : History) (table : List (String × History))
    → total_versions (assign key h' table) + length (history_of key table)
      ≡ total_versions table + length h'
unfolding total_versions assign find
assign-total_versions key h' [] = omega arith
assign-total_versions key h' ((k, h) ∷ table) = ground (arith, assign-total_versions key h' table)

append-total_versions :
    (key : String) (v : VersionedValue) (table : List (String × History))
    → total_versions (append key v table) ≡ suc (total_versions table)
unfolding append
append-total_versions key v table = omega (
  arith,
  assign-total_versions key (push_back (history_of key table) v) table,
  length-append (history_of key table) (v ∷ []),
)

apply_ops-total_versions :
    (version : ℕ) (ops : List WriteOp) (table : List (String × History))
    → total_versions (apply_ops version ops table) ≡ total_versions table + length ops
unfolding apply_ops
apply_ops-total_versions version [] table = omega arith
apply_ops-total_versions version (op ∷ ops) table =
    let v : VersionedValue = record { version = version; value = op.value } in
    omega (
      arith,
      append-total_versions op.key v table,
      apply_ops-total_versions version ops (append op.key v table),
    )

-- A call of the store other than `CollectGarbage`.
abbrev pub is_write : Call → Bool
is_write (collects safe_boundary) = false
is_write _ = true

apply_validated-total_versions :
    (s : VersionStore) (ops : List WriteOp) (keys : List String)
    → total_versions (apply_validated s ops keys none none).1.table
      ≡ total_versions s.table
        + length (if is_ok (apply_validated s ops keys none none).0 then ops else [])
apply_validated-total_versions s ops [] = apply_ops-total_versions s.next_version ops s.table
apply_validated-total_versions s ops (key ∷ keys) = omega arith

-- A call adds as many versions as it makes writes.
pub step-total_versions :
    (s : VersionStore) (c : Call)
    → is_write c ≡ true
    → total_versions (step s c).table ≡ total_versions s.table + length (effect s c)
unfolding step status
step-total_versions s (puts key value) p =
    unfold put in
    ground (
      arith,
      append-total_versions key (record { version = s.next_version; value = some value }) s.table,
    )
step-total_versions s (deletes key) p =
    unfold delete in
    ground
      (arith, append-total_versions key (record { version = s.next_version; value = none }) s.table)
step-total_versions s (batches []) p = unfold apply_batch in omega arith
step-total_versions s (batches (op ∷ ops)) p =
    unfold apply_batch in ground (arith, apply_ops-total_versions s.next_version (op ∷ ops) s.table)
step-total_versions s (validates [] snap) p = unfold apply_batch_if_no_conflict in omega arith
step-total_versions s (validates (op ∷ ops) snap) p =
    unfold apply_batch_if_no_conflict in
    ground (arith, apply_validated-total_versions s (op ∷ ops) (conflicts snap s.table (op ∷ ops)))
step-total_versions s (collects b) p = cc

-- No key has an empty history.
pub key_count-total_versions :
    (n : ℕ) (table : List (String × History))
    → Entries (IsEntry n) table
    → length table ≤ total_versions table
unfolding total_versions
key_count-total_versions n [] e = omega arith
key_count-total_versions n ((key, h) ∷ table) e =
    omega (arith, key_count-total_versions n table e.1, e.0.1)

-- What happens to the store: a call of it, or a pass of the collector.
pub data Event : Type 0 where
  calls : Call → Event
  passes : Event

abbrev pub AllWrites : List Event → Type 0
AllWrites [] = Unit
AllWrites (calls c ∷ events) = (is_write c ≡ true) × AllWrites events
AllWrites (passes ∷ events) = AllWrites events

unfoldable pub run : Engine → GarbageCollector → List Event → Engine × GarbageCollector
run e g [] = (e, g)
run e g (calls c ∷ events) = run (record e { store = step e.store c }) g events
run e g (passes ∷ events) = run (run_once e g).0 (run_once e g).1 events

-- The versions that the calls write.
unfoldable pub written : Engine → GarbageCollector → List Event → ℕ
written e g [] = 0
written e g (calls c ∷ events) =
    length (effect e.store c) + written (record e { store = step e.store c }) g events
written e g (passes ∷ events) = written (run_once e g).0 (run_once e g).1 events

-- What a pass adds to the books.
pub run_once-total_versions :
    (e : Engine) (g : GarbageCollector)
    → IsValid e.store
    → g.cumulative_stats.versions_reclaimed + total_versions e.store.table < u64_mod
    → IsValid (run_once e g).0.store
      × ((run_once e g).0.store.next_version ≡ e.store.next_version)
      × ((run_once e g).1.cumulative_stats.versions_reclaimed
            + total_versions (run_once e g).0.store.table
          ≡ g.cumulative_stats.versions_reclaimed + total_versions e.store.table)
unfolding run_once add_stats key_count
run_once-total_versions e g v p =
    let b : ℕ = oldest_active_snapshot e.store e.manager in
    let keys = key_count-total_versions e.store.next_version e.store.table v.entries in
    let (counts, _) = collect_garbage-counts e.store b v (omega arith) (omega arith) in
    (collect_garbage-IsValid e.store b v, unfold collect_garbage in refl, omega (arith, counts))

-- The books balance: over any run of writing calls and passes from a well-formed store, what the
-- collector reports as reclaimed in all, and the versions that are in the store, make what these two
-- were before and the versions that the calls wrote, while these fit into 64 bits and the counter
-- has a number left for each event.
pub run-total_versions :
    (e : Engine) (g : GarbageCollector) (events : List Event)
    → IsValid e.store
    → AllWrites events
    → e.store.next_version + length events < u64_mod
    → g.cumulative_stats.versions_reclaimed + total_versions e.store.table + written e g events
      < u64_mod
    → (run e g events).1.cumulative_stats.versions_reclaimed
        + total_versions (run e g events).0.store.table
      ≡ g.cumulative_stats.versions_reclaimed + total_versions e.store.table + written e g events
unfolding run written
run-total_versions e g [] v w room p = omega arith
run-total_versions e g (calls c ∷ events) v w room p =
    let e' : Engine = record e { store = step e.store c } in
    let more = step-total_versions e.store c w.0 in
    let next = (step-next_version-bounds e.store c (omega arith)).1 in
    omega (
      arith,
      more,
      run-total_versions e' g events (step-IsValid e.store c (omega arith) v) w.1
          (omega (arith, next)) (omega (arith, more)),
    )
run-total_versions e g (passes ∷ events) v w room p =
    let (v', next, same) = run_once-total_versions e g v (omega arith) in
    omega (
      arith,
      same,
      run-total_versions (run_once e g).0 (run_once e g).1 events v' w (omega (arith, next))
          (omega (arith, same)),
    )
