-- ===== src/GarbageCollector/Race.antt =====
-- A pass that a `Begin` interrupts: the shards have been scanned when the transaction begins, and
-- the current version is read, for want of an active transaction, when another write has come in.
-- The comment on `TransactionManager` and the one on `GarbageCollector` say that this is safe.
use mvcc_lite.Prelude.{
  ℕ, suc, ◌+◌, ◌≤◌, ◌<◌, ◌≡◌, refl, ap, ◌∙◌, String, [], ◌∷◌, none, some, false, arith, length,
  drop, u64_mod, is_empty, string_key, push_back, nat_key,
}
use mvcc_lite.Status.{k_ok, k_not_found}
use mvcc_lite.UnorderedMap.{find}
use mvcc_lite.UnorderedMap.Laws.{find-assign}
use mvcc_lite.VersionStore.Defs.{VersionedValue, VersionStore, no_stats}
use mvcc_lite.VersionStore.{History, history_of, append, put, current_version, get_as_of}
use mvcc_lite.VersionStore.Collection.{collect_garbage, is_lone_tombstone}
use mvcc_lite.VersionStore.History.{prefix_length}
use mvcc_lite.VersionStore.Visible.{newest, Versions, Versions-widen}
use mvcc_lite.VersionStore.Trim.{old_count, trim}
use mvcc_lite.VersionStore.Sweep.{find-sweep, entry_after}
use mvcc_lite.VersionStore.Invariant.{
  IsValid, puts, step, step-IsValid, history_of-Versions, collect_garbage-IsValid,
}
use mvcc_lite.VersionStore.Snapshot.{snapshot, get_as_of-Answers, code_for, value_or}
use mvcc_lite.TransactionManager.{TransactionManager, register, fetch_txn_id, begin, boundary_of}
use mvcc_lite.TransactionManager.Laws.{registered, registered-register}
use mvcc_lite.TransactionManager.Oldest.{whole_scan, whole_scan-idle}
use mvcc_lite.TransactionManager.Laws as ManagerLaws
use mvcc_lite.Transaction.{Engine, get}
use mvcc_lite.Transaction.Defs.{Transaction}

-- Where the last write of a history is younger than the reader and at the boundary, all that is left
-- is that write.
drop-length : (h : History) (w : VersionedValue) → drop (length h) (push_back h w) ≡ w ∷ []
drop-length [] w = refl
drop-length (v ∷ h) w = drop-length h w

old_count-push_back :
    (b lo : ℕ) (h : History) (w : VersionedValue)
    → Versions lo (suc b) h
    → w.version ≤ b
    → old_count b (push_back h w) ≡ suc (length h)
unfolding prefix_length
old_count-push_back b lo [] w r p = ground arith
old_count-push_back b lo (v ∷ h) w r p = ground (arith, old_count-push_back b v.version h w r.2 p)

trim-push_back :
    (b lo : ℕ) (h : History) (w : VersionedValue) (value : String)
    → Versions lo (suc b) h
    → w.version ≡ b
    → w.value ≡ some value
    → trim (old_count b (push_back h w)) (push_back h w) ≡ some (w ∷ [])
unfolding trim is_lone_tombstone
trim-push_back b lo h w value r p q =
    rw (old_count-push_back b lo h w r (omega arith)) (rw (drop-length h w) (ground arith))

module _ (s : VersionStore) (key y : String) (v : IsValid s) (p : s.next_version + 1 < u64_mod)
    (k : is_empty key ≡ false) where
  -- The store after the other write, and after the collection at that write's version.
  abbrev written : VersionStore
  written = (put s key y none).1

  abbrev collected : VersionStore
  collected = (collect_garbage written s.next_version).0

  abbrev last : VersionedValue
  last = record { version = s.next_version; value = some y }

  find-written : find key written.table ≡ some (push_back (history_of key s.table) last)
  unfolding put append
  find-written = ground (
    arith,
    find-assign key key (push_back (history_of key s.table) last) s.table,
    string_key.same_iff key key,
  )

  written-IsValid : IsValid written
  written-IsValid = unfold step in step-IsValid s (puts key y) p v

  find-collected : find key collected.table ≡ some (last ∷ [])
  unfolding collect_garbage
  find-collected =
      find-sweep s.next_version written.next_version key written.table no_stats
        written-IsValid.entries written-IsValid.distinct
      ∙ ap (entry_after s.next_version) find-written
      ∙ trim-push_back s.next_version 1 (history_of key s.table) last y
          (Versions-widen 1 s.next_version 1 (suc s.next_version) (history_of key s.table)
            (omega arith) (omega arith) (history_of-Versions s.next_version key s.table v.entries))
          refl refl

  collected-snapshot : snapshot collected (current_version s) key ≡ none
  unfolding newest current_version
  collected-snapshot = ground (arith, find-collected, v.positive, v.room)

  boundary-written :
      (m : TransactionManager)
      → (whole_scan m).any_active ≡ false
      → boundary_of (whole_scan m) written ≡ s.next_version
  unfolding boundary_of put current_version
  boundary-written m quiet = ground (arith, v.positive)

-- This interleaving: the collector scans all shards, a second thread begins a transaction, a third
-- puts `y`, the collector reads the current version, and collects.
unfoldable pub interrupted_pass : Engine → String → String → Engine × Transaction
interrupted_pass e key y =
    let acc = whole_scan e.manager in
    let (manager, t) = begin e.store e.manager in
    let store = (put e.store key y none).1 in
    let boundary = boundary_of acc store in
    (record { store = (collect_garbage store boundary).0; manager = manager }, t)

-- A pass that is interrupted by a `Begin` loses what the new transaction sees. Take a well-formed
-- store and manager with no active transaction, a version left in the counter, and a key with the
-- value `x` at the current version. The collector scans the shards, a transaction begins, another
-- thread puts `y` for the key, and the collector reads the current version and collects. The
-- transaction is registered, and its read of the key gave `x` when it began; now it is told that
-- the key was not found.
pub begin_during_pass :
    (e : Engine) (key x y out : String)
    → IsValid e.store
    → ManagerLaws.IsValid e.manager
    → e.store.next_version + 1 < u64_mod
    → is_empty key ≡ false
    → ((id : ℕ) → registered id e.manager ≡ none)
    → snapshot e.store (current_version e.store) key ≡ some x
    → let (e', t) = interrupted_pass e key y in
      (registered t.txn_id e'.manager ≡ some t.snapshot_version)
      × ((get e.store t key out).0.code ≡ k_ok)
      × ((get e.store t key out).1 ≡ x)
      × ((get e'.store t key out).0.code ≡ k_not_found)
      × ((get e'.store t key out).1 ≡ out)
unfolding interrupted_pass begin fetch_txn_id get find get_as_of
begin_during_pass e key x y out v mv p k idle shown =
    let s = e.store in
    let quiet = whole_scan-idle e.manager mv idle in
    let now = get_as_of-Answers s key (current_version s) out v k in
    let s2 = collected s key y v p k in
    let later =
      get_as_of-Answers s2 key (current_version s) out
        (collect_garbage-IsValid (written s key y v p k) s.next_version
          (written-IsValid s key y v p k))
        k in
    let gone = collected-snapshot s key y v p k in
    (
      registered-register e.manager.next_txn_id (current_version s) e.manager.next_txn_id
            (register e.manager.next_txn_id 0 (fetch_txn_id e.manager).1)
          ∙ ground (arith, nat_key.same_iff e.manager.next_txn_id e.manager.next_txn_id),
      now.0 ∙ ap code_for shown,
      now.1 ∙ ap (λ o. value_or o out) shown,
      rw (boundary-written s key y v p k e.manager quiet) (later.0 ∙ ap code_for gone),
      rw (boundary-written s key y v p k e.manager quiet) (later.1 ∙ ap (λ o. value_or o out) gone),
    )
