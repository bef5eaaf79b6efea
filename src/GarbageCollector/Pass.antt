-- ===== src/GarbageCollector/Pass.antt =====
-- `RunOnce` of src/gc.cpp, as a pass that no other thread interrupts.
use mvcc_lite.Prelude.{
  sym, ap, ◌∙◌, drop, back, Option, some, [], ◌∷◌, string_key, inl, inr, ℕ, suc, ◌≤◌, ◌≡◌, refl,
  String, List, [], ◌∷◌, none, some, arith, length,
}
use mvcc_lite.UnorderedMap.Laws.{Entries-find}
use mvcc_lite.VersionStore.Defs.{VersionedValue, VersionStore, WriteOp, no_stats}
use mvcc_lite.VersionStore.{History, history_of, conflicts, current_version}
use mvcc_lite.VersionStore.Collection.{collect_garbage, is_lone_tombstone}
use mvcc_lite.VersionStore.History.{prefix_length}
use mvcc_lite.VersionStore.Visible.{Versions, newest}
use mvcc_lite.VersionStore.Trim.{old_count, trim}
use mvcc_lite.UnorderedMap.{find}
use mvcc_lite.VersionStore.Sweep.{IsEntry, entry_after, find-sweep}
use mvcc_lite.VersionStore.Invariant.{history_of-Versions, IsValid}
use mvcc_lite.VersionStore.Snapshot.{snapshot, newest_all}
use mvcc_lite.VersionStore.Timeline.{collect_garbage-snapshot}
use mvcc_lite.VersionStore.Garbage.{conflicts-collect_garbage}
use mvcc_lite.TransactionManager.{oldest_active_snapshot}
use mvcc_lite.TransactionManager.Laws as ManagerLaws
use mvcc_lite.TransactionManager.Laws.{registered}
use mvcc_lite.TransactionManager.Oldest.{oldest-le-registered, oldest-Attained}
use mvcc_lite.Transaction.{Engine}
use mvcc_lite.GarbageCollector.{GarbageCollector, run_once}

-- An uninterrupted pass over a well-formed store changes nothing for a registered transaction: at
-- every key its snapshot shows the same, and the validation of its commit finds the same
-- conflicts.
run_once-snapshot :
    (e : Engine) (g : GarbageCollector) (id snap : ℕ)
    → IsValid e.store
    → registered id e.manager ≡ some snap
    → ((k : String) → snapshot (run_once e g).0.store snap k ≡ snapshot e.store snap k)
      × ((ops : List WriteOp)
          → conflicts snap (run_once e g).0.store.table ops ≡ conflicts snap e.store.table ops)
unfolding run_once
run_once-snapshot e g id snap v r =
    let p = oldest-le-registered e.store e.manager id snap r in
    let b = oldest_active_snapshot e.store e.manager in
    (
      λ k. collect_garbage-snapshot e.store b snap k v p,
      λ ops. conflicts-collect_garbage e.store b snap ops v p,
    )

old_count_all :
    (b lo hi : ℕ) (h : History) → hi ≤ suc b → Versions lo hi h → old_count b h ≡ length h
unfolding prefix_length
old_count_all b lo hi [] p r = refl
old_count_all b lo hi (v ∷ h) p r = ground (arith, old_count_all b v.version hi h p r.2)

-- What should be left of a key, by its last version.
abbrev pub last_alive : Option VersionedValue → Option History
last_alive none = none
last_alive (some v) = elim v.value [ none ↦ none | some value ↦ some (v ∷ []) ]

drop_to_last :
    (v : VersionedValue) (h : History)
    → (w : VersionedValue) × (drop (length h) (v ∷ h) ≡ w ∷ []) × (back (v ∷ h) ≡ some w)
drop_to_last v [] = (v, refl, refl)
drop_to_last v (w ∷ h) = let (last, e, e') = drop_to_last w h in (last, e, ground (arith, e'))

trim_all :
    (v : VersionedValue) (h : History) → trim (suc (length h)) (v ∷ h) ≡ last_alive (back (v ∷ h))
unfolding trim is_lone_tombstone
trim_all v h = let (w, e, e') = drop_to_last v h in rw (e, e') (ground arith)

entry_after_all :
    (b next : ℕ) (key : String) (o : Option History)
    → next ≤ suc b
    → ((h : History) → o ≡ some h → IsEntry next key h)
    → entry_after b o ≡ last_alive (back (elim o [ none ↦ [] | some h ↦ h ]))
entry_after_all b next key none p h = refl
entry_after_all b next key (some []) p h = absurd (omega (arith, (h [] refl).1))
entry_after_all b next key (some (v ∷ rest)) p h =
    rw (old_count_all b 1 next (v ∷ rest) p (h (v ∷ rest) refl).2) (trim_all v rest)

idle_boundary :
    (e : Engine)
    → IsValid e.store
    → ManagerLaws.IsValid e.manager
    → ((id : ℕ) → registered id e.manager ≡ none)
    → e.store.next_version ≤ suc (oldest_active_snapshot e.store e.manager)
unfolding current_version
idle_boundary e v m idle = elim (oldest-Attained e.store e.manager m) [
  | inl (id, r) ↦ cc (idle id, r)
  | inr (_, b) ↦ omega (arith, b, v.positive, v.room)
]

-- If no transaction is active, and store and manager are well formed, an uninterrupted pass leaves
-- of every key exactly its last version, if that has a value, and else nothing.
pub run_once_idle :
    (e : Engine) (g : GarbageCollector) (key : String)
    → IsValid e.store
    → ManagerLaws.IsValid e.manager
    → ((id : ℕ) → registered id e.manager ≡ none)
    → find key (run_once e g).0.store.table
      ≡ last_alive (newest (current_version e.store) (history_of key e.store.table))
unfolding run_once collect_garbage
run_once_idle e g key v m idle =
    let s : VersionStore = e.store in
    let b : ℕ = oldest_active_snapshot s e.manager in
    let here = find-sweep b s.next_version key s.table no_stats v.entries v.distinct in
    let last =
      newest_all (current_version s) 1 s.next_version (history_of key s.table)
        (unfold current_version in omega (arith, v.positive, v.room))
        (history_of-Versions s.next_version key s.table v.entries) in
    here
    ∙ entry_after_all b s.next_version key (find key s.table) (idle_boundary e v m idle)
        (λ h f. Entries-find (IsEntry s.next_version) key s.table v.entries f)
    ∙ ap last_alive (sym last)
