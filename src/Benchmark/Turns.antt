-- ===== src/Benchmark/Turns.antt =====
-- What each turn of the two workloads does to the two stores.
use mvcc_lite.Prelude.{
  ℕ, suc, ◌+◌, ◌<◌, ◌≡◌, refl, sym, ap, ◌∙◌, String, [], ◌∷◌, Option, none, some, true,
  if◌then◌else◌, ◌==◌, string_key, arith, u64_mod, inl, inr,
}
use mvcc_lite.Status.{is_ok, ok}
use mvcc_lite.UnorderedMap.{find, assign}
use mvcc_lite.UnorderedMap.Laws.{find-assign}
use mvcc_lite.KvStore as Kv
use mvcc_lite.KvStore.{KvStore}
use mvcc_lite.VersionStore.Defs.{VersionStore}
use mvcc_lite.VersionStore.{current_version}
use mvcc_lite.VersionStore.Invariant.{IsValid}
use mvcc_lite.VersionStore.Snapshot.{snapshot, code_for, value_or}
use mvcc_lite.TransactionManager.{begin, fetch_txn_id}
use mvcc_lite.Transaction.Defs.{Transaction, k_active}
use mvcc_lite.Transaction.{ops_of, commit_active, Engine, put, commit, destroy}
use mvcc_lite.Transaction.Commit.{IsWellFormed, commit-Ends}
use mvcc_lite.Transaction.Atomic.{commit_outcome, buffered}
use mvcc_lite.VersionStore.Invariant.{step-IsValid, collect_garbage-IsValid}
use mvcc_lite.VersionStore.Runs.{step-next_version-bounds}
use mvcc_lite.VersionStore.Collection.{collect_garbage}
use mvcc_lite.VersionStore.Timeline.{collect_garbage-snapshot}
use mvcc_lite.TransactionManager.{oldest_active_snapshot}
use mvcc_lite.TransactionManager.Oldest.{oldest-Attained}
use mvcc_lite.TransactionManager.Laws.{registered}
use mvcc_lite.TransactionManager.Laws as ManagerLaws
use mvcc_lite.System.{commit_call}
use mvcc_lite.System.Moves.{commit-step}
use mvcc_lite.System.Roundtrip.{read_now-Answers, commit-current}
use mvcc_lite.Retry.{attempt, conclude, returns, run_with_retry}
use mvcc_lite.Retry.Release.{begun_engine, begun_txn, retry_returned}
use mvcc_lite.Retry.Attempts.{current_version-AllUntouched}
use mvcc_lite.GarbageCollector.{GarbageCollector, run_once}
use mvcc_lite.Benchmark.Workload.{
  Reading, key_name, value_text, kv_reader, kv_writer, mvcc_reader, mvcc_writer, writer_fn,
}
use mvcc_lite.Benchmark.Alike.{Alike, gone, gone_lem, key_name_named}

abbrev pub reading_of : Option String → Reading
reading_of o = (code_for o, value_or o "")

pub kv_reader_lem : (i : ℕ) (s : KvStore) → kv_reader i s ≡ reading_of (find (key_name i) s.table)
unfolding kv_reader
kv_reader_lem i s = unfold Kv.get in ground (arith, key_name_named i)

mvcc_reader_reading :
    (i : ℕ) (e : Engine)
    → IsValid e.store
    → (mvcc_reader i e).0 ≡ reading_of (snapshot e.store (current_version e.store) (key_name i))
unfolding mvcc_reader
mvcc_reader_reading i e v =
    let a = read_now-Answers e (key_name i) "" v (key_name_named i) in λ j. (a.0 j, a.1 j)

pub mvcc_reader_engine :
    (i : ℕ) (e : Engine)
    → (mvcc_reader i e).1 ≡ record { store = e.store; manager = gone e.store e.manager }
unfolding mvcc_reader
mvcc_reader_engine i e = unfold fetch_txn_id begin commit commit_active destroy in refl

pub reader-Alike :
    (n i : ℕ) (s : KvStore) (e : Engine)
    → Alike (suc n) s e
    → (kv_reader i s ≡ (mvcc_reader i e).0) × Alike n s (mvcc_reader i e).1
reader-Alike n i s e a =
    let g = gone_lem n s e a in
    (
      kv_reader_lem i s
          ∙ ap reading_of (a.same (key_name i) (key_name_named i))
          ∙ sym (mvcc_reader_reading i e a.valid),
      rw (mvcc_reader_engine i e) record {
        valid = a.valid;
        manager = g.manager;
        idle = g.idle;
        same = a.same;
        versions = omega (arith, a.versions);
        ids = g.ids;
      },
    )

module _ (i : ℕ) (numbers : ℕ → ℕ) (e : Engine) where
  abbrev pub wrote : Transaction
  wrote = record {
    txn_id = e.manager.next_txn_id;
    snapshot_version = current_version e.store;
    state = k_active;
    write_set = (key_name i, some (value_text (numbers 0))) ∷ [];
  }

  wrote_lem :
      writer_fn i numbers e.manager.next_txn_id (begun_engine e) (begun_txn e)
      ≡ (ok, begun_engine e, wrote)
  unfolding writer_fn
  wrote_lem = unfold put begin fetch_txn_id assign in ground (arith, key_name_named i)

  wrote-IsWellFormed : IsWellFormed wrote
  wrote-IsWellFormed = record {
    distinct = unfold find in (refl, tt);
    named = (key_name_named i, tt);
  }

  commit_succeeds : IsValid e.store → is_ok (commit (begun_engine e) wrote none none).status ≡ true
  commit_succeeds v =
      let c = commit_outcome (begun_engine e) wrote none none v wrote-IsWellFormed refl in
      c.0.1 (current_version-AllUntouched e.store (ops_of wrote.write_set) v)

  attempt_lem :
      IsValid e.store
      → attempt (writer_fn i numbers e.manager.next_txn_id) e
        ≡ returns ok (commit (begun_engine e) wrote none none).engine
  unfolding attempt conclude destroy
  attempt_lem v =
      simp wrote_lem (ground (arith, commit_succeeds v, commit-Ends (begun_engine e) wrote refl))

  pub mvcc_writer_lem :
      IsValid e.store → mvcc_writer i numbers e ≡ (commit (begun_engine e) wrote none none).engine
  unfolding mvcc_writer run_with_retry
  mvcc_writer_lem v =
      ap (λ r. r.1)
        (retry_returned (writer_fn i numbers e.manager.next_txn_id) 31 e ok ok
          (commit (begun_engine e) wrote none none).engine (attempt_lem v))

-- What a put of the baseline does to a lookup.
pub kv_put-find :
    (i : ℕ) (value : String) (s : KvStore) (key : String)
    → find key (Kv.put s (key_name i) value).1.table
      ≡ (if key_name i == key then some value else find key s.table)
kv_put-find i value s key =
    unfold Kv.put in ground (arith, key_name_named i, find-assign (key_name i) key value s.table)

buffered_one :
    (i : ℕ) (numbers : ℕ → ℕ) (e : Engine) (key : String) (o : Option String)
    → buffered (wrote i numbers e).write_set key o
      ≡ (if key_name i == key then some (value_text (numbers 0)) else o)
unfolding find
buffered_one i numbers e key o = ground arith

collected-current :
    (s : VersionStore) (b : ℕ) (key : String)
    → IsValid s
    → b ≡ current_version s
    → snapshot (collect_garbage s b).0 (current_version (collect_garbage s b).0) key
      ≡ snapshot s (current_version s) key
unfolding current_version collect_garbage
collected-current s b key v p = collect_garbage-snapshot s b (current_version s) key v (omega arith)

idle_oldest :
    (e : Engine)
    → ManagerLaws.IsValid e.manager
    → ((id : ℕ) → registered id e.manager ≡ none)
    → oldest_active_snapshot e.store e.manager ≡ current_version e.store
idle_oldest e v idle = elim (oldest-Attained e.store e.manager v) [
  | inl (id, r) ↦ cc (idle id, r)
  | inr (_, b) ↦ b
]

pub writer-Alike :
    (n i : ℕ) (numbers : ℕ → ℕ) (s : KvStore) (e : Engine)
    → Alike (suc n) s e
    → Alike n (kv_writer i (numbers 0) s) (mvcc_writer i numbers e)
unfolding kv_writer
writer-Alike n i numbers s e a =
    let b : Engine = begun_engine e in
    let t : Transaction = wrote i numbers e in
    let g = gone_lem n s e a in
    let room : e.store.next_version + 1 < u64_mod = omega (arith, a.versions) in
    let formed = wrote-IsWellFormed i numbers e in
    let (_, _, _, left) = commit_outcome b t none none a.valid formed refl in
    rw (mvcc_writer_lem i numbers e a.valid) record {
      valid = rw (commit-step b t refl) (step-IsValid e.store (commit_call t) room a.valid);
      manager = rw left g.manager;
      idle = rw left g.idle;
      same = λ key named. ground (
        arith,
        kv_put-find i (value_text (numbers 0)) s key,
        a.same key named,
        commit-current b t key a.valid formed refl room (commit_succeeds i numbers e a.valid),
        buffered_one i numbers e key (snapshot e.store (current_version e.store) key),
      );
      versions =
          rw (commit-step b t refl)
            (omega (arith, step-next_version-bounds e.store (commit_call t) room, a.versions));
      ids = rw left g.ids;
    }

pub collects-Alike :
    (n : ℕ) (s : KvStore) (e : Engine) (g : GarbageCollector)
    → Alike n s e
    → Alike n s (run_once e g).0
unfolding run_once
collects-Alike n s e g a =
    let b : ℕ = oldest_active_snapshot e.store e.manager in
    record {
      valid = collect_garbage-IsValid e.store b a.valid;
      manager = a.manager;
      idle = a.idle;
      same = λ key named.
          a.same key named
          ∙ sym (collected-current e.store b key a.valid (idle_oldest e a.manager a.idle));
      versions = unfold collect_garbage in omega (arith, a.versions);
      ids = omega (arith, a.ids);
    }
