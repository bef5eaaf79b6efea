-- ===== src/System/Invariant.antt =====
-- What holds in every state that the threads can reach.
use mvcc_lite.Prelude.{
  true, ℕ, ◌+◌, ◌<◌, ◌≡◌, refl, ap, ◌∙◌, List, none, some, nat_key, string_key, arith, u64_mod,
}
use mvcc_lite.UnorderedMap.{find}
use mvcc_lite.VersionStore.Defs.{VersionStore, WriteOp}
use mvcc_lite.VersionStore.{current_version}
use mvcc_lite.VersionStore.Invariant.{
  Call, empty-IsValid, step, step-IsValid, collect_garbage-IsValid,
}
use mvcc_lite.VersionStore.Collection.{collect_garbage}
use mvcc_lite.VersionStore.Runs.{step-next_version-bounds}
use mvcc_lite.TransactionManager.{TransactionManager, register, unregister, fetch_txn_id}
use mvcc_lite.TransactionManager.Laws.{registered, registered-register, init-IsValid}
use mvcc_lite.Transaction.Defs.{Transaction, is_active, construct}
use mvcc_lite.Transaction.{destroy, put, delete, commit, abort}
use mvcc_lite.Transaction.Commit.{commit-Ends, put-IsWellFormed, delete-IsWellFormed}
use mvcc_lite.System.{
  destroy_release, abort_release, commit_release, System, Client, idle, fetched, placed, pinned,
  running, leaving, update, engine, Step, Reach, commit_call, init,
}
use mvcc_lite.System.Ownership.{id_of, Stands, IsOwned, store-IsOwned, turn-IsOwned}
use mvcc_lite.System.Moves.{
  put-SameTxn, delete-SameTxn, commit-SameTxn, abort-SameTxn, commit-step, stay-Turns,
  register-Turns, unregister-Turns, fetch-Turns,
}

abbrev pub Owned : System → Type 0
Owned s = IsOwned s.store s.manager s.clients

pub init-Owned : Owned init
unfolding registered find
init-Owned = record {
  store = empty-IsValid;
  manager = init-IsValid;
  below = λ i. tt;
  stands = λ i. tt;
  apart = λ i j id p q. cc;
  owner = λ id snapshot r. cc;
}

-- Where the thread `i` stands, if it is at `c`.
pub at-Stands :
    (s : System) (i : ℕ) (c : Client)
    → Owned s
    → s.clients i ≡ c
    → Stands s.manager s.store.next_version c
at-Stands s i c w e = rw e at (w.stands i)

pub current_version-lt : (s : System) → Owned s → current_version s.store < s.store.next_version
unfolding current_version
current_version-lt s w = omega (arith, w.store.positive, w.store.room)

-- A move that leaves the manager alone.
stays :
    (s : System) (i id : ℕ) (c c' : Client)
    → Owned s
    → s.clients i ≡ c
    → id_of c ≡ some id
    → id_of c' ≡ some id
    → Stands s.manager s.store.next_version c'
    → IsOwned s.store s.manager (update s.clients i c')
stays s i id c c' w e p q h =
    turn-IsOwned s.store s.manager s.manager s.clients i id c'
      (stay-Turns s.store s.manager s.clients w i id (ap id_of e ∙ p) c' q h) w

registers :
    (s : System) (i id snapshot : ℕ) (c c' : Client)
    → Owned s
    → s.clients i ≡ c
    → id_of c ≡ some id
    → id_of c' ≡ some id
    → snapshot < s.store.next_version
    → Stands (register id snapshot s.manager) s.store.next_version c'
    → IsOwned s.store (register id snapshot s.manager) (update s.clients i c')
registers s i id snapshot c c' w e p q b h =
    turn-IsOwned s.store s.manager (register id snapshot s.manager) s.clients i id c'
      (register-Turns s.store s.manager s.clients w i id (ap id_of e ∙ p) snapshot c' b q h) w

registered_now :
    (id snapshot : ℕ) (m : TransactionManager)
    → registered id (register id snapshot m) ≡ some snapshot
registered_now id snapshot m =
    ground (arith, registered-register id snapshot id m, nat_key.same_iff id id)

-- A call of the store that is not a collection of garbage.
stored :
    (s : System) (c : Call) (store' : VersionStore)
    → store' ≡ step s.store c
    → s.store.next_version + 1 < u64_mod
    → Owned s
    → IsOwned store' s.manager s.clients
stored s c store' e p w = rw e (
    store-IsOwned s.store (step s.store c) s.manager s.clients (step-IsValid s.store c p w.store)
      (step-next_version-bounds s.store c p).0 w)

-- Each way to end an active transaction takes its registration away.
commit-releases :
    (store : VersionStore) (t : Transaction)
    → is_active t ≡ true
    → (m : TransactionManager) → commit_release store t m ≡ unregister t.txn_id m
commit-releases store t a m = (commit-Ends (record { store = store; manager = m }) t a).1

abort-releases :
    (store : VersionStore) (t : Transaction)
    → is_active t ≡ true
    → (m : TransactionManager) → abort_release store t m ≡ unregister t.txn_id m
unfolding abort
abort-releases store t a m = ground (arith, a)

destroy-releases :
    (store : VersionStore) (t : Transaction)
    → is_active t ≡ true
    → (m : TransactionManager) → destroy_release store t m ≡ unregister t.txn_id m
unfolding destroy
destroy-releases store t a m = ground (arith, a)

-- Every step of a thread keeps the invariant.
pub Step-Owned : {s t : System} {wrote : List (List WriteOp)} → Step s wrote t → Owned s → Owned t
Step-Owned {s} (Step.fetches i e p) w =
    unfold fetch_txn_id in
    turn-IsOwned s.store s.manager (fetch_txn_id s.manager).1 s.clients i s.manager.next_txn_id
      (fetched s.manager.next_txn_id) (fetch-Turns s.store s.manager s.clients i w e p) w
Step-Owned {s} (Step.places i id e) w =
    registers s i id 0 (fetched id) (placed id) w e refl refl (omega (arith, w.store.positive))
      (registered_now id 0 s.manager)
Step-Owned {s} (Step.pins i id e) w =
    stays s i id (placed id) (pinned id (current_version s.store)) w e refl refl
      (at-Stands s i (placed id) w e, current_version-lt s w)
Step-Owned {s} (Step.refines i id snapshot e) w =
    let h = at-Stands s i (pinned id snapshot) w e in
    registers s i id snapshot (pinned id snapshot) (running (construct id snapshot)) w e refl refl
      h.1 (registered_now id snapshot s.manager, h.1, refl, record { distinct = tt; named = tt })
Step-Owned {s} (Step.buffers_put i t key value e) w =
    let h = at-Stands s i (running t) w e in
    let same = put-SameTxn t key value in
    stays s i t.txn_id (running t) (running (put t key value).1) w e refl (ap some same.0.0)
      (rw same.0.0 (rw same.0.1 (h.0, h.1, same.1 ∙ h.2, put-IsWellFormed t key value h.3)))
Step-Owned {s} (Step.buffers_delete i t key e) w =
    let h = at-Stands s i (running t) w e in
    let same = delete-SameTxn s.store t key in
    stays s i t.txn_id (running t) (running (delete s.store t key).1) w e refl (ap some same.0.0)
      (rw same.0.0 (rw same.0.1 (h.0, h.1, same.1 ∙ h.2, delete-IsWellFormed s.store t key h.3)))
Step-Owned {s} (Step.commits i t e p) w =
    let h = at-Stands s i (running t) w e in
    let same = commit-SameTxn (engine s) t in
    let moved =
      stays s i t.txn_id (running t)
        (leaving (commit_release s.store t) (commit (engine s) t none none).txn) w e refl
        (ap some same.0) (rw (same.0, same.1) (h.0, commit-releases s.store t h.2)) in
    stored
      (record s {
        clients =
            update s.clients i
              (leaving (commit_release s.store t) (commit (engine s) t none none).txn);
      })
      (commit_call t) _ (commit-step (engine s) t h.2) p moved
Step-Owned {s} (Step.aborts i t e) w =
    let h = at-Stands s i (running t) w e in
    let same = abort-SameTxn (engine s) t in
    stays s i t.txn_id (running t) (leaving (abort_release s.store t) (abort (engine s) t).2) w e
      refl (ap some same.0) (rw (same.0, same.1) (h.0, abort-releases s.store t h.2))
Step-Owned {s} (Step.drops i t e) w =
    let h = at-Stands s i (running t) w e in
    stays s i t.txn_id (running t) (leaving (destroy_release s.store t) t) w e refl refl
      (h.0, destroy-releases s.store t h.2)
Step-Owned {s} (Step.unregisters i release t e) w =
    rw ((at-Stands s i (leaving release t) w e).1 s.manager) (
      turn-IsOwned s.store s.manager (unregister t.txn_id s.manager) s.clients i t.txn_id idle
        (unregister-Turns s.store s.manager s.clients w i t.txn_id (ap id_of e)) w)
Step-Owned {s} (Step.calls c d p) w = stored s c _ refl p w
Step-Owned (Step.gets i t key out e) w = w
Step-Owned (Step.gets_now key out version) w = w
Step-Owned (Step.starts p e) w = w
Step-Owned (Step.scans p i acc e b) w = w
Step-Owned (Step.bounds p acc e) w = w
Step-Owned {s} (Step.reclaims p b e) w =
    store-IsOwned s.store (collect_garbage s.store b).0 s.manager s.clients
      (collect_garbage-IsValid s.store b w.store) (unfold collect_garbage in omega arith) w

pub Reach-Owned : {log : List (List WriteOp)} {s : System} → Reach log s → Owned s
Reach-Owned Reach.start = init-Owned
Reach-Owned (Reach.next r st) = Step-Owned st (Reach-Owned r)
