-- ===== src/System/Moves.antt =====
-- What the moves of a thread do to the identifiers and the registrations.
use mvcc_lite.Prelude.{
  ℕ, ◌+◌, ◌<◌, ◌≡◌, refl, ap, ◌∙◌, String, List, [], ◌∷◌, Option, none, some, true, nat_key,
  string_key, arith, u64_mod,
}
use mvcc_lite.VersionStore.Defs.{VersionStore}
use mvcc_lite.VersionStore.{apply_batch_if_no_conflict}
use mvcc_lite.VersionStore.Invariant.{validates, step}
use mvcc_lite.TransactionManager.{TransactionManager, register, unregister, fetch_txn_id}
use mvcc_lite.TransactionManager.Laws.{
  registered-register, registered-unregister, registered-fetch_txn_id, registered_fresh,
  register-IsValid, unregister-IsValid, fetch_txn_id-IsValid,
}
use mvcc_lite.Transaction.Defs.{Transaction, is_active}
use mvcc_lite.Transaction.{Engine, put, delete, commit, commit_active, abort, ops_of}
use mvcc_lite.Transaction.Commit.{commit_active-Applies}
use mvcc_lite.System.{Client, idle, fetched, commit_call}
use mvcc_lite.System.Ownership.{
  id_of, Stands, Stands-lt, register-AllBelow, unregister-AllBelow, IsOwned, Turns,
}

-- A transaction is the same one, with the same snapshot.
abbrev pub SameTxn : Transaction → Transaction → Type 0
SameTxn t t' = (t'.txn_id ≡ t.txn_id) × (t'.snapshot_version ≡ t.snapshot_version)

pub put-SameTxn :
    (t : Transaction) (key value : String)
    → SameTxn t (put t key value).1 × (is_active (put t key value).1 ≡ is_active t)
unfolding put
put-SameTxn t key value = ground arith

pub delete-SameTxn :
    (store : VersionStore) (t : Transaction) (key : String)
    → SameTxn t (delete store t key).1 × (is_active (delete store t key).1 ≡ is_active t)
unfolding delete
delete-SameTxn store t key = ground arith

commit_active-SameTxn :
    (e : Engine) (t : Transaction) (ws : List (String × Option String))
    → SameTxn t (commit_active e t ws none none).txn
unfolding commit_active
commit_active-SameTxn e t [] = (refl, refl)
commit_active-SameTxn e t (w ∷ ws) = ground arith

pub commit-SameTxn : (e : Engine) (t : Transaction) → SameTxn t (commit e t none none).txn
unfolding commit
commit-SameTxn e t = ground (arith, commit_active-SameTxn e t t.write_set)

pub abort-SameTxn : (e : Engine) (t : Transaction) → SameTxn t (abort e t).2
unfolding abort
abort-SameTxn e t = ground arith

commit_active-step :
    (e : Engine) (t : Transaction) (ws : List (String × Option String))
    → (commit_active e t ws none none).engine.store
      ≡ step e.store (validates (ops_of ws) t.snapshot_version)
commit_active-step e t [] = unfold commit_active step apply_batch_if_no_conflict in refl
commit_active-step e t (w ∷ ws) = (commit_active-Applies e t w ws none none).2

-- To the store, the commit of an active transaction is one validated batch.
pub commit-step :
    (e : Engine) (t : Transaction)
    → is_active t ≡ true
    → (commit e t none none).engine.store ≡ step e.store (commit_call t)
unfolding commit
commit-step e t a = rw a (commit_active-step e t t.write_set)

module _ (s : VersionStore) (m : TransactionManager) (clients : ℕ → Client)
    (w : IsOwned s m clients) (i id : ℕ) (here : id_of (clients i) ≡ some id) where
  pub stay-Turns :
      (c : Client)
      → id_of c ≡ some id
      → Stands m s.next_version c
      → Turns m m s.next_version clients i id c
  stay-Turns c e h = record {
    valid = w.manager;
    below = w.below;
    grows = omega arith;
    same = λ j q. refl;
    mine = λ j q. w.apart j i id q here;
    held = λ j q. ground arith;
    stands = h;
    holds = λ j q. ground arith;
    keeps = λ snapshot r. e;
  }

  pub register-Turns :
      (snapshot : ℕ) (c : Client)
      → snapshot < s.next_version
      → id_of c ≡ some id
      → Stands (register id snapshot m) s.next_version c
      → Turns m (register id snapshot m) s.next_version clients i id c
  register-Turns snapshot c p e h = record {
    valid =
        register-IsValid id snapshot m w.manager
          (Stands-lt m s.next_version (clients i) id w.manager (w.stands i) here)
          (omega (arith, w.store.room));
    below = register-AllBelow s.next_version id snapshot m p w.below;
    grows = unfold register in omega arith;
    same = λ j q. ground (arith, registered-register id snapshot j m, nat_key.same_iff id j);
    mine = λ j q. w.apart j i id q here;
    held = λ j q. ground arith;
    stands = h;
    holds = λ j q. ground arith;
    keeps = λ snapshot r. e;
  }

  pub unregister-Turns : Turns m (unregister id m) s.next_version clients i id idle
  unregister-Turns = record {
    valid = unregister-IsValid id m w.manager;
    below = unregister-AllBelow s.next_version id m w.below;
    grows = unfold unregister in omega arith;
    same = λ j q.
        ground (arith, registered-unregister id j m w.manager.distinct, nat_key.same_iff id j);
    mine = λ j q. w.apart j i id q here;
    held = λ j q. ground arith;
    stands = tt;
    holds = λ j q. cc;
    keeps = λ snapshot r.
        ground (arith, registered-unregister id id m w.manager.distinct, nat_key.same_iff id id);
  }

pub fetch-Turns :
    (s : VersionStore) (m : TransactionManager) (clients : ℕ → Client) (i : ℕ)
    → IsOwned s m clients
    → clients i ≡ idle
    → m.next_txn_id + 1 < u64_mod
    → Turns m (fetch_txn_id m).1 s.next_version clients i m.next_txn_id (fetched m.next_txn_id)
fetch-Turns s m clients i w e p = record {
  valid = fetch_txn_id-IsValid m p w.manager;
  below = unfold fetch_txn_id in w.below;
  grows = unfold fetch_txn_id in omega arith;
  same = λ j q. registered-fetch_txn_id j m;
  mine = λ j q. absurd (
      omega (arith, Stands-lt m s.next_version (clients j) m.next_txn_id w.manager (w.stands j) q));
  held = λ j q. cc (ap id_of e, q);
  stands = (
    unfold fetch_txn_id in omega arith,
    registered-fetch_txn_id m.next_txn_id m
        ∙ registered_fresh m m.next_txn_id w.manager (omega arith),
  );
  holds = λ j q. ground arith;
  keeps = λ snapshot r. refl;
}
