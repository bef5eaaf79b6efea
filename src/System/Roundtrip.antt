-- ===== src/System/Roundtrip.antt =====
-- What a transaction reads that begins after the commit of another one.
use mvcc_lite.Prelude.{
  ℕ, suc, ◌+◌, ◌≤◌, ◌<◌, ◌≡◌, ◌⊎◌, inl, inr, refl, String, List, [], ◌∷◌, Option, none, true, false,
  is_empty, u64_mod, u64_sub, u64_add, arith, string_key,
}
use mvcc_lite.Status.{is_ok, Status}
use mvcc_lite.UnorderedMap.{find}
use mvcc_lite.VersionStore.Defs.{VersionStore}
use mvcc_lite.VersionStore.{history_of, current_version}
use mvcc_lite.VersionStore.Invariant.{IsValid, history_of-Versions, step-IsValid, validates}
use mvcc_lite.VersionStore.Runs.{step-next_version}
use mvcc_lite.VersionStore.Visible.{newest}
use mvcc_lite.VersionStore.Snapshot.{snapshot, Answers, newest_all}
use mvcc_lite.TransactionManager.{begin}
use mvcc_lite.Transaction.Defs.{Transaction, is_active}
use mvcc_lite.Transaction.{Engine, get, commit, commit_active, ops_of}
use mvcc_lite.Transaction.Commit.{IsWellFormed, commit_active-Applies}
use mvcc_lite.Transaction.Atomic.{buffered, commit-snapshot}
use mvcc_lite.Transaction.View.{get-view}
use mvcc_lite.System.{commit_call}
use mvcc_lite.System.Moves.{commit-step}

-- No version after the current one shows anything else.
pub snapshot-current_version :
    (s : VersionStore) (n : ℕ) (k : String)
    → IsValid s
    → s.next_version ≤ suc n
    → snapshot s n k ≡ snapshot s (current_version s) k
unfolding current_version
snapshot-current_version s n k v p =
    let h = history_of-Versions s.next_version k s.table v.entries in
    ground (
      arith,
      newest_all n 1 s.next_version (history_of k s.table) p h,
      newest_all (u64_sub s.next_version 1) 1 s.next_version (history_of k s.table)
          (omega (arith, v.positive, v.room)) h,
    )

-- What a transaction begun now reads.
abbrev pub read_now : Engine → String → String → Status × String
read_now e key out = get e.store (begin e.store e.manager).1 key out

pub read_now-Answers :
    (e : Engine) (key out : String)
    → IsValid e.store
    → is_empty key ≡ false
    → Answers (snapshot e.store (current_version e.store) key) out (read_now e key out)
unfolding begin newest find
read_now-Answers e key out v k = get-view e.store (begin e.store e.manager).1 key out v refl k

committed-next_version :
    (e : Engine) (t : Transaction) (w : String × Option String) (ws : List (String × Option String))
    → is_ok (commit_active e t (w ∷ ws) none none).status ≡ true
    → (commit_active e t (w ∷ ws) none none).engine.store.next_version
      ≡ u64_add e.store.next_version 1
committed-next_version e t w ws p =
    let c = validates (ops_of (w ∷ ws)) t.snapshot_version in
    ground (arith, commit_active-Applies e t w ws none none, step-next_version e.store c)

-- A successful commit of no writes leaves the store, and one of some writes takes a version.
abbrev pub Moves : Engine → List (String × Option String) → VersionStore → Type 0
Moves e ws s = ((ws ≡ []) × (s ≡ e.store)) ⊎ (s.next_version ≡ u64_add e.store.next_version 1)

pub committed-Moves :
    (e : Engine) (t : Transaction) (ws : List (String × Option String))
    → is_ok (commit_active e t ws none none).status ≡ true
    → Moves e ws (commit_active e t ws none none).engine.store
committed-Moves e t [] p = unfold commit_active in inl (refl, refl)
committed-Moves e t (w ∷ ws) p = inr (committed-next_version e t w ws p)

committed-current :
    (e : Engine) (t : Transaction) (k : String)
    → IsValid e.store
    → IsWellFormed t
    → is_active t ≡ true
    → e.store.next_version + 1 < u64_mod
    → is_ok (commit e t none none).status ≡ true
    → Moves e t.write_set (commit e t none none).engine.store
    → (let s = (commit e t none none).engine.store in snapshot s (current_version s) k)
      ≡ buffered t.write_set k (snapshot e.store (current_version e.store) k)
unfolding current_version find newest
committed-current e t k v w a room p (inl (nil, same)) = rw (same, nil) refl
committed-current e t k v w a room p (inr moved) =
    let n : ℕ = u64_sub (commit e t none none).engine.store.next_version 1 in
    let here : n ≡ e.store.next_version = omega arith in
    ground (
      arith,
      commit-snapshot e t none none n k v w a,
      snapshot-current_version e.store n k v (omega arith),
    )

-- The same, without the case distinction.
pub commit-current :
    (e : Engine) (t : Transaction) (k : String)
    → IsValid e.store
    → IsWellFormed t
    → is_active t ≡ true
    → e.store.next_version + 1 < u64_mod
    → is_ok (commit e t none none).status ≡ true
    → (let s = (commit e t none none).engine.store in snapshot s (current_version s) k)
      ≡ buffered t.write_set k (snapshot e.store (current_version e.store) k)
unfolding commit
commit-current e t k v w a room p =
    let q : is_ok (commit_active e t t.write_set none none).status ≡ true = ground arith in
    let m : Moves e t.write_set (commit e t none none).engine.store =
      rw a (committed-Moves e t t.write_set q) in
    committed-current e t k v w a room p m

-- After a successful commit of an active transaction with a well-formed write set, on a well-formed
-- store whose counter has a number left, a transaction that begins next reads a non-empty key as
-- that transaction left it: the buffered value, `NotFound` for a buffered delete, and where nothing
-- was buffered what a transaction begun just before the commit would have read.
pub commit-read_now :
    (e : Engine) (t : Transaction) (key out : String)
    → IsValid e.store
    → IsWellFormed t
    → is_active t ≡ true
    → e.store.next_version + 1 < u64_mod
    → is_ok (commit e t none none).status ≡ true
    → is_empty key ≡ false
    → Answers
        (buffered t.write_set key (snapshot e.store (current_version e.store) key))
        out
        (read_now (commit e t none none).engine key out)
commit-read_now e t key out v w a room p k =
    let r : Engine = (commit e t none none).engine in
    let v' : IsValid r.store =
      rw (commit-step e t a) (step-IsValid e.store (commit_call t) room v) in
    rw (← commit-current e t key v w a room p) (read_now-Answers r key out v' k)
