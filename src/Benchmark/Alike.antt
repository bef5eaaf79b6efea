-- ===== src/Benchmark/Alike.antt =====
-- The two stores of the benchmark side by side, between two turns.
use text.Mathlib.TextLemmas.{length-append}
use Prim.Native.String.{count}
use mvcc_lite.Prelude.{
  ℕ, suc, ◌+◌, ◌≤◌, ◌<◌, ◌≡◌, ap, String, none, false, is_empty, string_key, arith, u64_mod,
  Bool-cases, inl, inr,
}
use mvcc_lite.Prelude.Text.{to_string}
use mvcc_lite.UnorderedMap.{find}
use mvcc_lite.KvStore.{KvStore}
use mvcc_lite.VersionStore.Defs.{VersionStore}
use mvcc_lite.VersionStore.{current_version}
use mvcc_lite.VersionStore.Invariant.{IsValid}
use mvcc_lite.VersionStore.Snapshot.{snapshot}
use mvcc_lite.TransactionManager.{TransactionManager, begin, unregister}
use mvcc_lite.TransactionManager.Laws as ManagerLaws
use mvcc_lite.TransactionManager.Laws.{
  registered, registered-begin, registered-unregister, begin-IsValid, unregister-IsValid,
  begin-next_txn_id,
}
use mvcc_lite.Transaction.{Engine}
use mvcc_lite.Benchmark.Workload.{key_name}

pub key_name_named : (i : ℕ) → is_empty (key_name i) ≡ false
key_name_named i = elim (Bool-cases (is_empty (key_name i))) [
  | inl p ↦
      let e : count (key_name i) ≡ count "" =
        ap count ((string_key.same_iff (key_name i) "").0 p) in
      absurd (omega (arith, length-append "key" (to_string i)))
  | inr p ↦ p
]

-- The two stores show the same, and no transaction is under way. `room` numbers are left.
pub record Alike (room : ℕ) (s : KvStore) (e : Engine) : Type 0 where
  pub valid : IsValid e.store
  pub manager : ManagerLaws.IsValid e.manager
  pub idle : (id : ℕ) → registered id e.manager ≡ none
  pub same :
      (key : String)
      → is_empty key ≡ false
      → find key s.table ≡ snapshot e.store (current_version e.store) key
  pub versions : e.store.next_version + room < u64_mod
  pub ids : e.manager.next_txn_id + room < u64_mod

-- A transaction has come and gone.
abbrev pub gone : VersionStore → TransactionManager → TransactionManager
gone store m = unregister m.next_txn_id (begin store m).0

pub record IsGone (n : ℕ) (m : TransactionManager) : Type 0 where
  pub manager : ManagerLaws.IsValid m
  pub idle : (id : ℕ) → registered id m ≡ none
  pub ids : m.next_txn_id + n < u64_mod

pub gone_lem :
    (n : ℕ) (s : KvStore) (e : Engine) → Alike (suc n) s e → IsGone n (gone e.store e.manager)
gone_lem n s e a =
    let begun : ManagerLaws.IsValid (begin e.store e.manager).0 =
      begin-IsValid e.store e.manager (omega (arith, a.ids)) a.manager a.valid.positive
        a.valid.room in
    record {
      manager = unregister-IsValid e.manager.next_txn_id (begin e.store e.manager).0 begun;
      idle = λ id. ground (
        arith,
        registered-unregister e.manager.next_txn_id id (begin e.store e.manager).0 begun.distinct,
        registered-begin e.store e.manager id,
        a.idle id,
      );
      ids = unfold unregister in omega (arith, begin-next_txn_id e.store e.manager, a.ids);
    }

pub narrow : (m n : ℕ) (s : KvStore) (e : Engine) → n ≤ m → Alike m s e → Alike n s e
narrow m n s e p a = record {
  valid = a.valid;
  manager = a.manager;
  idle = a.idle;
  same = a.same;
  versions = omega (arith, a.versions);
  ids = omega (arith, a.ids);
}
