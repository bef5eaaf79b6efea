-- ===== src/System/Reads.antt =====
-- What the reads answer, against the abstract specification.
use mvcc_lite.Prelude.{
  ◌≡◌, String, Option, none, some, Bool-cases, inl, inr, is_empty, if◌then◌else◌, sym, refl, true,
  length, ℕ, [], string_key, arith,
}
use mvcc_lite.Status.{Status, is_ok}
use mvcc_lite.UnorderedMap.{find}
use mvcc_lite.VersionStore as Store
use mvcc_lite.VersionStore.Defs.{VersionStore}
use mvcc_lite.VersionStore.{current_version, get_as_of}
use mvcc_lite.VersionStore.Invariant.{IsValid}
use mvcc_lite.VersionStore.Snapshot.{snapshot, Answers, get_as_of-Answers, get-Answers}
use mvcc_lite.Transaction.Defs.{Transaction, is_active}
use mvcc_lite.Transaction.{get}
use mvcc_lite.System.Log.{Log, contents}
use mvcc_lite.System.Spec.{get_reply}

-- The value that a read returns, unless its code is an error.
abbrev pub answer : Status × String → Option String
answer (s, value) = if is_ok s then some value else none

abbrev pub answer_now : VersionStore → String → String → Option ℕ → Option String
answer_now store key out version =
    answer ((Store.get store key out version).0, (Store.get store key out version).1)

answer_lem :
    (o : Option String) (out : String) (r : Status × String) → Answers o out r → answer r ≡ o
answer_lem none out r a = rw a.0 refl
answer_lem (some x) out r a = rw (a.0, a.1) refl

get_as_of-answer :
    (store : VersionStore) (key out : String) (n : ℕ)
    → IsValid store
    → answer (get_as_of store key n out) ≡ (if is_empty key then none else snapshot store n key)
get_as_of-answer store key out n v = elim (Bool-cases (is_empty key)) [
  | inl k ↦ rw k (unfold get_as_of in rw k refl)
  | inr k ↦
      rw k (answer_lem _ out (get_as_of store key n out) (get_as_of-Answers store key n out v k))
]

pub get_lem :
    (store : VersionStore) (t : Transaction) (log : Log) (key out : String)
    → is_active t ≡ true
    → IsValid store
    → ((k : String) → snapshot store t.snapshot_version k ≡ contents log t.snapshot_version k)
    → get_reply log t.snapshot_version t.write_set key ≡ answer (get store t key out)
unfolding get_reply get
get_lem store t log key out a v shows =
    ground (arith, shows key, get_as_of-answer store key out t.snapshot_version v)

-- A read of the store itself.
pub get_now_lem :
    (log : Log) (store : VersionStore) (key out : String) (version : Option ℕ)
    → IsValid store
    → ((k : String) → snapshot store (current_version store) k ≡ contents log (length log) k)
    → get_reply log (length log) [] key ≡ answer_now store key out version
unfolding get_reply find
get_now_lem log store key out version v shows = elim (Bool-cases (is_empty key)) [
  | inl k ↦ rw k (unfold Store.get in rw k refl)
  | inr k ↦
      rw (k, ← shows key)
        (sym (
          answer_lem _ out
            ((Store.get store key out version).0, (Store.get store key out version).1)
            (get-Answers store key out version v k)))
]
