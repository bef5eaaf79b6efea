-- ===== src/System/Replies.antt =====
-- What the calls answer and write, against the abstract specification.
use mvcc_lite.Prelude.{
  ℕ, ◌≡◌, ◌≢◌, ◌↔◌, refl, sym, [], ◌∷◌, String, Option, none, some, Bool, true, false, length,
  if◌then◌else◌, string_key, arith,
}
use mvcc_lite.Status.{is_ok}
use mvcc_lite.VersionStore.Defs.{VersionStore}
use mvcc_lite.VersionStore.{current_version, apply_batch_if_no_conflict}
use mvcc_lite.VersionStore.Invariant.{Call, puts, deletes, batches, validates, collects, IsValid}
use mvcc_lite.VersionStore.Timeline.{status}
use mvcc_lite.VersionStore.Snapshot.{snapshot, get_as_of-Answers}
use mvcc_lite.VersionStore.Outcome.{status_iff, has_empty_key_iff}
use mvcc_lite.Transaction.Defs.{Transaction, is_active}
use mvcc_lite.Transaction.{ops_of, put, delete, commit, commit_active}
use mvcc_lite.Transaction.Commit.{commit_active-Applies}
use mvcc_lite.System.{System, running, IsDirect, wrote, commit_call, engine}
use mvcc_lite.System.Log.{Log, contents}
use mvcc_lite.System.Spec.{
  Buffer, put_reply, delete_reply, commit_reply, call_reply, is_clean, batch_of, allows, is_none,
}
use mvcc_lite.System.Isolation.{NoneTouched, CalmReach-commit}
use mvcc_lite.System.Calm.{CalmReach, direct_lem}
use mvcc_lite.System.Safety.{CalmReach-Kept, at-IsHigh}

Bool-ext : (a b : Bool) → (a ≡ true → b ≡ true) → (b ≡ true → a ≡ true) → a ≡ b
Bool-ext true b p q = sym (p refl)
Bool-ext false true p q = q refl
Bool-ext false false p q = refl

pub put_lem :
    (t : Transaction) (key value : String)
    → is_active t ≡ true
    → put_reply t.write_set key value ≡ (is_ok (put t key value).0, (put t key value).1.write_set)
unfolding put_reply put
put_lem t key value a = ground arith

-- From the version of the transaction on, the store shows what the log has.
pub delete_lem :
    (store : VersionStore) (t : Transaction) (log : Log) (key : String)
    → is_active t ≡ true
    → IsValid store
    → ((k : String) → snapshot store t.snapshot_version k ≡ contents log t.snapshot_version k)
    → delete_reply log t.snapshot_version t.write_set key
      ≡ (is_ok (delete store t key).0, (delete store t key).1.write_set)
unfolding delete_reply delete
delete_lem store t log key a v shows =
    ground (arith, shows key, get_as_of-Answers store key t.snapshot_version "" v)

is_clean_iff :
    (log : Log) (snap : ℕ) (ws : Buffer) → (is_clean log snap ws ≡ true) ↔ NoneTouched log snap ws
unfolding is_clean
is_clean_iff log snap [] = (λ p. tt, λ p. refl)
is_clean_iff log snap ((key, w) ∷ ws) =
    let rest = is_clean_iff log snap ws in
    (λ p. (ground arith, rest.0 (ground arith)), λ p. ground (arith, p.0, rest.1 p.1))

-- What a commit writes.
wrote_active :
    (s : System) (t : Transaction) (ws : Buffer)
    → wrote s.store (validates (ops_of ws) t.snapshot_version)
      ≡ (if is_ok (commit_active (engine s) t ws none none).status then batch_of ws else [])
wrote_active s t [] = unfold status apply_batch_if_no_conflict ops_of commit_active in refl
wrote_active s t (w ∷ ws) = ground (arith, commit_active-Applies (engine s) t w ws none none)

wrote-commit :
    (s : System) (t : Transaction)
    → is_active t ≡ true
    → wrote s.store (commit_call t)
      ≡ (if is_ok (commit (engine s) t none none).status then batch_of t.write_set else [])
unfolding commit
wrote-commit s t a = rw a (wrote_active s t t.write_set)

pub commit_lem :
    (log : Log) (s : System) (i : ℕ) (t : Transaction)
    → CalmReach log s
    → s.clients i ≡ running t
    → is_active t ≡ true
    → commit_reply log t.snapshot_version t.write_set
      ≡ (is_ok (commit (engine s) t none none).status, wrote s.store (commit_call t))
unfolding commit_reply
commit_lem log s i t r e a =
    let (iff, _) = CalmReach-commit log s i t r e in
    let clean = is_clean_iff log t.snapshot_version t.write_set in
    let same : is_clean log t.snapshot_version t.write_set
        ≡ is_ok (commit (engine s) t none none).status =
      Bool-ext _ _ (λ p. iff.1 (clean.0 p)) (λ p. clean.1 (iff.0 p)) in
    ground (arith, same, wrote-commit s t a)

is_none_iff : (o : Option String) → (is_none o ≡ false) ↔ (o ≢ none)
is_none_iff none = (λ p. cc, λ p. absurd (p refl))
is_none_iff (some x) = (λ p e. cc, λ p. refl)

allows_lem :
    (log : Log) (s : VersionStore) (c : Call)
    → IsDirect c
    → IsValid s
    → ((k : String) → snapshot s (current_version s) k ≡ contents log (length log) k)
    → allows log c ≡ is_ok (status s c)
unfolding allows
allows_lem log s (puts key value) d v shows =
    let iff = status_iff s (puts key value) v in
    Bool-ext _ _ (λ p. iff.1 (ground arith)) (λ p. ground (arith, iff.0 p))
allows_lem log s (deletes key) d v shows =
    let iff = status_iff s (deletes key) v in
    let there = is_none_iff (contents log (length log) key) in
    Bool-ext _ _ (λ p. iff.1 (ground arith, rw (shows key) (there.0 (ground arith))))
      (λ p. let h = iff.0 p in ground (arith, h.0, there.1 (rw (shows key) at h.1)))
allows_lem log s (batches []) d v shows =
    let iff = status_iff s (batches []) v in Bool-ext _ _ (λ p. cc) (λ p. absurd ((iff.0 p).0 refl))
allows_lem log s (batches (op ∷ ops)) d v shows =
    let iff = status_iff s (batches (op ∷ ops)) v in
    let named = has_empty_key_iff (op ∷ ops) in
    Bool-ext _ _ (λ p. iff.1 (λ e. cc, named.0 (ground arith)))
      (λ p. let h = iff.0 p in ground (arith, named.1 h.1))
allows_lem log s (validates ops n) d v shows = elim d [ ]
allows_lem log s (collects b) d v shows = elim d [ ]

pub call_lem :
    (log : Log) (s : VersionStore) (c : Call)
    → IsDirect c
    → IsValid s
    → ((k : String) → snapshot s (current_version s) k ≡ contents log (length log) k)
    → call_reply log c ≡ (is_ok (status s c), wrote s c)
unfolding call_reply
call_lem log s c d v shows = ground (arith, allows_lem log s c d v shows, (direct_lem s c d).0)

-- What a state of a calm execution and the log have in common.
pub current_version-length :
    {log : Log} {s : System} → CalmReach log s → current_version s.store ≡ length log
unfolding current_version
current_version-length r =
    let (o, (floor, w)) = CalmReach-Kept r in
    omega (arith, w.agrees.counter, o.store.positive, o.store.room)

pub current-shows :
    {log : Log} {s : System}
    → CalmReach log s
    → (k : String) → snapshot s.store (current_version s.store) k ≡ contents log (length log) k
current-shows {log} {s} r k =
    let (o, (floor, w)) = CalmReach-Kept r in
    let e = current_version-length r in
    rw e (w.agrees.shows (length log) k (omega (arith, w.below, w.agrees.counter)))

pub running-shows :
    {log : Log} {s : System} (i : ℕ) (t : Transaction)
    → CalmReach log s
    → s.clients i ≡ running t
    → (k : String) → snapshot s.store t.snapshot_version k ≡ contents log t.snapshot_version k
running-shows {log} {s} i t r e k =
    let (o, (floor, w)) = CalmReach-Kept r in
    w.agrees.shows t.snapshot_version k (at-IsHigh log s floor i (running t) w e).0
