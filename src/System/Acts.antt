-- ===== src/System/Acts.antt =====
-- Where the abstract specification has the threads, what they are told, and what it makes of their
-- calls.
use mathlib.Core.Path.{fun_ext, subst}
use mvcc_lite.Prelude.{
  ℕ, ◌≡◌, sym, ap, List, [], ◌∷◌, String, none, Bool, true, string_key, arith, nat_beq, nat_beq_iff,
  Bool-cases, inl, inr,
}
use mvcc_lite.Status.{is_ok}
use mvcc_lite.VersionStore.Invariant.{Call, IsValid}
use mvcc_lite.VersionStore.Timeline.{status}
use mvcc_lite.VersionStore.Snapshot.{snapshot}
use mvcc_lite.Transaction.Defs.{Transaction, is_active}
use mvcc_lite.Transaction.{get, put, delete, commit}
use mvcc_lite.System.{
  System, Client, idle, fetched, placed, pinned, running, leaving, update, Step, IsDirect, wrote,
  commit_call, engine,
}
use mvcc_lite.System.Log.{Log}
use mvcc_lite.System.Spec.{
  get_now_told, get_told, Buffer, Actor, outside, inside, Event, Act, put_told, delete_told,
  commit_told, begun, ended, call_told,
}
use mvcc_lite.System.Replies.{
  put_lem, delete_lem, commit_lem, call_lem, running-shows, current-shows,
}
use mvcc_lite.System.Reads.{answer, answer_now}
use mvcc_lite.System.Safety.{CalmReach-Kept}
use mvcc_lite.System.Invariant.{at-Stands}
use mvcc_lite.System.Moves.{put-SameTxn, delete-SameTxn}
use mvcc_lite.System.Calm.{CalmReach}
use mvcc_lite.System.Safety.{CalmReach-Kept}

-- Where the specification has a thread: a transaction begins with the read of the version, and is
-- over with the answer of the store.
abbrev pub actor_of : Client → Actor
actor_of idle = outside
actor_of (fetched id) = outside
actor_of (placed id) = outside
actor_of (pinned id snapshot) = inside snapshot []
actor_of (running t) = inside t.snapshot_version t.write_set
actor_of (leaving release t) = outside

abbrev pub actors_of : (ℕ → Client) → ℕ → Actor
actors_of clients i = actor_of (clients i)

actors_of-update :
    (clients : ℕ → Client) (i : ℕ) (c : Client)
    → actors_of (update clients i c) ≡ update (actors_of clients) i (actor_of c)
actors_of-update clients i c = fun_ext (λ j. ground arith)

-- A move within `Begin`, or away from a transaction that is over.
actors_of-update_same :
    (clients : ℕ → Client) (i : ℕ) (c : Client)
    → actor_of (clients i) ≡ actor_of c
    → actors_of (update clients i c) ≡ actors_of clients
actors_of-update_same clients i c e = fun_ext (λ j. elim (Bool-cases (nat_beq i j)) [
  | inl here ↦ rw here (rw ((nat_beq_iff i j).0 here) at (sym e))
  | inr other ↦ rw other
])

-- What the threads are told by a step.
abbrev pub told : {s t : System} {wrote : Log} → Step s wrote t → List Event
told (Step.pins i id e) = begun i ∷ []
told (Step.buffers_put i t key value e) = put_told i key value (is_ok (put t key value).0) ∷ []
told {s} (Step.buffers_delete i t key e) = delete_told i key (is_ok (delete s.store t key).0) ∷ []
told {s} (Step.commits i t e room) =
    commit_told i (is_ok (commit (engine s) t none none).status) ∷ []
told (Step.aborts i t e) = ended i ∷ []
told (Step.drops i t e) = ended i ∷ []
told {s} (Step.gets i t key out e) = get_told i key (answer (get s.store t key out)) ∷ []
told {s} (Step.gets_now key out version) =
    get_now_told key (answer_now s.store key out version) ∷ []
told {s} (Step.calls c d room) = call_told c (is_ok (status s.store c)) ∷ []
told _ = []

-- A step that the specification does not see.
pub stay :
    {log : Log} (clients : ℕ → Client) (i : ℕ) (c : Client)
    → actor_of (clients i) ≡ actor_of c
    → Act log (actors_of clients) [] [] (actors_of (update clients i c))
stay {log} clients i c e = rw (actors_of-update_same clients i c e) Act.stays

-- A step that it sees as one of its own.
pub act :
    {log wrote : Log} {told : List Event} (clients : ℕ → Client) (i : ℕ) (c : Client)
    → Act log (actors_of clients) told wrote (update (actors_of clients) i (actor_of c))
    → Act log (actors_of clients) told wrote (actors_of (update clients i c))
act clients i c m = rw (actors_of-update clients i c) m

-- What the thread `i` may rely on while it is in a transaction.
pub stands :
    {log : Log} {s : System} (i : ℕ) (t : Transaction)
    → CalmReach log s
    → s.clients i ≡ running t
    → IsValid s.store × (is_active t ≡ true)
stands {s = s} i t r e =
    let (o, kept) = CalmReach-Kept r in (o.store, (at-Stands s i (running t) o e).2)

pub put-Act :
    {log : Log} {s : System} (i : ℕ) (t : Transaction) (key value : String)
    → CalmReach log s
    → s.clients i ≡ running t
    → Act log
        (actors_of s.clients)
        (put_told i key value (is_ok (put t key value).0) ∷ [])
        []
        (update (actors_of s.clients) i (actor_of (running (put t key value).1)))
put-Act {log} {s} i t key value r e =
    let actors : ℕ → Actor = actors_of s.clients in
    rw ((put-SameTxn t key value).0.1) (
      subst
        (λ (o : Bool × Buffer).
          Act log actors (put_told i key value o.0 ∷ []) []
            (update actors i (inside t.snapshot_version o.1)))
        (put_lem t key value (stands i t r e).1)
        (Act.buffers_put i t.snapshot_version t.write_set key value (ap actor_of e)))

pub delete-Act :
    {log : Log} {s : System} (i : ℕ) (t : Transaction) (key : String)
    → CalmReach log s
    → s.clients i ≡ running t
    → Act log
        (actors_of s.clients)
        (delete_told i key (is_ok (delete s.store t key).0) ∷ [])
        []
        (update (actors_of s.clients) i (actor_of (running (delete s.store t key).1)))
delete-Act {log} {s} i t key r e =
    let actors : ℕ → Actor = actors_of s.clients in
    let (valid, active) = stands i t r e in
    rw ((delete-SameTxn s.store t key).0.1) (
      subst
        (λ (o : Bool × Buffer).
          Act log actors (delete_told i key o.0 ∷ []) []
            (update actors i (inside t.snapshot_version o.1)))
        (delete_lem s.store t log key active valid (running-shows i t r e))
        (Act.buffers_delete i t.snapshot_version t.write_set key (ap actor_of e)))

pub commit-Act :
    {log : Log} {s : System} (i : ℕ) (t : Transaction)
    → CalmReach log s
    → s.clients i ≡ running t
    → Act log
        (actors_of s.clients)
        (commit_told i (is_ok (commit (engine s) t none none).status) ∷ [])
        (wrote s.store (commit_call t))
        (update (actors_of s.clients) i outside)
commit-Act {log} {s} i t r e =
    let actors : ℕ → Actor = actors_of s.clients in
    subst
      (λ (o : Bool × Log). Act log actors (commit_told i o.0 ∷ []) o.1 (update actors i outside))
      (commit_lem log s i t r e (stands i t r e).1)
      (Act.commits i t.snapshot_version t.write_set (ap actor_of e))

pub call-Act :
    {log : Log} {s : System} (c : Call)
    → CalmReach log s
    → IsDirect c
    → Act log
        (actors_of s.clients)
        (call_told c (is_ok (status s.store c)) ∷ [])
        (wrote s.store c)
        (actors_of s.clients)
call-Act {log} {s} c r d =
    let actors : ℕ → Actor = actors_of s.clients in
    subst (λ (o : Bool × Log). Act log actors (call_told c o.0 ∷ []) o.1 actors)
      (call_lem log s.store c d (CalmReach-Kept r).0.store (current-shows r)) (Act.calls c)
