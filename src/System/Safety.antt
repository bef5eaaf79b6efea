-- ===== src/System/Safety.antt =====
-- Calm executions keep the snapshots that are in use.
use mvcc_lite.Prelude.{
  inl, ℕ, zero, suc, ◌≤◌, ◌<◌, ◌≡◌, refl, String, [], ◌++◌, none, if◌then◌else◌, ltb, arith,
}
use mathlib.Core.List.{append-nil}
use mvcc_lite.VersionStore.{current_version}
use mvcc_lite.VersionStore.Collection.{collect_garbage}
use mvcc_lite.VersionStore.Snapshot.{snapshot}
use mvcc_lite.TransactionManager.{k_num_shards, scan_start}
use mvcc_lite.Transaction.Defs.{construct}
use mvcc_lite.Transaction.{put, delete, commit}
use mvcc_lite.System.{
  commit_release, System, Client, idle, fetched, placed, pinned, running, leaving, update, engine,
  Pass, resting, scanning, bounded, Step, commit_call, init,
}
use mvcc_lite.System.Log.{Log, contents, touched_after, replay, touches}
use mvcc_lite.UnorderedMap.{find}
use mvcc_lite.VersionStore.Visible.{newest}
use mvcc_lite.VersionStore.{is_newer}
use mvcc_lite.VersionStore.Races.{newer}
use mvcc_lite.VersionStore.Defs.{empty}
use mvcc_lite.System.Agreement.{collect_garbage-Agrees}
use mvcc_lite.System.Moves.{put-SameTxn, delete-SameTxn, commit-step}
use mvcc_lite.System.Invariant.{Owned, init-Owned, Step-Owned, at-Stands, current_version-lt}
use mvcc_lite.System.Guards.{
  Guards, scan_shard-InRange, boundary_of-InRange, Spared-pins, scan-Guards, bound-Guards,
  start-Guards, rest-Guards,
}
use mvcc_lite.System.Calm.{
  Outside, IsCalm, CalmReach, IsHigh, IsSafe, client-IsSafe, pass-IsSafe, call-IsSafe, direct_lem,
}

abbrev pub max : ℕ → ℕ → ℕ
max a b = if ltb a b then b else a

place-Guards : (p : Pass) (id : ℕ) → Outside p id → Guards p (placed id)
place-Guards resting id h = tt
place-Guards (scanning i acc) id h = inl h
place-Guards (bounded b) id h = tt

fetch-Guards : (p : Pass) (id : ℕ) → Guards p (fetched id)
fetch-Guards p id = tt

raise-IsHigh :
    (floor b : ℕ) (c : Client) → IsHigh floor c → Guards (bounded b) c → IsHigh (max floor b) c
raise-IsHigh floor b idle h g = tt
raise-IsHigh floor b (fetched id) h g = tt
raise-IsHigh floor b (placed id) h g = tt
raise-IsHigh floor b (pinned id s) h g = ground arith
raise-IsHigh floor b (running t) h g = ground arith
raise-IsHigh floor b (leaving release t) h g = tt

-- The collection of a pass raises the floor to its boundary.
reclaim-IsSafe :
    (log : Log) (s : System) (floor p b : ℕ)
    → s.passes p ≡ bounded b
    → Owned s
    → IsSafe log s floor
    → IsSafe log
        (record s { store = (collect_garbage s.store b).0; passes = update s.passes p resting })
        (max floor b)
reclaim-IsSafe log s floor p b e o w =
    let range : b < s.store.next_version = rw e at (w.ranges p) in
    pass-IsSafe log (record s { store = (collect_garbage s.store b).0 }) (max floor b) p resting tt
      (λ i. rest-Guards (s.clients i))
      (record {
        below = unfold collect_garbage in ground (arith, w.below);
        agrees =
            collect_garbage-Agrees floor (max floor b) b log s.store (ground arith) (ground arith)
              o.store w.agrees;
        high = λ i. raise-IsHigh floor b (s.clients i) (w.high i) (rw e at (w.guards p i));
        guards = w.guards;
        ranges = unfold collect_garbage in w.ranges;
      })

-- What a thread at `c` may rely on.
pub at-IsHigh :
    (log : Log) (s : System) (floor i : ℕ) (c : Client)
    → IsSafe log s floor
    → s.clients i ≡ c
    → IsHigh floor c × ((p : ℕ) → Guards (s.passes p) c)
at-IsHigh log s floor i c w e = (rw e at (w.high i), λ p. rw e at (w.guards p i))

abbrev pub Kept : Log → System → Type 0
Kept log s = (floor : ℕ) × IsSafe log s floor

-- Every step of a calm execution keeps the store and the log in agreement, from some version on that
-- is not above any snapshot in use.
Step-IsSafe :
    {s t : System} {wrote log : Log} (floor : ℕ) (st : Step s wrote t)
    → IsCalm st
    → Owned s
    → IsSafe log s floor
    → Kept (log ++ wrote) t
Step-IsSafe {s} {log = log} floor (Step.fetches i e p) calm o w =
    rw append-nil (floor, client-IsSafe log s _ floor i _ tt (λ q. tt) w)
Step-IsSafe {s} {log = log} floor (Step.places i id e) calm o w = rw append-nil (
  floor,
  client-IsSafe log s _ floor i (placed id) tt (λ q. place-Guards (s.passes q) id (calm q)) w,
)
Step-IsSafe {s} {log = log} floor (Step.pins i id e) calm o w =
    let (_, g) = at-IsHigh log s floor i (placed id) w e in
    let below : current_version s.store < s.store.next_version = current_version-lt s o in
    let exact : s.store.next_version ≤ suc (current_version s.store) =
      unfold current_version in omega (arith, o.store.positive, o.store.room) in
    rw append-nil (
      floor,
      client-IsSafe log s s.manager floor i (pinned id (current_version s.store))
          (omega (arith, w.below))
          (λ q.
            Spared-pins (s.passes q) id (current_version s.store) s.store.next_version (w.ranges q)
              exact (g q))
          w,
    )
Step-IsSafe {s} {log = log} floor (Step.refines i id snapshot e) calm o w =
    let (h, g) = at-IsHigh log s floor i (pinned id snapshot) w e in
    rw append-nil (floor, client-IsSafe log s _ floor i (running (construct id snapshot)) h g w)
Step-IsSafe {s} {log = log} floor (Step.buffers_put i t key value e) calm o w =
    let (h, g) = at-IsHigh log s floor i (running t) w e in
    let same = put-SameTxn t key value in
    rw append-nil (
      floor,
      client-IsSafe log s s.manager floor i (running (put t key value).1) (rw same.0.1 h)
          (λ q. rw same.0.0 (rw same.0.1 (g q))) w,
    )
Step-IsSafe {s} {log = log} floor (Step.buffers_delete i t key e) calm o w =
    let (h, g) = at-IsHigh log s floor i (running t) w e in
    let same = delete-SameTxn s.store t key in
    rw append-nil (
      floor,
      client-IsSafe log s s.manager floor i (running (delete s.store t key).1) (rw same.0.1 h)
          (λ q. rw same.0.0 (rw same.0.1 (g q))) w,
    )
Step-IsSafe {s} {log = log} floor (Step.commits i t e p) calm o w =
    let st = at-Stands s i (running t) o e in
    let c : Client = leaving (commit_release s.store t) (commit (engine s) t none none).txn in
    (
      floor,
      client-IsSafe _ (record s { store = (commit (engine s) t none none).engine.store }) s.manager
          floor i c tt (λ q. tt)
          (call-IsSafe log s floor (commit_call t) _ (commit-step (engine s) t st.2) refl
            (omega arith) p o w),
    )
Step-IsSafe {s} {log = log} floor (Step.aborts i t e) calm o w =
    rw append-nil (floor, client-IsSafe log s s.manager floor i _ tt (λ q. tt) w)
Step-IsSafe {s} {log = log} floor (Step.drops i t e) calm o w =
    rw append-nil (floor, client-IsSafe log s s.manager floor i _ tt (λ q. tt) w)
Step-IsSafe {s} {log = log} floor (Step.unregisters i release t e) calm o w =
    rw append-nil (floor, client-IsSafe log s _ floor i _ tt (λ q. tt) w)
Step-IsSafe {s} {log = log} floor (Step.calls c d p) calm o w =
    let (adv, h) = direct_lem s.store c d in
    (floor, call-IsSafe log s floor c _ refl adv (omega (arith, h)) p o w)
Step-IsSafe floor (Step.gets i t key out e) calm o w = rw append-nil (floor, w)
Step-IsSafe floor (Step.gets_now key out version) calm o w = rw append-nil (floor, w)
Step-IsSafe {s} {log = log} floor (Step.starts p e) calm o w = rw append-nil (
  floor,
  pass-IsSafe log s floor p (scanning 0 scan_start) (inl refl) (λ i. start-Guards (s.clients i)) w,
)
Step-IsSafe {s} {log = log} floor (Step.scans p i acc e b) calm o w = rw append-nil (
  floor,
  pass-IsSafe log s floor p _
      (scan_shard-InRange s.store.next_version i (suc i) acc (s.manager.shards i) (o.below i)
        (rw e at (w.ranges p)))
      (λ j.
        scan-Guards s.manager s.store.next_version i acc (s.clients j) (o.stands j)
          (rw e at (w.guards p j)))
      w,
)
Step-IsSafe {s} {log = log} floor (Step.bounds p acc e) calm o w = rw append-nil (
  floor,
  pass-IsSafe log s floor p _
      (boundary_of-InRange s.store k_num_shards acc o.store (rw e at (w.ranges p)))
      (λ j. bound-Guards s.store acc (s.clients j) (rw e at (w.guards p j))) w,
)
Step-IsSafe {s} {log = log} floor (Step.reclaims p b e) calm o w =
    rw append-nil (max floor b, reclaim-IsSafe log s floor p b e o w)

empty-shows : (n : ℕ) (k : String) → snapshot empty n k ≡ contents [] n k
unfolding find newest replay
empty-shows zero k = refl
empty-shows (suc n) k = refl

empty-knows : (n : ℕ) (k : String) → newer empty n k ≡ touched_after [] n k
unfolding find is_newer touches
empty-knows zero k = refl
empty-knows (suc n) k = refl

pub init-IsSafe : IsSafe [] init 0
init-IsSafe = record {
  below = omega arith;
  agrees = record {
    counter = refl;
    shows = λ n k p. empty-shows n k;
    knows = λ n k p. empty-knows n k;
  };
  high = λ i. tt;
  guards = λ p i. tt;
  ranges = λ p. tt;
}

pub CalmReach-Kept : {log : Log} {s : System} → CalmReach log s → Owned s × Kept log s
CalmReach-Kept CalmReach.start = (init-Owned, (0, init-IsSafe))
CalmReach-Kept (CalmReach.next r st calm) =
    let (o, kept) = CalmReach-Kept r in
    let (floor, w) = kept in (Step-Owned st o, Step-IsSafe floor st calm o w)
