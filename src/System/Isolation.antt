-- ===== src/System/Isolation.antt =====
-- Snapshot isolation: what a transaction reads and when it commits, by the log of all that was
-- written.
use mvcc_lite.Prelude.{
  ℕ, zero, suc, ◌≤◌, ◌≡◌, refl, sym, ap, ◌∙◌, ◌↔◌, ◌⊎◌, String, List, [], ◌∷◌, ◌++◌, Option, none,
  some, true, false, is_empty, string_key, length, take, arith,
}
use mvcc_lite.Status.{is_ok, is_conflict}
use mvcc_lite.UnorderedMap.{find}
use mvcc_lite.UnorderedMap.Laws.{Entries}
use mvcc_lite.VersionStore.Defs.{VersionStore}
use mvcc_lite.VersionStore.{history_of}
use mvcc_lite.VersionStore.Invariant.{IsValid, history_of-Versions}
use mvcc_lite.VersionStore.Snapshot.{Answers, code_for, value_or}
use mvcc_lite.VersionStore.Validation.{AllUntouched, not-newer-Untouched, Untouched-not-newer}
use mvcc_lite.VersionStore.Races.{newer}
use mvcc_lite.Transaction.Defs.{Transaction}
use mvcc_lite.Transaction.{get, commit, ops_of}
use mvcc_lite.Transaction.View.{view, get-view}
use mvcc_lite.Transaction.Atomic.{commit_outcome}
use mvcc_lite.System.{System, running, engine}
use mvcc_lite.System.Log.{Log, replay, contents, touched_after}
use mvcc_lite.System.Invariant.{at-Stands}
use mvcc_lite.System.Calm.{CalmReach}
use mvcc_lite.System.Safety.{CalmReach-Kept, Kept, at-IsHigh}

-- What a transaction sees of the key: its own last write, or the version that it began with.
abbrev pub sees : Log → Transaction → String → Option String
sees log t key = elim (find key t.write_set) [
  | some buffered ↦ buffered
  | none ↦ contents log t.snapshot_version key
]

view-sees :
    (log : Log) (s : System) (i : ℕ) (t : Transaction) (key : String)
    → Kept log s
    → s.clients i ≡ running t
    → view s.store t key ≡ sees log t key
view-sees log s i t key (floor, w) e =
    let (h, _) = at-IsHigh log s floor i (running t) w e in
    ground (arith, w.agrees.shows t.snapshot_version key h)

-- In every calm execution, at any point of it, a transaction in use reads a non-empty key from its
-- own writes and from the version that it began with, as the log of all that was written has it:
-- whatever other transactions, direct writers and collectors do in between.
pub CalmReach-get :
    (log : Log) (s : System) (i : ℕ) (t : Transaction) (key out : String)
    → CalmReach log s
    → s.clients i ≡ running t
    → is_empty key ≡ false
    → Answers (sees log t key) out (get s.store t key out)
CalmReach-get log s i t key out r e k =
    let (o, kept) = CalmReach-Kept r in
    let st = at-Stands s i (running t) o e in
    rw (← view-sees log s i t key kept e) (get-view s.store t key out o.store st.2 k)

replay-take-append :
    (log more : Log) (n : ℕ) (k : String) (v : Option String)
    → n ≤ length log
    → replay (take n (log ++ more)) k v ≡ replay (take n log) k v
unfolding replay
replay-take-append log more zero k v p = refl
replay-take-append [] more (suc n) k v p = absurd (omega arith)
replay-take-append (ops ∷ log) more (suc n) k v p = replay-take-append log more n k _ (omega arith)

-- Two reads of a non-empty key by the same transaction in two states of calm executions, the second
-- of which has the log of the first and more, give the same code and value.
pub CalmReach-repeatable :
    (log more : Log) (s s' : System) (i i' : ℕ) (t : Transaction) (key out : String)
    → CalmReach log s
    → CalmReach (log ++ more) s'
    → s.clients i ≡ running t
    → s'.clients i' ≡ running t
    → is_empty key ≡ false
    → ((get s'.store t key out).0.code ≡ (get s.store t key out).0.code)
      × ((get s'.store t key out).1 ≡ (get s.store t key out).1)
CalmReach-repeatable log more s s' i i' t key out r r' e e' k =
    let (o, kept) = CalmReach-Kept r in
    let (floor, w) = kept in
    let st = at-Stands s i (running t) o e in
    let now = CalmReach-get log s i t key out r e k in
    let then_ = CalmReach-get (log ++ more) s' i' t key out r' e' k in
    let same : sees (log ++ more) t key ≡ sees log t key = ground (
      arith,
      replay-take-append log more t.snapshot_version key none
          (omega (arith, w.agrees.counter, st.1)),
    ) in
    (then_.0 ∙ ap code_for same ∙ sym now.0, then_.1 ∙ ap (λ o. value_or o out) same ∙ sym now.1)

-- None of the keys was written after version `n`.
abbrev pub NoneTouched : Log → ℕ → List (String × Option String) → Type 0
NoneTouched log n ws = Entries (λ key _. touched_after log n key ≡ false) ws

Untouched_iff :
    (log : Log) (s : VersionStore) (n : ℕ) (ws : List (String × Option String))
    → IsValid s
    → ((key : String) → newer s n key ≡ touched_after log n key)
    → AllUntouched n s.table (ops_of ws) ↔ NoneTouched log n ws
unfolding ops_of
Untouched_iff log s n [] v knows = (λ p. tt, λ p. tt)
Untouched_iff log s n ((key, value) ∷ ws) v knows =
    let rest = Untouched_iff log s n ws v knows in
    let r = history_of-Versions s.next_version key s.table v.entries in
    (
      λ p. (sym (knows key) ∙ Untouched-not-newer n (history_of key s.table) p.0, rest.0 p.1),
      λ p. (
        not-newer-Untouched n 1 s.next_version (history_of key s.table) r (knows key ∙ p.0),
        rest.1 p.1,
      ),
    )

-- In every calm execution, at any point of it, `Commit` of a transaction in use succeeds exactly if
-- the log has no write to a key of its write set after the version that it began with; otherwise it
-- returns `Conflict`, and the store stays as it was.
pub CalmReach-commit :
    (log : Log) (s : System) (i : ℕ) (t : Transaction)
    → CalmReach log s
    → s.clients i ≡ running t
    → ((is_ok (commit (engine s) t none none).status ≡ true)
        ↔ NoneTouched log t.snapshot_version t.write_set)
      × ((is_ok (commit (engine s) t none none).status ≡ true)
          ⊎ ((is_conflict (commit (engine s) t none none).status ≡ true)
              × ((commit (engine s) t none none).engine.store ≡ s.store)))
CalmReach-commit log s i t r e =
    let (o, kept) = CalmReach-Kept r in
    let (floor, w) = kept in
    let (h, _) = at-IsHigh log s floor i (running t) w e in
    let st = at-Stands s i (running t) o e in
    let outcome = commit_outcome (engine s) t none none o.store st.3 st.2 in
    let iff =
      Untouched_iff log s.store t.snapshot_version t.write_set o.store
        (λ key. w.agrees.knows t.snapshot_version key h) in
    ((λ p. iff.0 (outcome.0.0 p), λ p. outcome.0.1 (iff.1 p)), outcome.1)
