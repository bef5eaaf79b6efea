-- ===== src/System/Spec.antt =====
-- What the classes promise together, with neither versions of keys, nor registrations, nor garbage:
-- a log of batches, and for each thread the version that it began with and its buffered writes.
use mvcc_lite.Prelude.{
  ℕ, ◌≡◌, List, [], ◌∷◌, ◌++◌, String, Option, none, some, Bool, true, false, not, ◌&&◌, ◌||◌,
  is_empty, length, if◌then◌else◌, string_key,
}
use mvcc_lite.UnorderedMap.{find, assign}
use mvcc_lite.VersionStore.{has_empty_key}
use mvcc_lite.VersionStore.Invariant.{Call, puts, deletes, batches, validates, collects}
use mvcc_lite.VersionStore.Timeline.{writes}
use mvcc_lite.Transaction.{ops_of}
use mvcc_lite.System.{update}
use mvcc_lite.System.Log.{Log, contents, touched_after}

abbrev pub Buffer : Type 0
Buffer = List (String × Option String)

-- A thread without a transaction, or in one.
pub data Actor : Type 0 where
  outside : Actor
  inside : (snapshot : ℕ) → Buffer → Actor

-- What a thread is told: that its transaction has begun or ended, whether a call succeeded, and the
-- value that it reads (`none` is an error).
pub data Event : Type 0 where
  begun : (i : ℕ) → Event
  put_told : (i : ℕ) (key value : String) (ok : Bool) → Event
  delete_told : (i : ℕ) (key : String) (ok : Bool) → Event
  get_told : (i : ℕ) (key : String) (answer : Option String) → Event
  commit_told : (i : ℕ) (ok : Bool) → Event
  ended : (i : ℕ) → Event
  call_told : (c : Call) (ok : Bool) → Event
  get_now_told : (key : String) (answer : Option String) → Event

abbrev pub is_none {ℓ} : {A : Type ℓ} → Option A → Bool
is_none none = true
is_none (some x) = false

abbrev pub is_nil {ℓ} : {A : Type ℓ} → List A → Bool
is_nil [] = true
is_nil (x ∷ xs) = false

-- A read: the own last write, or the version that the transaction began with.
abbrev pub reads : Log → ℕ → Buffer → String → Option String
reads log snapshot buffer key = elim (find key buffer) [
  | some buffered ↦ buffered
  | none ↦ contents log snapshot key
]

unfoldable pub put_reply : Buffer → String → String → Bool × Buffer
put_reply buffer key value =
    if is_empty key then (false, buffer) else (true, assign key (some value) buffer)

-- A read of the empty key is an error.
unfoldable pub get_reply : Log → ℕ → Buffer → String → Option String
get_reply log snapshot buffer key = elim (find key buffer) [
  | some buffered ↦ buffered
  | none ↦ if is_empty key then none else contents log snapshot key
]

unfoldable pub delete_reply : Log → ℕ → Buffer → String → Bool × Buffer
delete_reply log snapshot buffer key =
    if is_empty key || is_none (reads log snapshot buffer key)
    then (false, buffer)
    else (true, assign key none buffer)

-- Nobody has written a key of the buffer since.
unfoldable pub is_clean : Log → ℕ → Buffer → Bool
is_clean log snapshot [] = true
is_clean log snapshot ((key, w) ∷ buffer) =
    not (touched_after log snapshot key) && is_clean log snapshot buffer

abbrev pub batch_of : Buffer → Log
batch_of [] = []
batch_of (w ∷ buffer) = ops_of (w ∷ buffer) ∷ []

-- A commit, and what it adds to the log: the whole buffer as one batch, or nothing.
unfoldable pub commit_reply : Log → ℕ → Buffer → Bool × Log
unfolding is_clean
commit_reply log snapshot buffer =
    if is_clean log snapshot buffer then (true, batch_of buffer) else (false, [])

-- Whether a direct call succeeds.
unfoldable pub allows : Log → Call → Bool
allows log (puts key value) = not (is_empty key)
allows log (deletes key) = not (is_empty key || is_none (contents log (length log) key))
allows log (batches ops) = not (is_nil ops || has_empty_key ops)
allows log (validates ops snapshot) = false
allows log (collects safe_boundary) = false

unfoldable pub call_reply : Log → Call → Bool × Log
unfolding allows
call_reply log c = if allows log c then (true, writes c ∷ []) else (false, [])

-- One step: what is told, what is added to the log, and where the threads are then.
pub data Act (log : Log) (actors : ℕ → Actor) : List Event → Log → (ℕ → Actor) → Type 0 where
  stays : Act log actors [] [] actors
  begins :
      (i : ℕ)
      → actors i ≡ outside
      → Act log actors (begun i ∷ []) [] (update actors i (inside (length log) []))
  buffers_put :
      (i snapshot : ℕ) (buffer : Buffer) (key value : String)
      → actors i ≡ inside snapshot buffer
      → Act log actors
          (put_told i key value (put_reply buffer key value).0 ∷ [])
          []
          (update actors i (inside snapshot (put_reply buffer key value).1))
  buffers_delete :
      (i snapshot : ℕ) (buffer : Buffer) (key : String)
      → actors i ≡ inside snapshot buffer
      → Act log actors
          (delete_told i key (delete_reply log snapshot buffer key).0 ∷ [])
          []
          (update actors i (inside snapshot (delete_reply log snapshot buffer key).1))
  gets :
      (i snapshot : ℕ) (buffer : Buffer) (key : String)
      → actors i ≡ inside snapshot buffer
      → Act log actors (get_told i key (get_reply log snapshot buffer key) ∷ []) [] actors
  commits :
      (i snapshot : ℕ) (buffer : Buffer)
      → actors i ≡ inside snapshot buffer
      → Act log actors
          (commit_told i (commit_reply log snapshot buffer).0 ∷ [])
          (commit_reply log snapshot buffer).1
          (update actors i outside)
  ends :
      (i snapshot : ℕ) (buffer : Buffer)
      → actors i ≡ inside snapshot buffer
      → Act log actors (ended i ∷ []) [] (update actors i outside)
  calls :
      (c : Call)
      → Act log actors (call_told c (call_reply log c).0 ∷ []) (call_reply log c).1 actors
  gets_now :
      (key : String)
      → Act log actors (get_now_told key (get_reply log (length log) [] key) ∷ []) [] actors

-- The runs, with all that was told, all that was written, and where the threads are.
pub data Run : List Event → Log → (ℕ → Actor) → Type 0 where
  start : Run [] [] (λ i. outside)
  next :
      {events told : List Event} {log wrote : Log} {actors actors' : ℕ → Actor}
      → Run events log actors
      → Act log actors told wrote actors'
      → Run (events ++ told) (log ++ wrote) actors'
