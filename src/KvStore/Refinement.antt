-- ===== src/KvStore/Refinement.antt =====
-- The baseline store, src/kv_store.cpp, against a partial function from keys to values.
use mathlib.Core.Path.{fun_ext}
use mvcc_lite.Prelude.{
  ◌+◌, ◌&&◌, not, ◌≡◌, refl, String, List, [], ◌∷◌, Option, none, some, Bool, true, false, is_empty,
  if◌then◌else◌, ◌==◌, string_key, arith,
}
use mvcc_lite.Status.{is_ok, Code, k_ok, k_not_found, k_invalid_argument}
use mvcc_lite.UnorderedMap.{find}
use mvcc_lite.UnorderedMap.Laws.{
  Distinct, find-assign, find-erase, Distinct-assign, Distinct-erase, size-assign, size-erase,
}
use mvcc_lite.KvStore.{KvStore, put, get, delete, contains, size}

pub data Call : Type 0 where
  puts : String → String → Call
  gets : String → Call
  deletes : String → Call
  asks : String → Call

-- What a caller learns: the code, the value that was read, and the truth value.
pub data Reply : Type 0 where
  replied : Code → Option String → Bool → Reply

-- One call of the code. The caller reads `*out_value` only after a success.
pub step : KvStore → Call → KvStore × Reply
unfolding put get delete contains
step s (puts key value) = let (st, s') = put s key value in (s', replied st.code none false)
step s (deletes key) = let (st, s') = delete s key in (s', replied st.code none false)
step s (gets key) =
    let (st, out) = get s key "" in (s, replied st.code (if is_ok st then some out else none) false)
step s (asks key) = (s, replied k_ok none (contains s key))

pub run : KvStore → List Call → List Reply
run s [] = []
run s (c ∷ cs) = let (s', r) = step s c in r ∷ run s' cs

-- The specification: a partial function, with no table behind it.
abbrev pub Spec : Type 0
Spec = String → Option String

abbrev pub update : Spec → String → Option String → Spec
update f key v j = if key == j then v else f j

abbrev is_some : Option String → Bool
is_some none = false
is_some (some _) = true

abbrev pub spec_step : Spec → Call → Spec × Reply
spec_step f (puts key value) =
    if is_empty key
    then (f, replied k_invalid_argument none false)
    else (update f key (some value), replied k_ok none false)
spec_step f (deletes key) =
    if is_empty key
    then (f, replied k_invalid_argument none false)
    else if is_some (f key)
    then (update f key none, replied k_ok none false)
    else (f, replied k_not_found none false)
spec_step f (gets key) =
    if is_empty key
    then (f, replied k_invalid_argument none false)
    else (f, replied (if is_some (f key) then k_ok else k_not_found) (f key) false)
spec_step f (asks key) = (f, replied k_ok none (is_some (f key)))

unfoldable pub spec_run : Spec → List Call → List Reply
spec_run f [] = []
spec_run f (c ∷ cs) = (spec_step f c).1 ∷ spec_run (spec_step f c).0 cs

abbrev pub view : KvStore → Spec
view s key = find key s.table

abbrev pub IsValid : KvStore → Type 0
IsValid s = Distinct s.table

step-IsValid : (s : KvStore) (c : Call) → IsValid s → IsValid (step s c).0
unfolding step
step-IsValid s (puts key value) v = ground (arith, Distinct-assign key value s.table v)
step-IsValid s (deletes key) v = ground (arith, Distinct-erase key s.table v)
step-IsValid s (gets key) v = v
step-IsValid s (asks key) v = v

step-reply : (s : KvStore) (c : Call) → (step s c).1 ≡ (spec_step (view s) c).1
unfolding step
step-reply s (puts key value) = ground arith
step-reply s (deletes key) = ground arith
step-reply s (gets key) = ground arith
step-reply s (asks key) = ground arith

step-view :
    (s : KvStore) (c : Call)
    → IsValid s
    → (j : String) → view (step s c).0 j ≡ (spec_step (view s) c).0 j
unfolding step
step-view s (puts key value) v j = ground (arith, find-assign key j value s.table)
step-view s (deletes key) v j = ground (arith, find-erase key j s.table v)
step-view s (gets key) v j = ground arith
step-view s (asks key) v j = refl

-- From a store whose table holds each key once, every sequence of calls is answered as the partial
-- function that the table stands for answers it.
pub run-refines : (s : KvStore) (cs : List Call) → IsValid s → run s cs ≡ spec_run (view s) cs
unfolding run spec_run
run-refines s [] v = refl
run-refines s (c ∷ cs) v =
    rw (run-refines (step s c).0 cs (step-IsValid s c v), step-reply s c, fun_ext (step-view s c v))

-- `Size` grows by one with a `Put` of a new key that succeeds, falls by one with a `Delete` that
-- succeeds, and stays otherwise.
size-step :
    (s : KvStore) (key value : String)
    → (size (put s key value).1
        ≡ size s + (if is_ok (put s key value).0 && not (contains s key) then 1 else 0))
      × (size (delete s key).1 + (if is_ok (delete s key).0 then 1 else 0) ≡ size s)
unfolding put delete size contains
size-step s key value =
    (ground (arith, size-assign key value s.table), ground (arith, size-erase key s.table))
