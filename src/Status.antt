-- ===== src/Status.antt =====
-- include/mvcc/status.h: the result of an operation, a code and a message.
use mvcc_lite.Prelude.{◌≡◌, refl, ◌⊎◌, Bool, true, false, String, arith}
use mvcc_lite.Prelude.Text.{concat}

pub data Code : Type 0 where
  k_ok k_not_found k_invalid_argument k_conflict : Code

pub record Status : Type 0 where
  pub code : Code
  pub message : String

-- `Status::OK()`
abbrev pub ok : Status
ok = record { code = k_ok; message = "" }

abbrev pub not_found : String → Status
not_found msg = record { code = k_not_found; message = msg }

abbrev pub invalid_argument : String → Status
invalid_argument msg = record { code = k_invalid_argument; message = msg }

abbrev pub conflict : String → Status
conflict msg = record { code = k_conflict; message = msg }

abbrev code_is_ok : Code → Bool
code_is_ok k_ok = true
code_is_ok _ = false

-- `ok()`
abbrev pub is_ok : Status → Bool
is_ok s = code_is_ok s.code

abbrev code_is_not_found : Code → Bool
code_is_not_found k_not_found = true
code_is_not_found _ = false

abbrev pub is_not_found : Status → Bool
is_not_found s = code_is_not_found s.code

abbrev code_is_invalid_argument : Code → Bool
code_is_invalid_argument k_invalid_argument = true
code_is_invalid_argument _ = false

abbrev pub is_invalid_argument : Status → Bool
is_invalid_argument s = code_is_invalid_argument s.code

abbrev code_is_conflict : Code → Bool
code_is_conflict k_conflict = true
code_is_conflict _ = false

abbrev pub is_conflict : Status → Bool
is_conflict s = code_is_conflict s.code

describe : Code → String → String
describe k_ok message = "OK"
describe k_not_found message = concat "NotFound: " message
describe k_invalid_argument message = concat "InvalidArgument: " message
describe k_conflict message = concat "Conflict: " message

pub to_string : Status → String
unfolding describe
to_string s = describe s.code s.message

Code-cases :
    (s : Status)
    → (is_ok s ≡ true)
      ⊎ (is_not_found s ≡ true)
      ⊎ (is_invalid_argument s ≡ true)
      ⊎ (is_conflict s ≡ true)
Code-cases s = ground arith

to_string-conflict : to_string (conflict "x") ≡ "Conflict: x"
unfolding to_string
to_string-conflict = refl
