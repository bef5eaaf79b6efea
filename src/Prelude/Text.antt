-- ===== src/Prelude/Text.antt =====
-- `std::string` concatenation and `std::to_string` of an unsigned number.
use Prim.Native.Nat.{ℕ, zero, suc, ◌/◌, ◌%◌}
use Prim.Native.String
use Prim.Native.String.{String}
use mathlib.Core.Path.{◌≡◌, refl}
use mathlib.Core.Bool.{true, false}
use mvcc_lite.Prelude.Tests.{ltb, nat_beq, if◌then◌else◌}

abbrev pub concat : String → String → String
concat a b = String.◌++◌ a b

digit : ℕ → String
digit n =
    if nat_beq n 0
    then "0"
    else if nat_beq n 1
    then "1"
    else if nat_beq n 2
    then "2"
    else if nat_beq n 3
    then "3"
    else if nat_beq n 4
    then "4"
    else if nat_beq n 5
    then "5"
    else if nat_beq n 6
    then "6"
    else if nat_beq n 7
    then "7"
    else if nat_beq n 8
    then "8"
    else "9"

-- Each round leaves out the last digit, so that `n` rounds are enough for `n`.
decimal : ℕ → ℕ → String
decimal zero n = ""
decimal (suc f) n = elim (ltb n 10) [
  | true ↦ digit n
  | false ↦ concat (decimal f (n / 10)) (digit (n % 10))
]

unfoldable pub to_string : ℕ → String
unfolding decimal digit
to_string n = decimal (suc n) n

to_string_max : to_string 18446744073709551615 ≡ "18446744073709551615"
unfolding to_string
to_string_max = refl

to_string_zero : to_string 0 ≡ "0"
unfolding to_string
to_string_zero = refl
