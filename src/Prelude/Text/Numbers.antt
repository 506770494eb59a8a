-- ===== src/Prelude/Text/Numbers.antt =====
-- Decimal numbers: `%d`, strconv.Atoi and strconv.ParseInt.
use Prim.Native.String.{String, [], ◌∷◌}
use Prim.Native.Nat.{ℕ, zero, suc, ◌+◌, ◌-◌, ◌*◌, ◌/◌, ◌%◌, ◌^◌}
use Prim.Native.Char.{code}
use mathlib.Core.Bool.{◌&&◌}
use mathlib.Core.Option.{Option, none, some}
use text.Mathlib.Text.{◌==◌}
use zeep_orbit.Prelude.Tests.{leb, ltb, eqb, if◌then◌else◌}
use zeep_orbit.Prelude.Int.{ℤ, pos, negsuc}
use zeep_orbit.Prelude.Text.{cat}

digit : ℕ → String
digit n =
    if eqb n 0
    then "0"
    else if eqb n 1
    then "1"
    else if eqb n 2
    then "2"
    else if eqb n 3
    then "3"
    else if eqb n 4
    then "4"
    else if eqb n 5
    then "5"
    else if eqb n 6
    then "6"
    else if eqb n 7
    then "7"
    else if eqb n 8
    then "8"
    else "9"

digits_of : ℕ → ℕ → String
digits_of zero n = ""
digits_of (suc fuel) n =
    let high = digits_of fuel (n / 10) in if ltb n 10 then digit n else cat high (digit (n % 10))

-- `%d`. A number has fewer digits than its value plus one.
unfoldable pub itoa : ℕ → String
unfolding digit digits_of
itoa n = digits_of (suc n) n

-- The value of a text of decimal digits; `none` at another character.
parse_digits : ℕ → String → Option ℕ
parse_digits n [] = some n
parse_digits n (x ∷ s) =
    let c = code x in
    if leb b'0' c && leb c b'9' then parse_digits (n * 10 + (c - b'0')) s else none

-- At least one digit.
parse_magnitude : String → Option ℕ
parse_magnitude s = if s == "" then none else parse_digits 0 s

-- -n, if it is not below -limit.
negative : ℕ → ℕ → Option ℤ
negative limit zero = some (pos 0)
negative limit (suc n) = if leb (suc n) limit then some (negsuc n) else none

-- `strconv.ParseInt(s, 10, bits)`, whose error is `none`: an optional sign, digits, and a value from
-- -2^(bits-1) to 2^(bits-1) - 1.
unfoldable pub parse_int : ℕ → String → Option ℤ
unfolding parse_digits parse_magnitude negative
parse_int bits [] = none
parse_int bits (x ∷ s) =
    if eqb (code x) b'-'
    then elim (parse_magnitude s) [ none ↦ none | some n ↦ negative (2 ^ (bits - 1)) n ]
    else elim (parse_magnitude (if eqb (code x) b'+' then s else x ∷ s)) [
      | none ↦ none
      | some n ↦ if ltb n (2 ^ (bits - 1)) then some (pos n) else none
    ]

-- `strconv.Atoi` on a 64-bit platform.
abbrev pub atoi : String → Option ℤ
atoi = parse_int 64
