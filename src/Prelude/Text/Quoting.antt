-- ===== src/Prelude/Text/Quoting.antt =====
-- `%q`, as Go's strconv.Quote does it: a text in double quotes, with escapes. Code points from 128 on
-- are taken to be printable and kept.
use Prim.Native.String.{String, [], ◌∷◌}
use Prim.Native.Nat.{ℕ, ◌/◌, ◌%◌}
use Prim.Native.Char.{Char, code}
use mathlib.Core.Bool.{◌||◌}
use zeep_orbit.Prelude.Tests.{ltb, eqb, if◌then◌else◌}
use zeep_orbit.Prelude.Text.{cat}

hex_digit : ℕ → String
hex_digit n =
    if eqb n 0
    then "0"
    else if eqb n 1
    then "1"
    else if eqb n 2
    then "2"
    else if eqb n 3
    then "3"
    else if eqb n 4
    then "4"
    else if eqb n 5
    then "5"
    else if eqb n 6
    then "6"
    else if eqb n 7
    then "7"
    else if eqb n 8
    then "8"
    else if eqb n 9
    then "9"
    else if eqb n 10
    then "a"
    else if eqb n 11
    then "b"
    else if eqb n 12
    then "c"
    else if eqb n 13
    then "d"
    else if eqb n 14
    then "e"
    else "f"

escape : Char → String
unfolding hex_digit
escape x =
    let c = code x in
    if eqb c 0x22
    then "\\\""
    else if eqb c 0x5c
    then "\\\\"
    else if eqb c 7
    then "\\a"
    else if eqb c 8
    then "\\b"
    else if eqb c 9
    then "\\t"
    else if eqb c 10
    then "\\n"
    else if eqb c 11
    then "\\v"
    else if eqb c 12
    then "\\f"
    else if eqb c 13
    then "\\r"
    else if ltb c 32 || eqb c 127
    then cat "\\x" (cat (hex_digit (c / 16)) (hex_digit (c % 16)))
    else x ∷ ""

escape_all : String → String
escape_all [] = ""
escape_all (x ∷ s) = cat (escape x) (escape_all s)

unfoldable pub quote : String → String
unfolding escape escape_all
quote s = cat "\"" (cat (escape_all s) "\"")
