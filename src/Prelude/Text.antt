-- ===== src/Prelude/Text.antt =====
-- What the program uses of Go's packages strings, strconv and fmt, on texts as lists of code points.
pub mod Numbers
pub mod Quoting
use Prim.Native.String
use Prim.Native.String.{[], ◌∷◌}
use mathlib.Core.List
use mathlib.Core.List.{List}
use Prim.Native.Nat.{ℕ, ◌-◌, ◌+◌}
use Prim.Native.Char.{Char, code}
use Prim.Native.String.{String}
use mathlib.Core.Bool.{Bool, true, false, ◌&&◌, ◌||◌}
use mathlib.Core.Option.{Option, none, some}
use text.Mathlib.Text.{◌==◌}
use zeep_orbit.Prelude.Tests.{leb, eqb, if◌then◌else◌}

-- `s + t`
abbrev pub cat : String → String → String
cat s t = String.◌++◌ s t

-- `fmt.Sprintf` on its parts, in order.
abbrev pub concat : List String → String
concat List.[] = ""
concat (List.◌∷◌ s ss) = cat s (concat ss)

-- `strings.Join`
unfoldable pub join : String → List String → String
join sep List.[] = ""
join sep (List.◌∷◌ s List.[]) = s
join sep (List.◌∷◌ s (List.◌∷◌ t ss)) = cat s (cat sep (join sep (List.◌∷◌ t ss)))

-- `strings.Contains(s, c)`, for one character.
unfoldable pub contains_char : ℕ → String → Bool
contains_char c [] = false
contains_char c (x ∷ s) = eqb (code x) c || contains_char c s

-- `strings.ReplaceAll(s, c, new)`, for one character.
unfoldable pub replace_all : ℕ → String → String → String
replace_all c new [] = ""
replace_all c new (x ∷ s) =
    let rest = replace_all c new s in if eqb (code x) c then cat new rest else x ∷ rest

abbrev pub push_front : Char → List String → List String
push_front x List.[] = List.◌∷◌ (x ∷ "") List.[]
push_front x (List.◌∷◌ w ws) = List.◌∷◌ (x ∷ w) ws

-- `strings.Split(s, c)`, for one character: at least one part.
unfoldable pub split : ℕ → String → List String
split c [] = List.◌∷◌ "" List.[]
split c (x ∷ s) =
    let rest = split c s in if eqb (code x) c then List.◌∷◌ "" rest else push_front x rest

-- `unicode.IsSpace`
unfoldable pub is_space : ℕ → Bool
is_space c =
    leb 9 c && leb c 13
    || (eqb c 0x20
        || (eqb c 0x85
            || (eqb c 0xa0
                || (eqb c 0x1680
                    || (leb 0x2000 c && leb c 0x200a
                        || (eqb c 0x2028
                            || (eqb c 0x2029
                                || (eqb c 0x202f || (eqb c 0x205f || eqb c 0x3000)))))))))

pub trim_left : String → String
trim_left [] = ""
trim_left (x ∷ s) = let rest = trim_left s in if is_space (code x) then rest else x ∷ s

pub trim_right : String → String
trim_right [] = ""
trim_right (x ∷ s) =
    let rest = trim_right s in if is_space (code x) && rest == "" then "" else x ∷ rest

-- `strings.TrimSpace`
unfoldable pub trim_space : String → String
unfolding trim_left trim_right is_space
trim_space s = trim_right (trim_left s)

-- `strings.CutPrefix`: what follows the prefix, if it is there.
unfoldable pub after_prefix : String → String → Option String
after_prefix [] s = some s
after_prefix (p ∷ ps) [] = none
after_prefix (p ∷ ps) (x ∷ s) =
    let rest = after_prefix ps s in if eqb (code p) (code x) then rest else none
