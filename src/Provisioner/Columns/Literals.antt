-- ===== src/Provisioner/Columns/Literals.antt =====
-- The literals of a CHECK clause, as Postgres reads them back.
use text.Mathlib.TextLemmas.{nil-append, cons-append, append_assoc}
use zeep_orbit.Prelude.{
  ℕ, zero, suc, String, Option, none, some, List, [], ◌∷◌, ◌≡◌, refl, ap, ◌∙◌, length, map,
}
use zeep_orbit.Prelude.Text.{cat, join, after_prefix}
use zeep_orbit.Provisioner.Policy.Literal.{read_literal, StartsNoQuote, read_literal-doubled}
use zeep_orbit.Provisioner.Columns.{quoted_value, quoted_value_list}

abbrev with_value : String → Option (List String × String) → Option (List String × String)
with_value v none = none
with_value v (some (values, rest)) = some (v ∷ values, rest)

-- What follows a literal: the list ends, or a comma and more.
abbrev read_next :
    (String → Option (List String × String))
    → String
    → String
    → Option String
    → Option (List String × String)
read_next next v rest none = some (v ∷ [], rest)
read_next next v rest (some later) = with_value v (next later)

abbrev read_more :
    (String → Option (List String × String))
    → Option (String × String)
    → Option (List String × String)
read_more next none = none
read_more next (some (v, rest)) = read_next next v rest (after_prefix ", " rest)

-- A list of string constants as Postgres reads it, of at most as many values as the fuel: the values
-- and what follows them.
unfoldable pub read_values : ℕ → String → Option (List String × String)
read_values zero s = none
read_values (suc fuel) s = read_more (read_values fuel) (read_literal s)

-- No list goes on with this text.
abbrev pub EndsList : String → Type 0
EndsList rest = StartsNoQuote rest × (after_prefix ", " rest ≡ none)

read-quoted_value :
    (v rest : String)
    → StartsNoQuote rest
    → read_literal (cat (quoted_value v) rest) ≡ some (v, rest)
unfolding quoted_value
read-quoted_value v rest h = read_literal-doubled v rest h

comma_no_quote : (s : String) → StartsNoQuote (cat ", " s)
comma_no_quote s = rw cons-append (λ e. cc)

after_comma : (s : String) → after_prefix ", " (cat ", " s) ≡ some s
unfolding after_prefix
after_comma s = rw (cons-append, cons-append, nil-append) refl

-- Whatever the texts of a non-empty list of allowed values, Postgres reads the list that
-- quotedValueList writes as these values in their order, and goes on behind it, if neither a quote nor
-- a comma and a blank follow, as none do in a CHECK clause: no value can end its literal early.
pub read_values-quoted_value_list :
    (v : String) (values : List String) (rest : String)
    → EndsList rest
    → read_values (length (v ∷ values)) (cat (quoted_value_list (v ∷ values)) rest)
      ≡ some (v ∷ values, rest)
unfolding read_values quoted_value_list join
read_values-quoted_value_list v [] rest h =
    rw (read-quoted_value v rest h.0) (ap (read_next (read_values 0) v rest) h.1)
read_values-quoted_value_list v (w ∷ values) rest h =
    let listed = join ", " (map quoted_value (w ∷ values)) in
    let next = cat listed rest in
    let fuel = length (w ∷ values) in
    let later : read_values fuel next ≡ some (w ∷ values, rest) =
      read_values-quoted_value_list w values rest h in
    ap (read_values (suc fuel)) (
      append_assoc (quoted_value v) (cat ", " listed) rest
      ∙ ap (cat (quoted_value v)) (append_assoc ", " listed rest))
    ∙ ap (read_more (read_values fuel)) (read-quoted_value v (cat ", " next) (comma_no_quote next))
    ∙ ap (read_next (read_values fuel) v (cat ", " next)) (after_comma next)
    ∙ ap (with_value v) later
