-- ===== src/Config/Validate.antt =====
-- The check of an app's tables: ValidateTables of internal/config/validate.go. An error is its
-- constructor with what the message names.
use Prim.Native.Char.{code}
pub mod Tables
pub mod Enum
pub mod References
pub mod Schema
pub mod Accepted
use zeep_orbit.Prelude.{
  ℕ, suc, ◌+◌, String, Bool, true, false, not, ◌&&◌, ◌||◌, List, [], ◌∷◌, length, Option, none,
  some, Result, ok, err, ◌>>◌, guard, ◌==◌, eqb, leb, any, contains, is_empty, if◌then◌else◌,
}
use zeep_orbit.Prelude.Text.{trim_space}
use zeep_orbit.Prelude.Text.Numbers.{parse_int}
use zeep_orbit.Config.{ColumnConfig, TableConfig, ReferenceConfig}
use zeep_orbit.Config.Cycle.{CycleError}

-- The parsers of Go's library that the code calls, by whether they succeed.
pub record Parsers : Type 0 where
  -- `strconv.ParseFloat(s, 64)`
  pub parses_float : String → Bool
  -- `time.Parse(time.RFC3339, s)`
  pub parses_rfc3339 : String → Bool
  -- `json.Valid([]byte(s))`
  pub is_json : String → Bool

abbrev pub max_enum_values : ℕ
max_enum_values = 50

abbrev pub max_enum_value_len : ℕ
max_enum_value_len = 100

abbrev pub valid_on_delete : List String
valid_on_delete = "" ∷ "cascade" ∷ "restrict" ∷ "set_null" ∷ "no_action" ∷ []

pub data EnumError : Type 0 where
  no_value : EnumError
  too_many_values : ℕ → EnumError
  empty_value : ℕ → EnumError
  too_long_value : ℕ → ℕ → EnumError
  duplicate_value : String → EnumError

pub data ColumnError : Type 0 where
  bad_enum : EnumError → ColumnError
  bad_expression : String → String → ColumnError
  bad_default : String → String → ColumnError
  no_target_table : ColumnError
  no_target_column : ColumnError
  only_auth_id : String → String → ColumnError
  auth_id_needs_uuid : String → ColumnError
  unknown_target : String → ColumnError
  target_not_unique : String → String → ColumnError
  bad_on_delete : String → ColumnError
  set_null_on_required : ColumnError

pub data IndexError : Type 0 where
  no_index_name : IndexError
  no_index_column : String → IndexError
  unknown_index_column : String → String → IndexError

pub data ValidateError : Type 0 where
  -- table, index of the column, its name
  in_column : String → ℕ → String → ColumnError → ValidateError
  in_index : String → ℕ → IndexError → ValidateError
  in_cycle : CycleError → ValidateError

-- `utf8.RuneCountInString`
unfoldable pub rune_count : String → ℕ
rune_count String.[] = 0
rune_count (String.◌∷◌ x s) = suc (rune_count s)

-- The loop over the values from index `i`, with those seen.
unfoldable pub check_values : ℕ → List String → List String → Result EnumError (Unit {0})
unfolding rune_count
check_values i seen [] = ok tt
check_values i seen (v ∷ vs) = do
  guard (not (v == "")) (empty_value i)
  guard (leb (rune_count v) max_enum_value_len) (too_long_value i (rune_count v))
  guard (not (contains v seen)) (duplicate_value v)
  check_values (suc i) (v ∷ seen) vs

unfoldable pub validate_enum_values : List String → Result EnumError (Unit {0})
unfolding check_values
validate_enum_values values = do
  guard (not (is_empty values)) no_value
  guard (leb (length values) max_enum_values) (too_many_values (length values))
  check_values 0 [] values

unfoldable pub default_expressions : String → List String
default_expressions type =
    if type == "uuid"
    then "gen_random_uuid()" ∷ []
    else if type == "timestamptz"
    then "now()" ∷ []
    else []

is_hex : ℕ → Bool
is_hex c = leb b'0' c && leb c b'9' || (leb b'a' c && leb c b'f' || leb b'A' c && leb c b'F')

-- A hexadecimal digit for each `h`, and the other characters as they are.
matches : String → String → Bool
unfolding is_hex
matches String.[] String.[] = true
matches String.[] (String.◌∷◌ x s) = false
matches (String.◌∷◌ p ps) String.[] = false
matches (String.◌∷◌ p ps) (String.◌∷◌ x s) =
    (if eqb (code p) b'h' then is_hex (code x) else eqb (code p) (code x)) && matches ps s

-- `uuidLiteralRe.MatchString`
unfoldable pub is_uuid : String → Bool
unfolding matches
is_uuid s = matches "hhhhhhhh-hhhh-hhhh-hhhh-hhhhhhhhhhhh" s

-- `unicode.ToLower`, on the characters whose lower case is a letter of `true` and `false`.
lower : ℕ → ℕ
lower c = if leb b'A' c && leb c b'Z' then c + 32 else c

-- Whether `strings.ToLower(s)` is the text `t`.
unfoldable pub lower_is : String → String → Bool
unfolding lower
lower_is String.[] String.[] = true
lower_is String.[] (String.◌∷◌ y t) = false
lower_is (String.◌∷◌ x s) String.[] = false
lower_is (String.◌∷◌ x s) (String.◌∷◌ y t) = eqb (lower (code x)) (code y) && lower_is s t

abbrev is_some : {A : Type 0} → Option A → Bool
is_some none = false
is_some (some a) = true

-- The switch on the type, for a literal.
unfoldable pub is_literal : Parsers → ColumnConfig → Bool
unfolding is_uuid lower_is parse_int
is_literal parsers col =
    if col.type == "integer"
    then is_some (parse_int 32 col.default)
    else if col.type == "bigint"
    then is_some (parse_int 64 col.default)
    else if col.type == "numeric"
    then parsers.parses_float col.default
    else if col.type == "boolean"
    then lower_is col.default "true" || lower_is col.default "false"
    else if col.type == "uuid"
    then is_uuid col.default
    else if col.type == "timestamptz"
    then parsers.parses_rfc3339 col.default
    else if col.type == "jsonb"
    then parsers.is_json col.default
    else if col.type == "enum"
    then contains col.default col.allowed_values
    else true

unfoldable pub validate_default : Parsers → ColumnConfig → Result ColumnError (Unit {0})
unfolding default_expressions is_literal
validate_default parsers col =
    if col.default == ""
    then ok tt
    else if col.default_is_expression
    then guard (contains col.default (default_expressions col.type))
        (bad_expression col.default col.type)
    else guard (is_literal parsers col) (bad_default col.default col.type)

-- The checks that end both branches of validateReference.
unfoldable pub check_on_delete : ColumnConfig → ReferenceConfig → Result ColumnError (Unit {0})
check_on_delete col ref = do
  guard (contains ref.on_delete valid_on_delete) (bad_on_delete ref.on_delete)
  guard (not (ref.on_delete == "set_null" && col.required)) set_null_on_required

unfoldable pub validate_reference :
    ColumnConfig → ReferenceConfig → (String → Option TableConfig) → Result ColumnError (Unit {0})
unfolding check_on_delete trim_space
validate_reference col ref by_name =
    guard (not (trim_space ref.table == "")) no_target_table
    >> (if ref.table == "_auth_users"
        then (do
          guard (ref.column == "id") (only_auth_id ref.table ref.column)
          guard (col.type == "uuid") (auth_id_needs_uuid col.type)
          check_on_delete col ref)
        else elim (by_name ref.table) [
          | none ↦ err (unknown_target ref.table)
          | some target ↦ do
            guard (not (trim_space ref.column == "")) no_target_column
            guard
                (ref.column == "id"
                  || any (λ tc. tc.name == ref.column && tc.unique) target.columns)
                (target_not_unique ref.table ref.column)
            check_on_delete col ref
        ])
