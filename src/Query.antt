-- ===== src/Query.antt =====
-- The SQL that serves the requests on a table: internal/query/builder.go. This file has the data,
-- the column sets and the casts; a child has each statement.
pub mod Spelled
pub mod Values
pub mod Operators
pub mod Select
pub mod Assignments
pub mod Insert
pub mod Update
pub mod ById
use zeep_orbit.Prelude.{
  ℕ, String, Bool, List, [], ◌∷◌, ◌++◌, Option, none, some, map, ◌==◌, keys, lookup, contains, put,
  if◌then◌else◌,
}
use zeep_orbit.Prelude.Text.{concat}
use zeep_orbit.Prelude.Text.Numbers.{itoa}
use zeep_orbit.Registry.{Column, Table}

-- A finite float64, as encoding/json decodes a number: numerator / 2^halvings, or its negation.
pub record Number : Type 0 where
  pub is_negative : Bool
  pub numerator : ℕ
  pub halvings : ℕ

-- `any`: a decoded JSON value or a Go int. Arrays and objects, which the builder only passes on, are
-- their JSON texts.
pub data Value : Type 0 where
  nil : Value
  boolean : Bool → Value
  number : Number → Value
  text : String → Value
  composite : String → Value
  int : ℕ → Value

pub data QueryError : Type 0 where
  invalid_limit : String → QueryError
  invalid_offset : String → QueryError
  unknown_filter : String → QueryError
  unsupported_operator : String → String → QueryError
  invalid_order : String → QueryError
  invalid_direction : String → QueryError
  unknown_order : String → QueryError
  not_a_timestamp : String → QueryError
  not_whole : String → QueryError
  out_of_range : String → String → QueryError
  unknown_body_field : String → QueryError
  missing_field : String → QueryError
  nothing_to_insert : QueryError
  nothing_to_update : QueryError
  unknown_conflict_column : String → QueryError
  no_conflict_column : QueryError

pub record ListQuery : Type 0 where
  pub sql : String
  pub args : List Value
  pub count_sql : String

pub record WriteQuery : Type 0 where
  pub sql : String
  pub args : List Value

abbrev pub system_fields : List (String × String)
system_fields =
    ("id", "uuid")
    ∷ ("created_at", "timestamptz")
    ∷ ("updated_at", "timestamptz")
    ∷ ("owner_id", "uuid")
    ∷ ("deleted_at", "timestamptz")
    ∷ []

abbrev pub is_system_field : String → Bool
is_system_field name = contains name (keys system_fields)

abbrev pub column_names : List Column → List String
column_names columns = map (λ c. c.name) columns

-- `columnSet`, as the list of its members.
abbrev pub column_set : Table → List String
column_set table = keys system_fields ++ column_names table.columns

unfoldable pub add_types : (String → String) → List Column → String → String
add_types m [] = m
add_types m (col ∷ cols) = add_types (put m col.name col.type) cols

abbrev or_empty : Option String → String
or_empty none = ""
or_empty (some s) = s

-- `columnTypes`, with the zero value "" for a missing key.
unfoldable pub column_types : Table → String → String
unfolding add_types lookup
column_types table = add_types (λ name. or_empty (lookup name system_fields)) table.columns

unfoldable pub pg_cast : String → String
pg_cast col_type =
    if col_type == "uuid"
    then "::uuid"
    else if col_type == "timestamptz"
    then "::timestamptz"
    else ""

-- `fmt.Sprintf("$%d%s", n, PgCast(t))`
unfoldable pub placeholder : ℕ → String → String
unfolding itoa pg_cast
placeholder n col_type = concat ("$" ∷ itoa n ∷ pg_cast col_type ∷ [])
