-- ===== src/Query/Update.antt =====
-- UPDATE: BuildUpdate of internal/query/builder.go.
pub mod Updated
use zeep_orbit.Prelude.{
  ℕ, suc, String, not, List, [], ◌∷◌, ◌++◌, length, Result, ok, ◌>>=◌, ◌>>◌, guard, ◌==◌, is_empty,
  if◌then◌else◌,
}
use zeep_orbit.Prelude.Text.{concat, join}
use zeep_orbit.Prelude.Text.Numbers.{itoa}
use zeep_orbit.Registry.{Table}
use zeep_orbit.Query.{
  Value, text, QueryError, nothing_to_update, WriteQuery, column_types, placeholder,
}
use zeep_orbit.Query.Values.{TimeParsers}
use zeep_orbit.Query.Assignments.{check_body, assign_columns}

-- The two lists that the loop fills.
pub record Changes : Type 0 where
  pub set_clauses : List String
  pub args : List Value

abbrev pub no_changes : Changes
no_changes = record { set_clauses = []; args = [] }

unfoldable pub set_clause : (String → String) → ℕ → String → String
unfolding placeholder
set_clause types n name = concat (name ∷ " = " ∷ placeholder n (types name) ∷ [])

unfoldable pub add_change : (String → String) → String → Value → Changes → Changes
add_change types name val c = record {
  set_clauses = c.set_clauses ++ set_clause types (suc (length c.args)) name ∷ [];
  args = c.args ++ val ∷ [];
}

-- The condition on the row and its arguments, after `n` others.
unfoldable pub row_condition : ℕ → String → String
unfolding itoa placeholder
row_condition n owner_id = concat (
    "id = $"
    ∷ itoa (suc n)
    ∷ (if not (owner_id == "")
        then concat (" AND owner_id = " ∷ placeholder (suc (suc n)) "uuid" ∷ [])
        else "")
    ∷ [])

unfoldable pub row_args : String → String → List Value
row_args id owner_id = if not (owner_id == "") then text id ∷ text owner_id ∷ [] else text id ∷ []

-- The statement, from what the loop filled.
unfoldable pub update_query :
    String → String → String → String → List String → List Value → WriteQuery
unfolding join row_condition row_args
update_query schema_name table_name id owner_id sets args = record {
  sql = concat (
      "UPDATE "
      ∷ schema_name
      ∷ "."
      ∷ table_name
      ∷ " SET "
      ∷ join ", " (sets ++ "updated_at = now()" ∷ [])
      ∷ " WHERE "
      ∷ row_condition (length args) owner_id
      ∷ " RETURNING *"
      ∷ []);
  args = args ++ row_args id owner_id;
}

unfoldable pub build_update :
    TimeParsers
    → String
    → String
    → Table
    → String
    → List (String × Value)
    → String
    → Result QueryError WriteQuery
unfolding check_body assign_columns add_change set_clause update_query column_types
build_update time schema_name table_name table id body owner_id = do
  check_body table body
  changes ←
      assign_columns (add_change (column_types table)) time (column_types table) body table.columns
        no_changes
  guard (not (is_empty changes.set_clauses)) nothing_to_update
  ok (update_query schema_name table_name id owner_id changes.set_clauses changes.args)
