-- ===== src/Query/Assignments.antt =====
-- What BuildInsertWithOptions and BuildUpdate of internal/query/builder.go share: the check of the
-- body's keys and the loop over the table's columns. A body is the list of its entries.
pub mod Assigned
use zeep_orbit.Prelude.{
  String, List, [], ◌∷◌, none, some, Result, ok, ◌>>=◌, ◌>>◌, guard, contains, lookup,
  if◌then◌else◌,
}
use zeep_orbit.Registry.{Column, Table}
use zeep_orbit.Query.{Value, QueryError, unknown_body_field, is_system_field, column_set}
use zeep_orbit.Query.Values.{TimeParsers, normalize}

-- `for key := range body`
unfoldable pub check_body : Table → List (String × Value) → Result QueryError (Unit {0})
check_body table [] = ok tt
check_body table ((key, val) ∷ body) =
    let rest = check_body table body in
    if is_system_field key
    then rest
    else guard (contains key (column_set table)) (unknown_body_field key) >> rest

module _ {S : Type 0} (append : String → Value → S → S) (time : TimeParsers)
    (types : String → String) (body : List (String × Value)) where
  -- One turn of the loop over the columns: what it appends to the lists.
  unfoldable pub assign_column : Column → S → Result QueryError S
  unfolding normalize lookup
  assign_column col s = if is_system_field col.name then ok s else elim (lookup col.name body) [
    | none ↦ ok s
    | some val ↦ do
      checked ← normalize time col (types col.name) val
      ok (append col.name checked s)
  ]

  unfoldable pub assign_columns : List Column → S → Result QueryError S
  unfolding assign_column
  assign_columns [] s = ok s
  assign_columns (col ∷ cols) s = do next ← assign_column col s; assign_columns cols next
