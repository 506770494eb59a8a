-- ===== src/Config/Validate/Tables.antt =====
-- The loops of ValidateTables of internal/config/validate.go, with validateIndexes.
use zeep_orbit.Prelude.{
  ℕ, suc, String, not, List, [], ◌∷◌, map, Option, none, some, Result, ok, err, ◌>>◌, guard, ◌==◌,
  contains, is_empty, put, if◌then◌else◌,
}
use zeep_orbit.Prelude.Text.{trim_space}
use zeep_orbit.Config.{ColumnConfig, IndexConfig, TableConfig}
use zeep_orbit.Config.Cycle.{Visited, detect_reference_cycle}
use zeep_orbit.Config.Validate.{
  Parsers, EnumError, ColumnError, bad_enum, IndexError, no_index_name, no_index_column,
  unknown_index_column, ValidateError, in_column, in_index, in_cycle, validate_enum_values,
  validate_default, validate_reference,
}

-- `tablesByName`: a later table of a name takes the place of an earlier one.
unfoldable pub add_tables :
    (String → Option TableConfig) → List TableConfig → String → Option TableConfig
add_tables m [] = m
add_tables m (t ∷ ts) = add_tables (put m t.name (some t)) ts

abbrev pub tables_by_name : List TableConfig → String → Option TableConfig
tables_by_name tables = add_tables (λ _. none) tables

abbrev pub as_column_error : Result EnumError (Unit {0}) → Result ColumnError (Unit {0})
as_column_error (ok u) = ok u
as_column_error (err e) = err (bad_enum e)

unfoldable pub check_enum : ColumnConfig → Result ColumnError (Unit {0})
unfolding validate_enum_values
check_enum col =
    if col.type == "enum" then as_column_error (validate_enum_values col.allowed_values) else ok tt

unfoldable pub check_references :
    (String → Option TableConfig) → ColumnConfig → Result ColumnError (Unit {0})
unfolding validate_reference
check_references by_name col = elim col.references [
  | none ↦ ok tt
  | some ref ↦ validate_reference col ref by_name
]

-- What the loop does with one column.
unfoldable pub validate_column :
    Parsers → (String → Option TableConfig) → ColumnConfig → Result ColumnError (Unit {0})
unfolding check_enum validate_default check_references
validate_column parsers by_name col = do
  check_enum col
  validate_default parsers col
  check_references by_name col

abbrev pub at_column :
    String → ℕ → String → Result ColumnError (Unit {0}) → Result ValidateError (Unit {0})
at_column table k name (ok u) = ok u
at_column table k name (err e) = err (in_column table k name e)

-- The loop over a table's columns, from index `k`.
unfoldable pub validate_columns :
    Parsers
    → (String → Option TableConfig)
    → String
    → ℕ
    → List ColumnConfig
    → Result ValidateError (Unit {0})
unfolding at_column validate_column
validate_columns parsers by_name table k [] = ok tt
validate_columns parsers by_name table k (col ∷ cols) =
    at_column table k col.name (validate_column parsers by_name col)
    >> validate_columns parsers by_name table (suc k) cols

-- The loop over an index's columns.
unfoldable pub check_index_columns :
    List String → String → List String → Result IndexError (Unit {0})
check_index_columns names index [] = ok tt
check_index_columns names index (c ∷ cs) =
    guard (contains c names) (unknown_index_column index c) >> check_index_columns names index cs

unfoldable pub validate_index : List String → IndexConfig → Result IndexError (Unit {0})
unfolding check_index_columns trim_space
validate_index names index = do
  guard (not (trim_space index.name == "")) no_index_name
  guard (not (is_empty index.columns)) (no_index_column index.name)
  check_index_columns names index.name index.columns

abbrev pub at_index : String → ℕ → Result IndexError (Unit {0}) → Result ValidateError (Unit {0})
at_index table i (ok u) = ok u
at_index table i (err e) = err (in_index table i e)

-- `validateIndexes`, from index `i`.
unfoldable pub validate_indexes :
    String → List String → ℕ → List IndexConfig → Result ValidateError (Unit {0})
unfolding at_index validate_index
validate_indexes table names i [] = ok tt
validate_indexes table names i (index ∷ rest) =
    at_index table i (validate_index names index) >> validate_indexes table names (suc i) rest

-- The loop over the tables.
unfoldable pub validate_each :
    Parsers → (String → Option TableConfig) → List TableConfig → Result ValidateError (Unit {0})
unfolding validate_columns validate_indexes
validate_each parsers by_name [] = ok tt
validate_each parsers by_name (t ∷ ts) = do
  validate_columns parsers by_name t.name 0 t.columns
  validate_indexes t.name (map (λ c. c.name) t.columns) 0 t.indexes
  validate_each parsers by_name ts

-- The result of the cycle check. Its fuel suffices, so it always has one.
abbrev pub cycle_result : Visited → Option (Result ValidateError (Unit {0}))
cycle_result none = none
cycle_result (some (ok w)) = some (ok tt)
cycle_result (some (err e)) = some (err (in_cycle e))

unfoldable pub validate_tables :
    Parsers → List TableConfig → Option (Result ValidateError (Unit {0}))
unfolding validate_each add_tables cycle_result detect_reference_cycle
validate_tables parsers tables = elim (validate_each parsers (tables_by_name tables) tables) [
  | err e ↦ some (err e)
  | ok u ↦ cycle_result (detect_reference_cycle tables)
]
