-- ===== src/Provisioner/EnumValues.antt =====
-- The allowed values of an enum column: internal/provisioner/table.go.
pub mod InUse
use zeep_orbit.Prelude.{
  ℕ, zero, suc, String, Bool, true, false, Option, none, some, List, [], ◌∷◌, Result, ok, err,
  if◌then◌else◌, contains, length,
}
use zeep_orbit.Prelude.Text.{cat, concat, join}
use zeep_orbit.Prelude.Text.Numbers.{itoa}
use zeep_orbit.Prelude.Text.Quoting.{quote}
use zeep_orbit.Provisioner.Columns.{quoted_value_list}
use zeep_orbit.Provisioner.Ddl.{
  Server, Ddl, DdlError, DbError, wrapped, refused, enum_value_in_use, ◌>>=◌, ◌>>◌, give, fail,
  execute, read_all, qualified, qualified_column,
}

-- The old values that are no new ones, in their order.
unfoldable pub removed_values : List String → List String → List String
removed_values [] new_values = []
removed_values (v ∷ old_values) new_values =
    let rest = removed_values old_values new_values in
    if contains v new_values then rest else v ∷ rest

-- `if count > 0`
unfoldable pub used_only : List (String × ℕ) → List (String × ℕ)
used_only [] = []
used_only ((value, zero) ∷ counts) = used_only counts
used_only ((value, suc n) ∷ counts) = (value, suc n) ∷ used_only counts

module _ (server : Server) (schema_name table_name column_name : String) where
  open server use {State, read_names, read_counts}

  -- The column, as `%q.%q.%q`, in an error.
  unfoldable pub about_column : String → DbError → DdlError
  unfolding qualified_column
  about_column message e =
      wrapped (cat message (qualified_column schema_name table_name column_name)) e

  -- `$1` is the list of the values.
  unfoldable pub count_query : String
  unfolding qualified quote
  count_query = concat (
      "SELECT "
      ∷ quote column_name
      ∷ ", COUNT(*) FROM "
      ∷ qualified schema_name table_name
      ∷ " WHERE "
      ∷ quote column_name
      ∷ " = ANY($1) GROUP BY "
      ∷ quote column_name
      ∷ [])

  unfoldable pub count_rows_using_values : List String → Ddl State (List (String × ℕ))
  unfolding about_column count_query used_only
  count_rows_using_values values = do
    counts ← λ s.
        read_all (about_column "table: count rows using values on ")
          (wrapped "table: scan value count") (wrapped "table: iterate value counts") s
          (read_counts count_query values s)
    give (used_only counts)

  -- More than one constraint is refused, since one of them may not be that of the values.
  unfoldable pub one_constraint : List String → Ddl State (Option String)
  unfolding qualified_column itoa
  one_constraint [] = give none
  one_constraint (name ∷ []) = give (some name)
  one_constraint (name ∷ other ∷ names) = fail (
      refused (
        concat (
          "table: "
          ∷ qualified_column schema_name table_name column_name
          ∷ " has "
          ∷ itoa (length (name ∷ other ∷ names))
          ∷ " single-column CHECK constraints (["
          ∷ join " " (name ∷ other ∷ names)
          ∷ "]) — cannot determine which one backs the enum values"
          ∷ [])))

  unfoldable pub find_column_check_constraint : Ddl State (Option String)
  unfolding about_column one_constraint
  find_column_check_constraint = do
    names ← λ s.
        read_all (about_column "table: find check constraint on ")
          (about_column "table: find check constraint on ")
          (about_column "table: find check constraint on ") s
          (read_names
            "SELECT c.conname FROM pg_constraint c JOIN pg_class r ON r.oid = c.conrelid JOIN pg_namespace n ON n.oid = r.relnamespace JOIN pg_attribute a ON a.attrelid = r.oid AND a.attname = $3 WHERE c.contype = 'c' AND n.nspname = $1 AND r.relname = $2 AND c.conkey = ARRAY[a.attnum]"
            (schema_name ∷ table_name ∷ column_name ∷ []) s)
    one_constraint names

  unfoldable pub drop_clause : Option String → String
  unfolding quote
  drop_clause none = ""
  drop_clause (some name) = concat ("DROP CONSTRAINT " ∷ quote name ∷ ", " ∷ [])

  unfoldable pub replace_sql : Option String → List String → String
  unfolding qualified drop_clause quoted_value_list quote
  replace_sql constraint_name new_values = concat (
      "ALTER TABLE "
      ∷ qualified schema_name table_name
      ∷ " "
      ∷ drop_clause constraint_name
      ∷ "ADD CHECK ("
      ∷ quote column_name
      ∷ " IN ("
      ∷ quoted_value_list new_values
      ∷ "))"
      ∷ [])

  unfoldable pub refuse_used : List (String × ℕ) → Ddl State (Unit {0})
  refuse_used [] = give tt
  refuse_used ((value, n) ∷ counts) =
      fail (enum_value_in_use (record { column = column_name; counts = (value, n) ∷ counts }))

  unfoldable pub check_removed : List String → Ddl State (Unit {0})
  unfolding count_rows_using_values refuse_used
  check_removed [] = give tt
  check_removed (v ∷ removed) = do
    counts ← count_rows_using_values (v ∷ removed)
    refuse_used counts

  unfoldable pub replace_column_enum_values : List String → List String → Ddl State (Unit {0})
  unfolding removed_values check_removed find_column_check_constraint about_column replace_sql
  replace_column_enum_values old_values new_values = do
    check_removed (removed_values old_values new_values)
    constraint_name ← find_column_check_constraint
    execute server (about_column "table: replace enum values on ")
        (replace_sql constraint_name new_values) []
