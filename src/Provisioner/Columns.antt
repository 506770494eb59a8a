-- ===== src/Provisioner/Columns.antt =====
-- The DDL of a column: internal/provisioner/table.go.
pub mod Literals
use zeep_orbit.Prelude.{
  String, Bool, true, false, Option, none, some, List, [], ◌∷◌, ◌++◌, map, ◌==◌, ◌||◌,
  if◌then◌else◌, contains, not,
}
use zeep_orbit.Prelude.Text.{cat, concat, join, replace_all}
use zeep_orbit.Prelude.Text.Quoting.{quote}
use zeep_orbit.Config.{ColumnConfig, ReferenceConfig}
use zeep_orbit.Config.Rls.{has_owner_column}
use zeep_orbit.Provisioner.Types.{pg_type}
use zeep_orbit.Provisioner.Ddl.{qualified}

abbrev pub system_column_names : List String
system_column_names = "id" ∷ "created_at" ∷ "updated_at" ∷ "owner_id" ∷ "deleted_at" ∷ []

unfoldable pub is_system_column : String → Bool
is_system_column name = contains name system_column_names

-- `'%s'` with its quotes doubled.
unfoldable pub quoted_value : String → String
quoted_value v = cat "'" (cat (replace_all b'\'' "''" v) "'")

unfoldable pub quoted_value_list : List String → String
unfolding quoted_value
quoted_value_list values = join ", " (map quoted_value values)

unfoldable pub on_delete_sql : String → String
on_delete_sql on_delete =
    if on_delete == "cascade"
    then "CASCADE"
    else if on_delete == "restrict"
    then "RESTRICT"
    else if on_delete == "set_null"
    then "SET NULL"
    else "NO ACTION"

unfoldable pub default_sql : ColumnConfig → String
unfolding quoted_value
default_sql col = if col.default_is_expression then col.default else quoted_value col.default

unfoldable pub references_sql : String → Option ReferenceConfig → String
unfolding qualified on_delete_sql quote
references_sql schema_name none = ""
references_sql schema_name (some ref) = concat (
    " REFERENCES "
    ∷ qualified schema_name ref.table
    ∷ "("
    ∷ quote ref.column
    ∷ ") ON DELETE "
    ∷ on_delete_sql ref.on_delete
    ∷ [])

unfoldable pub column_ddl : String → ColumnConfig → String
unfolding pg_type default_sql quoted_value_list references_sql quote
column_ddl schema_name col = concat (
    quote col.name
    ∷ " "
    ∷ pg_type col.type
    ∷ (if col.required then " NOT NULL" else "")
    ∷ (if col.default == "" then "" else cat " DEFAULT " (default_sql col))
    ∷ (if col.unique then " UNIQUE" else "")
    ∷ (if col.type == "enum"
        then concat (
            " CHECK ("
            ∷ quote col.name
            ∷ " IN ("
            ∷ quoted_value_list col.allowed_values
            ∷ "))"
            ∷ [])
        else "")
    ∷ references_sql schema_name col.references
    ∷ [])

-- The loop over the declared columns.
unfoldable pub column_defs : String → List ColumnConfig → List String
unfolding is_system_column column_ddl
column_defs schema_name [] = []
column_defs schema_name (col ∷ cols) =
    let rest = column_defs schema_name cols in
    if is_system_column col.name then rest else column_ddl schema_name col ∷ rest

-- `owner_id`, which may be NULL in the mode "policy" only.
unfoldable pub owner_def : String → String → List String
unfolding has_owner_column quote
owner_def schema_name rls =
    if has_owner_column rls
    then concat (
        "\"owner_id\" UUID "
        ∷ (if rls == "policy" then "NULL" else "NOT NULL")
        ∷ " REFERENCES "
        ∷ quote schema_name
        ∷ ".\"_auth_users\"(\"id\")"
        ∷ [])
      ∷ []
    else []

-- The statement that creates a table.
unfoldable pub create_table_sql : String → String → List ColumnConfig → String → String
unfolding qualified column_defs owner_def
create_table_sql schema_name table_name cols rls = concat (
    "CREATE TABLE IF NOT EXISTS "
    ∷ qualified schema_name table_name
    ∷ " ("
    ∷ join ", " (
        "\"id\" UUID PRIMARY KEY DEFAULT gen_random_uuid()" ∷ column_defs schema_name cols
        ++ owner_def schema_name rls
        ++ "\"created_at\" TIMESTAMPTZ NOT NULL DEFAULT now()"
          ∷ "\"updated_at\" TIMESTAMPTZ NOT NULL DEFAULT now()" ∷ "\"deleted_at\" TIMESTAMPTZ" ∷ [])
    ∷ ")"
    ∷ [])
