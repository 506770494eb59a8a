-- ===== src/Provisioner/Types.antt =====
-- Column types in DDL and in the catalog: internal/provisioner/table.go and migration.go.
use zeep_orbit.Prelude.{String, List, [], ◌∷◌, ◌||◌, ◌==◌, if◌then◌else◌}

unfoldable pub pg_type : String → String
pg_type t =
    if t == "text"
    then "TEXT"
    else if t == "integer"
    then "INTEGER"
    else if t == "bigint"
    then "BIGINT"
    else if t == "decimal" || t == "numeric"
    then "DECIMAL"
    else if t == "boolean"
    then "BOOLEAN"
    else if t == "uuid"
    then "UUID"
    else if t == "timestamptz"
    then "TIMESTAMPTZ"
    else if t == "jsonb"
    then "JSONB"
    else "TEXT"

abbrev pub safe_type_conversions : List (String × List String)
safe_type_conversions =
    ("int4", "int8" ∷ "numeric" ∷ "text" ∷ [])
    ∷ ("int8", "numeric" ∷ "text" ∷ [])
    ∷ ("numeric", "text" ∷ [])
    ∷ ("text", [])
    ∷ ("bool", "text" ∷ [])
    ∷ ("uuid", "text" ∷ [])
    ∷ ("timestamptz", "text" ∷ [])
    ∷ ("jsonb", "text" ∷ [])
    ∷ []

unfoldable pub pg_type_to_udt : String → String
pg_type_to_udt ddl_type =
    if ddl_type == "INTEGER"
    then "int4"
    else if ddl_type == "BIGINT"
    then "int8"
    else if ddl_type == "DECIMAL"
    then "numeric"
    else if ddl_type == "TEXT"
    then "text"
    else if ddl_type == "BOOLEAN"
    then "bool"
    else if ddl_type == "UUID"
    then "uuid"
    else if ddl_type == "TIMESTAMPTZ"
    then "timestamptz"
    else if ddl_type == "JSONB"
    then "jsonb"
    else "text"

-- `strings.ToLower`, on what `pg_type` gives.
unfoldable pub lower_pg_type : String → String
lower_pg_type target_type =
    if target_type == "INTEGER"
    then "integer"
    else if target_type == "BIGINT"
    then "bigint"
    else if target_type == "DECIMAL"
    then "decimal"
    else if target_type == "TEXT"
    then "text"
    else if target_type == "BOOLEAN"
    then "boolean"
    else if target_type == "UUID"
    then "uuid"
    else if target_type == "TIMESTAMPTZ"
    then "timestamptz"
    else if target_type == "JSONB"
    then "jsonb"
    else target_type
