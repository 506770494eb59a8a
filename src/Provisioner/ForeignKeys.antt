-- ===== src/Provisioner/ForeignKeys.antt =====
-- Foreign keys on columns that exist: internal/provisioner/table.go.
use zeep_orbit.Prelude.{
  String, Bool, true, false, Option, none, some, [], ◌∷◌, Result, ok, err, ◌==◌, if◌then◌else◌,
}
use zeep_orbit.Prelude.Text.{concat}
use zeep_orbit.Prelude.Text.Quoting.{quote}
use zeep_orbit.Config.{ReferenceConfig}
use zeep_orbit.Provisioner.Columns.{on_delete_sql}
use zeep_orbit.Provisioner.Migration.{fetch_existing_columns}
use zeep_orbit.Provisioner.Ddl.{
  Server, Ddl, DdlError, DbError, no_rows, pg_error, wrapped, refused, foreign_key_violation, ◌>>=◌,
  ◌>>◌, give, fail, execute, qualified, qualified_column,
}

abbrev found_type : {S : Type 0} → String → String → String → Option String → Ddl S String
found_type column schema_name table_name none = fail (
    refused (
      concat (
        "column " ∷ quote column ∷ " not found on table " ∷ qualified schema_name table_name ∷ [])))
found_type column schema_name table_name (some udt) = give udt

module _ (server : Server) (schema_name table_name column_name : String) where
  open server use {State, exec, read_name}

  unfoldable pub check_foreign_key_column_types_match : String → String → Ddl State (Unit {0})
  unfolding fetch_existing_columns qualified quote
  check_foreign_key_column_types_match ref_table_name ref_column_name = do
    source_cols ← fetch_existing_columns server schema_name table_name
    source_type ← found_type column_name schema_name table_name (source_cols column_name)
    target_cols ← fetch_existing_columns server schema_name ref_table_name
    target_type ←
        found_type ref_column_name schema_name ref_table_name (target_cols ref_column_name)
    (if source_type == target_type
        then give tt
        else fail (
            refused (
              concat (
                "column "
                ∷ quote column_name
                ∷ " has type "
                ∷ source_type
                ∷ " but referenced column "
                ∷ qualified ref_table_name ref_column_name
                ∷ " has type "
                ∷ target_type
                ∷ []))))

  abbrev add_failed : DbError → DdlError
  add_failed e =
      wrapped
        (concat
          ("table: add foreign key on " ∷ qualified_column schema_name table_name column_name ∷ []))
        e

  unfoldable pub foreign_key_error : DbError → DdlError
  unfolding qualified_column
  foreign_key_error (pg_error code detail) =
      if code == "23503"
      then foreign_key_violation
          (record { column = column_name; detail = detail; cause = pg_error code detail })
      else add_failed (pg_error code detail)
  foreign_key_error e = add_failed e

  unfoldable pub add_column_foreign_key : ReferenceConfig → Ddl State (Unit {0})
  unfolding foreign_key_error qualified on_delete_sql quote
  add_column_foreign_key ref =
      execute server foreign_key_error
        (concat (
          "ALTER TABLE "
          ∷ qualified schema_name table_name
          ∷ " ADD FOREIGN KEY ("
          ∷ quote column_name
          ∷ ") REFERENCES "
          ∷ qualified schema_name ref.table
          ∷ "("
          ∷ quote ref.column
          ∷ ") ON DELETE "
          ∷ on_delete_sql ref.on_delete
          ∷ []))
        []

  abbrev drop_found : State → Result DbError String → State × Result DdlError Bool
  drop_found s (ok constraint_name) =
      (do
        execute server
            (wrapped (
              concat (
                "table: drop foreign key "
                ∷ quote constraint_name
                ∷ " on "
                ∷ qualified schema_name table_name
                ∷ [])))
            (concat (
              "ALTER TABLE "
              ∷ qualified schema_name table_name
              ∷ " DROP CONSTRAINT "
              ∷ quote constraint_name
              ∷ []))
            []
        give true)
        s
  drop_found s (err no_rows) = (s, ok false)
  drop_found s (err e) = (
    s,
    err (
        wrapped
          (concat (
            "table: find foreign key on "
            ∷ qualified_column schema_name table_name column_name
            ∷ []))
          e),
  )

  -- False if the column has no foreign key.
  unfoldable pub drop_column_foreign_key : Ddl State Bool
  unfolding qualified qualified_column quote
  drop_column_foreign_key s = drop_found s (
      read_name
        "SELECT tc.constraint_name FROM information_schema.table_constraints tc JOIN information_schema.key_column_usage kcu ON tc.constraint_name = kcu.constraint_name AND tc.table_schema = kcu.table_schema WHERE tc.constraint_type = 'FOREIGN KEY' AND tc.table_schema = $1 AND tc.table_name = $2 AND kcu.column_name = $3 LIMIT 1"
        (schema_name ∷ table_name ∷ column_name ∷ []) s)
