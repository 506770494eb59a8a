-- ===== src/Provisioner/Migration.antt =====
-- Renames and type changes of columns that exist: internal/provisioner/migration.go, and
-- fetchExistingColumns and applyColumnChanges of internal/provisioner/table.go.
pub mod Retyped
pub mod Safe
use zeep_orbit.Prelude.{
  String, Bool, true, false, Option, none, some, List, [], ◌∷◌, ◌++◌, Result, ok, err, ◌==◌,
  if◌then◌else◌, contains, lookup,
}
use zeep_orbit.Prelude.Text.{cat, concat, join}
use zeep_orbit.Prelude.Text.Quoting.{quote}
use zeep_orbit.Config.{ColumnConfig}
use zeep_orbit.Provisioner.Types.{pg_type, pg_type_to_udt, lower_pg_type, safe_type_conversions}
use zeep_orbit.Provisioner.Columns.{is_system_column}
use zeep_orbit.Provisioner.Ddl.{
  Server, Ddl, DdlError, DbError, Reason, no_conversions_defined, unsafe_narrowing, runtime_failure,
  wrapped, plain, type_change, ◌>>=◌, ◌>>◌, give, fail, execute, read_all, qualified, dotted,
}

-- A Go map from names to types, filled in the order of the rows.
abbrev pub Existing : Type 0
Existing = String → Option String

unfoldable pub existing_of : List (String × String) → Existing
existing_of [] x = none
existing_of ((name, udt) ∷ cols) x = elim (existing_of cols x) [
  | some later ↦ some later
  | none ↦ if name == x then some udt else none
]

abbrev failed_change : String → String → String → Reason → Option DbError → DdlError
failed_change column current_type desired_type reason cause = type_change (record {
  column = column;
  current_type = current_type;
  desired_type = desired_type;
  reason = reason;
  cause = cause;
})

-- `if result != "" { changes = append(changes, result) }`
unfoldable pub noted : String → List String → List String
noted result changes = if result == "" then changes else result ∷ changes

abbrev when_found : {S A : Type 0} → Option String → Ddl S A → Ddl S A → Ddl S A
when_found none found missing = missing
when_found (some udt) found missing = found

module _ (server : Server) where
  open server use {State, read_pairs}

  -- The message is that of the only caller.
  unfoldable pub ensure_migration_table : String → Ddl State (Unit {0})
  unfolding quote
  ensure_migration_table schema_name =
      execute server (wrapped "apply changes: ensure migration table")
        (concat (
          "CREATE TABLE IF NOT EXISTS "
          ∷ quote schema_name
          ∷ ".\"_schema_migrations\" ( \"id\" SERIAL PRIMARY KEY, \"migration_id\" TEXT NOT NULL UNIQUE, \"description\" TEXT NOT NULL, \"sql_executed\" TEXT NOT NULL, \"applied_at\" TIMESTAMPTZ NOT NULL DEFAULT now() )"
          ∷ []))
        []

  -- `about` is the message of the caller.
  unfoldable pub record_migration :
      String → String → String → String → String → Ddl State (Unit {0})
  unfolding quote
  record_migration about schema_name migration_id description sql_executed =
      execute server (wrapped about)
        (concat (
          "INSERT INTO "
          ∷ quote schema_name
          ∷ ".\"_schema_migrations\" (migration_id, description, sql_executed) VALUES ($1, $2, $3)"
          ∷ []))
        (migration_id ∷ description ∷ sql_executed ∷ [])

  unfoldable pub fetch_existing_columns : String → String → Ddl State Existing
  unfolding qualified existing_of
  fetch_existing_columns schema_name table_name = do
    cols ← λ s.
        read_all (wrapped (cat "fetch columns " (qualified schema_name table_name)))
          (wrapped "fetch columns scan") plain s
          (read_pairs
            "SELECT column_name, udt_name FROM information_schema.columns WHERE table_schema = $1 AND table_name = $2"
            (schema_name ∷ table_name ∷ []) s)
    give (existing_of cols)

  -- `digest` is the first eight bytes of a SHA-256, in hexadecimal.
  module _ (digest : String → String) (schema_name table_name : String) where
    rename_sql : ColumnConfig → String
    unfolding qualified quote
    rename_sql col = concat (
        "ALTER TABLE "
        ∷ qualified schema_name table_name
        ∷ " RENAME COLUMN "
        ∷ quote col.rename_from
        ∷ " TO "
        ∷ quote col.name
        ∷ [])

    unfoldable pub run_rename : ColumnConfig → Ddl State String
    unfolding rename_sql record_migration dotted quote
    run_rename col = do
      execute server
          (wrapped
            (concat ("rename column " ∷ quote col.rename_from ∷ " to " ∷ quote col.name ∷ [])))
          (rename_sql col) []
      record_migration "rename: record migration" schema_name
          (digest
            (join "|" (schema_name ∷ table_name ∷ "rename" ∷ col.rename_from ∷ col.name ∷ [])))
          (concat
            ("rename " ∷ dotted schema_name table_name col.rename_from ∷ " → " ∷ col.name ∷ []))
          (rename_sql col)
      give (
          concat (
            dotted schema_name table_name col.name
            ∷ " (renamed from "
            ∷ col.rename_from
            ∷ ")"
            ∷ []))

    unfoldable pub apply_rename : ColumnConfig → Existing → Ddl State String
    unfolding run_rename
    apply_rename col existing =
        if col.rename_from == ""
        then give ""
        else when_found (existing col.name) (give "")
            (when_found (existing col.rename_from) (run_rename col) (give ""))

    unfoldable pub alter_type_sql : ColumnConfig → String
    unfolding qualified quote pg_type lower_pg_type
    alter_type_sql col = concat (
        "ALTER TABLE "
        ∷ qualified schema_name table_name
        ∷ " ALTER COLUMN "
        ∷ quote col.name
        ∷ " TYPE "
        ∷ pg_type col.type
        ∷ " USING "
        ∷ quote col.name
        ∷ "::"
        ∷ lower_pg_type (pg_type col.type)
        ∷ [])

    unfoldable pub run_type_change : ColumnConfig → String → String → Ddl State String
    unfolding alter_type_sql record_migration dotted
    run_type_change col current_type desired_type = do
      execute server
          (λ e. failed_change col.name current_type desired_type runtime_failure (some e))
          (alter_type_sql col) []
      record_migration "alter type: record migration" schema_name
          (digest
            (join "|" (schema_name ∷ table_name ∷ "altertype" ∷ col.name ∷ desired_type ∷ [])))
          (concat (
            "alter type "
            ∷ dotted schema_name table_name col.name
            ∷ ": "
            ∷ current_type
            ∷ " → "
            ∷ desired_type
            ∷ []))
          (alter_type_sql col)
      give (
          concat (
            dotted schema_name table_name col.name
            ∷ " ("
            ∷ current_type
            ∷ " → "
            ∷ desired_type
            ∷ ")"
            ∷ []))

    abbrev pub change_to : ColumnConfig → String → String → Option (List String) → Ddl State String
    change_to col current_type desired_type none =
        fail (failed_change col.name current_type desired_type no_conversions_defined none)
    change_to col current_type desired_type (some safe_targets) =
        if contains desired_type safe_targets
        then run_type_change col current_type desired_type
        else fail (failed_change col.name current_type desired_type unsafe_narrowing none)

    abbrev pub change_from : ColumnConfig → Option String → Ddl State String
    change_from col none = give ""
    change_from col (some current_type) =
        if current_type == pg_type_to_udt (pg_type col.type)
        then give ""
        else change_to col current_type (pg_type_to_udt (pg_type col.type))
            (lookup current_type safe_type_conversions)

    unfoldable pub apply_type_change : ColumnConfig → Existing → Ddl State String
    unfolding is_system_column pg_type_to_udt pg_type run_type_change lookup
    apply_type_change col existing =
        if is_system_column col.name then give "" else change_from col (existing col.name)

    -- The first loop: its own tests are those of applyRename.
    unfoldable pub apply_renames : List ColumnConfig → Existing → Ddl State (List String)
    unfolding apply_rename noted
    apply_renames [] existing = give []
    apply_renames (col ∷ cols) existing = do
      result ← apply_rename col existing
      changes ← apply_renames cols existing
      give (noted result changes)

    unfoldable pub apply_type_changes : List ColumnConfig → Existing → Ddl State (List String)
    unfolding apply_type_change noted
    apply_type_changes [] existing = give []
    apply_type_changes (col ∷ cols) existing = do
      result ← apply_type_change col existing
      changes ← apply_type_changes cols existing
      give (noted result changes)

    -- The catalog is read again before the second loop, since names have changed.
    unfoldable pub apply_column_changes : List ColumnConfig → Ddl State (List String)
    unfolding ensure_migration_table fetch_existing_columns apply_renames apply_type_changes
    apply_column_changes cols = do
      ensure_migration_table schema_name
      before ← fetch_existing_columns schema_name table_name
      renamed ← apply_renames cols before
      after ← fetch_existing_columns schema_name table_name
      changed ← apply_type_changes cols after
      give (renamed ++ changed)
