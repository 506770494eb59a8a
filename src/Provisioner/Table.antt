-- ===== src/Provisioner/Table.antt =====
-- The tables of an app's schema: internal/provisioner/table.go and internal/provisioner/index.go. The
-- queries of the catalog are written on one line.
pub mod Required
use zeep_orbit.Prelude.{
  ℕ, zero, suc, String, Bool, true, false, Option, none, some, List, [], ◌∷◌, ◌++◌, map, Result, ok,
  err, ◌==◌, ◌||◌, ◌&&◌, not, if◌then◌else◌, contains,
}
use zeep_orbit.Prelude.Text.{cat, concat, join}
use zeep_orbit.Prelude.Text.Quoting.{quote}
use zeep_orbit.Config.{ColumnConfig, IndexConfig}
use zeep_orbit.Config.Rls.{has_owner_column}
use zeep_orbit.Provisioner.Columns.{is_system_column, column_ddl, create_table_sql}
use zeep_orbit.Provisioner.Ddl.{
  Server, Ddl, DdlError, DbError, no_rows, pg_error, wrapped, refused, column_constraint,
  required_without_default, ◌>>=◌, ◌>>◌, give, fail, execute, read_as, read_all, qualified, dotted,
}

abbrev pub column_names_query : String
column_names_query =
    "SELECT column_name FROM information_schema.columns WHERE table_schema = $1 AND table_name = $2"

-- `fmt.Errorf` with a prefix and `%q.%q`.
unfoldable pub about : String → String → String → DbError → DdlError
unfolding qualified
about message schema_name table_name e =
    wrapped (concat (message ∷ qualified schema_name table_name ∷ [])) e

-- A column that rows would have no value for.
unfoldable pub needs_value : List String → ColumnConfig → Bool
unfolding is_system_column
needs_value existing col =
    not (is_system_column col.name || (not col.required || not (col.default == "")))
    && not (contains col.name existing)

abbrev refuse_rows : {S : Type 0} → String → ℕ → Ddl S (Unit {0})
refuse_rows column zero = give tt
refuse_rows column (suc n) = fail (
    column_constraint
      (record { column = column; reason = required_without_default; count = suc n; cause = none }))

module _ (server : Server) where
  open server use {State, exec, read_flag, read_count, read_pair, read_names}

  unfoldable pub ensure_row_level_security : String → String → Ddl State (Unit {0})
  unfolding about qualified
  ensure_row_level_security schema_name table_name = do
    enabled ← λ s. read_as (about "table: read row level security of " schema_name table_name) s (
        read_flag
          "SELECT relrowsecurity FROM pg_class WHERE oid = format('%I.%I', $1::text, $2::text)::regclass"
          (schema_name ∷ table_name ∷ []) s)
    (if enabled
        then give tt
        else execute server (about "table: enable row level security on " schema_name table_name)
            (concat (
              "ALTER TABLE "
              ∷ qualified schema_name table_name
              ∷ " ENABLE ROW LEVEL SECURITY"
              ∷ []))
            [])

  -- A column that is not there (42703) is no error.
  abbrev relaxed :
      String → String → State → Result DbError State → State × Result DdlError (Unit {0})
  relaxed schema_name table_name s (ok s') = (s', ok tt)
  relaxed schema_name table_name s (err (pg_error code detail)) =
      if code == "42703" then (s, ok tt) else (
        s,
        err (about "table: relax owner_id on " schema_name table_name (pg_error code detail)),
      )
  relaxed schema_name table_name s (err e) =
      (s, err (about "table: relax owner_id on " schema_name table_name e))

  abbrev relax : String → String → State → Result DbError Bool → State × Result DdlError (Unit {0})
  relax schema_name table_name s (ok true) = relaxed schema_name table_name s (
      exec
        (concat (
          "ALTER TABLE "
          ∷ qualified schema_name table_name
          ∷ " ALTER COLUMN \"owner_id\" DROP NOT NULL"
          ∷ []))
        [] s)
  relax schema_name table_name s (ok false) = (s, ok tt)
  relax schema_name table_name s (err no_rows) = (s, ok tt)
  relax schema_name table_name s (err e) =
      (s, err (about "table: read owner_id of " schema_name table_name e))

  unfoldable pub relax_owner_column : String → String → Ddl State (Unit {0})
  unfolding about qualified
  relax_owner_column schema_name table_name s = relax schema_name table_name s (
      read_flag
        "SELECT a.attnotnull FROM pg_attribute a WHERE a.attrelid = format('%I.%I', $1::text, $2::text)::regclass AND a.attname = 'owner_id' AND NOT a.attisdropped"
        (schema_name ∷ table_name ∷ []) s)

  abbrev described :
      String → String → State → Result DbError (String × String) → State × Result DdlError String
  described schema_name table_name s (ok (table, column)) =
      (s, ok (concat (table ∷ "." ∷ column ∷ [])))
  described schema_name table_name s (err no_rows) = (s, ok "")
  described schema_name table_name s (err e) =
      (s, err (about "table: check dependents of " schema_name table_name e))

  unfoldable pub check_dependents : String → String → Ddl State String
  unfolding about
  check_dependents schema_name table_name s = described schema_name table_name s (
      read_pair
        "SELECT tc.table_name, kcu.column_name FROM information_schema.table_constraints tc JOIN information_schema.key_column_usage kcu ON tc.constraint_name = kcu.constraint_name AND tc.table_schema = kcu.table_schema JOIN information_schema.constraint_column_usage ccu ON tc.constraint_name = ccu.constraint_name AND tc.table_schema = ccu.table_schema WHERE tc.constraint_type = 'FOREIGN KEY' AND tc.table_schema = $1 AND ccu.table_name = $2 AND tc.table_name != $2 LIMIT 1"
        (schema_name ∷ table_name ∷ []) s)

  unfoldable pub drop_table : String → String → Ddl State (Unit {0})
  unfolding check_dependents about qualified
  drop_table schema_name table_name = do
    dependent ← check_dependents schema_name table_name
    (if dependent == ""
        then execute server (about "table: drop " schema_name table_name)
            (concat ("DROP TABLE IF EXISTS " ∷ qualified schema_name table_name ∷ [])) []
        else fail (
            refused (
              concat (
                "table: cannot drop "
                ∷ qualified schema_name table_name
                ∷ ": still referenced by "
                ∷ dependent
                ∷ []))))

  -- True if the table was created, false if it was there.
  unfoldable pub create_table : String → String → List ColumnConfig → String → Ddl State Bool
  unfolding about create_table_sql ensure_row_level_security
  create_table schema_name table_name cols rls = do
    exists ← λ s. read_as (about "table: check existence " schema_name table_name) s (
        read_flag
          "SELECT EXISTS( SELECT 1 FROM information_schema.tables WHERE table_schema = $1 AND table_name = $2 )"
          (schema_name ∷ table_name ∷ []) s)
    (if exists then give false else do
      execute server (about "table: create " schema_name table_name)
          (create_table_sql schema_name table_name cols rls) []
      (if rls == "policy" then ensure_row_level_security schema_name table_name else give tt)
      give true)

  -- The check up front: one column decides, since the count is that of the table.
  unfoldable pub check_required :
      String → String → List String → List ColumnConfig → Ddl State (Unit {0})
  unfolding about needs_value qualified
  check_required schema_name table_name existing [] = give tt
  check_required schema_name table_name existing (col ∷ cols) =
      if needs_value existing col
      then (do
        row_count ← λ s. read_as (about "table: count rows in " schema_name table_name) s (
            read_count (concat ("SELECT COUNT(*) FROM " ∷ qualified schema_name table_name ∷ [])) s)
        refuse_rows col.name row_count)
      else check_required schema_name table_name existing cols

  unfoldable pub add_columns :
      String → String → List String → List ColumnConfig → Ddl State (List String)
  unfolding about is_system_column column_ddl qualified dotted quote
  add_columns schema_name table_name existing [] = give []
  add_columns schema_name table_name existing (col ∷ cols) =
      if is_system_column col.name || contains col.name existing
      then add_columns schema_name table_name existing cols
      else do
        execute server
            (about (concat ("table: add column " ∷ quote col.name ∷ " to " ∷ [])) schema_name
              table_name)
            (concat (
              "ALTER TABLE "
              ∷ qualified schema_name table_name
              ∷ " ADD COLUMN IF NOT EXISTS "
              ∷ column_ddl schema_name col
              ∷ []))
            []
        added ← add_columns schema_name table_name existing cols
        give (dotted schema_name table_name col.name ∷ added)

  unfoldable pub add_owner_column : String → String → List String → String → Ddl State (List String)
  unfolding about has_owner_column qualified dotted quote
  add_owner_column schema_name table_name existing rls =
      if has_owner_column rls && not (contains "owner_id" existing)
      then (do
        execute server (about "table: add owner_id to " schema_name table_name)
            (concat (
              "ALTER TABLE "
              ∷ qualified schema_name table_name
              ∷ " ADD COLUMN IF NOT EXISTS \"owner_id\" UUID REFERENCES "
              ∷ quote schema_name
              ∷ ".\"_auth_users\"(\"id\")"
              ∷ []))
            []
        give (dotted schema_name table_name "owner_id" ∷ []))
      else give []

  unfoldable pub add_missing_columns :
      String → String → List ColumnConfig → String → Ddl State (List String)
  unfolding about check_required add_columns add_owner_column
  add_missing_columns schema_name table_name cols rls = do
    existing ← λ s.
        read_all (about "table: list columns " schema_name table_name)
          (wrapped "table: scan column name") (wrapped "table: iterate columns") s
          (read_names column_names_query (schema_name ∷ table_name ∷ []) s)
    check_required schema_name table_name existing cols
    added ← add_columns schema_name table_name existing cols
    owner ← add_owner_column schema_name table_name existing rls
    give (added ++ owner)

  -- Indexes are created, never dropped.
  unfoldable pub ensure_indexes : String → String → List IndexConfig → Ddl State (List String)
  unfolding about qualified dotted quote
  ensure_indexes schema_name table_name [] = give []
  ensure_indexes schema_name table_name (idx ∷ indexes) = do
    execute server
        (about (concat ("index: create " ∷ quote idx.name ∷ " on " ∷ [])) schema_name table_name)
        (concat (
          "CREATE "
          ∷ (if idx.unique then "UNIQUE " else "")
          ∷ "INDEX IF NOT EXISTS "
          ∷ quote idx.name
          ∷ " ON "
          ∷ qualified schema_name table_name
          ∷ " ("
          ∷ join ", " (map quote idx.columns)
          ∷ ")"
          ∷ []))
        []
    created ← ensure_indexes schema_name table_name indexes
    give (dotted schema_name table_name idx.name ∷ created)
