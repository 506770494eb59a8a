-- ===== src/Provisioner/Apply.antt =====
-- Apply, which brings the schemas of all apps up to date: internal/provisioner/provisioner.go, and the
-- operations that internal/provisioner/ddl_lock.go runs under the lock.
pub mod Atomic
pub mod Locked
use zeep_orbit.Prelude.{
  String, Bool, true, false, Option, none, some, List, [], ◌∷◌, ◌++◌, Result, ok, err, ◌==◌,
  if◌then◌else◌,
}
use zeep_orbit.Prelude.Text.{concat, replace_all}
use zeep_orbit.Prelude.Text.Quoting.{quote}
use zeep_orbit.Config.{AppConfig, TableConfig, StorageConfig, ReferenceConfig}
use zeep_orbit.Provisioner.Topsort.{SortError, circular_dependency, topo_sort_tables}
use zeep_orbit.Provisioner.Ddl.{Server, Ddl, DdlError, within, unsorted, ◌>>=◌, ◌>>◌, give, fail}
use zeep_orbit.Provisioner.Ddl.Lock.{with_app_lock}
use zeep_orbit.Provisioner.Schema.{
  create_schema, provision_auth_tables, provision_storage_tables, add_missing_auth_user_columns,
}
use zeep_orbit.Provisioner.Table.{create_table, add_missing_columns, ensure_indexes, drop_table}
use zeep_orbit.Provisioner.Migration.{apply_column_changes}
use zeep_orbit.Provisioner.Constraints.Diff.{ColumnConstraintChange}
use zeep_orbit.Provisioner.Constraints.{apply_column_constraint_changes}
use zeep_orbit.Provisioner.ForeignKeys.{add_column_foreign_key, drop_column_foreign_key}
use zeep_orbit.Provisioner.EnumValues.{replace_column_enum_values}

pub record Report : Type 0 where
  pub schemas_created : List String
  pub tables_created : List String
  pub columns_added : List String
  pub columns_changed : List String
  pub indexes_created : List String

abbrev pub no_changes : Report
no_changes = record {
  schemas_created = [];
  tables_created = [];
  columns_added = [];
  columns_changed = [];
  indexes_created = [];
}

unfoldable pub merge : Report → Report → Report
merge r o = record {
  schemas_created = r.schemas_created ++ o.schemas_created;
  tables_created = r.tables_created ++ o.tables_created;
  columns_added = r.columns_added ++ o.columns_added;
  columns_changed = r.columns_changed ++ o.columns_changed;
  indexes_created = r.indexes_created ++ o.indexes_created;
}

-- `fmt.Errorf("…: %w", err)` around a call.
abbrev explained : {S A : Type 0} → String → S × Result DdlError A → S × Result DdlError A
explained message (s, ok a) = (s, ok a)
explained message (s, err e) = (s, err (within message e))

abbrev pub explain : {S A : Type 0} → String → Ddl S A → Ddl S A
explain message m s = explained message (m s)

-- `strings.ReplaceAll(app.Name, "-", "_")`
unfoldable pub schema_name_of : AppConfig → String
schema_name_of app = replace_all b'-' "_" app.name

-- Where the fuel does not do, more tables come out than there are, which is the error too.
abbrev sorted :
    {S : Type 0} → Option (Result SortError (List TableConfig)) → Ddl S (List TableConfig)
sorted none = fail (unsorted circular_dependency)
sorted (some (ok ordered)) = give ordered
sorted (some (err e)) = fail (unsorted e)

module _ (server : Server) (digest : String → String) where
  open server use {State}

  abbrev about_table : AppConfig → TableConfig → String → String
  about_table app table suffix =
      concat ("provisioner: app " ∷ quote app.name ∷ " table " ∷ quote table.name ∷ suffix ∷ [])

  -- A table that is there is changed and widened.
  unfoldable pub update_table : AppConfig → String → TableConfig → Ddl State Report
  unfolding apply_column_changes add_missing_columns quote
  update_table app schema_name table = do
    changed ←
        explain (about_table app table " apply changes")
          (apply_column_changes server digest schema_name table.name table.columns)
    added ←
        explain (about_table app table " add columns")
          (add_missing_columns server schema_name table.name table.columns table.rls)
    give (record no_changes { columns_changed = changed; columns_added = added })

  unfoldable pub apply_table : AppConfig → String → TableConfig → Ddl State Report
  unfolding create_table update_table ensure_indexes quote
  apply_table app schema_name table = do
    table_created ←
        explain (about_table app table "")
          (create_table server schema_name table.name table.columns table.rls)
    report ←
        (if table_created
          then give (record no_changes {
            tables_created = concat (schema_name ∷ "." ∷ table.name ∷ []) ∷ [];
          })
          else update_table app schema_name table)
    indexes ←
        explain (about_table app table " indexes")
          (ensure_indexes server schema_name table.name table.indexes)
    give (merge report (record no_changes { indexes_created = indexes }))

  unfoldable pub apply_tables : AppConfig → String → List TableConfig → Ddl State Report
  unfolding apply_table merge
  apply_tables app schema_name [] = give no_changes
  apply_tables app schema_name (table ∷ tables) = do
    report ← apply_table app schema_name table
    rest ← apply_tables app schema_name tables
    give (merge report rest)

  abbrev storage_tables : String → Option StorageConfig → Ddl State (List String)
  storage_tables schema_name none = give []
  storage_tables schema_name (some storage) =
      if storage.bucket == "" then give [] else provision_storage_tables server schema_name

  -- `locked` is true: the caller holds the lock.
  unfoldable pub apply_app : AppConfig → String → Ddl State Report
  unfolding create_schema provision_auth_tables provision_storage_tables topo_sort_tables
      apply_tables merge quote
  apply_app app schema_name = do
    created ←
        explain (concat ("provisioner: app " ∷ quote app.name ∷ []))
          (create_schema server true schema_name)
    auth_created ←
        explain (concat ("provisioner: app " ∷ quote app.name ∷ " auth tables" ∷ []))
          (if app.auth.email then provision_auth_tables server schema_name else give [])
    storage_created ←
        explain (concat ("provisioner: app " ∷ quote app.name ∷ " storage tables" ∷ []))
          (storage_tables schema_name app.storage)
    ordered ←
        explain (concat ("provisioner: app " ∷ quote app.name ∷ []))
          (sorted (topo_sort_tables app.tables))
    report ← apply_tables app schema_name ordered
    give (
        merge
          (record no_changes {
            schemas_created = if created then schema_name ∷ [] else [];
            tables_created = auth_created ++ storage_created;
          })
          report)

  -- One app, in a transaction of its own.
  unfoldable pub apply_locked : AppConfig → Ddl State Report
  unfolding schema_name_of apply_app with_app_lock
  apply_locked app =
      with_app_lock server false (schema_name_of app) (apply_app app (schema_name_of app))

  unfoldable pub apply : List AppConfig → Ddl State Report
  unfolding apply_locked merge
  apply [] = give no_changes
  apply (app ∷ apps) = do
    app_report ← apply_locked app
    report ← apply apps
    give (merge app_report report)
