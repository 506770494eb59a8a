-- ===== src/Provisioner/Apply/Locked.antt =====
-- The operations that internal/provisioner/ddl_lock.go runs under the lock, each in a transaction of
-- its own unless the provisioner is that of a transaction.
use zeep_orbit.Prelude.{String, Bool, true, Option, none, some, List, [], ◌∷◌}
use zeep_orbit.Prelude.Text.{concat}
use zeep_orbit.Prelude.Text.Quoting.{quote}
use zeep_orbit.Config.{ReferenceConfig}
use zeep_orbit.Provisioner.Ddl.{Server, Ddl, ◌>>=◌, ◌>>◌, give}
use zeep_orbit.Provisioner.Ddl.Lock.{with_app_lock}
use zeep_orbit.Provisioner.Schema.{create_schema, provision_auth_tables, provision_storage_tables}
use zeep_orbit.Provisioner.Table.{drop_table}
use zeep_orbit.Provisioner.Constraints.Diff.{ColumnConstraintChange}
use zeep_orbit.Provisioner.Constraints.{apply_column_constraint_changes}
use zeep_orbit.Provisioner.ForeignKeys.{add_column_foreign_key, drop_column_foreign_key}
use zeep_orbit.Provisioner.EnumValues.{replace_column_enum_values}
use zeep_orbit.Provisioner.Apply.{explain}

module _ (server : Server) (schema_name : String) where
  open server use {State}

  unfoldable pub ensure_auth_tables : Ddl State (Unit {0})
  unfolding create_schema provision_auth_tables quote
  ensure_auth_tables = do
    created ←
        explain (concat ("provisioner: schema " ∷ quote schema_name ∷ []))
          (create_schema server true schema_name)
    tables ←
        explain (concat ("provisioner: schema " ∷ quote schema_name ∷ " auth tables" ∷ []))
          (provision_auth_tables server schema_name)
    give tt

  unfoldable pub ensure_storage_tables : Ddl State (Unit {0})
  unfolding create_schema provision_storage_tables quote
  ensure_storage_tables = do
    created ←
        explain (concat ("provisioner: schema " ∷ quote schema_name ∷ []))
          (create_schema server true schema_name)
    tables ←
        explain (concat ("provisioner: schema " ∷ quote schema_name ∷ " storage tables" ∷ []))
          (provision_storage_tables server schema_name)
    give tt

module _ (server : Server) (locked : Bool) (schema_name : String) where
  open server use {State}

  unfoldable pub locked_ensure_auth_tables : Ddl State (Unit {0})
  unfolding with_app_lock ensure_auth_tables
  locked_ensure_auth_tables =
      with_app_lock server locked schema_name (ensure_auth_tables server schema_name)

  unfoldable pub locked_ensure_storage_tables : Ddl State (Unit {0})
  unfolding with_app_lock ensure_storage_tables
  locked_ensure_storage_tables =
      with_app_lock server locked schema_name (ensure_storage_tables server schema_name)

  -- What `DropTable` passes for `after` is nil.
  abbrev after_drop : Option (Ddl State (Unit {0})) → Ddl State (Unit {0})
  after_drop none = give tt
  after_drop (some after) = after

  unfoldable pub locked_drop_table_with :
      String → Option (Ddl State (Unit {0})) → Ddl State (Unit {0})
  unfolding with_app_lock drop_table
  locked_drop_table_with table_name after =
      with_app_lock server locked schema_name
        (do drop_table server schema_name table_name; after_drop after)

  unfoldable pub locked_drop_table : String → Ddl State (Unit {0})
  unfolding locked_drop_table_with
  locked_drop_table table_name = locked_drop_table_with table_name none

  unfoldable pub locked_apply_column_constraint_changes :
      String → List ColumnConstraintChange → Ddl State (List String)
  unfolding with_app_lock apply_column_constraint_changes
  locked_apply_column_constraint_changes table_name changes =
      with_app_lock server locked schema_name
        (apply_column_constraint_changes server schema_name table_name changes)

  unfoldable pub locked_add_column_foreign_key :
      String → String → ReferenceConfig → Ddl State (Unit {0})
  unfolding with_app_lock add_column_foreign_key
  locked_add_column_foreign_key table_name column_name ref =
      with_app_lock server locked schema_name
        (add_column_foreign_key server schema_name table_name column_name ref)

  unfoldable pub locked_drop_column_foreign_key : String → String → Ddl State Bool
  unfolding with_app_lock drop_column_foreign_key
  locked_drop_column_foreign_key table_name column_name =
      with_app_lock server locked schema_name
        (drop_column_foreign_key server schema_name table_name column_name)

  unfoldable pub locked_replace_column_enum_values :
      String → String → List String → List String → Ddl State (Unit {0})
  unfolding with_app_lock replace_column_enum_values
  locked_replace_column_enum_values table_name column_name old_values new_values =
      with_app_lock server locked schema_name
        (replace_column_enum_values server schema_name table_name column_name old_values new_values)
