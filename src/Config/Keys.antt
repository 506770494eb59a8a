-- ===== src/Config/Keys.antt =====
-- The foreign keys of a table to other tables.
use zeep_orbit.Prelude.{String, some, ◌≡◌, ◌≢◌, In}
use zeep_orbit.Config.{TableConfig, ColumnConfig, ReferenceConfig}

-- A column of `t` has a foreign key to another table, which is named `n`.
pub record Refers (t : TableConfig) (n : String) : Type 0 where
  pub column : ColumnConfig
  pub listed : In column t.columns
  pub reference : ReferenceConfig
  pub declared : column.references ≡ some reference
  pub target : reference.table ≡ n
  pub other : n ≢ t.name
