-- ===== src/Examples/Ddl.antt =====
-- A table of orders whose columns are changed.
use zeep_orbit.Prelude.{ℕ, String, true, false, none, some, List, [], ◌∷◌, ok, ◌≡◌, refl}
use zeep_orbit.Prelude.Text.{after_prefix, join, replace_all}
use zeep_orbit.Config.{ColumnConfig, AppConfig}
use zeep_orbit.Provisioner.Columns.{quoted_value_list}
use zeep_orbit.Provisioner.Columns.Literals.{read_values, read_values-quoted_value_list}
use zeep_orbit.Provisioner.Ddl.{Server, rows}
use zeep_orbit.Provisioner.Migration.{apply_column_changes}
use zeep_orbit.Provisioner.Migration.Safe.{IsReadAndAllowed, apply_column_changes-IsAllowed}
use zeep_orbit.Provisioner.Constraints.{apply_column_constraint_changes}
use zeep_orbit.Provisioner.Constraints.Diff.{ColumnConstraintChange}
use zeep_orbit.Provisioner.Constraints.Applied.{
  IsAllOrNone, apply_column_constraint_changes-IsAllOrNone,
}
use zeep_orbit.Provisioner.Apply.{apply}
use zeep_orbit.Provisioner.Apply.Atomic.{IsPrefixApplied, apply-IsPrefixApplied}

-- The state lists the statements that have run, the last one first.
abbrev server_counting : ℕ → Server
server_counting n = record {
  State = List String;
  begin = λ s. none;
  commit = λ s. ok s;
  exec = λ sql args s. ok (sql ∷ s);
  read_flag = λ sql args s. ok false;
  read_count = λ sql s. ok n;
  read_name = λ sql args s. ok "orders_fk";
  read_pair = λ sql args s. ok ("items", "order_id");
  read_names = λ sql args s. rows ("id" ∷ []);
  read_pairs = λ sql args s. rows (("total", "int4") ∷ []);
  read_presence = λ sql args s. ok (0, false);
  read_counts = λ sql args s. rows (("open", 0) ∷ ("paid", 2) ∷ []);
}

abbrev log_server : Server
log_server = server_counting 3

abbrev column : String → String → ColumnConfig
column name type = record {
  name = name;
  type = type;
  required = true;
  default = "";
  default_is_expression = false;
  unique = false;
  rename_from = "";
  references = none;
  allowed_values = [];
}

abbrev total : ColumnConfig
total = column "total" "bigint"

read_values-quoted_value_list_example :
    read_values 2 "'it''s', 'b'))" ≡ some ("it's" ∷ "b" ∷ [], "))")
unfolding after_prefix quoted_value_list join replace_all
read_values-quoted_value_list_example =
    read_values-quoted_value_list "it's" ("b" ∷ []) "))" ((λ e. cc), refl)

apply_column_changes-IsAllowed_example :
    IsReadAndAllowed log_server
      (λ s. s)
      "shop"
      "orders"
      (total ∷ [])
      []
      (apply_column_changes log_server (λ s. s) "shop" "orders" (total ∷ []) []).0
unfolding apply_column_changes
apply_column_changes-IsAllowed_example =
    apply_column_changes-IsAllowed log_server (λ s. s) "shop" "orders" (total ∷ []) [] refl

-- The amount becomes optional and unique.
abbrev amount_changes : List ColumnConstraintChange
amount_changes =
    record {
      old = column "amount" "bigint";
      new = record (column "amount" "bigint") { required = false; unique = true };
    }
    ∷ []

amount_statements :
    apply_column_constraint_changes (server_counting 0) "shop" "orders" amount_changes [] ≡ (
      "ALTER TABLE \"shop\".\"orders\" ALTER COLUMN \"amount\" DROP NOT NULL" ∷ [],
      ok ("shop.orders.amount (required removed)" ∷ "shop.orders.amount (unique set)" ∷ []),
    )
unfolding apply_column_constraint_changes
amount_statements = refl

apply_column_constraint_changes-IsAllOrNone_example :
    IsAllOrNone
      (server_counting 0)
      "shop"
      "orders"
      amount_changes
      []
      (apply_column_constraint_changes (server_counting 0) "shop" "orders" amount_changes [])
apply_column_constraint_changes-IsAllOrNone_example =
    apply_column_constraint_changes-IsAllOrNone (server_counting 0) "shop" "orders" amount_changes
      []

abbrev shops : List AppConfig
shops =
    record {
      name = "my-shop";
      auth = record { jwt_secret = "s"; email = false };
      tables = record { name = "orders"; rls = ""; columns = total ∷ []; indexes = [] } ∷ [];
      storage = none;
      rate_limit = none;
    }
    ∷ []

apply-IsPrefixApplied_example :
    IsPrefixApplied log_server (λ s. s) shops [] (apply log_server (λ s. s) shops [])
apply-IsPrefixApplied_example = apply-IsPrefixApplied log_server (λ s. s) shops []
