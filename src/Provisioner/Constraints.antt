-- ===== src/Provisioner/Constraints.antt =====
-- Changes of required, default and unique on columns that exist: internal/provisioner/column_constraints.go.
pub mod Diff
pub mod Altered
pub mod Steps
pub mod Applied
use zeep_orbit.Prelude.{
  ℕ, zero, suc, String, Bool, true, false, Option, none, some, List, [], ◌∷◌, ◌++◌, ◌==◌, ◌||◌,
  ◌&&◌, not, if◌then◌else◌, is_empty,
}
use zeep_orbit.Prelude.Text.{cat, concat, after_prefix}
use zeep_orbit.Prelude.Text.Quoting.{quote}
use zeep_orbit.Config.{ColumnConfig}
use zeep_orbit.Provisioner.Columns.{is_system_column, default_sql}
use zeep_orbit.Provisioner.Constraints.Diff.{
  ColumnConstraintChange, required_changed, unique_changed, default_changed,
}
use zeep_orbit.Provisioner.Ddl.{
  Server, Ddl, DdlError, DbError, pg_error, wrapped, plain, column_constraint,
  ColumnConstraintReason, null_values, duplicate_values, invalid_default, unique_referenced, ◌>>=◌,
  ◌>>◌, give, fail, execute, read_as, read_all, in_transaction, qualified, qualified_column, dotted,
}

unfoldable pub rejected : String → ColumnConstraintReason → ℕ → Option DbError → DdlError
rejected column reason count cause =
    column_constraint (record { column = column; reason = reason; count = count; cause = cause })

-- `strings.HasPrefix(code, "22")`
abbrev has_prefix_22 : Option String → Bool
has_prefix_22 none = false
has_prefix_22 (some rest) = true

abbrev change_failed : String → DbError → DdlError
change_failed column e = wrapped (concat ("table: change constraints of " ∷ quote column ∷ [])) e

unfoldable pub constraint_ddl_error : String → DbError → DdlError
unfolding rejected quote
constraint_ddl_error column (pg_error code detail) =
    let cause = some (pg_error code detail) in
    if code == "23502"
    then rejected column null_values 0 cause
    else if code == "23505"
    then rejected column duplicate_values 0 cause
    else if code == "2BP01"
    then rejected column unique_referenced 0 cause
    else if has_prefix_22 (after_prefix "22" code) || (code == "42804" || code == "42846")
    then rejected column invalid_default 0 cause
    else change_failed column (pg_error code detail)
constraint_ddl_error column e = change_failed column e

-- `if n > 0`
abbrev pub reject_some : {S : Type 0} → String → ColumnConstraintReason → ℕ → Ddl S (Unit {0})
reject_some column reason zero = give tt
reject_some column reason (suc n) = fail (rejected column reason (suc n) none)

module _ (server : Server) (schema_name table_name : String) where
  open server use {State, read_count, read_names}

  unfoldable pub count_nulls_sql : String → String
  unfolding qualified quote
  count_nulls_sql col = concat (
      "SELECT COUNT(*) FROM "
      ∷ qualified schema_name table_name
      ∷ " WHERE "
      ∷ quote col
      ∷ " IS NULL"
      ∷ [])

  unfoldable pub check_nulls : String → Ddl State (Unit {0})
  unfolding count_nulls_sql qualified_column rejected
  check_nulls col = do
    nulls ← λ s.
        read_as
          (wrapped
            (concat ("table: count NULLs in " ∷ qualified_column schema_name table_name col ∷ [])))
          s (read_count (count_nulls_sql col) s)
    reject_some col null_values nulls

  unfoldable pub count_duplicates_sql : String → String
  unfolding qualified quote
  count_duplicates_sql col = concat (
      "SELECT COUNT(*) FROM (SELECT 1 FROM "
      ∷ qualified schema_name table_name
      ∷ " WHERE "
      ∷ quote col
      ∷ " IS NOT NULL GROUP BY "
      ∷ quote col
      ∷ " HAVING COUNT(*) > 1) d"
      ∷ [])

  unfoldable pub check_duplicates : String → Ddl State (Unit {0})
  unfolding count_duplicates_sql qualified_column rejected
  check_duplicates col = do
    dupes ← λ s.
        read_as
          (wrapped (
            concat
              ("table: count duplicates in " ∷ qualified_column schema_name table_name col ∷ [])))
          s (read_count (count_duplicates_sql col) s)
    reject_some col duplicate_values dupes

  unfoldable pub check_column_constraint_change : ColumnConstraintChange → Ddl State (Unit {0})
  unfolding required_changed unique_changed check_nulls check_duplicates
  check_column_constraint_change ch = do
    (if required_changed ch && ch.new.required then check_nulls ch.new.name else give tt)
    (if unique_changed ch && ch.new.unique then check_duplicates ch.new.name else give tt)

  unfoldable pub check_column_constraint_changes :
      List ColumnConstraintChange → Ddl State (Unit {0})
  unfolding check_column_constraint_change
  check_column_constraint_changes [] = give tt
  check_column_constraint_changes (ch ∷ changes) = do
    check_column_constraint_change ch
    check_column_constraint_changes changes

  unfoldable pub single_column_unique_constraints : String → Ddl State (List String)
  unfolding qualified_column
  single_column_unique_constraints column s =
      read_all
        (wrapped (
          concat (
            "table: list unique constraints on "
            ∷ qualified_column schema_name table_name column
            ∷ [])))
        (wrapped "table: scan unique constraint name") plain s
        (read_names
          "SELECT c.conname FROM pg_constraint c JOIN pg_class cl ON cl.oid = c.conrelid JOIN pg_namespace n ON n.oid = cl.relnamespace JOIN pg_attribute a ON a.attrelid = cl.oid AND a.attnum = c.conkey[1] WHERE c.contype = 'u' AND n.nspname = $1 AND cl.relname = $2 AND array_length(c.conkey, 1) = 1 AND a.attname = $3 ORDER BY c.conname"
          (schema_name ∷ table_name ∷ column ∷ []) s)

  -- `ALTER TABLE %q.%q` and the action, with the errors of `constraintDDLError`.
  unfoldable pub alter : String → String → Ddl State (Unit {0})
  unfolding qualified constraint_ddl_error
  alter col action =
      execute server (constraint_ddl_error col)
        (concat ("ALTER TABLE " ∷ qualified schema_name table_name ∷ " " ∷ action ∷ [])) []

  abbrev pub alter_column : String → String → Ddl State (Unit {0})
  alter_column col action = alter col (concat ("ALTER COLUMN " ∷ quote col ∷ " " ∷ action ∷ []))

  unfoldable pub described : String → String → String
  unfolding dotted
  described col desc = concat (dotted schema_name table_name col ∷ " (" ∷ desc ∷ ")" ∷ [])

  unfoldable pub apply_required : ColumnConstraintChange → Ddl State (List String)
  unfolding required_changed alter described quote
  apply_required ch =
      if required_changed ch
      then (do
        alter_column ch.new.name (if ch.new.required then "SET NOT NULL" else "DROP NOT NULL")
        give (
            described ch.new.name (if ch.new.required then "required set" else "required removed")
            ∷ []))
      else give []

  unfoldable pub apply_default : ColumnConstraintChange → Ddl State (List String)
  unfolding default_changed alter described default_sql quote
  apply_default ch =
      if default_changed ch
      then (do
        alter_column ch.new.name (
            if ch.new.default == ""
            then "DROP DEFAULT"
            else cat "SET DEFAULT " (default_sql ch.new))
        give (
            described ch.new.name
              (if ch.new.default == "" then "default removed" else "default set")
            ∷ []))
      else give []

  unfoldable pub drop_constraints : String → List String → Ddl State (Unit {0})
  unfolding alter quote
  drop_constraints col [] = give tt
  drop_constraints col (name ∷ names) = do
    alter col (concat ("DROP CONSTRAINT " ∷ quote name ∷ []))
    drop_constraints col names

  unfoldable pub set_unique : Bool → String → List String → Ddl State (List String)
  unfolding alter described drop_constraints quote
  set_unique true col names = do
    (if is_empty names then alter col (concat ("ADD UNIQUE (" ∷ quote col ∷ ")" ∷ [])) else give tt)
    give (described col "unique set" ∷ [])
  set_unique false col names = do
    drop_constraints col names
    give (described col "unique removed" ∷ [])

  unfoldable pub apply_unique : ColumnConstraintChange → Ddl State (List String)
  unfolding unique_changed single_column_unique_constraints set_unique
  apply_unique ch =
      if unique_changed ch
      then (do
        names ← single_column_unique_constraints ch.new.name
        set_unique ch.new.unique ch.new.name names)
      else give []

  unfoldable pub apply_changes : List ColumnConstraintChange → Ddl State (List String)
  unfolding check_column_constraint_change apply_required apply_default apply_unique
  apply_changes [] = give []
  apply_changes (ch ∷ changes) = do
    check_column_constraint_change ch
    required ← apply_required ch
    default ← apply_default ch
    unique ← apply_unique ch
    applied ← apply_changes changes
    give (required ++ (default ++ (unique ++ applied)))

  -- In a transaction of its own, or a savepoint of the one that holds the lock.
  unfoldable pub apply_column_constraint_changes :
      List ColumnConstraintChange → Ddl State (List String)
  unfolding apply_changes qualified
  apply_column_constraint_changes [] = give []
  apply_column_constraint_changes (ch ∷ changes) =
      in_transaction server
        (wrapped
          (concat ("table: begin constraint changes on " ∷ qualified schema_name table_name ∷ [])))
        (wrapped
          (concat ("table: commit constraint changes on " ∷ qualified schema_name table_name ∷ [])))
        (apply_changes (ch ∷ changes))
