-- ===== src/Provisioner/Constraints/Altered.antt =====
-- What a change of required, default and unique makes of a table, described by its statements.
use zeep_orbit.Prelude.{String, Bool, true, false, List, [], ◌∷◌, ok, ◌≡◌, ◌==◌}
use zeep_orbit.Prelude.Text.{cat, concat}
use zeep_orbit.Prelude.Text.Quoting.{quote}
use zeep_orbit.Config.{ColumnConfig}
use zeep_orbit.Provisioner.Columns.{default_sql}
use zeep_orbit.Provisioner.Ddl.{Server, qualified}
use zeep_orbit.Provisioner.Constraints.Diff.{ColumnConstraintChange, default_changed}
use zeep_orbit.Provisioner.Constraints.{
  count_nulls_sql, count_duplicates_sql, single_column_unique_constraints,
}

-- One statement on a column.
pub data Alteration : Type 0 where
  set_not_null drop_not_null drop_default add_unique : Alteration
  set_default : ColumnConfig → Alteration
  drop_constraint : String → Alteration

-- From what the column was and what it is to be.
abbrev pub nullability : Bool → Bool → List Alteration
nullability false true = set_not_null ∷ []
nullability true false = drop_not_null ∷ []
nullability false false = []
nullability true true = []

abbrev pub default_alteration : ColumnConfig → Bool → List Alteration
default_alteration new true = drop_default ∷ []
default_alteration new false = set_default new ∷ []

abbrev pub drops : List String → List Alteration
drops [] = []
drops (name ∷ names) = drop_constraint name ∷ drops names

-- A constraint is only added where there is none, and all that there are go.
abbrev pub uniqueness : Bool → List String → List Alteration
uniqueness true [] = add_unique ∷ []
uniqueness true (name ∷ names) = []
uniqueness false names = drops names

module _ (col : String) where
  abbrev pub column_action : String → String
  column_action action = concat ("ALTER COLUMN " ∷ quote col ∷ " " ∷ action ∷ [])

  abbrev pub action_of : Alteration → String
  action_of set_not_null = column_action "SET NOT NULL"
  action_of drop_not_null = column_action "DROP NOT NULL"
  action_of drop_default = column_action "DROP DEFAULT"
  action_of add_unique = concat ("ADD UNIQUE (" ∷ quote col ∷ ")" ∷ [])
  action_of (set_default new) = column_action (cat "SET DEFAULT " (default_sql new))
  action_of (drop_constraint name) = concat ("DROP CONSTRAINT " ∷ quote name ∷ [])

module _ (server : Server) (schema_name table_name : String) where
  open server use {State, begin, commit, exec, read_count}

  -- A statement ran without an error.
  abbrev pub HasRun : String → Alteration → State → State → Type 0
  HasRun col a s s' =
      exec (concat ("ALTER TABLE " ∷ qualified schema_name table_name ∷ " " ∷ action_of col a ∷ []))
        [] s
      ≡ ok s'

  -- One after another.
  abbrev pub HaveRun : String → List Alteration → State → State → Type 0
  HaveRun col [] s s' = s' ≡ s
  HaveRun col (a ∷ alterations) s s' =
      (next : State) × HasRun col a s next × HaveRun col alterations next s'

  -- What is required of the table before a change, and what is read from it.
  abbrev pub HasNoNulls : Bool → Bool → String → State → Type 0
  HasNoNulls false true col s =
      read_count (count_nulls_sql server schema_name table_name col) s ≡ ok 0
  HasNoNulls false false col s = Unit
  HasNoNulls true new col s = Unit

  abbrev pub HasNoDuplicates : Bool → Bool → String → State → Type 0
  HasNoDuplicates false true col s =
      read_count (count_duplicates_sql server schema_name table_name col) s ≡ ok 0
  HasNoDuplicates false false col s = Unit
  HasNoDuplicates true new col s = Unit

  -- The constraints that the change goes by are those of the state in which it is made.
  abbrev pub LookedUp : Bool → String → State → State → Type 0
  LookedUp new col s s' =
      (names : List String) × (single_column_unique_constraints server schema_name table_name col s
        ≡ (s, ok names))
      × HaveRun col (uniqueness new names) s s'

  abbrev pub IsUniqueSet : Bool → Bool → String → State → State → Type 0
  IsUniqueSet false false col s s' = s' ≡ s
  IsUniqueSet true true col s s' = s' ≡ s
  IsUniqueSet false true col s s' = LookedUp true col s s'
  IsUniqueSet true false col s s' = LookedUp false col s s'

  abbrev pub IsDefaultSet : Bool → ColumnConfig → State → State → Type 0
  IsDefaultSet true new s s' = HaveRun new.name (default_alteration new (new.default == "")) s s'
  IsDefaultSet false new s s' = s' ≡ s

  abbrev pub IsAltered : ColumnConstraintChange → State → State → Type 0
  IsAltered ch s s' =
      (s1 : State) × (s2 : State) × HasNoNulls ch.old.required ch.new.required ch.new.name s
      × HasNoDuplicates ch.old.unique ch.new.unique ch.new.name s
      × HaveRun ch.new.name (nullability ch.old.required ch.new.required) s s1
      × IsDefaultSet (default_changed ch) ch.new s1 s2
      × IsUniqueSet ch.old.unique ch.new.unique ch.new.name s2 s'

  abbrev pub AreAltered : List ColumnConstraintChange → State → State → Type 0
  AreAltered [] s s' = s' ≡ s
  AreAltered (ch ∷ changes) s s' = (next : State) × IsAltered ch s next × AreAltered changes next s'
