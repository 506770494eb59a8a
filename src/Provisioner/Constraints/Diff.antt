-- ===== src/Provisioner/Constraints/Diff.antt =====
-- The changes of required, default and unique that a request asks for: DiffColumnConstraints of
-- internal/provisioner/column_constraints.go.
use zeep_orbit.Prelude.{
  String, Bool, true, false, Option, none, some, List, [], ◌∷◌, ◌++◌, ◌==◌, ◌||◌, not,
  if◌then◌else◌,
}
use zeep_orbit.Config.{ColumnConfig}
use zeep_orbit.Provisioner.Columns.{is_system_column}

pub record ColumnConstraintChange : Type 0 where
  pub old : ColumnConfig
  pub new : ColumnConfig

-- `a != b`, on Booleans.
abbrev pub differs : Bool → Bool → Bool
differs true b = not b
differs false b = b

unfoldable pub required_changed : ColumnConstraintChange → Bool
required_changed c = differs c.old.required c.new.required

unfoldable pub unique_changed : ColumnConstraintChange → Bool
unique_changed c = differs c.old.unique c.new.unique

unfoldable pub default_changed : ColumnConstraintChange → Bool
default_changed c =
    not (c.old.default == c.new.default)
    || differs c.old.default_is_expression c.new.default_is_expression

-- The map `before`: the last column of a name counts.
unfoldable pub before : List ColumnConfig → String → Option ColumnConfig
before [] name = none
before (c ∷ cols) name = elim (before cols name) [
  | some later ↦ some later
  | none ↦ if c.name == name then some c else none
]

unfoldable pub is_change : ColumnConstraintChange → Bool
unfolding required_changed default_changed unique_changed
is_change ch = required_changed ch || (default_changed ch || unique_changed ch)

-- `old, existed := before[c.Name]`, and what the loop appends for it.
unfoldable pub change_of : ColumnConfig → Option ColumnConfig → List ColumnConstraintChange
unfolding is_change
change_of c none = []
change_of c (some old) =
    if is_change (record { old = old; new = c }) then record { old = old; new = c } ∷ [] else []

unfoldable pub diff_loop :
    (String → Option ColumnConfig) → List ColumnConfig → List ColumnConstraintChange
unfolding change_of is_system_column
diff_loop found [] = []
diff_loop found (c ∷ cols) =
    (if is_system_column c.name then [] else change_of c (found c.name)) ++ diff_loop found cols

unfoldable pub diff_column_constraints :
    List ColumnConfig → List ColumnConfig → List ColumnConstraintChange
unfolding before diff_loop
diff_column_constraints old_cols new_cols = diff_loop (before old_cols) new_cols
