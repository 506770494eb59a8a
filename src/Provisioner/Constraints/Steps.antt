-- ===== src/Provisioner/Constraints/Steps.antt =====
-- The parts of one change: applyColumnConstraintChanges, without its checks.
use zeep_orbit.Prelude.{
  String, Bool, true, false, List, [], ◌∷◌, ok, ◌≡◌, refl, inl, inr, Bool-cases, if◌then◌else◌,
  ◌==◌,
}
use zeep_orbit.Prelude.Text.{cat, concat}
use zeep_orbit.Config.{ColumnConfig}
use zeep_orbit.Provisioner.Columns.{default_sql}
use zeep_orbit.Provisioner.Ddl.{Server, give, ◌>>◌, ◌>>=◌, proceed, qualified}
use zeep_orbit.Provisioner.Ddl.Ending.{
  Ending, Ending-map, proceed-Ending, settle-Ending, read_all-Ending,
}
use zeep_orbit.Provisioner.Constraints.Diff.{
  ColumnConstraintChange, differs, required_changed, unique_changed, default_changed,
}
use zeep_orbit.Provisioner.Constraints.{
  constraint_ddl_error, single_column_unique_constraints, alter, apply_required, apply_default,
  drop_constraints, set_unique, apply_unique, described,
}
use zeep_orbit.Provisioner.Constraints.Altered.{
  Alteration, set_not_null, drop_not_null, drop_default, add_unique, set_default, drop_constraint,
  nullability, default_alteration, drops, uniqueness, column_action, action_of, HasRun, HaveRun,
  LookedUp, IsUniqueSet, IsDefaultSet,
}

module _ (server : Server) (schema_name table_name : String) where
  open server use {State, begin, commit, exec, read_count}

  alter-HasRun :
      (col : String) (a : Alteration) (s : State)
      → Ending
          (λ s' (done : Unit {0}). HasRun server schema_name table_name col a s s')
          (alter server schema_name table_name col (action_of col a) s)
  unfolding alter
  alter-HasRun col a s =
      settle-Ending (λ s' done. HasRun server schema_name table_name col a s s')
        (constraint_ddl_error col) s
        (exec
          (concat ("ALTER TABLE " ∷ qualified schema_name table_name ∷ " " ∷ action_of col a ∷ []))
          [] s)
        (λ s' e. e)

  -- One alteration, and what the code says of it.
  altered-HaveRun :
      (col said : String) (a : Alteration) (s : State)
      → Ending
          (λ s' (applied : List String). HaveRun server schema_name table_name col (a ∷ []) s s')
          (proceed
            (λ (done : Unit {0}). give (said ∷ []))
            (alter server schema_name table_name col (action_of col a) s))
  altered-HaveRun col said a s =
      proceed-Ending (λ s' done. HasRun server schema_name table_name col a s s')
        (λ s' applied. HaveRun server schema_name table_name col (a ∷ []) s s')
        (alter server schema_name table_name col (action_of col a) s) (λ done. give (said ∷ []))
        (alter-HasRun col a s) (λ s1 done ran. (s1, ran, refl))

  nullability-HaveRun :
      (old new : Bool) (col : String) (s : State)
      → Ending
          (λ s' (applied : List String).
            HaveRun server schema_name table_name col (nullability old new) s s')
          ((if differs old new
              then (do
                alter server schema_name table_name col
                    (column_action col (if new then "SET NOT NULL" else "DROP NOT NULL"))
                give (
                    described server schema_name table_name col
                      (if new then "required set" else "required removed")
                    ∷ []))
              else give [])
            s)
  nullability-HaveRun false true col s = altered-HaveRun col _ set_not_null s
  nullability-HaveRun true false col s = altered-HaveRun col _ drop_not_null s
  nullability-HaveRun false false col s = refl
  nullability-HaveRun true true col s = refl

  pub apply_required-HaveRun :
      (ch : ColumnConstraintChange) (s : State)
      → Ending
          (λ s' (applied : List String).
            HaveRun server schema_name table_name ch.new.name
              (nullability ch.old.required ch.new.required)
              s
              s')
          (apply_required server schema_name table_name ch s)
  unfolding apply_required required_changed
  apply_required-HaveRun ch s = nullability-HaveRun ch.old.required ch.new.required ch.new.name s

  default-HaveRun :
      (new : ColumnConfig) (to_none : Bool) (s : State)
      → Ending
          (λ s' (applied : List String).
            HaveRun server schema_name table_name new.name (default_alteration new to_none) s s')
          ((do
            alter server schema_name table_name new.name (
                column_action new.name
                  (if to_none then "DROP DEFAULT" else cat "SET DEFAULT " (default_sql new)))
            give (
                described server schema_name table_name new.name
                  (if to_none then "default removed" else "default set")
                ∷ []))
            s)
  default-HaveRun new true s = altered-HaveRun new.name _ drop_default s
  default-HaveRun new false s = altered-HaveRun new.name _ (set_default new) s

  pub apply_default-IsDefaultSet :
      (ch : ColumnConstraintChange) (s : State)
      → Ending
          (λ s' (applied : List String).
            IsDefaultSet server schema_name table_name (default_changed ch) ch.new s s')
          (apply_default server schema_name table_name ch s)
  unfolding apply_default
  apply_default-IsDefaultSet ch s = elim (Bool-cases (default_changed ch)) [
    | inl e ↦ rw e (default-HaveRun ch.new (ch.new.default == "") s)
    | inr e ↦ rw e refl
  ]

  drop_constraints-HaveRun :
      (col : String) (names : List String) (s : State)
      → Ending
          (λ s' (done : Unit {0}). HaveRun server schema_name table_name col (drops names) s s')
          (drop_constraints server schema_name table_name col names s)
  unfolding drop_constraints
  drop_constraints-HaveRun col [] s = refl
  drop_constraints-HaveRun col (name ∷ names) s =
      let Dropped : State → Unit {0} → Type 0 =
        λ s' done. HaveRun server schema_name table_name col (drops (name ∷ names)) s s' in
      proceed-Ending
        (λ s' done. HasRun server schema_name table_name col (drop_constraint name) s s') Dropped
        (alter server schema_name table_name col (action_of col (drop_constraint name)) s)
        (λ done. drop_constraints server schema_name table_name col names)
        (alter-HasRun col (drop_constraint name) s)
        (λ s1 done ran.
          Ending-map (λ s' done. HaveRun server schema_name table_name col (drops names) s1 s')
            Dropped (drop_constraints server schema_name table_name col names s1)
            (λ s2 also rest. (s1, ran, rest)) (drop_constraints-HaveRun col names s1))

  set_unique-HaveRun :
      (new : Bool) (col : String) (names : List String) (s : State)
      → Ending
          (λ s' (applied : List String).
            HaveRun server schema_name table_name col (uniqueness new names) s s')
          (set_unique server schema_name table_name new col names s)
  unfolding set_unique
  set_unique-HaveRun true col [] s = altered-HaveRun col _ add_unique s
  set_unique-HaveRun true col (name ∷ names) s = refl
  set_unique-HaveRun false col names s =
      proceed-Ending (λ s' done. HaveRun server schema_name table_name col (drops names) s s')
        (λ s' (applied : List String). HaveRun server schema_name table_name col (drops names) s s')
        (drop_constraints server schema_name table_name col names s)
        (λ done. give (described server schema_name table_name col "unique removed" ∷ []))
        (drop_constraints-HaveRun col names s) (λ s1 done ran. ran)

  single_column_unique_constraints-Ending :
      (col : String) (s : State)
      → Ending
          (λ s' names.
            (s' ≡ s)
            × (single_column_unique_constraints server schema_name table_name col s
                ≡ (s, ok names)))
          (single_column_unique_constraints server schema_name table_name col s)
  unfolding single_column_unique_constraints
  single_column_unique_constraints-Ending col s = read_all-Ending _ _ _ s _

  look_up-LookedUp :
      (new : Bool) (col : String) (s : State)
      → Ending
          (λ s' (applied : List String). LookedUp server schema_name table_name new col s s')
          (proceed
            (set_unique server schema_name table_name new col)
            (single_column_unique_constraints server schema_name table_name col s))
  look_up-LookedUp new col s =
      let found = single_column_unique_constraints server schema_name table_name col s in
      let Done : State → List String → Type 0 =
        λ s' applied. LookedUp server schema_name table_name new col s s' in
      proceed-Ending (λ s' names. (s' ≡ s) × (found ≡ (s, ok names))) Done found
        (set_unique server schema_name table_name new col)
        (single_column_unique_constraints-Ending col s)
        (λ s1 names p. rw p.0 (
          Ending-map
            (λ s' applied. HaveRun server schema_name table_name col (uniqueness new names) s s')
            Done (set_unique server schema_name table_name new col names s)
            (λ s2 applied ran. (names, p.1, ran)) (set_unique-HaveRun new col names s)))

  uniqueness-IsUniqueSet :
      (old new : Bool) (col : String) (s : State)
      → Ending
          (λ s' (applied : List String). IsUniqueSet server schema_name table_name old new col s s')
          ((if differs old new
              then (do
                names ← single_column_unique_constraints server schema_name table_name col
                set_unique server schema_name table_name new col names)
              else give [])
            s)
  uniqueness-IsUniqueSet false true col s = look_up-LookedUp true col s
  uniqueness-IsUniqueSet true false col s = look_up-LookedUp false col s
  uniqueness-IsUniqueSet false false col s = refl
  uniqueness-IsUniqueSet true true col s = refl

  pub apply_unique-IsUniqueSet :
      (ch : ColumnConstraintChange) (s : State)
      → Ending
          (λ s' (applied : List String).
            IsUniqueSet server schema_name table_name ch.old.unique ch.new.unique ch.new.name s s')
          (apply_unique server schema_name table_name ch s)
  unfolding apply_unique unique_changed
  apply_unique-IsUniqueSet ch s = uniqueness-IsUniqueSet ch.old.unique ch.new.unique ch.new.name s
