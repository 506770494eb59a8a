-- ===== src/Provisioner/Migration/Retyped.antt =====
-- The statements that applyColumnChanges runs for type changes.
use zeep_orbit.Prelude.{
  String, true, false, Option, none, some, List, [], ◌∷◌, Result, ok, err, ◌≡◌, ◌≢◌, ◌⊎◌, Bool,
  refl, inl, inr, Bool-cases, String-cases, contains, lookup,
}
use zeep_orbit.Prelude.Text.{concat}
use zeep_orbit.Prelude.Text.Quoting.{quote}
use zeep_orbit.Config.{ColumnConfig}
use zeep_orbit.Provisioner.Types.{pg_type, pg_type_to_udt, lower_pg_type, safe_type_conversions}
use zeep_orbit.Provisioner.Columns.{is_system_column}
use zeep_orbit.Provisioner.Ddl.{
  Server, Ddl, DdlError, DbError, settle, give, ◌>>◌, qualified, proceed, ◌>>=◌,
}
use zeep_orbit.Provisioner.Ddl.Ending.{Ending, Ending-map, proceed-Ending}
use zeep_orbit.Provisioner.Migration.{
  Existing, noted, alter_type_sql, record_migration, run_type_change, change_to, change_from,
  apply_type_change, apply_type_changes,
}

once_lem :
    {S : Type 0} (P : S → Type 0) (failed : DbError → DdlError) (x : String) (s : S)
    (r : Result DbError S)
    → ((s' : S) → r ≡ ok s' → P s')
    → Ending
        (λ s' (change : String). P s')
        (proceed (λ (done : Unit {0}). give x) (settle failed s r))
once_lem P failed x s (ok s') h = h s' refl
once_lem P failed x s (err e) h = tt

-- Two statements that both must succeed.
twice_lem :
    {S : Type 0} (P : S → Type 0) (run : S → Result DbError S) (failed failed' : DbError → DdlError)
    (x : String) (s : S) (r : Result DbError S)
    → ((t s' : S) → r ≡ ok t → run t ≡ ok s' → P s')
    → Ending
        (λ s' (change : String). P s')
        (proceed
          (λ (done : Unit {0}). (λ t. settle failed' t (run t)) >> give x)
          (settle failed s r))
twice_lem P run failed failed' x s (ok t) h = once_lem P failed' x t (run t) (λ s' e. h t s' refl e)
twice_lem P run failed failed' x s (err e) h = tt

module _ (server : Server) (digest : String → String) (schema_name table_name : String) where
  open server use {State, exec}

  -- The column was altered, and this was recorded.
  abbrev pub HasRetyped : ColumnConfig → State → State → Type 0
  HasRetyped col s s' =
      (altered : State) × (args : List String) × (exec
          (concat (
            "ALTER TABLE "
            ∷ qualified schema_name table_name
            ∷ " ALTER COLUMN "
            ∷ quote col.name
            ∷ " TYPE "
            ∷ pg_type col.type
            ∷ " USING "
            ∷ quote col.name
            ∷ "::"
            ∷ lower_pg_type (pg_type col.type)
            ∷ []))
          [] s
        ≡ ok altered)
      × (exec
            (concat (
              "INSERT INTO "
              ∷ quote schema_name
              ∷ ".\"_schema_migrations\" (migration_id, description, sql_executed) VALUES ($1, $2, $3)"
              ∷ []))
            args altered
          ≡ ok s')

  -- Nothing is done where there is no such column or it has its type already.
  abbrev pub IsRetyped : ColumnConfig → Option String → State → State → Type 0
  IsRetyped col none s s' = s' ≡ s
  IsRetyped col (some current_type) s s' =
      ((current_type ≡ pg_type_to_udt (pg_type col.type)) × (s' ≡ s))
      ⊎ ((current_type ≢ pg_type_to_udt (pg_type col.type)) × HasRetyped col s s')

  abbrev pub IsDone : ColumnConfig → Existing → State → State → Type 0
  IsDone col existing s s' =
      ((is_system_column col.name ≡ true) × (s' ≡ s))
      ⊎ ((is_system_column col.name ≡ false) × IsRetyped col (existing col.name) s s')

  abbrev pub AreDone : List ColumnConfig → Existing → State → State → Type 0
  AreDone [] existing s s' = s' ≡ s
  AreDone (col ∷ cols) existing s s' =
      (next : State) × IsDone col existing s next × AreDone cols existing next s'

  run_type_change-HasRetyped :
      (col : ColumnConfig) (current_type desired_type : String) (s : State)
      → Ending
          (λ s' (change : String). HasRetyped col s s')
          (run_type_change server digest schema_name table_name col current_type desired_type s)
  unfolding run_type_change record_migration alter_type_sql
  run_type_change-HasRetyped col current_type desired_type s =
      twice_lem (HasRetyped col s) (exec _ _) _ _ _ s (exec _ [] s)
        (λ altered s' e f. (altered, _, e, f))

  change_to-HasRetyped :
      (col : ColumnConfig) (current_type desired_type : String) (targets : Option (List String))
      (s : State)
      → Ending
          (λ s' (change : String). HasRetyped col s s')
          (change_to server digest schema_name table_name col current_type desired_type targets s)
  change_to-HasRetyped col current_type desired_type none s = tt
  change_to-HasRetyped col current_type desired_type (some targets) s =
      elim (Bool-cases (contains desired_type targets)) [
        | inl e ↦ rw e (run_type_change-HasRetyped col current_type desired_type s)
        | inr e ↦ rw e tt
      ]

  change_from-IsRetyped :
      (col : ColumnConfig) (udt : Option String) (s : State)
      → Ending
          (λ s' (change : String). IsRetyped col udt s s')
          (change_from server digest schema_name table_name col udt s)
  change_from-IsRetyped col none s = refl
  change_from-IsRetyped col (some current_type) s =
      let desired_type = pg_type_to_udt (pg_type col.type) in
      let found = lookup current_type safe_type_conversions in
      elim (String-cases current_type desired_type) [
        | inl (e, p) ↦ rw e (inl (p, refl))
        | inr (e, p) ↦ rw e (
            Ending-map (λ s' (change : String). HasRetyped col s s')
              (λ s' change. IsRetyped col (some current_type) s s')
              (change_to server digest schema_name table_name col current_type desired_type found s)
              (λ s' change has. inr (p, has))
              (change_to-HasRetyped col current_type desired_type found s))
      ]

  apply_type_change-IsDone :
      (col : ColumnConfig) (existing : Existing) (s : State)
      → Ending
          (λ s' (change : String). IsDone col existing s s')
          (apply_type_change server digest schema_name table_name col existing s)
  unfolding apply_type_change
  apply_type_change-IsDone col existing s = elim (Bool-cases (is_system_column col.name)) [
    | inl e ↦ rw e (inl (refl, refl))
    | inr e ↦ rw e (
        Ending-map (λ s' (change : String). IsRetyped col (existing col.name) s s')
          (λ s' change.
            ((false ≡ true) × (s' ≡ s))
            ⊎ ((◌≡◌ {A = Bool} false false) × IsRetyped col (existing col.name) s s'))
          (change_from server digest schema_name table_name col (existing col.name) s)
          (λ s' change done. inr (refl, done)) (change_from-IsRetyped col (existing col.name) s))
  ]

  pub apply_type_changes-AreDone :
      (cols : List ColumnConfig) (existing : Existing) (s : State)
      → Ending
          (λ s' (changes : List String). AreDone cols existing s s')
          (apply_type_changes server digest schema_name table_name cols existing s)
  unfolding apply_type_changes
  apply_type_changes-AreDone [] existing s = refl
  apply_type_changes-AreDone (col ∷ cols) existing s =
      let rest = apply_type_changes server digest schema_name table_name cols existing in
      let finish : String → List String → Ddl State (List String) =
        λ change changes. give (noted change changes) in
      let All : State → List String → Type 0 = λ s' changes. AreDone (col ∷ cols) existing s s' in
      proceed-Ending (λ s' change. IsDone col existing s s') All
        (apply_type_change server digest schema_name table_name col existing s)
        (λ change. rest >>= finish change) (apply_type_change-IsDone col existing s)
        (λ s1 change done.
          proceed-Ending (λ s' changes. AreDone cols existing s1 s') All (rest s1) (finish change)
            (apply_type_changes-AreDone cols existing s1) (λ s2 changes others. (s1, done, others)))
