-- ===== src/Provisioner/Migration/Safe.antt =====
-- Which type changes go through.
use zeep_orbit.Prelude.{
  String, true, false, Option, none, some, List, [], ◌∷◌, ◌++◌, ok, ◌≡◌, ◌⊎◌, refl, inl, inr, In,
  All, Bool-cases, String-cases, lookup, contains, contains-eq_true,
}
use zeep_orbit.Config.{ColumnConfig}
use zeep_orbit.Provisioner.Types.{pg_type, pg_type_to_udt, safe_type_conversions}
use zeep_orbit.Provisioner.Columns.{is_system_column}
use zeep_orbit.Provisioner.Ddl.{
  Server, Implied, Implied-of_proof, Implied-at_ok, Implied-map, Implied-both, proceed-of_first,
  Ddl, give, ◌>>=◌,
}
use zeep_orbit.Provisioner.Ddl.Ending.{Ending, Ending-step, Ending-at_ok}
use zeep_orbit.Provisioner.Migration.Retyped.{AreDone, apply_type_changes-AreDone}
use zeep_orbit.Provisioner.Migration.{
  Existing, fetch_existing_columns, change_from, change_to, apply_type_change, apply_type_changes,
  apply_column_changes, run_type_change, apply_renames, ensure_migration_table, noted,
}

-- The table of conversions lists the pair.
abbrev pub IsListed : String → String → Type 0
IsListed current_type desired_type =
    (targets : List String) × (lookup current_type safe_type_conversions ≡ some targets)
    × In desired_type targets

-- A type that the column may be given: there is nothing to change, or the change is listed.
abbrev pub IsAllowedFrom : String → Option String → Type 0
IsAllowedFrom desired_type none = Unit
IsAllowedFrom desired_type (some current_type) =
    (current_type ≡ desired_type) ⊎ IsListed current_type desired_type

abbrev pub IsAllowed : Existing → ColumnConfig → Type 0
IsAllowed existing col =
    (is_system_column col.name ≡ true)
    ⊎ IsAllowedFrom (pg_type_to_udt (pg_type col.type)) (existing col.name)

module _ (server : Server) (digest : String → String) (schema_name table_name : String) where
  open server use {State}

  change_to-IsListed :
      (col : ColumnConfig) (current_type desired_type : String) (targets : Option (List String))
      (s : State)
      → Implied
          ((found : List String) × (targets ≡ some found) × In desired_type found)
          (change_to server digest schema_name table_name col current_type desired_type targets s)
  change_to-IsListed col current_type desired_type none s = tt
  change_to-IsListed col current_type desired_type (some targets) s =
      elim (Bool-cases (contains desired_type targets)) [
        | inl e ↦ rw e (
            Implied-of_proof
              ((found : List String) × (some targets ≡ some found) × In desired_type found)
              (run_type_change server digest schema_name table_name col current_type desired_type s)
              (targets, refl, contains-eq_true desired_type targets e))
        | inr e ↦ rw e tt
      ]

  change_from-IsAllowedFrom :
      (col : ColumnConfig) (udt : Option String) (s : State)
      → Implied
          (IsAllowedFrom (pg_type_to_udt (pg_type col.type)) udt)
          (change_from server digest schema_name table_name col udt s)
  change_from-IsAllowedFrom col none s = tt
  change_from-IsAllowedFrom col (some current_type) s =
      let desired_type = pg_type_to_udt (pg_type col.type) in
      let found = lookup current_type safe_type_conversions in
      elim (String-cases current_type desired_type) [
        | inl (e, p) ↦ rw e (inl p)
        | inr (e, p) ↦ rw e (
            Implied-map (IsListed current_type desired_type)
              (IsAllowedFrom desired_type (some current_type))
              (change_to server digest schema_name table_name col current_type desired_type found s)
              (λ listed. inr listed) (change_to-IsListed col current_type desired_type found s))
      ]

  apply_type_change-IsAllowed :
      (col : ColumnConfig) (existing : Existing) (s : State)
      → Implied
          (IsAllowed existing col)
          (apply_type_change server digest schema_name table_name col existing s)
  unfolding apply_type_change
  apply_type_change-IsAllowed col existing s = elim (Bool-cases (is_system_column col.name)) [
    | inl e ↦ rw e (inl refl)
    | inr e ↦ rw e (
        Implied-map (IsAllowedFrom (pg_type_to_udt (pg_type col.type)) (existing col.name))
          ((false ≡ true) ⊎ IsAllowedFrom (pg_type_to_udt (pg_type col.type)) (existing col.name))
          (change_from server digest schema_name table_name col (existing col.name) s)
          (λ allowed. inr allowed) (change_from-IsAllowedFrom col (existing col.name) s))
  ]

  apply_type_changes-IsAllowed :
      (cols : List ColumnConfig) (existing : Existing) (s : State)
      → Implied
          (All (IsAllowed existing) cols)
          (apply_type_changes server digest schema_name table_name cols existing s)
  unfolding apply_type_changes
  apply_type_changes-IsAllowed [] existing s = tt
  apply_type_changes-IsAllowed (col ∷ cols) existing s =
      let rest = apply_type_changes server digest schema_name table_name cols existing in
      let finish : String → List String → Ddl State (List String) =
        λ change changes. give (noted change changes) in
      Implied-both (IsAllowed existing col) (All (IsAllowed existing) cols)
        (apply_type_change server digest schema_name table_name col existing s)
        (λ change. rest >>= finish change) (apply_type_change-IsAllowed col existing s)
        (λ s1 change.
          proceed-of_first (All (IsAllowed existing) cols) (rest s1) (finish change)
            (apply_type_changes-IsAllowed cols existing s1))

  -- What a run from a state to another went by: the renames, the catalog that is read after them, in
  -- which each column is allowed its type, and the type changes that were made.
  abbrev pub IsReadAndAllowed : List ColumnConfig → State → State → Type 0
  IsReadAndAllowed cols s s' =
      (made : State) × (first_read : State) × (before : Existing) × (renamed : State)
      × (names : List String) × (second_read : State) × (existing : Existing)
      × (ensure_migration_table server schema_name s ≡ (made, ok tt))
      × (fetch_existing_columns server schema_name table_name made ≡ (first_read, ok before))
      × (apply_renames server digest schema_name table_name cols before first_read
          ≡ (renamed, ok names))
      × (fetch_existing_columns server schema_name table_name renamed ≡ (second_read, ok existing))
      × All (IsAllowed existing) cols
      × AreDone server digest schema_name table_name cols existing second_read s'

  apply_column_changes-Ending :
      (cols : List ColumnConfig) (s : State)
      → Ending
          (λ s' (changes : List String). IsReadAndAllowed cols s s')
          (apply_column_changes server digest schema_name table_name cols s)
  unfolding apply_column_changes
  apply_column_changes-Ending cols s =
      let P : State → List String → Type 0 = λ s' changes. IsReadAndAllowed cols s s' in
      let fetch = fetch_existing_columns server schema_name table_name in
      let change = apply_type_changes server digest schema_name table_name cols in
      let rename = apply_renames server digest schema_name table_name cols in
      let join_up : List String → List String → Ddl State (List String) =
        λ renamed changed. give (renamed ++ changed) in
      let retype : List String → Existing → Ddl State (List String) =
        λ renamed existing. change existing >>= join_up renamed in
      let reread : List String → Ddl State (List String) = λ renamed. fetch >>= retype renamed in
      Ending-step P (ensure_migration_table server schema_name s)
        (λ made. fetch >>= λ before. rename before >>= reread)
        (λ s1 made e1.
          Ending-step P (fetch s1) (λ before. rename before >>= reread)
            (λ s2 before e2. Ending-step P (rename before s2) reread (λ s3 renamed e3.
              Ending-step P (fetch s3) (retype renamed) (λ s4 existing e4.
                Ending-step P (change existing s4) (join_up renamed) (λ s5 changed e5.
                  let allowed =
                    Implied-at_ok (All (IsAllowed existing) cols) (change existing s4)
                      (apply_type_changes-IsAllowed cols existing s4) e5 in
                  let done =
                    Ending-at_ok
                      (λ s' (changes : List String).
                        AreDone server digest schema_name table_name cols existing s4 s')
                      (change existing s4)
                      (apply_type_changes-AreDone server digest schema_name table_name cols existing
                        s4)
                      e5 in
                  (s1, s2, before, s3, renamed, s4, existing, e1, e2, e3, e4, allowed, done))))))

  -- If applyColumnChanges succeeds, then each column of the call is, in the catalog that this run reads
  -- after its renames, a system column, not there, of its type already, or given a type that
  -- safeTypeConversions lists for it. From that read to the end of the run, each column of the
  -- call that is there under no system column's name with another type is altered to its type, which
  -- is recorded, and no other statement runs.
  pub apply_column_changes-IsAllowed :
      (cols : List ColumnConfig) (s : State) {s' : State} {changes : List String}
      → apply_column_changes server digest schema_name table_name cols s ≡ (s', ok changes)
      → IsReadAndAllowed cols s s'
  apply_column_changes-IsAllowed cols s h =
      Ending-at_ok (λ t (changes : List String). IsReadAndAllowed cols s t)
        (apply_column_changes server digest schema_name table_name cols s)
        (apply_column_changes-Ending cols s) h
