-- ===== src/Provisioner/Table/Required.antt =====
-- Required columns without a default, on a table that has rows.
use zeep_orbit.Prelude.{
  ℕ, suc, String, true, none, List, [], ◌∷◌, Result, ok, err, ◌≡◌, refl, inl, inr, In, Bool-cases,
}
use zeep_orbit.Prelude.Text.{concat}
use zeep_orbit.Config.{ColumnConfig}
use zeep_orbit.Provisioner.Ddl.{
  Server, DdlError, column_constraint, required_without_default, rows, qualified,
}
use zeep_orbit.Provisioner.Table.{
  column_names_query, needs_value, check_required, add_missing_columns,
}

-- The refusal names a column of the call that needs a value, and counts the rows.
abbrev pub IsRefused :
    {S A : Type 0} → List String → List ColumnConfig → ℕ → S → S × Result DdlError A → Type 0
IsRefused existing cols n s r =
    (c : ColumnConfig) × In c cols
    × (needs_value existing c ≡ true)
    × (r ≡ (
      s,
      err (
          column_constraint (record {
            column = c.name;
            reason = required_without_default;
            count = n;
            cause = none;
          })),
    ))

module _ (server : Server) (schema_name table_name : String) where
  open server use {State, read_count, read_names}

  abbrev pub HasRows : ℕ → State → Type 0
  HasRows n s =
      read_count (concat ("SELECT COUNT(*) FROM " ∷ qualified schema_name table_name ∷ [])) s ≡ ok n

  check_required-IsRefused :
      (existing : List String) (cols : List ColumnConfig) (col : ColumnConfig) (n : ℕ) (s : State)
      → In col cols
      → needs_value existing col ≡ true
      → HasRows (suc n) s
      → IsRefused existing cols
          (suc n)
          s
          (check_required server schema_name table_name existing cols s)
  unfolding check_required
  check_required-IsRefused existing [] col n s m e h = elim m [ ]
  check_required-IsRefused existing (c ∷ cols) col n s m e h =
      elim (Bool-cases (needs_value existing c)) [
        | inl f ↦ (c, inl refl, f, rw (f, h) refl)
        | inr f ↦
            let later : In col cols = elim m [ inl q ↦ cc | inr i ↦ i ] in
            let (d, i, g, r) = check_required-IsRefused existing cols col n s later e h in
            (d, inr i, g, rw (f, check_required) r)
      ]

  -- If the table has rows and one of the columns that addMissingColumns is to add is required and has
  -- no default, it is refused with the typed error for such a column, and no statement has run.
  pub add_missing_columns-IsRefused :
      (existing : List String) (cols : List ColumnConfig) (rls : String) (col : ColumnConfig)
      (n : ℕ) (s : State)
      → read_names column_names_query (schema_name ∷ table_name ∷ []) s ≡ rows existing
      → In col cols
      → needs_value existing col ≡ true
      → HasRows (suc n) s
      → IsRefused existing cols
          (suc n)
          s
          (add_missing_columns server schema_name table_name cols rls s)
  unfolding add_missing_columns
  add_missing_columns-IsRefused existing cols rls col n s q m e h =
      let (c, i, g, r) = check_required-IsRefused existing cols col n s m e h in
      (c, i, g, rw (q, r) refl)
