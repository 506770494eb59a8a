-- ===== src/Provisioner/EnumValues/InUse.antt =====
-- Values that rows still have.
use zeep_orbit.Prelude.{
  ℕ, zero, suc, String, List, [], ◌∷◌, Result, err, ◌≡◌, refl, inl, inr, In, Bool-cases, contains,
  contains-eq_true, ap,
}
use zeep_orbit.Provisioner.Ddl.{Server, DdlError, rows, enum_value_in_use}
use zeep_orbit.Provisioner.EnumValues.{
  removed_values, used_only, count_query, refuse_used, check_removed, replace_column_enum_values,
}

in-removed_values :
    (v : String) (old_values new_values : List String)
    → In v old_values
    → ¬ In v new_values
    → In v (removed_values old_values new_values)
unfolding removed_values
in-removed_values v [] new_values m a = elim m [ ]
in-removed_values v (w ∷ old_values) new_values m a = elim (Bool-cases (contains w new_values)) [
  | inl e ↦ rw e (elim m [
    | inl p ↦ absurd (a (rw p (contains-eq_true w new_values e)))
    | inr i ↦ in-removed_values v old_values new_values i a
  ])
  | inr e ↦
      rw e (elim m [ inl p ↦ inl p | inr i ↦ inr (in-removed_values v old_values new_values i a) ])
]

in-used_only :
    (v : String) (n : ℕ) (counts : List (String × ℕ))
    → In (v, suc n) counts
    → In (v, suc n) (used_only counts)
unfolding used_only
in-used_only v n [] m = elim m [ ]
in-used_only v n ((w, zero) ∷ counts) (inl e) = absurd (cc (ap (λ (p : String × ℕ). p.1) e))
in-used_only v n ((w, zero) ∷ counts) (inr i) = in-used_only v n counts i
in-used_only v n ((w, suc k) ∷ counts) (inl e) = inl e
in-used_only v n ((w, suc k) ∷ counts) (inr i) = inr (in-used_only v n counts i)

module _ (server : Server) (schema_name table_name column_name : String) where
  open server use {State, read_counts}

  abbrev pub in_use : {A : Type 0} → State → List (String × ℕ) → State × Result DdlError A
  in_use s counts = (s, err (enum_value_in_use (record { column = column_name; counts = counts })))

  refuse_used-of_in :
      (p : String × ℕ) (counts : List (String × ℕ)) (s : State)
      → In p counts
      → refuse_used server schema_name table_name column_name counts s ≡ in_use s counts
  unfolding refuse_used
  refuse_used-of_in p [] s m = elim m [ ]
  refuse_used-of_in p (q ∷ counts) s m = refl

  check_removed-of_in :
      (v : String) (n : ℕ) (removed : List String) (counts : List (String × ℕ)) (s : State)
      → In v removed
      → read_counts (count_query server schema_name table_name column_name) removed s ≡ rows counts
      → In (v, suc n) counts
      → check_removed server schema_name table_name column_name removed s
        ≡ in_use s (used_only counts)
  unfolding check_removed
  check_removed-of_in v n [] counts s m q i = elim m [ ]
  check_removed-of_in v n (w ∷ removed) counts s m q i =
      rw q (refuse_used-of_in (v, suc n) (used_only counts) s (in-used_only v n counts i))

  -- An old value that is no new one and that rows still have is never dropped: if the count of the
  -- removed values has it with a positive number, replaceColumnEnumValues returns the error that lists
  -- the values in use, this one among them, and no statement has run.
  pub replace_column_enum_values-of_used :
      (v : String) (n : ℕ) (old_values new_values : List String) (counts : List (String × ℕ))
      (s : State)
      → In v old_values
      → ¬ In v new_values
      → read_counts
          (count_query server schema_name table_name column_name)
          (removed_values old_values new_values)
          s
        ≡ rows counts
      → In (v, suc n) counts
      → (replace_column_enum_values server schema_name table_name column_name old_values new_values
            s
          ≡ in_use s (used_only counts))
        × In (v, suc n) (used_only counts)
  unfolding replace_column_enum_values
  replace_column_enum_values-of_used v n old_values new_values counts s m a q i =
      let refused =
        check_removed-of_in v n (removed_values old_values new_values) counts s
          (in-removed_values v old_values new_values m a) q i in
      (rw refused refl, in-used_only v n counts i)
