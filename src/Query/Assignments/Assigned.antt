-- ===== src/Query/Assignments/Assigned.antt =====
-- What the loop over the columns appends: assign_columns of Query.Assignments.
use zeep_orbit.Prelude.{
  String, true, false, List, [], ◌∷◌, keys, lookup, In, All, Result, ok, err, ◌>>=◌, contains, none,
  some, Option-cases, Bool-cases, guard-eq-ok, contains-eq_true, ◌≡◌, ◌⊎◌, inl, inr, refl,
  All-of_in, All-at, sym, ap, subst,
}
use zeep_orbit.Registry.{Column, Table}
use zeep_orbit.Query.{Value, QueryError, unknown_body_field, is_system_field, column_set}
use zeep_orbit.Query.Values.{TimeParsers, normalize}
use zeep_orbit.Query.Assignments.{check_body, assign_columns}

both :
    {A B C : Type 0} (m : Result QueryError A) (f : A → B) (k : B → Result QueryError C) {c : C}
    → ((m >>= λ a. ok (f a)) >>= k) ≡ ok c
    → (a : A) × (m ≡ ok a) × (k (f a) ≡ ok c)
both (ok a) f k h = (a, refl, h)
both (err e) f k h = absurd (cc)

-- Every key of an accepted body is a system field or a column of the table.
pub check_body-known :
    (table : Table) (body : List (String × Value))
    → check_body table body ≡ ok tt
    → All (λ key. (is_system_field key ≡ true) ⊎ In key (column_set table)) (keys body)
unfolding check_body
check_body-known table [] h = tt
check_body-known table ((key, val) ∷ body) h = elim (Bool-cases (is_system_field key)) [
  | inl e ↦ (inl e, check_body-known table body (rw (e, check_body) at h))
  | inr e ↦
      let (known, rest) =
        guard-eq-ok (contains key (column_set table)) (unknown_body_field key)
          (check_body table body) (rw (e, check_body) at h) in
      (inr (contains-eq_true key (column_set table) known), check_body-known table body rest)
]

-- The appends, in turn.
abbrev pub apply : {S : Type 0} → (String → Value → S → S) → List (String × Value) → S → S
apply append [] s = s
apply append ((name, val) ∷ ps) s = apply append ps (append name val s)

module _ (time : TimeParsers) (types : String → String) (body : List (String × Value)) where
  -- The pair of a name and a value is a column of the table that is no system field, with the value
  -- that the body gives it, once normalized.
  pub record Assigned (cols : List Column) (p : String × Value) : Type 0 where
    pub column : Column
    pub is_column : In column cols
    pub name_is : p.0 ≡ column.name
    pub not_system : is_system_field column.name ≡ false
    pub given : Value
    pub is_given : lookup column.name body ≡ some given
    pub is_normal : normalize time column (types column.name) given ≡ ok (p.1)

  -- All the columns that the body gives are among the names.
  pub IsComplete : List Column → List String → Type 0
  IsComplete cols names =
      (col : Column) (val : Value)
      → In col cols
      → is_system_field col.name ≡ false
      → lookup col.name body ≡ some val
      → In col.name names

  module _ {S : Type 0} (append : String → Value → S → S) where
    -- A run of the loop appends the assignments of the body, all of them and no others.
    pub record Ran (cols : List Column) (s t : S) : Type 0 where
      pub assignments : List (String × Value)
      pub each : All (Assigned cols) assignments
      pub is_complete : IsComplete cols (keys assignments)
      pub applied : t ≡ apply append assignments s

    Assigned-later :
        (col : Column) (cols : List Column) (p : String × Value)
        → Assigned cols p
        → Assigned (col ∷ cols) p
    Assigned-later col cols p h = record {
      column = h.column;
      is_column = inr h.is_column;
      name_is = h.name_is;
      not_system = h.not_system;
      given = h.given;
      is_given = h.is_given;
      is_normal = h.is_normal;
    }

    All-later :
        (col : Column) (cols : List Column) (ps : List (String × Value))
        → All (Assigned cols) ps
        → All (Assigned (col ∷ cols)) ps
    All-later col cols ps h = All-of_in _ ps (λ p m. Assigned-later col cols p (All-at _ ps p h m))

    -- A column that is passed over.
    Ran-skip :
        (col : Column) (cols : List Column) (s t : S)
        → (is_system_field col.name ≡ true) ⊎ (lookup col.name body ≡ none)
        → Ran cols s t
        → Ran (col ∷ cols) s t
    unfolding IsComplete
    Ran-skip col cols s t why h = record {
      assignments = h.assignments;
      each = All-later col cols h.assignments h.each;
      is_complete = λ c val m k e. elim m [
        | inl p ↦ absurd (elim why [
          | inl y ↦ (let k' = subst (λ z. is_system_field z.name ≡ false) p k in cc)
          | inr y ↦ (let e' = subst (λ z. lookup z.name body ≡ some val) p e in cc)
        ])
        | inr m ↦ h.is_complete c val m k e
      ];
      applied = h.applied;
    }

    -- A column that is assigned.
    Ran-assign :
        (col : Column) (cols : List Column) (s t : S) (val checked : Value)
        → is_system_field col.name ≡ false
        → lookup col.name body ≡ some val
        → normalize time col (types col.name) val ≡ ok checked
        → Ran cols (append col.name checked s) t
        → Ran (col ∷ cols) s t
    unfolding IsComplete
    Ran-assign col cols s t val checked e f n h = record {
      assignments = (col.name, checked) ∷ h.assignments;
      each = (
        record {
          column = col;
          is_column = inl refl;
          name_is = refl;
          not_system = e;
          given = val;
          is_given = f;
          is_normal = n;
        },
        All-later col cols h.assignments h.each,
      );
      is_complete = λ c v m k i. elim m [
        | inl p ↦ inl (ap (λ z. z.name) p)
        | inr m ↦ inr (h.is_complete c v m k i)
      ];
      applied = h.applied;
    }

    pub assign_columns-Ran :
        (cols : List Column) (s : S) {t : S}
        → assign_columns append time types body cols s ≡ ok t
        → Ran cols s t
    unfolding assign_columns IsComplete
    assign_columns-Ran [] s {t} h = record {
      assignments = [];
      each = tt;
      is_complete = λ col val m. elim m [ ];
      applied = (let e : s ≡ t = cc in sym e);
    }
    assign_columns-Ran (col ∷ cols) s {t} h = elim (Bool-cases (is_system_field col.name)) [
      | inl e ↦
          Ran-skip col cols s t (inl e) (assign_columns-Ran cols s (rw (e, assign_columns) at h))
      | inr e ↦ elim (Option-cases (lookup col.name body)) [
        | inl f ↦
            Ran-skip col cols s t (inr f)
              (assign_columns-Ran cols s (rw (e, f, assign_columns) at h))
        | inr (val, f) ↦
            let (checked, n, k) =
              both (normalize time col (types col.name) val) (λ c. append col.name c s)
                (assign_columns append time types body cols) (rw (e, f, assign_columns) at h) in
            Ran-assign col cols s t val checked e f n
              (assign_columns-Ran cols (append col.name checked s) k)
      ]
    ]
