-- ===== src/Query/Insert/Inserted.antt =====
-- What BuildInsertWithOptions of internal/query/builder.go writes into a row.
use mathlib.Core.List.{append_assoc, append-nil}
use zeep_orbit.Prelude.{
  not_nil-of_not_empty, ℕ, suc, String, Bool, true, false, not, List, [], ◌∷◌, ◌++◌, length, keys,
  lookup, In, All, Result, ok, err, ◌>>=◌, ◌>>◌, guard, is_empty, some, none, Option, guard-eq-ok,
  Bool-cases, length-append, ◌≡◌, ◌≢◌, ◌⊎◌, inl, inr, refl, sym, subst, ap, String-cases, arith,
  ◌∙◌,
}
use zeep_orbit.Registry.{Column, Table}
use zeep_orbit.Query.Insert.Finished.{Inserts, finish_insert-Inserts}
use zeep_orbit.Query.{
  Value, text, nil, QueryError, nothing_to_insert, missing_field, WriteQuery, column_types,
  column_set, is_system_field, placeholder,
}
use zeep_orbit.Query.Values.{TimeParsers}
use zeep_orbit.Query.Assignments.{check_body, assign_columns}
use zeep_orbit.Query.Spelled.{place}
use zeep_orbit.Query.Assignments.Assigned.{
  Assigned, IsComplete, apply, assign_columns-Ran, check_body-known,
}
use zeep_orbit.Query.Insert.{
  Row, no_columns, add_column, add_owner, is_missing, check_required, finish_insert, InsertOptions,
  build_insert_with_options,
}

false-of_not : (b : Bool) → not b ≡ true → b ≡ false
false-of_not true h = cc
false-of_not false h = refl

is_missing-eq_false :
    (o : Option Value) → is_missing o ≡ false → (v : Value) × (o ≡ some v) × (v ≢ nil)
unfolding is_missing
is_missing-eq_false none h = absurd (cc)
is_missing-eq_false (some v) h =
    (v, refl, λ e. absurd (let w = subst (λ z. is_missing (some z) ≡ false) e h in cc))

-- Every required column has a value in an accepted body, and the value is not null.
check_required-given :
    (cols : List Column) (body : List (String × Value))
    → check_required cols body ≡ ok tt
    → (col : Column) → In col cols
    → col.required ≡ true
    → (v : Value) × (lookup col.name body ≡ some v) × (v ≢ nil)
unfolding check_required
check_required-given [] body h col m r = elim m [ ]
check_required-given (c ∷ cols) body h col m r = elim (Bool-cases c.required) [
  | inl e ↦
      let (given, rest) =
        guard-eq-ok (not (is_missing (lookup c.name body))) (missing_field c.name)
          (check_required cols body) (rw (e, check_required) at h) in
      elim m [
        | inl p ↦
            subst (λ z. (v : Value) × (lookup z.name body ≡ some v) × (v ≢ nil)) (sym p)
              (is_missing-eq_false (lookup c.name body)
                (false-of_not (is_missing (lookup c.name body)) given))
        | inr m ↦ check_required-given cols body rest col m r
      ]
  | inr e ↦ elim m [
    | inl p ↦ absurd (let w = subst (λ z. z.required ≡ true) p r in cc)
    | inr m ↦ check_required-given cols body (rw (e, check_required) at h) col m r
  ]
]

-- The placeholders of assignments whose values stand after `n` other arguments.
pub place_list : (String → String) → ℕ → List (String × Value) → List String
place_list types n [] = []
place_list types n ((name, val) ∷ ps) = place (suc n) (types name) ∷ place_list types (suc n) ps

abbrev pub values : List (String × Value) → List Value
values [] = []
values ((name, val) ∷ ps) = val ∷ values ps

-- The row of these assignments.
abbrev pub row_of : (String → String) → List (String × Value) → Row
row_of types ps = record { cols = keys ps; placeholders = place_list types 0 ps; args = values ps }

-- The owner's column stands behind the others.
abbrev pub owned_row_of : (String → String) → List (String × Value) → String → Row
owned_row_of types ps owner_id = record {
  cols = keys ps ++ "owner_id" ∷ [];
  placeholders = place_list types 0 ps ++ place (suc (length ps)) "uuid" ∷ [];
  args = values ps ++ text owner_id ∷ [];
}

module _ (types : String → String) where
  apply-add_column :
      (ps : List (String × Value)) (r : Row)
      → ((apply (add_column types) ps r).cols ≡ r.cols ++ keys ps)
        × ((apply (add_column types) ps r).placeholders
            ≡ r.placeholders ++ place_list types (length r.args) ps)
        × ((apply (add_column types) ps r).args ≡ r.args ++ values ps)
  unfolding add_column placeholder place_list
  apply-add_column [] r =
      (sym (append-nil r.cols), sym (append-nil r.placeholders), sym (append-nil r.args))
  apply-add_column ((name, val) ∷ ps) r =
      let (c, p, a) = apply-add_column ps (add_column types name val r) in
      let n = length r.args in
      let count : length (r.args ++ val ∷ []) ≡ suc n =
        omega (arith, length-append r.args (val ∷ [])) in
      let here = place (suc n) (types name) in
      let move : r.placeholders ++ here ∷ [] ++ place_list types (length (r.args ++ val ∷ [])) ps
          ≡ r.placeholders ++ (here ∷ place_list types (suc n) ps) =
        rw count (append_assoc r.placeholders (here ∷ []) (place_list types (suc n) ps)) in
      (
        c ∙ append_assoc r.cols (name ∷ []) (keys ps),
        p ∙ move,
        a ∙ append_assoc r.args (val ∷ []) (values ps),
      )

row_same : {r s : Row} → r.cols ≡ s.cols → r.placeholders ≡ s.placeholders → r.args ≡ s.args → r ≡ s
row_same h k l = λ i. record { cols = h i; placeholders = k i; args = l i }

four_steps :
    {S T : Type 0} (a b : Result QueryError (Unit {0})) (c : Result QueryError S) (p : S → Bool)
    (e : QueryError) (k : S → Result QueryError T) {t : T}
    → (a >> (b >> (c >>= λ s. guard (p s) e >> k s))) ≡ ok t
    → (s : S) × (a ≡ ok tt) × (b ≡ ok tt) × (c ≡ ok s) × (p s ≡ true) × (k s ≡ ok t)
four_steps (err x) b c p e k h = absurd (cc)
four_steps (ok u) (err x) c p e k h = absurd (cc)
four_steps (ok u) (ok v) (err x) p e k h = absurd (cc)
four_steps (ok u) (ok v) (ok s) p e k h =
    let (holds, done) = guard-eq-ok (p s) e (k s) h in (s, refl, refl, refl, holds, done)

length-values : (ps : List (String × Value)) → length (values ps) ≡ length ps
length-values [] = refl
length-values ((name, val) ∷ ps) = ap suc (length-values ps)

add_owner-none :
    (types : String → String) (ps : List (String × Value)) (owner_id : String)
    → owner_id ≡ ""
    → add_owner owner_id (row_of types ps) ≡ row_of types ps
unfolding add_owner
add_owner-none types ps owner_id p = rw p refl

add_owner-some :
    (types : String → String) (ps : List (String × Value)) (owner_id : String)
    → owner_id ≢ ""
    → add_owner owner_id (row_of types ps) ≡ owned_row_of types ps owner_id
unfolding add_owner add_column placeholder
add_owner-some types ps owner_id h = elim (String-cases owner_id "") [
  | inl (e, p) ↦ absurd (h p)
  | inr (e, p) ↦ rw (e, length-values ps) refl
]

-- An INSERT is right for its request. Its row has the columns that the body gives, all of them and
-- no system field, with their normalized values, and the owner's column if there is an owner; each
-- required column has a value.
pub record IsInsertOf (time : TimeParsers) (schema_name table_name : String) (table : Table)
    (body : List (String × Value)) (owner_id : String) (opts : InsertOptions) (q : WriteQuery)
    : Type 0 where
  pub assignments : List (String × Value)
  pub each : All (Assigned time (column_types table) body table.columns) assignments
  pub is_complete : IsComplete time (column_types table) body table.columns (keys assignments)
  pub keys_known : All (λ key. (is_system_field key ≡ true) ⊎ In key (column_set table)) (keys body)
  pub required_given :
      (col : Column)
      → In col table.columns
      → col.required ≡ true
      → (v : Value) × (lookup col.name body ≡ some v) × (v ≢ nil)
  pub without_owner :
      owner_id ≡ ""
      → Inserts schema_name table_name table opts (row_of (column_types table) assignments) q
  pub with_owner :
      owner_id ≢ ""
      → Inserts schema_name table_name table opts
          (owned_row_of (column_types table) assignments owner_id)
          q

-- If BuildInsertWithOptions returns a query, its row has exactly the columns of the table that the
-- body gives and that are no system field, with their normalized values, and the owner's column if
-- there is an owner; every key of the body is known, and every required column has a value that is
-- not null. The statement inserts this row, which has a column, and its arguments are the row's, with
-- an owner filter's behind them; it ends as the conflict options say.
pub build_insert_with_options-IsInsertOf :
    (time : TimeParsers) (schema_name table_name : String) (table : Table)
    (body : List (String × Value)) (owner_id : String) (opts : InsertOptions) (q : WriteQuery)
    → build_insert_with_options time schema_name table_name table body owner_id opts ≡ ok q
    → IsInsertOf time schema_name table_name table body owner_id opts q
unfolding build_insert_with_options
build_insert_with_options-IsInsertOf time schema_name table_name table body owner_id opts q h =
    let types = column_types table in
    let (row, checked, given, ran, some_column, done) =
      four_steps (check_body table body) (check_required table.columns body)
        (assign_columns (add_column types) time types body table.columns no_columns)
        (λ r. not (is_empty (add_owner owner_id r).cols)) nothing_to_insert
        (λ r. finish_insert schema_name table_name table opts (add_owner owner_id r)) h in
    let run = assign_columns-Ran time types body (add_column types) table.columns no_columns ran in
    let (cols, places, args) = apply-add_column types run.assignments no_columns in
    let same : row ≡ row_of types run.assignments = run.applied ∙ row_same cols places args in
    let filled : (add_owner owner_id (row_of types run.assignments)).cols ≢ [] =
      subst (λ r. (add_owner owner_id r).cols ≢ []) same
        (not_nil-of_not_empty (add_owner owner_id row).cols some_column) in
    let finished : finish_insert schema_name table_name table opts
          (add_owner owner_id (row_of types run.assignments))
        ≡ ok q =
      subst (λ r. finish_insert schema_name table_name table opts (add_owner owner_id r) ≡ ok q)
        same done in
    record {
      assignments = run.assignments;
      each = run.each;
      is_complete = run.is_complete;
      keys_known = check_body-known table body checked;
      required_given = check_required-given table.columns body given;
      without_owner = λ p.
          let shown = add_owner-none types run.assignments owner_id p in
          finish_insert-Inserts schema_name table_name table opts (row_of types run.assignments) q
            (subst (λ r. r.cols ≢ []) shown filled)
            (subst (λ r. finish_insert schema_name table_name table opts r ≡ ok q) shown finished);
      with_owner = λ p.
          let shown = add_owner-some types run.assignments owner_id p in
          finish_insert-Inserts schema_name table_name table opts
            (owned_row_of types run.assignments owner_id) q (subst (λ r. r.cols ≢ []) shown filled)
            (subst (λ r. finish_insert schema_name table_name table opts r ≡ ok q) shown finished);
    }
