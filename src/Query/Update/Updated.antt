-- ===== src/Query/Update/Updated.antt =====
-- What BuildUpdate of internal/query/builder.go promises.
use mathlib.Core.List.{append_assoc, append-nil}
use zeep_orbit.Prelude.{
  not_nil-of_not_empty, ℕ, suc, String, Bool, true, not, List, [], ◌∷◌, ◌++◌, length, keys, In, All,
  Result, ok, err, ◌>>=◌, ◌>>◌, guard, is_empty, guard-eq-ok, String-cases, length-append, ◌≡◌, ◌≢◌,
  ◌⊎◌, inl, inr, refl, sym, subst, ap, arith, ◌∙◌,
}
use zeep_orbit.Prelude.Text.{concat, join}
use zeep_orbit.Prelude.Text.Numbers.{itoa}
use zeep_orbit.Registry.{Table}
use zeep_orbit.Query.{
  Value, text, QueryError, nothing_to_update, WriteQuery, column_types, column_set, is_system_field,
  placeholder,
}
use zeep_orbit.Query.Values.{TimeParsers}
use zeep_orbit.Query.Assignments.{check_body, assign_columns}
use zeep_orbit.Query.Spelled.{place}
use zeep_orbit.Query.Assignments.Assigned.{
  Assigned, IsComplete, apply, assign_columns-Ran, check_body-known,
}
use zeep_orbit.Query.Update.{
  Changes, no_changes, set_clause, add_change, row_condition, row_args, update_query, build_update,
}

-- The SET clauses of assignments whose values stand after `n` other arguments.
pub set_list : (String → String) → ℕ → List (String × Value) → List String
set_list types n [] = []
set_list types n ((name, val) ∷ ps) =
    concat (name ∷ " = " ∷ place (suc n) (types name) ∷ []) ∷ set_list types (suc n) ps

abbrev pub values : List (String × Value) → List Value
values [] = []
values ((name, val) ∷ ps) = val ∷ values ps

module _ (types : String → String) where
  apply-add_change_args :
      (ps : List (String × Value)) (c : Changes)
      → (apply (add_change types) ps c).args ≡ c.args ++ values ps
  unfolding add_change
  apply-add_change_args [] c = sym (append-nil c.args)
  apply-add_change_args ((name, val) ∷ ps) c =
      apply-add_change_args ps (add_change types name val c)
      ∙ append_assoc c.args (val ∷ []) (values ps)

  apply-add_change_sets :
      (ps : List (String × Value)) (c : Changes)
      → (apply (add_change types) ps c).set_clauses
        ≡ c.set_clauses ++ set_list types (length c.args) ps
  unfolding add_change set_clause placeholder set_list
  apply-add_change_sets [] c = sym (append-nil c.set_clauses)
  apply-add_change_sets ((name, val) ∷ ps) c =
      let n = length c.args in
      let count : length (c.args ++ val ∷ []) ≡ suc n =
        omega (arith, length-append c.args (val ∷ [])) in
      let clause = concat (name ∷ " = " ∷ place (suc n) (types name) ∷ []) in
      let move : c.set_clauses ++ clause ∷ [] ++ set_list types (length (c.args ++ val ∷ [])) ps
          ≡ c.set_clauses ++ (clause ∷ set_list types (suc n) ps) =
        rw count (append_assoc c.set_clauses (clause ∷ []) (set_list types (suc n) ps)) in
      apply-add_change_sets ps (add_change types name val c) ∙ move

-- The query sets these assignments on the rows of the condition; `args` are all its arguments.
abbrev pub IsStatement :
    String
    → String
    → (String → String)
    → List (String × Value)
    → String
    → List Value
    → WriteQuery
    → Type 0
IsStatement schema_name table_name types ps condition args q =
    (q.sql
      ≡ concat (
          "UPDATE "
          ∷ schema_name
          ∷ "."
          ∷ table_name
          ∷ " SET "
          ∷ join ", " (set_list types 0 ps ++ "updated_at = now()" ∷ [])
          ∷ " WHERE "
          ∷ condition
          ∷ " RETURNING *"
          ∷ []))
    × (q.args ≡ args)

-- An UPDATE is right for its request. It sets the columns that the body gives, all of them and no
-- system field, to their normalized values, in placeholders whose numbers are the arguments'
-- places, on the row of this id and, with an owner, of this owner.
pub record IsUpdateOf (time : TimeParsers) (schema_name table_name : String) (table : Table)
    (id : String) (body : List (String × Value)) (owner_id : String) (q : WriteQuery) : Type 0 where
  pub assignments : List (String × Value)
  pub each : All (Assigned time (column_types table) body table.columns) assignments
  pub is_complete : IsComplete time (column_types table) body table.columns (keys assignments)
  pub keys_known : All (λ key. (is_system_field key ≡ true) ⊎ In key (column_set table)) (keys body)
  pub not_empty : assignments ≢ []
  pub without_owner :
      owner_id ≡ ""
      → IsStatement schema_name table_name
          (column_types table)
          assignments
          (concat ("id = $" ∷ itoa (suc (length assignments)) ∷ []))
          (values assignments ++ text id ∷ [])
          q
  pub with_owner :
      owner_id ≢ ""
      → IsStatement schema_name table_name
          (column_types table)
          assignments
          (concat (
            "id = $"
            ∷ itoa (suc (length assignments))
            ∷ concat (" AND owner_id = " ∷ place (suc (suc (length assignments))) "uuid" ∷ [])
            ∷ []))
          (values assignments ++ text id ∷ text owner_id ∷ [])
          q

three_steps :
    {S T : Type 0} (a : Result QueryError (Unit {0})) (b : Result QueryError S) (p : S → Bool)
    (e : QueryError) (k : S → T) {t : T}
    → (a >> (b >>= λ s. guard (p s) e >> ok (k s))) ≡ ok t
    → (s : S) × (a ≡ ok tt) × (b ≡ ok s) × (p s ≡ true) × (t ≡ k s)
three_steps (err x) b p e k h = absurd (cc)
three_steps (ok u) (err x) p e k h = absurd (cc)
three_steps (ok tt) (ok s) p e k {t} h =
    let (holds, done) = guard-eq-ok (p s) e (ok (k s)) h in
    let same : k s ≡ t = cc in (s, refl, refl, holds, sym same)

update_query-ap :
    (schema_name table_name id owner_id : String) {sets sets' : List String}
    {args args' : List Value}
    → sets ≡ sets'
    → args ≡ args'
    → update_query schema_name table_name id owner_id sets args
      ≡ update_query schema_name table_name id owner_id sets' args'
update_query-ap schema_name table_name id owner_id h k = rw (h, k) refl

length-values : (ps : List (String × Value)) → length (values ps) ≡ length ps
length-values [] = refl
length-values ((name, val) ∷ ps) = ap suc (length-values ps)

module _ (schema_name table_name id : String) (types : String → String)
    (ps : List (String × Value)) where
  query-without_owner :
      (owner_id : String)
      → owner_id ≡ ""
      → IsStatement schema_name table_name types ps
          (concat ("id = $" ∷ itoa (suc (length ps)) ∷ []))
          (values ps ++ text id ∷ [])
          (update_query schema_name table_name id owner_id (set_list types 0 ps) (values ps))
  unfolding update_query row_condition row_args
  query-without_owner owner_id p = rw (p, length-values ps) (refl, refl)

  query-with_owner :
      (owner_id : String)
      → owner_id ≢ ""
      → IsStatement schema_name table_name types ps
          (concat (
            "id = $"
            ∷ itoa (suc (length ps))
            ∷ concat (" AND owner_id = " ∷ place (suc (suc (length ps))) "uuid" ∷ [])
            ∷ []))
          (values ps ++ text id ∷ text owner_id ∷ [])
          (update_query schema_name table_name id owner_id (set_list types 0 ps) (values ps))
  unfolding update_query row_condition row_args placeholder
  query-with_owner owner_id h = elim (String-cases owner_id "") [
    | inl (e, p) ↦ absurd (h p)
    | inr (e, p) ↦ rw (e, length-values ps) (refl, refl)
  ]

nothing_set :
    (types : String → String) {ps : List (String × Value)} → ps ≡ [] → set_list types 0 ps ≡ []
unfolding set_list
nothing_set types h = ap (set_list types 0) h

-- If BuildUpdate returns a query, it sets exactly the columns of the table that the body gives and
-- that are no system field, at least one, to their normalized values, and updated_at, where the id is
-- the one given and, with an owner, where the owner is; every key of the body is known; and the id and
-- the owner are the arguments behind the values, to which the condition's placeholders refer.
pub build_update-IsUpdateOf :
    (time : TimeParsers) (schema_name table_name : String) (table : Table) (id : String)
    (body : List (String × Value)) (owner_id : String) (q : WriteQuery)
    → build_update time schema_name table_name table id body owner_id ≡ ok q
    → IsUpdateOf time schema_name table_name table id body owner_id q
unfolding build_update
build_update-IsUpdateOf time schema_name table_name table id body owner_id q h =
    let types = column_types table in
    let (changes, checked, ran, some_set, printed) =
      three_steps (check_body table body)
        (assign_columns (add_change types) time types body table.columns no_changes)
        (λ c. not (is_empty c.set_clauses)) nothing_to_update
        (λ c. update_query schema_name table_name id owner_id c.set_clauses c.args) h in
    let run = assign_columns-Ran time types body (add_change types) table.columns no_changes ran in
    let sets : changes.set_clauses ≡ set_list types 0 run.assignments =
      ap (λ c. c.set_clauses) run.applied
      ∙ apply-add_change_sets types run.assignments no_changes in
    let args : changes.args ≡ values run.assignments =
      ap (λ c. c.args) run.applied ∙ apply-add_change_args types run.assignments no_changes in
    let shown = printed ∙ update_query-ap schema_name table_name id owner_id sets args in
    record {
      assignments = run.assignments;
      each = run.each;
      is_complete = run.is_complete;
      keys_known = check_body-known table body checked;
      not_empty =
          λ e. not_nil-of_not_empty changes.set_clauses some_set (sets ∙ nothing_set types e);
      without_owner = λ p.
          subst (IsStatement schema_name table_name types run.assignments _ _) (sym shown)
            (query-without_owner schema_name table_name id types run.assignments owner_id p);
      with_owner = λ p.
          subst (IsStatement schema_name table_name types run.assignments _ _) (sym shown)
            (query-with_owner schema_name table_name id types run.assignments owner_id p);
    }
