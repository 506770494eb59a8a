-- ===== src/Query/Select/Listed.antt =====
-- What BuildList of internal/query/builder.go promises of a list query.
use mathlib.Core.List.{append-nil}
use zeep_orbit.Prelude.{
  ℕ, suc, length, subst, ◌≤◌, String, Bool, true, false, not, ◌&&◌, List, [], ◌∷◌, ◌++◌, In, All,
  lookup, Result, ok, err, Option, none, some, Option-cases, Bool-cases, ◌>>=◌, guard-eq-ok, ◌==◌,
  String-cases, contains, contains-eq_true, ◌≡◌, ◌≢◌, ◌⊎◌, inl, inr, refl, sym, ◌∙◌, All-at,
  All-of_in, in-append_left, in-append_right, arith,
}
use zeep_orbit.Prelude.Text.{concat, split}
use zeep_orbit.Prelude.Text.Numbers.{atoi, itoa}
use zeep_orbit.Registry.{Table}
use zeep_orbit.Query.{Value, int, ListQuery, QueryError, unknown_order, column_types, column_set}
use zeep_orbit.Query.Spelled.{where_all, where_text-eq}
use zeep_orbit.Query.Select.{
  Filters, no_filters, non_negative, sort_direction, upper_is, read_limit, read_offset,
  owner_clause, deleted_clause, order_by, order_clause, list_query, build_list, filter_params,
}
use zeep_orbit.Query.Select.Conditions.{
  Condition, owned_by, not_deleted, clause, clauses, all_values, column_of, Prints, Prints-add,
}
use zeep_orbit.Query.Select.Filtered.{Answered, Answered-append, filter_params-Filtered}

read_limit-le : (o : Option String) {n : ℕ} → read_limit o ≡ ok n → n ≤ 1000
unfolding read_limit
read_limit-le none h = ground arith
read_limit-le (some raw) h = elim (Option-cases (non_negative (atoi raw))) [
  | inl e ↦ let wrong = rw (e, read_limit) at h in absurd (cc)
  | inr (v, e) ↦ let k = rw (e, read_limit) at h in ground arith
]

-- An order clause is empty or sorts by a column of the table.
pub Sorts : Table → String → Type 0
Sorts table s =
    (s ≡ "")
    ⊎ ((field : String) × (direction : String) × In field (column_set table)
        × In direction ("ASC" ∷ "DESC" ∷ [])
        × (s ≡ concat (" ORDER BY " ∷ field ∷ " " ∷ direction ∷ [])))

sort_direction-in :
    (s : String) {d : String} → sort_direction s ≡ some d → In d ("ASC" ∷ "DESC" ∷ [])
unfolding sort_direction
sort_direction-in s h = elim (Bool-cases (upper_is s "ASC")) [
  | inl e ↦ let k = rw (e, sort_direction) at h in inl (cc)
  | inr e ↦ elim (Bool-cases (upper_is s "DESC")) [
    | inl f ↦ let k = rw (e, f, sort_direction) at h in inr (inl (cc))
    | inr f ↦ let k = rw (e, f, sort_direction) at h in absurd (cc)
  ]
]

order_by-Sorts :
    (table : Table) (raw : String) (parts : List String) {s : String}
    → order_by table raw parts ≡ ok s
    → Sorts table s
unfolding order_by Sorts
order_by-Sorts table raw [] h = absurd (cc)
order_by-Sorts table raw (field ∷ []) h = absurd (cc)
order_by-Sorts table raw (field ∷ d ∷ e ∷ rest) h = absurd (cc)
order_by-Sorts table raw (field ∷ d ∷ []) h = elim (Option-cases (sort_direction d)) [
  | inl e ↦ let wrong = rw (e, order_by) at h in absurd (cc)
  | inr (direction, e) ↦
      let (known, k) =
        guard-eq-ok (contains field (column_set table)) (unknown_order field)
          (ok (concat (" ORDER BY " ∷ field ∷ " " ∷ direction ∷ []))) (rw (e, order_by) at h) in
      inr (
        field,
        direction,
        contains-eq_true field (column_set table) known,
        sort_direction-in d e,
        cc,
      )
]

order_clause-Sorts :
    (table : Table) (o : Option String) {s : String} → order_clause table o ≡ ok s → Sorts table s
unfolding order_clause Sorts
order_clause-Sorts table none h = inl (cc)
order_clause-Sorts table (some raw) h = order_by-Sorts table raw (split b'.' raw) h

-- What the two last steps on the filters print.
owner_clause-Prints :
    (table : Table) (types : String → String) (owner_id : String) (f : Filters)
    (cs : List Condition)
    → Prints table types f cs
    → (ds : List Condition) × Prints table types (owner_clause owner_id f) (cs ++ ds)
      × ((owner_id ≢ "") → In (owned_by owner_id) ds)
unfolding owner_clause clause
owner_clause-Prints table types owner_id f cs h = elim (String-cases owner_id "") [
  | inl (e, p) ↦ ([], rw (e, append-nil cs) h, λ q. absurd (q p))
  | inr (e, p) ↦ (
    owned_by owner_id ∷ [],
    rw e (Prints-add table types f cs (owned_by owner_id) h (inr (inr (inr (inl refl))))),
    λ q. inl refl,
  )
]

deleted_clause-Prints :
    (table : Table) (types : String → String) (soft_delete : Bool) (f : Filters)
    (cs : List Condition)
    → Prints table types f cs
    → (ds : List Condition) × Prints table types (deleted_clause soft_delete f) (cs ++ ds)
      × (soft_delete ≡ true → f.show_deleted ≡ false → In not_deleted ds)
unfolding deleted_clause clause
deleted_clause-Prints table types soft_delete f cs h =
    elim (Bool-cases (soft_delete && not f.show_deleted)) [
      | inl e ↦ (
        not_deleted ∷ [],
        rw e (Prints-add table types f cs not_deleted h (inr (inr (inr (inr (inl refl)))))),
        λ q k. inl refl,
      )
      | inr e ↦ ([], rw (e, append-nil cs) h, λ q k. absurd (let w = rw (q, k) at e in cc))
    ]

-- The two statements, in full. The page's limit and offset are the last two arguments.
abbrev pub IsSpelled :
    String → String → List String → List Value → String → ℕ → ℕ → ListQuery → Type 0
IsSpelled schema_name table_name texts args order limit offset q =
    (q.sql
      ≡ concat (
          "SELECT * FROM "
          ∷ schema_name
          ∷ "."
          ∷ table_name
          ∷ where_all texts
          ∷ order
          ∷ " LIMIT $"
          ∷ itoa (suc (length args))
          ∷ " OFFSET $"
          ∷ itoa (suc (suc (length args)))
          ∷ []))
    × (q.args ≡ args ++ int limit ∷ int offset ∷ [])
    × (q.count_sql
        ≡ concat ("SELECT COUNT(*) FROM " ∷ schema_name ∷ "." ∷ table_name ∷ where_all texts ∷ []))

list_query-IsSpelled :
    (schema_name table_name : String) (texts : List String) (args : List Value) (order : String)
    (limit offset : ℕ)
    → IsSpelled schema_name table_name texts args order limit offset
        (list_query schema_name table_name texts args order limit offset)
unfolding list_query
list_query-IsSpelled schema_name table_name texts args order limit offset =
    rw (where_text-eq texts) (refl, refl, refl)

-- A list query is right for its request: its two statements and its arguments print conditions on
-- columns of the table, which answer every filter, hold the owner's rows apart and hide deleted rows.
pub record IsListOf (schema_name table_name : String) (table : Table)
    (params : List (String × String)) (owner_id : String) (soft_delete : Bool) (q : ListQuery)
    : Type 0 where
  pub conditions : List Condition
  pub order : String
  pub limit : ℕ
  pub offset : ℕ
  pub columns_known : All (λ c. In (column_of c) (column_set table)) conditions
  pub answered : All (Answered conditions) params
  pub owner_is_kept : owner_id ≢ "" → In (owned_by owner_id) conditions
  pub hides_deleted :
      soft_delete ≡ true → ¬ In ("deleted", "true") params → In not_deleted conditions
  pub sorts : Sorts table order
  pub limit_le : limit ≤ 1000
  pub is_printed :
      q
      ≡ list_query schema_name table_name
          (clauses (column_types table) 0 conditions)
          (all_values conditions)
          order
          limit
          offset
  pub is_spelled :
      IsSpelled schema_name table_name
        (clauses (column_types table) 0 conditions)
        (all_values conditions)
        order
        limit
        offset
        q

-- What four steps in turn returned.
four_steps :
    {A B C D F : Type 0} (a : Result QueryError A) (b : Result QueryError B)
    (c : Result QueryError C) (d : Result QueryError D) (k : A → B → C → D → F) {r : F}
    → (a >>= λ x. b >>= λ y. c >>= λ z. d >>= λ w. ok (k x y z w)) ≡ ok r
    → (x : A) × (y : B) × (z : C) × (w : D) × (a ≡ ok x) × (c ≡ ok z) × (d ≡ ok w) × (r ≡ k x y z w)
four_steps (ok x) (ok y) (ok z) (ok w) k h =
    (x, y, z, w, refl, refl, refl, (let e : k x y z w ≡ _ = cc in sym e))
four_steps (err e) b c d k h = absurd (cc)
four_steps (ok x) (err e) c d k h = absurd (cc)
four_steps (ok x) (ok y) (err e) d k h = absurd (cc)
four_steps (ok x) (ok y) (ok z) (err e) k h = absurd (cc)

owner_keeps :
    (owner_id : String) (f : Filters) → (owner_clause owner_id f).show_deleted ≡ f.show_deleted
unfolding owner_clause
owner_keeps owner_id f = elim (Bool-cases (owner_id == "")) [
  | inl e ↦ rw (e, owner_clause) refl
  | inr e ↦ rw (e, owner_clause) refl
]

list_query-Prints :
    (schema_name table_name order : String) (limit offset : ℕ) {table : Table}
    {types : String → String} {f : Filters} {cs : List Condition}
    → Prints table types f cs
    → list_query schema_name table_name f.where_clauses f.args order limit offset
      ≡ list_query schema_name table_name (clauses types 0 cs) (all_values cs) order limit offset
list_query-Prints schema_name table_name order limit offset h = rw (h.clauses_are, h.args_are) refl

nothing_printed : {table : Table} {types : String → String} → Prints table types no_filters []
unfolding clauses
nothing_printed = record { clauses_are = refl; args_are = refl; columns_known = tt }

-- If BuildList returns a query, its statements and its arguments are those of a list of conditions on
-- columns of the table. The conditions answer every filter of the parameters, hold the owner's one
-- if there is an owner, and, under soft delete without `deleted=true`, ask for rows that are not
-- deleted. Rows are sorted by a column of the table or not at all, and the limit is at most 1000.
pub build_list-IsListOf :
    (schema_name table_name : String) (table : Table) (params : List (String × String))
    (owner_id : String) (soft_delete : Bool) (q : ListQuery)
    → build_list schema_name table_name table params owner_id soft_delete ≡ ok q
    → IsListOf schema_name table_name table params owner_id soft_delete q
unfolding build_list
build_list-IsListOf schema_name table_name table params owner_id soft_delete q h =
    let (limit, offset, f, order, e1, e3, e4, e) =
      four_steps (read_limit (lookup "limit" params)) (read_offset (lookup "offset" params))
        (filter_params table params no_filters) (order_clause table (lookup "order" params))
        (λ n m g o.
          let k = deleted_clause soft_delete (owner_clause owner_id g) in
          list_query schema_name table_name k.where_clauses k.args o n m)
        h in
    let done = filter_params-Filtered table params no_filters [] nothing_printed e3 in
    let types = column_types table in
    let cs = done.conditions in
    let (ds, printed, owned) = owner_clause-Prints table types owner_id f cs done.prints in
    let (es, all_printed, hidden) =
      deleted_clause-Prints table types soft_delete (owner_clause owner_id f) (cs ++ ds) printed in
    let all = cs ++ ds ++ es in
    let printed_as = e ∙ list_query-Prints schema_name table_name order limit offset all_printed in
    record {
      conditions = cs ++ ds ++ es;
      order = order;
      limit = limit;
      offset = offset;
      columns_known = all_printed.columns_known;
      answered = All-of_in _ params (λ a m.
          Answered-append (cs ++ ds) es a
            (Answered-append cs ds a (All-at _ params a done.answered m)));
      owner_is_kept = λ p.
          in-append_left (owned_by owner_id) (cs ++ ds) es
            (in-append_right (owned_by owner_id) cs ds (owned p));
      hides_deleted = λ s no. in-append_right not_deleted (cs ++ ds) es (
          hidden s (elim done.deleted_was [
            | inl e ↦ rw (owner_keeps owner_id f) e
            | inr m ↦ absurd (no m)
          ]));
      sorts = order_clause-Sorts table (lookup "order" params) e4;
      limit_le = read_limit-le (lookup "limit" params) e1;
      is_printed = printed_as;
      is_spelled =
          subst
            (IsSpelled schema_name table_name (clauses types 0 all) (all_values all) order limit
              offset)
            (sym printed_as)
            (list_query-IsSpelled schema_name table_name (clauses types 0 all) (all_values all)
              order limit offset);
    }
