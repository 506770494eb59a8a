-- ===== src/Query/Select/Filtered.antt =====
-- The loop over the filters prints a list of conditions, one for each filter: filter_params of
-- Select.
use mathlib.Core.List.{append-nil, append_assoc}
use zeep_orbit.Prelude.{
  sym, All, subst, String, true, ◌&&◌, List, [], ◌∷◌, ◌++◌, length, In, ok, Option-cases,
  Bool-cases, none, some, bind-eq-ok, guard-eq-ok, ◌==◌, String-cases, contains, contains-eq_true,
  ◌≡◌, ◌⊎◌, inl, inr, refl, in-append_left, in-append_right,
}
use zeep_orbit.Prelude.Text.{split, after_prefix}
use zeep_orbit.Registry.{Table}
use zeep_orbit.Query.{column_types, column_set, unknown_filter}
use zeep_orbit.Query.Operators.{find_operator, operator_map}
use zeep_orbit.Query.Select.{
  Filters, add_clause, filter_params, filter_step, column_filter, is_paging,
}
use zeep_orbit.Query.Select.Conditions.{
  Condition, compares, among, values, clause, column_of, Prints, Prints-add,
}

-- The condition that a filter on a column asks for.
pub data Asks (column : String) : String → Condition → Type 0 where
  asks_among :
      {val raw : String}
      → after_prefix "in." val ≡ some raw
      → Asks column val (among column (split b',' raw))
  asks_compares :
      {val op rest : String}
      → after_prefix "in." val ≡ none
      → find_operator operator_map val ≡ some (op, rest)
      → Asks column val (compares column op rest)

-- What a turn of the loop adds.
record Added (table : Table) (types : String → String) (f g : Filters) (key val : String)
    : Type 0 where
  condition : Condition
  asks : Asks key val condition
  grows : g ≡ add_clause f (clause types (length f.args) condition) (values condition)

column_filter-adds :
    (table : Table) (key val : String) (f : Filters) {g : Filters}
    → column_filter table key val f ≡ ok g
    → Added table (column_types table) f g key val
unfolding clause column_filter
column_filter-adds table key val f {g} h = elim (Option-cases (after_prefix "in." val)) [
  | inr (raw, e) ↦
      let found = rw (e, column_filter) at h in
      record { condition = among key (split b',' raw); asks = asks_among e; grows = cc }
  | inl e ↦ elim (Option-cases (find_operator operator_map val)) [
    | inl k ↦ let wrong = rw (e, k, column_filter) at h in absurd (cc)
    | inr (p, k) ↦
        let found = rw (e, k, column_filter) at h in
        record { condition = compares key (p.0) (p.1); asks = asks_compares e k; grows = cc }
  ]
]

column_of-Asks : {key val : String} {c : Condition} → Asks key val c → column_of c ≡ key
column_of-Asks (asks_among e) = refl
column_of-Asks (asks_compares e k) = refl

deleted_pair :
    (key val : String)
    → (key == "deleted" && val == "true") ≡ true
    → ◌≡◌ {A = String × String} (key, val) ("deleted", "true")
deleted_pair key val h = elim (String-cases key "deleted") [
  | inl (e, p) ↦ elim (String-cases val "true") [
    | inl (f, q) ↦ rw (p, q) refl
    | inr (f, q) ↦ let wrong = rw (e, f) at h in absurd (cc)
  ]
  | inr (e, p) ↦ let wrong = rw e at h in absurd (cc)
]

-- A parameter is one that is no filter, `deleted=true`, or a filter that a condition answers.
abbrev pub Answered : List Condition → String × String → Type 0
Answered cs (key, val) =
    (is_paging key ≡ true)
    ⊎ (((key == "deleted" && val == "true") ≡ true) ⊎ ((c : Condition) × Asks key val c × In c cs))

-- One turn of the loop: what was printed is still printed, with at most one condition more.
record Step (table : Table) (f g : Filters) (cs : List Condition) (p : String × String)
    : Type 0 where
  added : List Condition
  prints : Prints table (column_types table) g (cs ++ added)
  answered : Answered (cs ++ added) p
  deleted_was : (g.show_deleted ≡ f.show_deleted) ⊎ ◌≡◌ {A = String × String} p ("deleted", "true")

filter_step-Step :
    (table : Table) (key val : String) (f : Filters) (cs : List Condition) {g : Filters}
    → Prints table (column_types table) f cs
    → filter_step table key val f ≡ ok g
    → Step table f g cs (key, val)
unfolding filter_step
filter_step-Step table key val f cs {g} h e = elim (Bool-cases (is_paging key)) [
  | inl p ↦
      let same : f ≡ g = (let k = rw (p, filter_step) at e in cc) in
      record {
        added = [];
        prints = rw (append-nil cs, sym same) h;
        answered = inl p;
        deleted_was = inl (rw same refl);
      }
  | inr p ↦ elim (Bool-cases (key == "deleted" && val == "true")) [
    | inl q ↦
        let same : record f { show_deleted = true } ≡ g =
          (let k = rw (p, q, filter_step) at e in cc) in
        record {
          added = [];
          prints =
              rw (append-nil cs, sym same)
                (record {
                  clauses_are = h.clauses_are;
                  args_are = h.args_are;
                  columns_known = h.columns_known;
                });
          answered = inr (inl q);
          deleted_was = inr (deleted_pair key val q);
        }
    | inr q ↦
        let (known, k) =
          guard-eq-ok (contains key (column_set table)) (unknown_filter key)
            (column_filter table key val f) (rw (p, q, filter_step) at e) in
        let a = column_filter-adds table key val f k in
        let there : In (column_of a.condition) (column_set table) =
          subst (λ z. In z (column_set table)) (sym (column_of-Asks a.asks))
            (contains-eq_true key (column_set table) known) in
        record {
          added = a.condition ∷ [];
          prints = rw (a.grows) (Prints-add table (column_types table) f cs a.condition h there);
          answered = inr (inr (a.condition, a.asks, in-append_right a.condition cs _ (inl refl)));
          deleted_was = inl (rw (a.grows) refl);
        }
  ]
]

pub Answered-append :
    (cs ds : List Condition) (p : String × String) → Answered cs p → Answered (cs ++ ds) p
Answered-append cs ds (key, val) (inl h) = inl h
Answered-append cs ds (key, val) (inr (inl h)) = inr (inl h)
Answered-append cs ds (key, val) (inr (inr (c, a, m))) = inr (inr (c, a, in-append_left c cs ds m))

-- What the whole loop prints.
pub record Filtered (table : Table) (f g : Filters) (cs : List Condition)
    (params : List (String × String)) : Type 0 where
  pub conditions : List Condition
  pub prints : Prints table (column_types table) g (cs ++ conditions)
  pub answered : All (Answered (cs ++ conditions)) params
  pub deleted_was : (g.show_deleted ≡ f.show_deleted) ⊎ In ("deleted", "true") params

pub filter_params-Filtered :
    (table : Table) (params : List (String × String)) (f : Filters) (cs : List Condition)
    {g : Filters}
    → Prints table (column_types table) f cs
    → filter_params table params f ≡ ok g
    → Filtered table f g cs params
unfolding filter_params
filter_params-Filtered table [] f cs {g} h e =
    let same : f ≡ g = cc in
    record {
      conditions = [];
      prints = rw (append-nil cs, sym same) h;
      answered = tt;
      deleted_was = inl (rw same refl);
    }
filter_params-Filtered table ((key, val) ∷ params) f cs {g} h e =
    let (f', e1, e2) = bind-eq-ok _ _ e in
    let step = filter_step-Step table key val f cs h e1 in
    let rest = filter_params-Filtered table params f' (cs ++ step.added) step.prints e2 in
    record {
      conditions = step.added ++ rest.conditions;
      prints = rw (sym (append_assoc cs step.added rest.conditions)) rest.prints;
      answered =
          let assoc = append_assoc cs step.added rest.conditions in
          (
            subst (λ z. Answered z (key, val)) assoc
                (Answered-append (cs ++ step.added) rest.conditions (key, val) step.answered),
            subst (λ z. All (Answered z) params) assoc rest.answered,
          );
      deleted_was = elim rest.deleted_was [
        | inr m ↦ inr (inr m)
        | inl k ↦ elim step.deleted_was [ inl j ↦ inl (rw (k, j) refl) | inr j ↦ inr (inl (sym j)) ]
      ];
    }
