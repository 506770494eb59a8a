-- ===== src/Query/Insert/Finished.antt =====
-- The statement that BuildInsertWithOptions of internal/query/builder.go makes of a row.
use zeep_orbit.Prelude.{
  String, true, false, List, [], ◌∷◌, ◌++◌, In, All, Result, ok, err, ◌>>=◌, ◌>>◌, is_empty, eq_iff,
  String-cases, ◌==◌, if◌then◌else◌, ◌≡◌, ◌≢◌, inl, inr, refl, sym, ap, subst, ◌∙◌,
}
use mathlib.Core.List.{append-nil}
use zeep_orbit.Prelude.Text.{concat, join}
use zeep_orbit.Registry.{Table}
use zeep_orbit.Query.{Value, QueryError, WriteQuery, column_set}
use zeep_orbit.Query.Insert.{
  Row, InsertOptions, insert_text, on_conflict_ignore, on_conflict_update, check_conflict_columns,
  guard_args, finish_insert,
}
use zeep_orbit.Query.Insert.Upsert.{
  IsUpsertOf, finish_insert-IsUpsertOf, check_conflict_columns-known,
}

-- Where conflicts are ignored: on the columns of the options, if there are any.
abbrev pub IsIgnored : Table → List String → String → Type 0
IsIgnored table [] conflict = conflict ≡ " ON CONFLICT DO NOTHING"
IsIgnored table (c ∷ cs) conflict =
    All (λ column. In column (column_set table)) (c ∷ cs)
    × (conflict ≡ concat (" ON CONFLICT (" ∷ join ", " (c ∷ cs) ∷ ") DO NOTHING" ∷ []))

-- The statement inserts the row, and `conflict` and `returning` follow it; the arguments are the row's
-- and `more`.
pub record IsFinished (schema_name table_name : String) (table : Table) (opts : InsertOptions)
    (r : Row) (q : WriteQuery) : Type 0 where
  pub conflict : String
  pub returning : String
  pub more : List Value
  pub sql_is :
      q.sql
      ≡ concat (
          concat (
            "INSERT INTO "
            ∷ schema_name
            ∷ "."
            ∷ table_name
            ∷ " ("
            ∷ join ", " r.cols
            ∷ ") VALUES ("
            ∷ join ", " r.placeholders
            ∷ ")"
            ∷ [])
          ∷ conflict
          ∷ returning
          ∷ [])
  pub args_are : q.args ≡ r.args ++ more
  pub ignores :
      opts.on_conflict ≡ "ignore"
      → IsIgnored table opts.conflict_columns conflict × (returning ≡ " RETURNING *") × (more ≡ [])
  pub upserts :
      opts.on_conflict ≡ "update"
      → IsUpsertOf schema_name table_name table opts r q
        × (returning ≡ " RETURNING *, (xmax = 0) AS zeep_was_insert")
  pub more_if_filtered : opts.conflict_owner_filter ≡ "" → more ≡ []
  pub plain :
      opts.on_conflict ≢ "ignore"
      → opts.on_conflict ≢ "update"
      → (conflict ≡ "") × (returning ≡ " RETURNING *") × (more ≡ [])

-- A row that has a column is inserted.
abbrev pub Inserts : String → String → Table → InsertOptions → Row → WriteQuery → Type 0
Inserts schema_name table_name table opts r q =
    (r.cols ≢ []) × IsFinished schema_name table_name table opts r q

on_conflict_ignore-IsIgnored :
    (table : Table) (cs : List String) (known : Result QueryError (Unit {0})) {conflict : String}
    → (known ≡ ok tt → All (λ column. In column (column_set table)) cs)
    → (if is_empty cs
        then ok " ON CONFLICT DO NOTHING"
        else known >> ok (concat (" ON CONFLICT (" ∷ join ", " cs ∷ ") DO NOTHING" ∷ [])))
      ≡ ok conflict
    → IsIgnored table cs conflict
on_conflict_ignore-IsIgnored table [] known all h = cc
on_conflict_ignore-IsIgnored table (c ∷ cs) (ok tt) all h = (all refl, cc)
on_conflict_ignore-IsIgnored table (c ∷ cs) (err e) all h = absurd (cc)

shown :
    {m : Result QueryError String} (k : String → WriteQuery) {q : WriteQuery}
    → (m >>= λ conflict. ok (k conflict)) ≡ ok q
    → (conflict : String) × (m ≡ ok conflict) × (q ≡ k conflict)
shown {m = ok conflict} k {q} h = (conflict, refl, (let e : k conflict ≡ q = cc in sym e))
shown {m = err e} k h = absurd (cc)

not_both : ¬ (◌≡◌ {A = String} "ignore" "update")
not_both e = cc ((eq_iff "ignore" "update").1 e)

guard_args-none : (opts : InsertOptions) → opts.conflict_owner_filter ≡ "" → guard_args opts ≡ []
unfolding guard_args
guard_args-none opts p = rw p refl

module _ (schema_name table_name : String) (table : Table) (opts : InsertOptions) (r : Row)
    (q : WriteQuery) where
  ignored-IsFinished :
      opts.on_conflict ≡ "ignore"
      → finish_insert schema_name table_name table opts r ≡ ok q
      → IsFinished schema_name table_name table opts r q
  unfolding finish_insert insert_text on_conflict_ignore
  ignored-IsFinished p h =
      let is : (opts.on_conflict == "ignore") ≡ true = (eq_iff opts.on_conflict "ignore").1 p in
      let (conflict, found, is_q) =
        shown {m = on_conflict_ignore table opts}
          (λ c. record {
            sql = concat (insert_text schema_name table_name r ∷ c ∷ " RETURNING *" ∷ []);
            args = r.args;
          })
          (rw (is, finish_insert) at h) in
      record {
        conflict = conflict;
        returning = " RETURNING *";
        more = [];
        sql_is = ap (λ z. z.sql) is_q;
        args_are = ap (λ z. z.args) is_q ∙ sym (append-nil r.args);
        ignores = λ e. (
          on_conflict_ignore-IsIgnored table opts.conflict_columns
              (check_conflict_columns table opts.conflict_columns)
              (check_conflict_columns-known table opts.conflict_columns) found,
          refl,
          refl,
        );
        upserts = λ e. absurd (not_both (sym p ∙ e));
        more_if_filtered = λ e. refl;
        plain = λ a b. absurd (a p);
      }

  upserted-IsFinished :
      opts.on_conflict ≡ "update"
      → finish_insert schema_name table_name table opts r ≡ ok q
      → IsFinished schema_name table_name table opts r q
  unfolding finish_insert insert_text
  upserted-IsFinished p h =
      let is : (opts.on_conflict == "update") ≡ true = (eq_iff opts.on_conflict "update").1 p in
      let is_not : (opts.on_conflict == "ignore") ≡ false =
        subst (λ z. (z == "ignore") ≡ false) (sym p) refl in
      let (conflict, found, is_q) =
        shown {m = on_conflict_update table_name table opts r}
          (λ c. record {
            sql = concat (
                insert_text schema_name table_name r
                ∷ c
                ∷ " RETURNING *, (xmax = 0) AS zeep_was_insert"
                ∷ []);
            args = r.args ++ guard_args opts;
          })
          (rw (is_not, is, finish_insert) at h) in
      record {
        conflict = conflict;
        returning = " RETURNING *, (xmax = 0) AS zeep_was_insert";
        more = guard_args opts;
        sql_is = ap (λ z. z.sql) is_q;
        args_are = ap (λ z. z.args) is_q;
        ignores = λ e. absurd (not_both (sym e ∙ p));
        upserts = λ e. (finish_insert-IsUpsertOf schema_name table_name table opts r q p h, refl);
        more_if_filtered = guard_args-none opts;
        plain = λ a b. absurd (b p);
      }

  plain-IsFinished :
      opts.on_conflict ≢ "ignore"
      → opts.on_conflict ≢ "update"
      → (opts.on_conflict == "ignore") ≡ false
      → (opts.on_conflict == "update") ≡ false
      → finish_insert schema_name table_name table opts r ≡ ok q
      → IsFinished schema_name table_name table opts r q
  unfolding finish_insert insert_text
  plain-IsFinished a b is_not nor h =
      let done : ◌≡◌ {A = Result QueryError WriteQuery}
          (ok (record {
            sql = concat (insert_text schema_name table_name r ∷ " RETURNING *" ∷ []);
            args = r.args;
          }))
          (ok q) =
        rw (is_not, nor, finish_insert) at h in
      let is_q : record {
        sql = concat (insert_text schema_name table_name r ∷ " RETURNING *" ∷ []);
        args = r.args;
      }
          ≡ q =
        cc in
      record {
        conflict = "";
        returning = " RETURNING *";
        more = [];
        sql_is = sym (ap (λ z. z.sql) is_q);
        args_are = sym (ap (λ z. z.args) is_q) ∙ sym (append-nil r.args);
        ignores = λ e. absurd (a e);
        upserts = λ e. absurd (b e);
        more_if_filtered = λ e. refl;
        plain = λ x y. (refl, refl, refl);
      }

  -- A statement that is made of a row that has a column inserts the row.
  pub finish_insert-Inserts :
      r.cols ≢ []
      → finish_insert schema_name table_name table opts r ≡ ok q
      → Inserts schema_name table_name table opts r q
  finish_insert-Inserts filled h = elim (String-cases opts.on_conflict "ignore") [
    | inl (e, p) ↦ (filled, ignored-IsFinished p h)
    | inr (e, a) ↦ elim (String-cases opts.on_conflict "update") [
      | inl (f, p) ↦ (filled, upserted-IsFinished p h)
      | inr (f, b) ↦ (filled, plain-IsFinished a b e f h)
    ]
  ]
