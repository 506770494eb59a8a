-- ===== src/Query/Insert/Upsert.antt =====
-- The conflict clause of BuildInsertWithOptions of internal/query/builder.go.
use zeep_orbit.Prelude.{
  suc, String, Bool, true, false, not, ◌||◌, List, [], ◌∷◌, ◌++◌, map, length, In, All, Result, ok,
  err, ◌>>=◌, ◌>>◌, guard, is_empty, contains, not_nil-of_not_empty, eq_iff, guard-eq-ok,
  String-cases, Bool-cases, contains-eq_true, contains-eq_false, ◌==◌, ◌≡◌, ◌≢◌, ◌⊎◌, inl, inr,
  refl, sym, ap, subst, ◌∙◌,
}
use zeep_orbit.Prelude.Text.{concat, join}
use zeep_orbit.Registry.{Table}
use zeep_orbit.Query.{
  text, QueryError, no_conflict_column, unknown_conflict_column, WriteQuery, column_set,
  placeholder,
}
use zeep_orbit.Query.Spelled.{where_all, guards_text-eq}
use zeep_orbit.Query.Insert.{
  Row, InsertOptions, check_conflict_columns, excluded_clauses, where_guards, guards_text,
  guard_args, insert_text, on_conflict_update, finish_insert,
}

pub check_conflict_columns-known :
    (table : Table) (cs : List String)
    → check_conflict_columns table cs ≡ ok tt
    → All (λ c. In c (column_set table)) cs
unfolding check_conflict_columns
check_conflict_columns-known table [] h = tt
check_conflict_columns-known table (c ∷ cs) h =
    let (known, rest) =
      guard-eq-ok (contains c (column_set table)) (unknown_conflict_column c)
        (check_conflict_columns table cs) h in
    (contains-eq_true c (column_set table) known, check_conflict_columns-known table cs rest)

-- Takes the value of the row that could not be inserted.
abbrev pub excluded : String → String
excluded c = concat (c ∷ " = excluded." ∷ c ∷ [])

-- The columns that are overwritten: the inserted ones without the target and without the owner.
pub record Overwrites (target cols kept : List String) : Type 0 where
  pub only : (c : String) → In c kept → In c cols × ¬ In c target × (c ≢ "owner_id")
  pub every : (c : String) → In c cols → ¬ In c target → c ≢ "owner_id" → In c kept

skipped :
    (c : String) (target : List String)
    → (contains c target || c == "owner_id") ≡ true
    → In c target ⊎ (c ≡ "owner_id")
skipped c target h = elim (Bool-cases (contains c target)) [
  | inl e ↦ inl (contains-eq_true c target e)
  | inr e ↦ elim (String-cases c "owner_id") [
    | inl (f, p) ↦ inr p
    | inr (f, p) ↦ absurd (let w = rw (e, f) at h in cc)
  ]
]

not_skipped :
    (c : String) (target : List String)
    → (contains c target || c == "owner_id") ≡ false
    → ¬ In c target × (c ≢ "owner_id")
not_skipped c target h = elim (Bool-cases (contains c target)) [
  | inl e ↦ absurd (let w = rw e at h in cc)
  | inr e ↦ elim (String-cases c "owner_id") [
    | inl (f, p) ↦ absurd (let w = rw (e, f) at h in cc)
    | inr (f, p) ↦ (contains-eq_false c target e, p)
  ]
]

excluded_clauses-Overwrites :
    (target cols : List String)
    → (kept : List String) × (excluded_clauses target cols ≡ map excluded kept)
      × Overwrites target cols kept
unfolding excluded_clauses
excluded_clauses-Overwrites target [] =
    ([], refl, record { only = λ c m. elim m [ ]; every = λ c m. elim m [ ] })
excluded_clauses-Overwrites target (c ∷ cols) =
    let (kept, e, h) = excluded_clauses-Overwrites target cols in
    elim (Bool-cases (contains c target || c == "owner_id")) [
      | inl skip ↦ (
        kept,
        rw (skip, excluded_clauses) e,
        record {
          only = λ d m. let (a, b, x) = h.only d m in (inr a, b, x);
          every = λ d m n o. elim m [
            | inl p ↦ absurd (elim (skipped c target skip) [
              | inl x ↦ n (subst (λ z. In z target) (sym p) x)
              | inr x ↦ o (p ∙ x)
            ])
            | inr m ↦ h.every d m n o
          ];
        },
      )
      | inr keep ↦ (
        c ∷ kept,
        rw (keep, excluded_clauses, e) refl,
        record {
          only = λ d m. elim m [
            | inl p ↦
                (let (a, x) = not_skipped c target keep in
                  (inl p, (λ i. a (subst (λ z. In z target) p i)), λ y. x (sym p ∙ y)))
            | inr m ↦ let (a, b, x) = h.only d m in (inr a, b, x)
          ];
          every = λ d m n o. elim m [ inl p ↦ inl p | inr m ↦ inr (h.every d m n o) ];
        },
      )
    ]

-- An upsert is safe: its target is columns of the table, it overwrites the inserted columns other
-- than the target and the owner, and its guards, on the arguments that it binds, keep it to the
-- owner's rows that are not deleted.
pub record IsUpsertOf (schema_name table_name : String) (table : Table) (opts : InsertOptions)
    (r : Row) (q : WriteQuery) : Type 0 where
  pub target_not_empty : opts.conflict_columns ≢ []
  pub target_known : All (λ c. In c (column_set table)) opts.conflict_columns
  pub overwritten : List String
  pub overwrites : Overwrites opts.conflict_columns r.cols overwritten
  pub guards : List String
  pub sql_is :
      q.sql
      ≡ concat (
          insert_text schema_name table_name r
          ∷ concat (
              " ON CONFLICT ("
              ∷ join ", " opts.conflict_columns
              ∷ ") DO UPDATE SET "
              ∷ join ", " (map excluded overwritten ++ "updated_at = now()" ∷ [])
              ∷ where_all guards
              ∷ [])
          ∷ " RETURNING *, (xmax = 0) AS zeep_was_insert"
          ∷ [])
  pub owner_guard :
      opts.conflict_owner_filter ≢ ""
      → In
          (concat (table_name ∷ ".owner_id = " ∷ placeholder (suc (length r.args)) "uuid" ∷ []))
          guards
        × (q.args ≡ r.args ++ text opts.conflict_owner_filter ∷ [])
  pub deleted_guard :
      opts.conflict_exclude_soft_deleted ≡ true
      → In (concat (table_name ∷ ".deleted_at IS NULL" ∷ [])) guards

-- What the two guards of the statement are.
owner_guard_lem :
    (table_name : String) (opts : InsertOptions) (r : Row)
    → opts.conflict_owner_filter ≢ ""
    → In
        (concat (table_name ∷ ".owner_id = " ∷ placeholder (suc (length r.args)) "uuid" ∷ []))
        (where_guards table_name opts r.args)
      × (guard_args opts ≡ text opts.conflict_owner_filter ∷ [])
unfolding where_guards guard_args
owner_guard_lem table_name opts r h = elim (String-cases opts.conflict_owner_filter "") [
  | inl (e, p) ↦ absurd (h p)
  | inr (e, p) ↦ (rw e (inl refl), rw e refl)
]

deleted_guard_lem :
    (table_name : String) (opts : InsertOptions) (r : Row)
    → opts.conflict_exclude_soft_deleted ≡ true
    → In (concat (table_name ∷ ".deleted_at IS NULL" ∷ [])) (where_guards table_name opts r.args)
unfolding where_guards
deleted_guard_lem table_name opts r h = elim (String-cases opts.conflict_owner_filter "") [
  | inl (e, p) ↦ rw (e, h) (inl refl)
  | inr (e, p) ↦ rw (e, h) (inr (inl refl))
]

update_steps :
    {S : Type 0} (b : Bool) (e : QueryError) (c : Result QueryError (Unit {0})) (s : String)
    (k : String → S) {t : S}
    → ((guard b e >> (c >> ok s)) >>= λ x. ok (k x)) ≡ ok t
    → (b ≡ true) × (c ≡ ok tt) × (t ≡ k s)
update_steps false e c s k h = absurd (cc)
update_steps true e (err x) s k h = absurd (cc)
update_steps true e (ok u) s k {t} h = (refl, refl, (let same : k s ≡ t = cc in sym same))

-- If an insert with on_conflict "update" is finished, the conflict's target is not empty and is columns
-- of the table; exactly the inserted columns other than the target and owner_id are overwritten; with
-- an owner filter the update is guarded by the owner, who is bound to the guard's placeholder; and it
-- is guarded against deleted rows if the options ask for it.
pub finish_insert-IsUpsertOf :
    (schema_name table_name : String) (table : Table) (opts : InsertOptions) (r : Row)
    (q : WriteQuery)
    → opts.on_conflict ≡ "update"
    → finish_insert schema_name table_name table opts r ≡ ok q
    → IsUpsertOf schema_name table_name table opts r q
unfolding finish_insert on_conflict_update
finish_insert-IsUpsertOf schema_name table_name table opts r q is_update h =
    let update : (opts.on_conflict == "update") ≡ true =
      (eq_iff opts.on_conflict "update").1 is_update in
    let not_ignore : (opts.on_conflict == "ignore") ≡ false =
      subst (λ z. (z == "ignore") ≡ false) (sym is_update) refl in
    let (target, known, printed) =
      update_steps (not (is_empty opts.conflict_columns)) no_conflict_column
        (check_conflict_columns table opts.conflict_columns) _ _
        (rw (not_ignore, update, finish_insert) at h) in
    let (kept, shown, over) = excluded_clauses-Overwrites opts.conflict_columns r.cols in
    record {
      target_not_empty = not_nil-of_not_empty opts.conflict_columns target;
      target_known = check_conflict_columns-known table opts.conflict_columns known;
      overwritten = kept;
      overwrites = over;
      guards = where_guards table_name opts r.args;
      sql_is =
          ap (λ z. z.sql) printed
          ∙ ap
              (λ clauses. concat (
                insert_text schema_name table_name r
                ∷ concat (
                    " ON CONFLICT ("
                    ∷ join ", " opts.conflict_columns
                    ∷ ") DO UPDATE SET "
                    ∷ join ", " (clauses ++ "updated_at = now()" ∷ [])
                    ∷ guards_text (where_guards table_name opts r.args)
                    ∷ [])
                ∷ " RETURNING *, (xmax = 0) AS zeep_was_insert"
                ∷ []))
              shown
          ∙ ap
              (λ tail. concat (
                insert_text schema_name table_name r
                ∷ concat (
                    " ON CONFLICT ("
                    ∷ join ", " opts.conflict_columns
                    ∷ ") DO UPDATE SET "
                    ∷ join ", " (map excluded kept ++ "updated_at = now()" ∷ [])
                    ∷ tail
                    ∷ [])
                ∷ " RETURNING *, (xmax = 0) AS zeep_was_insert"
                ∷ []))
              (guards_text-eq (where_guards table_name opts r.args));
      owner_guard = λ p.
          let (g, a) = owner_guard_lem table_name opts r p in
          (g, ap (λ z. z.args) printed ∙ ap (λ z. r.args ++ z) a);
      deleted_guard = deleted_guard_lem table_name opts r;
    }
