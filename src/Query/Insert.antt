-- ===== src/Query/Insert.antt =====
-- INSERT: BuildInsertWithOptions and BuildInsert of internal/query/builder.go.
pub mod Inserted
pub mod Upsert
pub mod Finished
use zeep_orbit.Prelude.{
  suc, String, Bool, true, false, not, ◌||◌, List, [], ◌∷◌, ◌++◌, length, Option, none, some,
  Result, ok, err, ◌>>=◌, ◌>>◌, guard, ◌==◌, contains, is_empty, lookup, if◌then◌else◌,
}
use zeep_orbit.Prelude.Text.{concat, join}
use zeep_orbit.Registry.{Column, Table}
use zeep_orbit.Query.{
  Value, nil, text, QueryError, missing_field, nothing_to_insert, unknown_conflict_column,
  no_conflict_column, WriteQuery, column_set, column_types, placeholder,
}
use zeep_orbit.Query.Values.{TimeParsers}
use zeep_orbit.Query.Assignments.{check_body, assign_columns}

pub record InsertOptions : Type 0 where
  pub on_conflict : String
  pub conflict_columns : List String
  pub conflict_owner_filter : String
  pub conflict_exclude_soft_deleted : Bool

-- `!present || val == nil`
unfoldable pub is_missing : Option Value → Bool
is_missing none = true
is_missing (some nil) = true
is_missing (some _) = false

-- The loop over the required columns.
unfoldable pub check_required : List Column → List (String × Value) → Result QueryError (Unit {0})
unfolding is_missing lookup
check_required [] body = ok tt
check_required (col ∷ cols) body =
    let rest = check_required cols body in
    if not col.required
    then rest
    else guard (not (is_missing (lookup col.name body))) (missing_field col.name) >> rest

-- The three lists that the loop fills.
pub record Row : Type 0 where
  pub cols : List String
  pub placeholders : List String
  pub args : List Value

abbrev pub no_columns : Row
no_columns = record { cols = []; placeholders = []; args = [] }

unfoldable pub add_column : (String → String) → String → Value → Row → Row
add_column types name val r = record {
  cols = r.cols ++ name ∷ [];
  placeholders = r.placeholders ++ placeholder (suc (length r.args)) (types name) ∷ [];
  args = r.args ++ val ∷ [];
}

unfoldable pub add_owner : String → Row → Row
add_owner owner_id r =
    if not (owner_id == "") then add_column (λ _. "uuid") "owner_id" (text owner_id) r else r

unfoldable pub check_conflict_columns : Table → List String → Result QueryError (Unit {0})
check_conflict_columns table [] = ok tt
check_conflict_columns table (c ∷ cs) =
    guard (contains c (column_set table)) (unknown_conflict_column c)
    >> check_conflict_columns table cs

-- The loop over `cols` that leaves out the conflict's target and the owner.
unfoldable pub excluded_clauses : List String → List String → List String
excluded_clauses target [] = []
excluded_clauses target (c ∷ cs) =
    let rest = excluded_clauses target cs in
    if contains c target || c == "owner_id"
    then rest
    else concat (c ∷ " = excluded." ∷ c ∷ []) ∷ rest

-- `whereGuards`, after the arguments so far.
unfoldable pub where_guards : String → InsertOptions → List Value → List String
unfolding placeholder
where_guards table_name opts args =
    (if not (opts.conflict_owner_filter == "")
      then concat (table_name ∷ ".owner_id = " ∷ placeholder (suc (length args)) "uuid" ∷ []) ∷ []
      else [])
    ++ (if opts.conflict_exclude_soft_deleted
        then concat (table_name ∷ ".deleted_at IS NULL" ∷ []) ∷ []
        else [])

unfoldable pub guard_args : InsertOptions → List Value
guard_args opts =
    if not (opts.conflict_owner_filter == "") then text opts.conflict_owner_filter ∷ [] else []

unfoldable pub guards_text : List String → String
unfolding join
guards_text guards = if is_empty guards then "" else concat (" WHERE " ∷ join " AND " guards ∷ [])

-- The case "ignore".
unfoldable pub on_conflict_ignore : Table → InsertOptions → Result QueryError String
unfolding join check_conflict_columns
on_conflict_ignore table opts =
    if is_empty opts.conflict_columns
    then ok " ON CONFLICT DO NOTHING"
    else check_conflict_columns table opts.conflict_columns
      >> ok (concat (" ON CONFLICT (" ∷ join ", " opts.conflict_columns ∷ ") DO NOTHING" ∷ []))

-- The case "update".
unfoldable pub on_conflict_update : String → Table → InsertOptions → Row → Result QueryError String
unfolding join check_conflict_columns excluded_clauses where_guards guards_text
on_conflict_update table_name table opts r = do
  guard (not (is_empty opts.conflict_columns)) no_conflict_column
  check_conflict_columns table opts.conflict_columns
  ok (
      concat (
        " ON CONFLICT ("
        ∷ join ", " opts.conflict_columns
        ∷ ") DO UPDATE SET "
        ∷ join ", " (excluded_clauses opts.conflict_columns r.cols ++ "updated_at = now()" ∷ [])
        ∷ guards_text (where_guards table_name opts r.args)
        ∷ []))

unfoldable pub insert_text : String → String → Row → String
unfolding join
insert_text schema_name table_name r = concat (
    "INSERT INTO "
    ∷ schema_name
    ∷ "."
    ∷ table_name
    ∷ " ("
    ∷ join ", " r.cols
    ∷ ") VALUES ("
    ∷ join ", " r.placeholders
    ∷ ")"
    ∷ [])

-- The switch on `opts.OnConflict` and the RETURNING clause.
unfoldable pub finish_insert :
    String → String → Table → InsertOptions → Row → Result QueryError WriteQuery
unfolding insert_text on_conflict_ignore on_conflict_update guard_args
finish_insert schema_name table_name table opts r =
    if opts.on_conflict == "ignore"
    then (do
      conflict ← on_conflict_ignore table opts
      ok (record {
        sql = concat (insert_text schema_name table_name r ∷ conflict ∷ " RETURNING *" ∷ []);
        args = r.args;
      }))
    else if opts.on_conflict == "update"
    then (do
      conflict ← on_conflict_update table_name table opts r
      ok (record {
        sql = concat (
            insert_text schema_name table_name r
            ∷ conflict
            ∷ " RETURNING *, (xmax = 0) AS zeep_was_insert"
            ∷ []);
        args = r.args ++ guard_args opts;
      }))
    else ok (record {
      sql = concat (insert_text schema_name table_name r ∷ " RETURNING *" ∷ []);
      args = r.args;
    })

unfoldable pub build_insert_with_options :
    TimeParsers
    → String
    → String
    → Table
    → List (String × Value)
    → String
    → InsertOptions
    → Result QueryError WriteQuery
unfolding check_body check_required assign_columns add_column placeholder add_owner finish_insert
    column_types
build_insert_with_options time schema_name table_name table body owner_id opts = do
  check_body table body
  check_required table.columns body
  assigned ←
      assign_columns (add_column (column_types table)) time (column_types table) body table.columns
        no_columns
  guard (not (is_empty (add_owner owner_id assigned).cols)) nothing_to_insert
  finish_insert schema_name table_name table opts (add_owner owner_id assigned)

-- `InsertOptions{}`
abbrev pub no_options : InsertOptions
no_options = record {
  on_conflict = "";
  conflict_columns = [];
  conflict_owner_filter = "";
  conflict_exclude_soft_deleted = false;
}

unfoldable pub build_insert :
    TimeParsers
    → String
    → String
    → Table
    → List (String × Value)
    → String
    → Result QueryError WriteQuery
unfolding build_insert_with_options
build_insert time schema_name table_name table body owner_id =
    build_insert_with_options time schema_name table_name table body owner_id no_options
