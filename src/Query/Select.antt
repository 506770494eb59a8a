-- ===== src/Query/Select.antt =====
-- BuildList of internal/query/builder.go. A Go map is the list of its entries, in the order in which
-- `range` delivers them.
pub mod Conditions
pub mod Filtered
pub mod Listed
use Prim.Native.String
use Prim.Native.Char.{code}
use zeep_orbit.Prelude.{
  ℕ, suc, ◌+◌, ◌-◌, String, Bool, false, true, not, ◌&&◌, ◌||◌, List, [], ◌∷◌, ◌++◌, map, length,
  Option, none, some, Result, ok, err, ◌>>=◌, ◌>>◌, guard, ◌==◌, eqb, leb, ltb, contains, is_empty,
  lookup, if◌then◌else◌,
}
use zeep_orbit.Prelude.Int.{ℤ, pos, negsuc}
use zeep_orbit.Prelude.Text.{concat, join, split, after_prefix}
use zeep_orbit.Prelude.Text.Numbers.{itoa, atoi, parse_int}
use zeep_orbit.Registry.{Table}
use zeep_orbit.Query.{
  Value, text, int, QueryError, invalid_limit, invalid_offset, unknown_filter, unsupported_operator,
  invalid_order, invalid_direction, unknown_order, ListQuery, column_set, column_types, placeholder,
}
use zeep_orbit.Query.Operators.{operator_map, find_operator}

-- The local variables of the loop over the filters.
pub record Filters : Type 0 where
  pub where_clauses : List String
  pub args : List Value
  pub show_deleted : Bool

abbrev pub no_filters : Filters
no_filters = record { where_clauses = []; args = []; show_deleted = false }

-- Appends to both lists.
abbrev pub add_clause : Filters → String → List Value → Filters
add_clause f clause values = record f {
  where_clauses = f.where_clauses ++ clause ∷ [];
  args = f.args ++ values;
}

abbrev pub default_limit : ℕ
default_limit = 50

abbrev pub max_limit : ℕ
max_limit = 1000

-- `v, err := strconv.Atoi(raw)`, and neither an error nor a negative `v`.
abbrev pub non_negative : Option ℤ → Option ℕ
non_negative (some (pos n)) = some n
non_negative _ = none

unfoldable pub read_limit : Option String → Result QueryError ℕ
unfolding parse_int
read_limit none = ok default_limit
read_limit (some raw) = elim (non_negative (atoi raw)) [
  | none ↦ err (invalid_limit raw)
  | some v ↦ ok (if ltb max_limit v then max_limit else v)
]

unfoldable pub read_offset : Option String → Result QueryError ℕ
unfolding parse_int
read_offset none = ok 0
read_offset (some raw) = elim (non_negative (atoi raw)) [
  | none ↦ err (invalid_offset raw)
  | some v ↦ ok v
]

-- The placeholders of an `in.` filter after `n` arguments, one for each part.
unfoldable pub in_placeholders : String → ℕ → List String → List String
unfolding placeholder
in_placeholders col_type n [] = []
in_placeholders col_type n (p ∷ ps) =
    placeholder (suc n) col_type ∷ in_placeholders col_type (suc n) ps

unfoldable pub in_clause : String → String → ℕ → List String → String
unfolding in_placeholders join
in_clause key col_type n parts =
    concat (key ∷ " IN (" ∷ join ", " (in_placeholders col_type n parts) ∷ ")" ∷ [])

unfoldable pub comparison : String → String → String → ℕ → String
unfolding placeholder
comparison key op col_type n = concat (key ∷ " " ∷ op ∷ " " ∷ placeholder n col_type ∷ [])

abbrev pub is_paging : String → Bool
is_paging key = key == "limit" || (key == "offset" || key == "order")

-- A filter on a known column.
unfoldable pub column_filter : Table → String → String → Filters → Result QueryError Filters
unfolding in_clause comparison find_operator column_types split
column_filter table key val f = elim (after_prefix "in." val) [
  | some raw ↦
      let parts = split b',' raw in
      ok (
        add_clause f (in_clause key (column_types table key) (length f.args) parts)
          (map text parts))
  | none ↦ elim (find_operator operator_map val) [
    | some (op, filter_val) ↦ ok (
        add_clause f (comparison key op (column_types table key) (suc (length f.args)))
          (text filter_val ∷ []))
    | none ↦ err (unsupported_operator key val)
  ]
]

-- One turn of the loop over `params`.
unfoldable pub filter_step : Table → String → String → Filters → Result QueryError Filters
unfolding column_filter
filter_step table key val f =
    if is_paging key
    then ok f
    else if key == "deleted" && val == "true"
    then ok (record f { show_deleted = true })
    else guard (contains key (column_set table)) (unknown_filter key)
      >> column_filter table key val f

unfoldable pub filter_params : Table → List (String × String) → Filters → Result QueryError Filters
unfolding filter_step
filter_params table [] f = ok f
filter_params table ((key, val) ∷ params) f = do
  g ← filter_step table key val f
  filter_params table params g

unfoldable pub owner_clause : String → Filters → Filters
unfolding placeholder
owner_clause owner_id f =
    if not (owner_id == "")
    then add_clause f (concat ("owner_id = " ∷ placeholder (suc (length f.args)) "uuid" ∷ []))
        (text owner_id ∷ [])
    else f

unfoldable pub deleted_clause : Bool → Filters → Filters
deleted_clause soft_delete f =
    if soft_delete && not f.show_deleted then add_clause f "deleted_at IS NULL" [] else f

-- `unicode.ToUpper`, on the characters whose upper case is an ASCII letter.
upper : ℕ → ℕ
upper c =
    if leb b'a' c && leb c b'z'
    then c - 32
    else if eqb c 0x131
    then b'I'
    else if eqb c 0x17f
    then b'S'
    else c

-- Whether `strings.ToUpper(s)` is the text `t`.
unfoldable pub upper_is : String → String → Bool
unfolding upper
upper_is String.[] String.[] = true
upper_is String.[] (String.◌∷◌ y t) = false
upper_is (String.◌∷◌ x s) String.[] = false
upper_is (String.◌∷◌ x s) (String.◌∷◌ y t) = eqb (upper (code x)) (code y) && upper_is s t

-- `direction`, if it is one of the two.
unfoldable pub sort_direction : String → Option String
unfolding upper_is
sort_direction s =
    if upper_is s "ASC" then some "ASC" else if upper_is s "DESC" then some "DESC" else none

unfoldable pub order_by : Table → String → List String → Result QueryError String
unfolding sort_direction
order_by table raw (field ∷ s ∷ []) = elim (sort_direction s) [
  | none ↦ err (invalid_direction s)
  | some direction ↦
      guard (contains field (column_set table)) (unknown_order field)
      >> ok (concat (" ORDER BY " ∷ field ∷ " " ∷ direction ∷ []))
]
order_by table raw _ = err (invalid_order raw)

unfoldable pub order_clause : Table → Option String → Result QueryError String
unfolding order_by split
order_clause table none = ok ""
order_clause table (some raw) = order_by table raw (split b'.' raw)

unfoldable pub where_text : List String → String
unfolding join
where_text clauses = if is_empty clauses then "" else concat (" WHERE " ∷ join " AND " clauses ∷ [])

-- The two statements, from what the parameters gave.
unfoldable pub list_query : String → String → List String → List Value → String → ℕ → ℕ → ListQuery
unfolding itoa where_text
list_query schema_name table_name clauses args order limit offset = record {
  sql = concat (
      "SELECT * FROM "
      ∷ schema_name
      ∷ "."
      ∷ table_name
      ∷ where_text clauses
      ∷ order
      ∷ " LIMIT $"
      ∷ itoa (suc (length args))
      ∷ " OFFSET $"
      ∷ itoa (suc (suc (length args)))
      ∷ []);
  args = args ++ int limit ∷ int offset ∷ [];
  count_sql =
      concat ("SELECT COUNT(*) FROM " ∷ schema_name ∷ "." ∷ table_name ∷ where_text clauses ∷ []);
}

unfoldable pub build_list :
    String → String → Table → List (String × String) → String → Bool → Result QueryError ListQuery
unfolding read_limit read_offset filter_params owner_clause deleted_clause order_clause list_query
    lookup
build_list schema_name table_name table params owner_id soft_delete = do
  limit ← read_limit (lookup "limit" params)
  offset ← read_offset (lookup "offset" params)
  filtered ← filter_params table params no_filters
  order ← order_clause table (lookup "order" params)
  let f = deleted_clause soft_delete (owner_clause owner_id filtered)
  ok (list_query schema_name table_name f.where_clauses f.args order limit offset)
