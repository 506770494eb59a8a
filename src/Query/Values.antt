-- ===== src/Query/Values.antt =====
-- What a value must be before it is bound to a parameter: NormalizeTimestamptz and
-- NormalizeInteger of internal/query/builder.go.
pub mod Integers
use zeep_orbit.Prelude.{
  ℕ, ◌/◌, ◌%◌, ◌^◌, String, Bool, not, ◌&&◌, ◌||◌, List, [], ◌∷◌, Result, ok, ◌>>=◌, ◌>>◌, guard,
  ◌==◌, eqb, leb, ltb, any, if◌then◌else◌,
}
use zeep_orbit.Prelude.Text.{trim_space}
use zeep_orbit.Registry.{Column}
use zeep_orbit.Query.{
  Number, Value, nil, text, number, QueryError, not_a_timestamp, not_whole, out_of_range,
}

-- The parsers of package time and of pgtype that the code calls, by whether they succeed.
pub record TimeParsers : Type 0 where
  -- `time.Parse(layout, s)`
  pub parses : String → String → Bool
  -- `new(pgtype.Timestamptz).Scan(s)`
  pub scans : String → Bool

-- `time.RFC3339Nano`
abbrev pub rfc3339_nano : String
rfc3339_nano = "2006-01-02T15:04:05.999999999Z07:00"

abbrev pub offsetless_layouts : List String
offsetless_layouts =
    "2006-01-02" ∷ "2006-01-02 15:04" ∷ "2006-01-02 15:04:05" ∷ "2006-01-02 15:04:05.999999999"
    ∷ "2006-01-02 15:04:05Z0700" ∷ "2006-01-02 15:04:05.999999999Z0700" ∷ "2006-01-02 15:04:05Z07"
    ∷ "2006-01-02 15:04:05.999999999Z07" ∷ "2006-01-02T15:04" ∷ "2006-01-02T15:04:05"
    ∷ "2006-01-02T15:04:05.999999999" ∷ "2006-01-02T15:04:05Z0700"
    ∷ "2006-01-02T15:04:05.999999999Z0700" ∷ "2006-01-02T15:04:05Z07"
    ∷ "2006-01-02T15:04:05.999999999Z07" ∷ []

-- One of the code's three kinds of parsers accepts the text.
unfoldable pub is_timestamp : TimeParsers → String → Bool
is_timestamp time s =
    time.parses rfc3339_nano s
    || (time.scans s || any (λ layout. time.parses layout s) offsetless_layouts)

unfoldable pub normalize_timestamptz : TimeParsers → Column → Value → Result QueryError Value
unfolding is_timestamp trim_space
normalize_timestamptz time col (text s) =
    if s == "" && not col.required
    then ok nil
    else guard (is_timestamp time (trim_space s)) (not_a_timestamp col.name) >> ok (text s)
normalize_timestamptz time col val = ok val

-- `f == math.Trunc(f)`
unfoldable pub is_whole : Number → Bool
is_whole f = eqb (f.numerator % 2 ^ f.halvings) 0

-- -2^(w-1) <= f < 2^(w-1), for a whole number: the bounds math.MinInt32 and math.MaxInt32 for w = 32
-- and -(1<<63) and 1<<63 for w = 64.
unfoldable pub in_range : ℕ → Number → Bool
in_range low f =
    let magnitude = f.numerator / 2 ^ f.halvings in
    if f.is_negative then leb magnitude low else ltb magnitude low

unfoldable pub normalize_number : Column → Number → Result QueryError Value
unfolding is_whole in_range
normalize_number col f = do
  guard (is_whole f) (not_whole col.name)
  (if col.type == "integer"
      then guard (in_range (2 ^ 31) f) (out_of_range col.name "integer")
      else if col.type == "bigint"
      then guard (in_range (2 ^ 63) f) (out_of_range col.name "bigint")
      else ok tt)
  ok (number f)

unfoldable pub normalize_integer : Column → Value → Result QueryError Value
unfolding normalize_number
normalize_integer col (number f) = normalize_number col f
normalize_integer col val = ok val

-- The two checks in the loops of BuildInsertWithOptions and BuildUpdate, by the column's type.
unfoldable pub normalize : TimeParsers → Column → String → Value → Result QueryError Value
unfolding normalize_timestamptz normalize_integer
normalize time col col_type val = do
  checked ← (if col_type == "timestamptz" then normalize_timestamptz time col val else ok val)
  (if col_type == "integer" || col_type == "bigint"
      then normalize_integer col checked
      else ok checked)
