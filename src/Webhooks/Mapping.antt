-- ===== src/Webhooks/Mapping.antt =====
-- From a payload to the columns of a row: internal/webhookengine/mapping.go.
pub mod Resolved
use zeep_orbit.Prelude.Int.{ℤ, pos, negsuc}
use zeep_orbit.Prelude.{
  ℕ, String, Option, none, some, List, [], ◌∷◌, Result, ok, err, ◌==◌, if◌then◌else◌,
}
use zeep_orbit.Prelude.Text.{split}
use zeep_orbit.Prelude.Text.Numbers.{atoi}
use zeep_orbit.Webhooks.{Json, null, bool, num, str, arr, obj, Fields, field_at, item_at}

pub record FieldMapping : Type 0 where
  pub source_path : String
  pub column : String

-- `strconv.Atoi`, with an error or a negative number as `none`.
unfoldable pub index_of : String → Option ℕ
index_of segment = elim (atoi segment) [
  | some (pos n) ↦ some n
  | some (negsuc n) ↦ none
  | none ↦ none
]

-- One round of the loop: the value under a segment.
unfoldable pub step_into : String → Json → Option Json
unfolding field_at item_at index_of
step_into segment (obj fs) = field_at segment fs
step_into segment (arr xs) = elim (index_of segment) [ none ↦ none | some i ↦ item_at i xs ]
step_into segment null = none
step_into segment (bool b) = none
step_into segment (num f) = none
step_into segment (str s) = none

unfoldable pub walk_path : List String → Json → Option Json
unfolding step_into
walk_path [] current = some current
walk_path (segment ∷ segments) current = elim (step_into segment current) [
  | none ↦ none
  | some v ↦ walk_path segments v
]

unfoldable pub extract_path : Fields → String → Option Json
unfolding walk_path split
extract_path payload path = if path == "" then none else walk_path (split 46 path) (obj payload)

-- `result[m.Column] = value`
unfoldable pub put_column : String → Json → List (String × Json) → List (String × Json)
put_column column v [] = (column, v) ∷ []
put_column column v ((c, w) ∷ result) =
    if c == column then (column, v) ∷ result else (c, w) ∷ put_column column v result

-- The loop, with what `result` holds so far. The error names the path.
unfoldable pub resolve_from :
    Fields → List FieldMapping → List (String × Json) → Result String (List (String × Json))
unfolding extract_path put_column
resolve_from payload [] result = ok result
resolve_from payload (m ∷ mappings) result = elim (extract_path payload m.source_path) [
  | none ↦ err m.source_path
  | some v ↦ resolve_from payload mappings (put_column m.column v result)
]

unfoldable pub resolve_fields : Fields → List FieldMapping → Result String (List (String × Json))
unfolding resolve_from
resolve_fields payload mappings = resolve_from payload mappings []
