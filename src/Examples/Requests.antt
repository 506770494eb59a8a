-- ===== src/Examples/Requests.antt =====
-- Requests on a table of notes.
use zeep_orbit.Prelude.{
  String, Bool, true, false, List, [], ◌∷◌, In, ok, ◌^◌, ◌≡◌, ◌↔◌, inl, inr, refl,
}
use zeep_orbit.Registry.{Column, Table}
use zeep_orbit.Query.{Number, Value, nil, text, number, int, ListQuery, WriteQuery}
use zeep_orbit.Query.Operators.{operator_map, find_operator, find_operator-order}
use zeep_orbit.Query.Values.{TimeParsers, normalize_integer}
use zeep_orbit.Query.Values.Integers.{Fits, normalize_integer_iff}
use zeep_orbit.Query.Select.{build_list}
use zeep_orbit.Query.Select.Listed.{IsListOf, build_list-IsListOf}
use zeep_orbit.Query.Insert.{InsertOptions, Row, finish_insert, build_insert_with_options}
use zeep_orbit.Query.Insert.Inserted.{IsInsertOf, build_insert_with_options-IsInsertOf}
use zeep_orbit.Query.Insert.Upsert.{IsUpsertOf, finish_insert-IsUpsertOf}
use zeep_orbit.Query.Update.{build_update}
use zeep_orbit.Query.Update.Updated.{IsUpdateOf, build_update-IsUpdateOf}

abbrev column : String → String → Bool → Column
column name type required = record {
  name = name;
  type = type;
  required = required;
  default = "";
  unique = false;
  rename_from = "";
  allowed_values = [];
}

abbrev notes : Table
notes = record {
  name = "notes";
  rls = "owner";
  columns =
      column "title" "text" true
      ∷ column "due" "timestamptz" false
      ∷ column "stars" "integer" false
      ∷ [];
}

-- A day is a timestamp.
abbrev time : TimeParsers
time = record { parses = λ layout s. false; scans = λ s. true }

abbrev filters : List (String × String)
filters =
    ("title", "eq.shop") ∷ ("stars", "in.4,5") ∷ ("limit", "5000") ∷ ("order", "due.desc") ∷ []

abbrev listed : ListQuery
listed = record {
  sql =
      "SELECT * FROM app.notes WHERE title = $1 AND stars IN ($2, $3) AND owner_id = $4::uuid AND deleted_at IS NULL ORDER BY due DESC LIMIT $5 OFFSET $6";
  args = text "shop" ∷ text "4" ∷ text "5" ∷ text "u1" ∷ int 1000 ∷ int 0 ∷ [];
  count_sql =
      "SELECT COUNT(*) FROM app.notes WHERE title = $1 AND stars IN ($2, $3) AND owner_id = $4::uuid AND deleted_at IS NULL";
}

notes-listed : build_list "app" "notes" notes filters "u1" true ≡ ok listed
unfolding build_list
notes-listed = refl

build_list-IsListOf_example : IsListOf "app" "notes" notes filters "u1" true listed
build_list-IsListOf_example =
    build_list-IsListOf "app" "notes" notes filters "u1" true listed notes-listed

-- The order of a map that begins with the last operator.
abbrev turned : List (String × String)
turned = ("ilike.", "ILIKE") ∷ operator_map

turned-same : (e : String × String) → In e turned ↔ In e operator_map
turned-same e = (
  (λ m. elim m [ inl p ↦ inr (inr (inr (inr (inr (inr (inr (inl p))))))) | inr k ↦ k ]),
  λ m. inr m,
)

find_operator-order_example : find_operator turned "like.a%" ≡ find_operator operator_map "like.a%"
find_operator-order_example = find_operator-order turned turned-same "like.a%"

abbrev five : Number
five = record { is_negative = false; numerator = 10; halvings = 1 }

abbrev body : List (String × Value)
body = ("due", text "") ∷ ("id", text "x") ∷ ("title", text "shop") ∷ ("stars", number five) ∷ []

normalize_integer_iff_example :
    (normalize_integer (column "stars" "integer" false) (number five) ≡ ok (number five))
    ↔ Fits (2 ^ 31) five
normalize_integer_iff_example =
    normalize_integer_iff (column "stars" "integer" false) (2 ^ 31) five (inl refl)

abbrev updated : WriteQuery
updated = record {
  sql =
      "UPDATE app.notes SET title = $1, due = $2::timestamptz, stars = $3, updated_at = now() WHERE id = $4 AND owner_id = $5::uuid RETURNING *";
  args = text "shop" ∷ nil ∷ number five ∷ text "n1" ∷ text "u1" ∷ [];
}

notes-updated : build_update time "app" "notes" notes "n1" body "u1" ≡ ok updated
unfolding build_update
notes-updated = refl

build_update-IsUpdateOf_example : IsUpdateOf time "app" "notes" notes "n1" body "u1" updated
build_update-IsUpdateOf_example =
    build_update-IsUpdateOf time "app" "notes" notes "n1" body "u1" updated notes-updated

abbrev upsert : InsertOptions
upsert = record {
  on_conflict = "update";
  conflict_columns = "title" ∷ [];
  conflict_owner_filter = "u1";
  conflict_exclude_soft_deleted = true;
}

abbrev row : Row
row = record {
  cols = "title" ∷ "due" ∷ "stars" ∷ "owner_id" ∷ [];
  placeholders = "$1" ∷ "$2::timestamptz" ∷ "$3" ∷ "$4::uuid" ∷ [];
  args = text "shop" ∷ nil ∷ number five ∷ text "u1" ∷ [];
}

abbrev inserted : WriteQuery
inserted = record {
  sql =
      "INSERT INTO app.notes (title, due, stars, owner_id) VALUES ($1, $2::timestamptz, $3, $4::uuid) ON CONFLICT (title) DO UPDATE SET due = excluded.due, stars = excluded.stars, updated_at = now() WHERE notes.owner_id = $5::uuid AND notes.deleted_at IS NULL RETURNING *, (xmax = 0) AS zeep_was_insert";
  args = text "shop" ∷ nil ∷ number five ∷ text "u1" ∷ text "u1" ∷ [];
}

notes-inserted : build_insert_with_options time "app" "notes" notes body "u1" upsert ≡ ok inserted
unfolding build_insert_with_options
notes-inserted = refl

build_insert_with_options-IsInsertOf_example :
    IsInsertOf time "app" "notes" notes body "u1" upsert inserted
build_insert_with_options-IsInsertOf_example =
    build_insert_with_options-IsInsertOf time "app" "notes" notes body "u1" upsert inserted
      notes-inserted

row-finished : finish_insert "app" "notes" notes upsert row ≡ ok inserted
unfolding finish_insert
row-finished = refl

finish_insert-IsUpsertOf_example : IsUpsertOf "app" "notes" notes upsert row inserted
finish_insert-IsUpsertOf_example =
    finish_insert-IsUpsertOf "app" "notes" notes upsert row inserted refl row-finished
