-- ===== src/Webhooks/Mapping/Resolved.antt =====
-- What ResolveFields takes from a payload, and when it fails.
use zeep_orbit.Prelude.{
  eq_iff, Bool, true, false, String, Option, none, some, List, [], ◌∷◌, ◌++◌, Result, ok, err, ◌==◌,
  ◌≡◌, ◌⊎◌, inl, inr, refl, sym, ap, ◌∙◌, arith, All, lookup, Option-cases, if◌then◌else◌,
}
use zeep_orbit.Prelude.Text.{split}
use zeep_orbit.Webhooks.{Json, Fields}
use zeep_orbit.Webhooks.Mapping.{
  FieldMapping, extract_path, put_column, resolve_from, resolve_fields,
}

-- A mapping's path leads to a value.
abbrev pub Resolves : Fields → FieldMapping → Type 0
Resolves payload m = (v : Json) × (extract_path payload m.source_path ≡ some v)

abbrev pub or_else : Option Json → Option Json → Option Json
or_else (some v) other = some v
or_else none other = other

-- A column gets the value of its last mapping.
unfoldable pub last_value : Fields → List FieldMapping → String → Option Json
last_value payload [] column = none
last_value payload (m ∷ ms) column =
    or_else (last_value payload ms column)
      (if m.column == column then extract_path payload m.source_path else none)

-- The first mapping whose path is missing.
abbrev pub FirstMissing : Fields → List FieldMapping → String → Type 0
FirstMissing payload ms path =
    (before : List FieldMapping) × (m : FieldMapping) × (after : List FieldMapping) × (ms
      ≡ before ++ m ∷ after)
    × All (Resolves payload) before
    × (extract_path payload m.source_path ≡ none)
    × (path ≡ m.source_path)

lookup-put_column :
    (column name : String) (v : Json) (result : List (String × Json))
    → lookup name (put_column column v result)
      ≡ (if column == name then some v else lookup name result)
unfolding lookup put_column
lookup-put_column column name v [] = refl
lookup-put_column column name v ((c, w) ∷ result) = ground (
  arith,
  eq_iff c column,
  eq_iff column name,
  eq_iff c name,
  lookup-put_column column name v result,
)

or_else-if :
    (a : Option Json) (b : Bool) (v : Json) (c : Option Json)
    → or_else a (if b then some v else c) ≡ or_else (or_else a (if b then some v else none)) c
or_else-if (some w) b v c = refl
or_else-if none true v c = refl
or_else-if none false v c = refl

-- What the loop returns: with what it holds so far, the last value of each column.
data Loop (payload : Fields) (ms : List FieldMapping) (result : List (String × Json))
    (r : Result String (List (String × Json))) : Type 0 where
  resolved :
      (row : List (String × Json))
      → r ≡ ok row
      → All (Resolves payload) ms
      → ((name : String)
          → lookup name row ≡ or_else (last_value payload ms name) (lookup name result))
      → Loop payload ms result r
  missing : (path : String) → r ≡ err path → FirstMissing payload ms path → Loop payload ms result r

resolve_from-Loop :
    (payload : Fields) (ms : List FieldMapping) (result : List (String × Json))
    → Loop payload ms result (resolve_from payload ms result)
unfolding resolve_from last_value
resolve_from-Loop payload [] result = resolved result refl tt (λ name. refl)
resolve_from-Loop payload (m ∷ ms) result =
    elim (Option-cases (extract_path payload m.source_path)) [
      | inl e ↦ missing m.source_path (rw (e, resolve_from) refl) ([], m, ms, refl, tt, e, refl)
      | inr (v, e) ↦ elim (resolve_from-Loop payload ms (put_column m.column v result)) [
        | resolved row same all values ↦
            resolved row (rw (e, resolve_from) same) ((v, e), all)
              (λ name.
                values name
                ∙ ap (or_else (last_value payload ms name))
                    (lookup-put_column m.column name v result)
                ∙ or_else-if (last_value payload ms name) (m.column == name) v (lookup name result)
                ∙ ap
                    (λ x.
                      or_else
                        (or_else (last_value payload ms name)
                          (if m.column == name then x else none))
                        (lookup name result))
                    (sym e))
        | missing path same (before, m', after, split, all, gone, named) ↦
            missing path (rw (e, resolve_from) same)
              (m ∷ before, m', after, ap (λ l. m ∷ l) split, ((v, e), all), gone, named)
      ]
    ]

or_else-none : (a : Option Json) → or_else a none ≡ a
or_else-none (some v) = refl
or_else-none none = refl

-- ResolveFields takes all fields or none. Where every mapping's path leads to a value, the result
-- has the columns of the mappings, each with the value of its last mapping, and no other column.
-- Otherwise the error names the path of the first mapping that leads nowhere.
pub resolve_fields-all_or_none :
    (payload : Fields) (ms : List FieldMapping)
    → ((row : List (String × Json)) × (resolve_fields payload ms ≡ ok row)
        × All (Resolves payload) ms
        × ((name : String) → lookup name row ≡ last_value payload ms name))
      ⊎ ((path : String) × (resolve_fields payload ms ≡ err path) × FirstMissing payload ms path)
unfolding resolve_fields lookup
resolve_fields-all_or_none payload ms = elim (resolve_from-Loop payload ms []) [
  | resolved row same all values ↦
      inl (row, same, all, λ name. values name ∙ or_else-none (last_value payload ms name))
  | missing path same first ↦ inr (path, same, first)
]
