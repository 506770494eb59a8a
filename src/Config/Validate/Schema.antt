-- ===== src/Config/Validate/Schema.antt =====
-- What ValidateTables of internal/config/validate.go promises of the tables that it accepts.
use zeep_orbit.Prelude.{
  ℕ, suc, String, true, not, List, [], ◌∷◌, map, In, All, Option, none, some, Result, ok, err, ◌>>◌,
  guard-eq-ok, contains, contains-eq_true, is_empty, not_nil-of_not_empty, ◌==◌, eq_iff,
  String-cases, ◌≡◌, ◌≢◌, inl, inr, refl, subst,
}
use zeep_orbit.Prelude.Text.{trim_space}
use zeep_orbit.Config.{ColumnConfig, IndexConfig, TableConfig, ReferenceConfig}
use zeep_orbit.Config.Validate.{
  Parsers, ColumnError, EnumError, IndexError, no_index_name, no_index_column, unknown_index_column,
  bad_expression, validate_enum_values, default_expressions, validate_default, validate_reference,
}
use zeep_orbit.Config.Validate.References.{
  HasTarget, HasSoundDelete, validate_reference_sound, guard-true,
}
use zeep_orbit.Config.Validate.Tables.{
  tables_by_name, check_enum, check_references, as_column_error, at_column, at_index,
  validate_column, validate_columns, check_index_columns, validate_index, validate_indexes,
  validate_each,
}

-- A column: an enum has a sound value set, an expression as a default is one of the allowed ones, as
-- it is not quoted in DDL, and a foreign key has its target.
pub record IsSoundColumn (tables : List TableConfig) (col : ColumnConfig) : Type 0 where
  pub enum_values : col.type ≡ "enum" → validate_enum_values col.allowed_values ≡ ok tt
  pub expression_allowed :
      col.default_is_expression ≡ true
      → col.default ≢ ""
      → In col.default (default_expressions col.type)
  pub reference_sound :
      (ref : ReferenceConfig)
      → col.references ≡ some ref
      → HasTarget tables col ref × HasSoundDelete col ref

-- An index has columns, and they are the table's.
pub record IsSoundIndex (names : List String) (index : IndexConfig) : Type 0 where
  pub not_empty : index.columns ≢ []
  pub columns_known : All (λ c. In c names) index.columns

pub record IsSoundTable (tables : List TableConfig) (t : TableConfig) : Type 0 where
  pub columns_sound : All (IsSoundColumn tables) t.columns
  pub indexes_sound : All (IsSoundIndex (map (λ c. c.name) t.columns)) t.indexes

two_steps : {E : Type 0} (a b : Result E (Unit {0})) → (a >> b) ≡ ok tt → (a ≡ ok tt) × (b ≡ ok tt)
two_steps (ok u) b h = (refl, h)
two_steps (err e) b h = absurd (cc)

expression-allowed :
    (parsers : Parsers) (col : ColumnConfig)
    → validate_default parsers col ≡ ok tt
    → col.default_is_expression ≡ true
    → col.default ≢ ""
    → In col.default (default_expressions col.type)
unfolding validate_default
expression-allowed parsers col h e n = elim (String-cases col.default "") [
  | inl (f, p) ↦ absurd (n p)
  | inr (f, p) ↦
      contains-eq_true col.default (default_expressions col.type)
        (guard-true _ (bad_expression col.default col.type) (rw (f, e, validate_default) at h))
]

as_column_error-ok : (r : Result EnumError (Unit {0})) → as_column_error r ≡ ok tt → r ≡ ok tt
as_column_error-ok (ok u) h = refl
as_column_error-ok (err e) h = absurd (cc)

of_references :
    (by_name : String → Option TableConfig) (col : ColumnConfig) (o : Option ReferenceConfig)
    {ref : ReferenceConfig}
    → o ≡ some ref
    → elim o as (λ x. Result ColumnError (Unit {0})) [
      | none ↦ ok tt
      | some r ↦ validate_reference col r by_name
    ]
      ≡ ok tt
    → validate_reference col ref by_name ≡ ok tt
of_references by_name col none e h = absurd (cc)
of_references by_name col (some r) {ref} e h =
    let same : r ≡ ref = cc in subst (λ z. validate_reference col z by_name ≡ ok tt) same h

enum_sound :
    (col : ColumnConfig)
    → col.type ≡ "enum"
    → check_enum col ≡ ok tt
    → validate_enum_values col.allowed_values ≡ ok tt
unfolding check_enum
enum_sound col e h =
    as_column_error-ok (validate_enum_values col.allowed_values)
      (rw ((eq_iff col.type "enum").1 e, check_enum) at h)

references_sound :
    (tables : List TableConfig) (col : ColumnConfig) (ref : ReferenceConfig)
    → col.references ≡ some ref
    → check_references (tables_by_name tables) col ≡ ok tt
    → HasTarget tables col ref × HasSoundDelete col ref
unfolding check_references
references_sound tables col ref e h =
    validate_reference_sound tables col ref
      (of_references (tables_by_name tables) col col.references e h)

validate_column_sound :
    (parsers : Parsers) (tables : List TableConfig) (col : ColumnConfig)
    → validate_column parsers (tables_by_name tables) col ≡ ok tt
    → IsSoundColumn tables col
unfolding validate_column
validate_column_sound parsers tables col h =
    let by_name = tables_by_name tables in
    let (a, k) =
      two_steps (check_enum col) (validate_default parsers col >> check_references by_name col) h in
    let (b, c) = two_steps (validate_default parsers col) (check_references by_name col) k in
    record {
      enum_values = λ e. enum_sound col e a;
      expression_allowed = expression-allowed parsers col b;
      reference_sound = λ ref e. references_sound tables col ref e c;
    }

at_column-ok :
    (table : String) (k : ℕ) (name : String) (r : Result ColumnError (Unit {0}))
    → at_column table k name r ≡ ok tt
    → r ≡ ok tt
at_column-ok table k name (ok u) h = refl
at_column-ok table k name (err e) h = absurd (cc)

validate_columns_sound :
    (parsers : Parsers) (tables : List TableConfig) (table : String) (k : ℕ)
    (cols : List ColumnConfig)
    → validate_columns parsers (tables_by_name tables) table k cols ≡ ok tt
    → All (IsSoundColumn tables) cols
unfolding validate_columns
validate_columns_sound parsers tables table k [] h = tt
validate_columns_sound parsers tables table k (col ∷ cols) h =
    let (a, b) =
      two_steps (at_column table k col.name (validate_column parsers (tables_by_name tables) col)) _
        h in
    (
      validate_column_sound parsers tables col (at_column-ok table k col.name _ a),
      validate_columns_sound parsers tables table (suc k) cols b,
    )

check_index_columns-known :
    (names : List String) (index : String) (cs : List String)
    → check_index_columns names index cs ≡ ok tt
    → All (λ c. In c names) cs
unfolding check_index_columns
check_index_columns-known names index [] h = tt
check_index_columns-known names index (c ∷ cs) h =
    let (a, b) =
      guard-eq-ok (contains c names) (unknown_index_column index c)
        (check_index_columns names index cs) h in
    (contains-eq_true c names a, check_index_columns-known names index cs b)

at_index-ok :
    (table : String) (i : ℕ) (r : Result IndexError (Unit {0}))
    → at_index table i r ≡ ok tt
    → r ≡ ok tt
at_index-ok table i (ok u) h = refl
at_index-ok table i (err e) h = absurd (cc)

validate_indexes_sound :
    (table : String) (names : List String) (i : ℕ) (indexes : List IndexConfig)
    → validate_indexes table names i indexes ≡ ok tt
    → All (IsSoundIndex names) indexes
unfolding validate_indexes validate_index
validate_indexes_sound table names i [] h = tt
validate_indexes_sound table names i (index ∷ rest) h =
    let (a, b) =
      two_steps (at_index table i (validate_index names index))
        (validate_indexes table names (suc i) rest) h in
    let one = at_index-ok table i (validate_index names index) a in
    let (x, k) = guard-eq-ok (not (trim_space index.name == "")) no_index_name _ one in
    let (y, z) =
      guard-eq-ok (not (is_empty index.columns)) (no_index_column index.name)
        (check_index_columns names index.name index.columns) k in
    (
      record {
        not_empty = not_nil-of_not_empty index.columns y;
        columns_known = check_index_columns-known names index.name index.columns z;
      },
      validate_indexes_sound table names (suc i) rest b,
    )

pub validate_each_sound :
    (parsers : Parsers) (tables ts : List TableConfig)
    → validate_each parsers (tables_by_name tables) ts ≡ ok tt
    → All (IsSoundTable tables) ts
unfolding validate_each
validate_each_sound parsers tables [] h = tt
validate_each_sound parsers tables (t ∷ ts) h =
    let by_name = tables_by_name tables in
    let names = map (λ c. c.name) t.columns in
    let indexed = validate_indexes t.name names 0 t.indexes in
    let (a, k) =
      two_steps (validate_columns parsers by_name t.name 0 t.columns)
        (indexed >> validate_each parsers by_name ts) h in
    let (b, c) = two_steps indexed (validate_each parsers by_name ts) k in
    (
      record {
        columns_sound = validate_columns_sound parsers tables t.name 0 t.columns a;
        indexes_sound = validate_indexes_sound t.name names 0 t.indexes b;
      },
      validate_each_sound parsers tables ts c,
    )
