-- ===== src/Config/Validate/References.antt =====
-- Which foreign keys validateReference of internal/config/validate.go accepts.
use zeep_orbit.Prelude.{
  String, Bool, true, false, not, ◌&&◌, ◌||◌, any, List, [], ◌∷◌, In, Option, none, some, ok, guard,
  guard-eq-ok, contains, contains-eq_true, ◌==◌, eq_iff, put, Bool-cases, String-cases,
  Option-cases, ◌≡◌, ◌≢◌, ◌⊎◌, inl, inr, refl, sym, ap, ◌∙◌,
}
use zeep_orbit.Prelude.Text.{trim_space}
use zeep_orbit.Config.{ColumnConfig, TableConfig, ReferenceConfig}
use zeep_orbit.Config.Validate.{
  no_target_table, no_target_column, only_auth_id, auth_id_needs_uuid, target_not_unique,
  bad_on_delete, set_null_on_required, valid_on_delete, check_on_delete, validate_reference,
}
use zeep_orbit.Config.Validate.Tables.{add_tables, tables_by_name}

-- `ON DELETE` is one of the four actions or absent, and never sets a required column to null.
pub record HasSoundDelete (col : ColumnConfig) (ref : ReferenceConfig) : Type 0 where
  pub is_valid : In ref.on_delete valid_on_delete
  pub not_null_kept : col.required ≡ true → ref.on_delete ≢ "set_null"

-- The target is the id of the app's users, or an id or a unique column of one of the tables.
pub data HasTarget (tables : List TableConfig) (col : ColumnConfig) (ref : ReferenceConfig)
    : Type 0 where
  auth_user :
      ref.table ≡ "_auth_users" → ref.column ≡ "id" → col.type ≡ "uuid" → HasTarget tables col ref
  table_id :
      (t : TableConfig)
      → In t tables
      → t.name ≡ ref.table
      → ref.column ≡ "id"
      → HasTarget tables col ref
  unique_column :
      (t : TableConfig)
      → In t tables
      → t.name ≡ ref.table
      → (tc : ColumnConfig) → In tc t.columns
      → tc.name ≡ ref.column
      → tc.unique ≡ true
      → HasTarget tables col ref

pub guard-true : {E : Type 0} (b : Bool) (e : E) → guard b e ≡ ok tt → b ≡ true
guard-true true e h = refl
guard-true false e h = absurd (cc)

no_both : (a b : Bool) → not (a && b) ≡ true → a ≡ true → b ≡ true → ⊥
no_both true true h k l = absurd (cc)
no_both true false h k l = absurd (cc)
no_both false b h k l = absurd (cc)

both_true : (a b : Bool) → (a && b) ≡ true → (a ≡ true) × (b ≡ true)
both_true true b h = (refl, h)
both_true false b h = absurd (cc)

either_true : (a b : Bool) → (a || b) ≡ true → (a ≡ true) ⊎ (b ≡ true)
either_true true b h = inl refl
either_true false b h = inr h

check_on_delete_sound :
    (col : ColumnConfig) (ref : ReferenceConfig)
    → check_on_delete col ref ≡ ok tt
    → HasSoundDelete col ref
unfolding check_on_delete
check_on_delete_sound col ref h =
    let (valid, k) =
      guard-eq-ok (contains ref.on_delete valid_on_delete) (bad_on_delete ref.on_delete) _ h in
    record {
      is_valid = contains-eq_true ref.on_delete valid_on_delete valid;
      not_null_kept = λ r e.
          let w =
            guard-true (not (ref.on_delete == "set_null" && col.required)) set_null_on_required k in
          let q = (eq_iff ref.on_delete "set_null").1 e in
          no_both (ref.on_delete == "set_null") col.required w q r;
    }

-- A table that the map has under a name is one of the tables, with this name.
add_tables-found :
    (ts : List TableConfig) (m : String → Option TableConfig) (n : String) {t : TableConfig}
    → add_tables m ts n ≡ some t
    → (In t ts × (t.name ≡ n)) ⊎ (m n ≡ some t)
unfolding add_tables
add_tables-found [] m n h = inr h
add_tables-found (x ∷ ts) m n {t} h = elim (add_tables-found ts (put m x.name (some x)) n h) [
  | inl (i, e) ↦ inl (inr i, e)
  | inr e ↦ elim (String-cases x.name n) [
    | inl (f, p) ↦
        (let same : some x ≡ some t = (rw f at e) in
          let k : x ≡ t = cc in inl (inl (sym k), ap (λ z. z.name) (sym k) ∙ p))
    | inr (f, p) ↦ inr (rw f at e)
  ]
]

any-found :
    (cols : List ColumnConfig) (n : String)
    → any (λ tc. tc.name == n && tc.unique) cols ≡ true
    → (tc : ColumnConfig) × In tc cols × (tc.name ≡ n) × (tc.unique ≡ true)
any-found [] n h = absurd (cc)
any-found (c ∷ cols) n h = elim (Bool-cases (c.name == n && c.unique)) [
  | inl e ↦
      (let (a, b) = both_true (c.name == n) c.unique e in (c, inl refl, (eq_iff c.name n).0 a, b))
  | inr e ↦ let (tc, i, p, u) = any-found cols n (rw e at h) in (tc, inr i, p, u)
]

target_of :
    (tables : List TableConfig) (col : ColumnConfig) (ref : ReferenceConfig) (target : TableConfig)
    → tables_by_name tables ref.table ≡ some target
    → (ref.column == "id" || any (λ tc. tc.name == ref.column && tc.unique) target.columns) ≡ true
    → HasTarget tables col ref
target_of tables col ref target f u =
    let (listed, named) : In target tables × (target.name ≡ ref.table) =
      elim (add_tables-found tables (λ _. none) ref.table f) [ inl x ↦ x | inr x ↦ absurd (cc) ] in
    elim (either_true (ref.column == "id") _ u) [
      | inl x ↦ table_id target listed named ((eq_iff ref.column "id").0 x)
      | inr x ↦
          let (tc, i, p, q) = any-found target.columns ref.column x in
          unique_column target listed named tc i p q
    ]

pub validate_reference_sound :
    (tables : List TableConfig) (col : ColumnConfig) (ref : ReferenceConfig)
    → validate_reference col ref (tables_by_name tables) ≡ ok tt
    → HasTarget tables col ref × HasSoundDelete col ref
unfolding validate_reference
validate_reference_sound tables col ref h =
    let (named, k) = guard-eq-ok (not (trim_space ref.table == "")) no_target_table _ h in
    elim (String-cases ref.table "_auth_users") [
      | inl (e, p) ↦
          let (c, k1) =
            guard-eq-ok (ref.column == "id") (only_auth_id ref.table ref.column) _ (rw e at k) in
          let (t, k2) =
            guard-eq-ok (col.type == "uuid") (auth_id_needs_uuid col.type) (check_on_delete col ref)
              k1 in
          (
            auth_user p ((eq_iff ref.column "id").0 c) ((eq_iff col.type "uuid").0 t),
            check_on_delete_sound col ref k2,
          )
      | inr (e, p) ↦ elim (Option-cases (tables_by_name tables ref.table)) [
        | inl f ↦ (let w = rw (e, f) at k in absurd (cc))
        | inr (target, f) ↦
            let (c, k1) =
              guard-eq-ok (not (trim_space ref.column == "")) no_target_column _ (rw (e, f) at k) in
            let (u, k2) =
              guard-eq-ok
                (ref.column == "id"
                  || any (λ tc. tc.name == ref.column && tc.unique) target.columns)
                (target_not_unique ref.table ref.column) (check_on_delete col ref) k1 in
            (target_of tables col ref target f u, check_on_delete_sound col ref k2)
      ]
    ]
