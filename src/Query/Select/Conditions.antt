-- ===== src/Query/Select/Conditions.antt =====
-- What a list query asks of a row, as conditions that BuildList of internal/query/builder.go prints.
use mathlib.Core.List.{append_assoc, append-nil}
use zeep_orbit.Prelude.{
  All-append, ℕ, suc, ◌+◌, String, List, [], ◌∷◌, ◌++◌, map, length, In, All, ◌≡◌, refl, ap, arith,
  length-append, sym,
}
use zeep_orbit.Prelude.Text.{concat}
use zeep_orbit.Query.{Value, text, placeholder, column_set}
use zeep_orbit.Registry.{Table}
use zeep_orbit.Query.Select.{Filters, add_clause, in_clause, comparison}

pub data Condition : Type 0 where
  -- column, SQL operator, value
  compares : String → String → String → Condition
  among : String → List String → Condition
  owned_by : String → Condition
  not_deleted : Condition

-- The arguments of a condition.
abbrev pub values : Condition → List Value
values (compares column op val) = text val ∷ []
values (among column parts) = map text parts
values (owned_by owner) = text owner ∷ []
values not_deleted = []

abbrev pub all_values : List Condition → List Value
all_values [] = []
all_values (c ∷ cs) = values c ++ all_values cs

-- The clause of a condition whose arguments stand after `n` others.
unfoldable pub clause : (String → String) → ℕ → Condition → String
clause types n (compares column op val) = comparison column op (types column) (suc n)
clause types n (among column parts) = in_clause column (types column) n parts
clause types n (owned_by owner) = concat ("owner_id = " ∷ placeholder (suc n) "uuid" ∷ [])
clause types n not_deleted = "deleted_at IS NULL"

unfoldable pub clauses : (String → String) → ℕ → List Condition → List String
clauses types n [] = []
clauses types n (c ∷ cs) = clause types n c ∷ clauses types (n + length (values c)) cs

-- The column that a condition filters by.
abbrev pub column_of : Condition → String
column_of (compares column op val) = column
column_of (among column parts) = column
column_of (owned_by owner) = "owner_id"
column_of not_deleted = "deleted_at"

-- The loop's lists print these conditions, each on a column of the table.
pub record Prints (table : Table) (types : String → String) (f : Filters) (cs : List Condition)
    : Type 0 where
  pub clauses_are : f.where_clauses ≡ clauses types 0 cs
  pub args_are : f.args ≡ all_values cs
  pub columns_known : All (λ c. In (column_of c) (column_set table)) cs

pub all_values-append :
    (cs ds : List Condition) → all_values (cs ++ ds) ≡ all_values cs ++ all_values ds
all_values-append [] ds = refl
all_values-append (c ∷ cs) ds =
    rw (all_values-append cs ds) (sym (append_assoc (values c) (all_values cs) (all_values ds)))

pub clauses-append :
    (types : String → String) (n : ℕ) (cs ds : List Condition)
    → clauses types n (cs ++ ds)
      ≡ clauses types n cs ++ clauses types (n + length (all_values cs)) ds
unfolding clauses
clauses-append types n [] ds = ap (λ k. clauses types k ds) (omega arith)
clauses-append types n (c ∷ cs) ds =
    let count : n + length (values c) + length (all_values cs)
        ≡ n + length (values c ++ all_values cs) =
      omega (arith, length-append (values c) (all_values cs)) in
    rw (clauses-append types (n + length (values c)) cs ds, count) refl

-- The loop's lists print one condition more, once its clause and its values are appended.
pub Prints-add :
    (table : Table) (types : String → String) (f : Filters) (cs : List Condition) (c : Condition)
    → Prints table types f cs
    → In (column_of c) (column_set table)
    → Prints table types (add_clause f (clause types (length f.args) c) (values c)) (cs ++ c ∷ [])
unfolding clauses
Prints-add table types f cs c h known = record {
  clauses_are =
      let count : 0 + length (all_values cs) ≡ length (all_values cs) = omega arith in
      rw (h.clauses_are, h.args_are, clauses-append types 0 cs (c ∷ []), count) refl;
  args_are = rw (h.args_are, all_values-append cs (c ∷ []), append-nil (values c)) refl;
  columns_known = All-append _ cs (c ∷ []) h.columns_known (known, tt);
}
