-- ===== src/Provisioner/Topsort.antt =====
-- The order in which tables are created: internal/provisioner/topsort.go.
pub mod Edges
pub mod Release
pub mod References
pub mod Kahn
pub mod Order
pub mod Validated
use zeep_orbit.Prelude.{
  ℕ, zero, suc, String, Bool, Option, none, some, List, [], ◌∷◌, ◌++◌, Result, ok, err, ◌==◌, eqb,
  if◌then◌else◌, length, put,
}
use zeep_orbit.Prelude.Int.{ℤ, pos, inc, dec, is_zero}
use zeep_orbit.Config.{TableConfig, ColumnConfig, ReferenceConfig}

-- `byName`: a later table of the same name replaces an earlier one.
pub by_name : (String → Option TableConfig) → List TableConfig → String → Option TableConfig
by_name m [] = m
by_name m (t ∷ ts) = by_name (put m t.name (some t)) ts

-- `dependents` and `inDegree`.
pub record Graph : Type 0 where
  pub dependents : String → List String
  pub in_degree : String → ℤ

abbrev pub no_edges : Graph
no_edges = record { dependents = λ _. []; in_degree = λ _. pos 0 }

abbrev pub add_edge : Graph → String → String → Graph
add_edge g name target = record {
  dependents = put g.dependents target (g.dependents target ++ name ∷ []);
  in_degree = put g.in_degree name (inc (g.in_degree name));
}

module _ (known : String → Option TableConfig) where
  -- The body of the loop over the columns: nil, a self-reference and a table outside the set are
  -- passed over.
  pub add_reference : String → Option ReferenceConfig → Graph → Graph
  add_reference name none g = g
  add_reference name (some r) g =
      if r.table == name
      then g
      else elim (known r.table) [ none ↦ g | some _ ↦ add_edge g name r.table ]

  pub add_columns : String → List ColumnConfig → Graph → Graph
  add_columns name [] g = g
  add_columns name (c ∷ cs) g = add_columns name cs (add_reference name c.references g)

  pub add_tables : List TableConfig → Graph → Graph
  add_tables [] g = g
  add_tables (t ∷ ts) g = add_tables ts (add_columns t.name t.columns g)

-- The tables that the queue starts with.
pub roots : (String → ℤ) → List TableConfig → List String
roots degree [] = []
roots degree (t ∷ ts) =
    let rest = roots degree ts in if is_zero (degree t.name) then t.name ∷ rest else rest

-- The loop over `dependents[name]`, which lowers in-degrees and extends the queue.
pub release : List String → (String → ℤ) → List String → (String → ℤ) × List String
release [] degree queue = (degree, queue)
release (d ∷ ds) degree queue =
    let lower = dec (degree d) in
    release ds (put degree d lower) (if is_zero lower then queue ++ d ∷ [] else queue)

-- `byName[name]`, the zero value for a missing key.
abbrev pub table_of : Option TableConfig → TableConfig
table_of none = record { name = ""; rls = ""; columns = []; indexes = [] }
table_of (some t) = t

module _ (known : String → Option TableConfig) (dependents : String → List String) where
  -- `for len(queue) > 0`, with fuel; `none` means that the fuel ran out.
  pub kahn : ℕ → List String → (String → ℤ) → List TableConfig → Option (List TableConfig)
  kahn zero [] degree ordered = some ordered
  kahn zero (name ∷ queue) degree ordered = none
  kahn (suc fuel) [] degree ordered = some ordered
  kahn (suc fuel) (name ∷ queue) degree ordered =
      let (degree', queue') = release (dependents name) degree queue in
      kahn fuel queue' degree' (ordered ++ table_of (known name) ∷ [])

pub data SortError : Type 0 where
  circular_dependency : SortError

-- `len(ordered) != len(tables)`
pub check_length : List TableConfig → List TableConfig → Result SortError (List TableConfig)
check_length tables ordered =
    if eqb (length ordered) (length tables) then ok ordered else err circular_dependency

pub finish :
    List TableConfig → Option (List TableConfig) → Option (Result SortError (List TableConfig))
finish tables none = none
finish tables (some ordered) = some (check_length tables ordered)

-- The queue and the loop, on the maps that are built.
pub drain :
    (String → Option TableConfig)
    → Graph
    → List TableConfig
    → Option (Result SortError (List TableConfig))
unfolding finish
drain known g tables =
    finish tables
      (kahn known g.dependents (length tables) (roots g.in_degree tables) g.in_degree [])

-- `topoSortTables`. A table is taken from the queue once, so as much fuel as there are tables is
-- enough.
unfoldable pub topo_sort_tables : List TableConfig → Option (Result SortError (List TableConfig))
unfolding by_name add_reference add_columns add_tables roots release kahn check_length drain
topo_sort_tables tables =
    let known = by_name (λ _. none) tables in drain known (add_tables known tables no_edges) tables
