-- ===== src/Config/Cycle.antt =====
-- The search for a cycle among the foreign keys: detectReferenceCycle of
-- internal/config/validate.go.
pub mod Dependencies
pub mod Walks
pub mod Visit
pub mod Node
pub mod Tables
pub mod Decision
use zeep_orbit.Prelude.{
  ℕ, zero, suc, String, Option, none, some, List, [], ◌∷◌, ◌++◌, Result, ok, err, ◌==◌,
  if◌then◌else◌, length, put,
}
use zeep_orbit.Config.{TableConfig, ColumnConfig, ReferenceConfig}

-- `deps`: self-references are no edges.
pub add_dependency : String → Option ReferenceConfig → (String → List String) → String → List String
add_dependency name none deps = deps
add_dependency name (some r) deps =
    if r.table == name then deps else put deps name (deps name ++ r.table ∷ [])

pub column_dependencies : String → List ColumnConfig → (String → List String) → String → List String
column_dependencies name [] deps = deps
column_dependencies name (c ∷ cs) deps =
    column_dependencies name cs (add_dependency name c.references deps)

pub dependencies : List TableConfig → (String → List String) → String → List String
dependencies [] deps = deps
dependencies (t ∷ ts) deps = dependencies ts (column_dependencies t.name t.columns deps)

pub data Mark : Type 0 where
  unvisited visiting visited : Mark

-- What the closure `visit` captures: `state` and `path`.
pub record Walk : Type 0 where
  pub state : String → Mark
  pub path : List String

pub data CycleError : Type 0 where
  circular : List String → CycleError

-- An error or the state after the call; `none` means that the fuel ran out.
abbrev pub Visited : Type 0
Visited = Option (Result CycleError Walk)

-- `path[:len(path)-1]`
pub drop_last : List String → List String
drop_last [] = []
drop_last (x ∷ []) = []
drop_last (x ∷ y ∷ xs) = x ∷ drop_last (y ∷ xs)

-- `state[node] = visiting` and `path = append(path, node)`
abbrev pub enter : String → Walk → Walk
enter node w = record { state = put w.state node visiting; path = w.path ++ node ∷ [] }

-- What follows the loop over `deps[node]`.
pub leave : String → Visited → Visited
leave node none = none
leave node (some (err e)) = some (err e)
leave node (some (ok w)) =
    some (ok (record { state = put w.state node visited; path = drop_last w.path }))

-- The loop over `deps[node]`.
pub visit_all : (String → Walk → Visited) → List String → Walk → Visited
visit_all visit [] w = some (ok w)
visit_all visit (dep ∷ rest) w = elim (visit dep w) [
  | none ↦ none
  | some r ↦ elim r [ err e ↦ some (err e) | ok w' ↦ visit_all visit rest w' ]
]

module _ (deps : String → List String) where
  pub visit : ℕ → String → Walk → Visited
  visit zero node w = none
  visit (suc fuel) node w = elim (w.state node) [
    | unvisited ↦ leave node (visit_all (visit fuel) (deps node) (enter node w))
    | visiting ↦ some (err (circular (w.path ++ node ∷ [])))
    | visited ↦ some (ok w)
  ]

  -- The loop over the tables: a walk from each one that is not visited, with an empty path.
  pub visit_tables : ℕ → List TableConfig → Walk → Visited
  visit_tables fuel [] w = some (ok w)
  visit_tables fuel (t ∷ ts) w = elim (w.state t.name) [
    | unvisited ↦ elim (visit fuel t.name (record { state = w.state; path = [] })) [
      | none ↦ none
      | some r ↦ elim r [ err e ↦ some (err e) | ok w' ↦ visit_tables fuel ts w' ]
    ]
    | visiting ↦ visit_tables fuel ts w
    | visited ↦ visit_tables fuel ts w
  ]

abbrev pub start : Walk
start = record { state = λ _. unvisited; path = [] }

-- The fuel is one more than the number of tables, as a path visits each table once.
unfoldable pub detect_reference_cycle : List TableConfig → Visited
unfolding add_dependency column_dependencies dependencies drop_last leave visit_all visit
    visit_tables
detect_reference_cycle tables =
    visit_tables (dependencies tables (λ _. [])) (suc (length tables)) tables start
