-- ===== src/Config/Cycle/Decision.antt =====
-- `detect_reference_cycle` decides whether the foreign keys of a set of tables have a cycle.
use zeep_orbit.Prelude.{
  ℕ, suc, ◌<◌, String, some, List, [], ◌∷◌, ◌++◌, ok, err, ◌≡◌, map, ◌⊎◌, refl, inl, inr, arith, In,
  subst, length, in-map,
}
use zeep_orbit.Config.{TableConfig}
use zeep_orbit.Config.Keys.{Refers}
use zeep_orbit.Config.Cycle.{Walk, circular, start, dependencies, detect_reference_cycle}
use zeep_orbit.Config.Cycle.Walks.{IsWalk, not-IsCycle}
use zeep_orbit.Config.Cycle.Dependencies.{in-dependencies, in-dependencies_cases}
use zeep_orbit.Config.Cycle.Visit.{open_count, IsReady, Outcome, returns, reports}
use zeep_orbit.Config.Cycle.Tables.{reset, IsFinished, tables-Outcome}

-- Each name of the list is that of a table which refers to the next.
abbrev pub Follows : List TableConfig → List String → Type 0
Follows tables [] = Unit
Follows tables (x ∷ []) = Unit
Follows tables (x ∷ y ∷ xs) =
    ((t : TableConfig) × In t tables × (t.name ≡ x) × Refers t y) × Follows tables (y ∷ xs)

-- The reported path: along references, to a table that it has passed before.
pub record IsReferenceCycle (tables : List TableConfig) (walk : List String) : Type 0 where
  pub before : List String
  pub last : String
  pub parts : walk ≡ before ++ last ∷ []
  pub passed : In last before
  pub follows : Follows tables walk

-- Every reference to another table goes down in a rank, so that there is no cycle.
pub record IsAcyclic (tables : List TableConfig) : Type 0 where
  pub rank : String → ℕ
  pub falls : (t : TableConfig) (n : String) → In t tables → Refers t n → rank n < rank t.name

open_count-start :
    (ts : List TableConfig) → open_count (map (λ t. t.name) ts) start.state ≡ length ts
open_count-start [] = refl
open_count-start (t ∷ ts) = omega (arith, open_count-start ts)

module _ (tables : List TableConfig) where
  abbrev deps : String → List String
  deps = dependencies tables (λ _. [])

  dependency_cases :
      (n d : String) → In d (deps n) → (t : TableConfig) × In t tables × (t.name ≡ n) × Refers t d
  dependency_cases n d h = elim (in-dependencies_cases tables (λ _. []) n d h) [
    | inl z ↦ absurd z
    | inr r ↦ r
  ]

  abbrev table_names : List String
  table_names = map (λ t. t.name) tables

  inside : (n d : String) → In d (deps n) → In n table_names
  inside n d h =
      let (t, i, e, r) = dependency_cases n d h in
      rw (← e) (in-map (λ (t : TableConfig). t.name) tables t i)

  follows : (walk : List String) → IsWalk deps walk → Follows tables walk
  follows [] w = tt
  follows (x ∷ []) w = tt
  follows (x ∷ y ∷ xs) w = (dependency_cases x y w.0, follows (y ∷ xs) w.1)

  start-IsReady : IsReady deps (reset start)
  start-IsReady = record {
    ranked = record { rank = λ _. 0; closed = λ m d h i. cc; falls = λ m d h i. cc };
    tracked = λ m h. cc;
  }

  outcome :
      Outcome deps (IsFinished deps table_names inside tables start) (detect_reference_cycle tables)
  unfolding detect_reference_cycle
  outcome =
      tables-Outcome deps table_names inside (suc (length tables)) tables start
        (omega (arith, open_count-start tables)) start-IsReady

  -- The search ends. It returns nil, or it reports a path of references that comes back to a table
  -- on it.
  pub detect_reference_cycle-total :
      ((w : Walk) × (detect_reference_cycle tables ≡ some (ok w)))
      ⊎ ((p : List String) × (detect_reference_cycle tables ≡ some (err (circular p)))
          × IsReferenceCycle tables p)
  detect_reference_cycle-total = elim outcome [
    | returns w e f ↦ inl (w, e)
    | reports p e c ↦ inr (
      p,
      e,
      record {
        before = c.before;
        last = c.last;
        parts = c.parts;
        passed = c.passed;
        follows = follows p c.walks;
      },
    )
  ]

  -- If it returns nil there is no cycle.
  pub detect_reference_cycle-IsAcyclic :
      (w : Walk) → detect_reference_cycle tables ≡ some (ok w) → IsAcyclic tables
  detect_reference_cycle-IsAcyclic w h = elim outcome [
    | reports p e c ↦ cc
    | returns w' e f ↦ record {
      rank = f.ready.ranked.rank;
      falls = λ t n i r.
          f.ready.ranked.falls t.name n (f.done t i) (in-dependencies tables (λ _. []) t n i r);
    }
  ]

  -- If all references to other tables go down in some rank, so that there is no cycle, the check
  -- returns nil.
  pub detect_reference_cycle-of_acyclic :
      IsAcyclic tables → (w : Walk) × (detect_reference_cycle tables ≡ some (ok w))
  detect_reference_cycle-of_acyclic a = elim outcome [
    | returns w e f ↦ (w, e)
    | reports p e c ↦ absurd (
        not-IsCycle deps a.rank
          (λ x y h.
            let (t, i, e, r) = dependency_cases x y h in
            subst (λ z. a.rank y < a.rank z) e (a.falls t y i r))
          p c)
  ]
