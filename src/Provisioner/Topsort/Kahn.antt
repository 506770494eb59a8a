-- ===== src/Provisioner/Topsort/Kahn.antt =====
-- The outer loop of `topo_sort_tables`: it ends within its fuel, with every table whose references
-- are settled, each behind those that it refers to.
use mathlib.Core.List.{append_assoc, append-nil}
use zeep_orbit.Prelude.{
  ℕ, zero, suc, ◌+◌, ◌≤◌, String, Option, none, some, List, [], ◌∷◌, ◌++◌, ◌≡◌, refl, sym, ap, ◌∙◌,
  inl, inr, arith, In, All, Distinct, length, length-append, in-append_right, in-map, in-map_cases,
  All-append, length-le_of_distinct, subst,
}
use zeep_orbit.Prelude.Int.{ℤ, pos}
use zeep_orbit.Config.{TableConfig}
use zeep_orbit.Config.Keys.{Refers}
use zeep_orbit.Provisioner.Topsort.{by_name, no_edges, release, kahn, table_of}
use zeep_orbit.Provisioner.Topsort.Edges.{
  Edges, names, table_edges, add_all, count, pending, pairs, count-add_all, pending-done,
  pending-eq_zero, count-pos, in-of_pairs, by_name-of_in,
}
use zeep_orbit.Provisioner.Topsort.References.{in-table_edges, in-table_edges_cases}
use zeep_orbit.Provisioner.Topsort.Release.{IsSettled, release-IsSettled}

-- Each table of the list refers, among `known`, only to tables that stand before it.
abbrev pub IsOrdered : List String → List String → List TableConfig → Type 0
IsOrdered known before [] = Unit
IsOrdered known before (t ∷ ts) =
    ((n : String) → Refers t n → In n known → In n before)
    × IsOrdered known (before ++ t.name ∷ []) ts

IsOrdered-snoc :
    (known before : List String) (ts : List TableConfig) (t : TableConfig)
    → IsOrdered known before ts
    → ((n : String) → Refers t n → In n known → In n (before ++ names ts))
    → IsOrdered known before (ts ++ t ∷ [])
IsOrdered-snoc known before [] t h k = ((λ n r i. rw append-nil at (k n r i)), tt)
IsOrdered-snoc known before (u ∷ ts) t h k = (
  h.0,
  IsOrdered-snoc known (before ++ u.name ∷ []) ts t h.1 (λ n r i. rw append_assoc (k n r i)),
)

names-snoc :
    (ts : List TableConfig) (t : TableConfig) → names (ts ++ t ∷ []) ≡ names ts ++ t.name ∷ []
names-snoc [] t = refl
names-snoc (u ∷ ts) t = ap (λ xs. u.name ∷ xs) (names-snoc ts t)

pub length-names : (ts : List TableConfig) → length (names ts) ≡ length ts
length-names [] = refl
length-names (t ∷ ts) = ap suc (length-names ts)

distinct-middle : (xs ys : List String) (m : String) → Distinct (xs ++ m ∷ ys) → ¬ In m xs
distinct-middle [] ys m d h = h
distinct-middle (x ∷ xs) ys m d (inl e) = d.0 (in-append_right x xs (m ∷ ys) (inl (sym e)))
distinct-middle (x ∷ xs) ys m d (inr h) = distinct-middle xs ys m d.1 h

module _ (tables : List TableConfig) where
  abbrev pub known : String → Option TableConfig
  known = by_name (λ _. none) tables

  abbrev pub edges : Edges
  edges = table_edges known tables

  abbrev pub dependents : String → List String
  dependents = (add_all edges no_edges).dependents

  count-dependents : (n m : String) → count n (dependents m) ≡ pairs edges n m
  count-dependents n m = omega (arith, count-add_all edges no_edges n m)

  -- What stands at the head of the loop.
  pub record IsInvariant (degree : String → ℤ) (queue : List String) (ordered : List TableConfig)
      : Type 0 where
    pub settled :
        IsSettled (pending edges (names ordered)) (names tables) [] degree (names ordered ++ queue)
    pub sorted : IsOrdered (names tables) [] ordered
    pub listed : All (λ t. In t tables) ordered

module _ (tables : List TableConfig) (distinct : Distinct (names tables)) where
  found :
      (m : String)
      → In m (names tables)
      → (t : TableConfig) × In t tables × (m ≡ t.name) × (known tables m ≡ some t)
  found m h =
      let (t, i, e) = in-map_cases (λ (t : TableConfig). t.name) tables m h in
      (t, i, e, ap (known tables) e ∙ by_name-of_in (λ _. none) tables t distinct i)

  -- Taking `m` off the queue turns the pending (edges tables) into those that `release` will count.
  rebase :
      (done : List String) (m : String) (degree : String → ℤ) (seen : List String)
      → ¬ In m done
      → IsSettled (pending (edges tables) done) (names tables) [] degree seen
      → IsSettled
          (pending (edges tables) (done ++ m ∷ []))
          (names tables)
          (dependents tables m)
          degree
          seen
  rebase done m degree seen new s = record {
    degrees = λ n. s.degrees n ∙ ap pos (step n);
    distinct = s.distinct;
    zeros = λ n h. sym (step n) ∙ s.zeros n h;
    complete = λ n i h. s.complete n i (step n ∙ h);
    inside = s.inside;
  }
    where
      step :
          (n : String)
          → pending (edges tables) done n + 0
            ≡ pending (edges tables) (done ++ m ∷ []) n + count n (dependents tables m)
      step n = omega (arith, pending-done (edges tables) done n m new, count-dependents tables n m)

  source_known : (n m : String) → In n (dependents tables m) → In n (names tables)
  source_known n m h =
      let edge =
        in-of_pairs (edges tables) n m
          (omega (arith, count-pos n (dependents tables m) h, count-dependents tables n m)) in
      let (t, i, e, _, _) = in-table_edges_cases (known tables) tables n m edge in
      rw (← e) (in-map (λ (t : TableConfig). t.name) tables t i)

  take_settled :
      (m : String) (queue : List String) (degree : String → ℤ) (done : List String)
      → IsSettled (pending (edges tables) done) (names tables) [] degree (done ++ m ∷ queue)
      → IsSettled
          (pending (edges tables) (done ++ m ∷ []))
          (names tables)
          []
          (release (dependents tables m) degree queue).0
          ((done ++ m ∷ []) ++ (release (dependents tables m) degree queue).1)
  take_settled m queue degree done s =
      release-IsSettled (pending (edges tables) (done ++ m ∷ [])) (names tables)
        (dependents tables m) degree (done ++ m ∷ []) queue (λ d. source_known d m)
        (rw append_assoc
          (rebase done m degree (done ++ m ∷ queue) (distinct-middle done queue m s.distinct) s))

  -- A table whose edges are all settled refers only to tables that are done.
  refers_done :
      (m n : String) (done : List String) (t : TableConfig)
      → In t tables
      → m ≡ t.name
      → pending (edges tables) done m ≡ 0
      → Refers t n
      → In n (names tables)
      → In n done
  refers_done m n done t i e z r k =
      let (u, _, _, f) = found n k in
      pending-eq_zero (edges tables) done m n z
        (rw e (in-table_edges (known tables) tables t u n i r f))

  take_first :
      (m : String) (queue : List String) (degree : String → ℤ) (ordered : List TableConfig)
      → IsInvariant tables degree (m ∷ queue) ordered
      → IsInvariant tables
          (release (dependents tables m) degree queue).0
          (release (dependents tables m) degree queue).1
          (ordered ++ table_of (known tables m) ∷ [])
  take_first m queue degree ordered v =
      let seen = in-append_right m (names ordered) (m ∷ queue) (inl refl) in
      let (t, i, e, k) = found m (v.settled.inside m seen) in
      let grown : names ordered ++ m ∷ [] ≡ names (ordered ++ t ∷ []) =
        ap (λ x. names ordered ++ x ∷ []) e ∙ sym (names-snoc ordered t) in
      rw k (record {
        settled =
            subst
              (λ done.
                IsSettled (pending (edges tables) done) (names tables) []
                  (release (dependents tables m) degree queue).0
                  (done ++ (release (dependents tables m) degree queue).1))
              grown (take_settled m queue degree (names ordered) v.settled);
        sorted = IsOrdered-snoc (names tables) [] ordered t v.sorted (λ n r h.
            refers_done m n (names ordered) t i e (omega (arith, v.settled.zeros m seen)) r h);
        listed = All-append (λ t. In t tables) ordered (t ∷ []) v.listed (i, tt);
      })

  has_room :
      (m : String) (queue : List String) (degree : String → ℤ) (ordered : List TableConfig)
      → IsInvariant tables degree (m ∷ queue) ordered
      → length ordered + 1 ≤ length tables
  has_room m queue degree ordered v =
      let fits =
        length-le_of_distinct (names ordered ++ m ∷ queue) (names tables) v.settled.distinct
          v.settled.inside in
      omega (
        arith,
        fits,
        length-append (names ordered) (m ∷ queue),
        length-names ordered,
        length-names tables,
      )

  pub kahn-IsInvariant :
      (fuel : ℕ) (queue : List String) (degree : String → ℤ) (ordered : List TableConfig)
      → length tables ≤ length ordered + fuel
      → IsInvariant tables degree queue ordered
      → (result : List TableConfig) × (degree' : String → ℤ) × (kahn
            (known tables)
            (dependents tables)
            fuel
            queue
            degree
            ordered
          ≡ some result)
        × IsInvariant tables degree' [] result
  unfolding kahn
  kahn-IsInvariant zero [] degree ordered f v = (ordered, degree, refl, v)
  kahn-IsInvariant zero (m ∷ queue) degree ordered f v =
      absurd (omega (arith, has_room m queue degree ordered v))
  kahn-IsInvariant (suc fuel) [] degree ordered f v = (ordered, degree, refl, v)
  kahn-IsInvariant (suc fuel) (m ∷ queue) degree ordered f v =
      kahn-IsInvariant fuel (release (dependents tables m) degree queue).1
        (release (dependents tables m) degree queue).0 (ordered ++ table_of (known tables m) ∷ [])
        (omega (arith, length-append ordered (table_of (known tables m) ∷ [])))
        (take_first m queue degree ordered v)
