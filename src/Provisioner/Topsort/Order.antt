-- ===== src/Provisioner/Topsort/Order.antt =====
-- What `topo_sort_tables` promises the provisioner: an order to create the tables in, whenever the
-- foreign keys have no cycle.
use mathlib.Core.List.{append-nil}
use zeep_orbit.Prelude.{
  ℕ, zero, suc, ◌+◌, ◌<◌, String, true, none, some, List, [], ◌∷◌, ◌++◌, Result, ok, ◌≡◌, ◌↔◌, ◌⊎◌,
  refl, sym, ap, ◌∙◌, inl, inr, arith, In, Distinct, length, in-map, in-map_cases, All-at,
  length-le_of_distinct, in-of_length, Zero-cases, Bool-cases, subst,
}
use zeep_orbit.Prelude.Int.{ℤ, pos, is_zero}
use zeep_orbit.Config.{TableConfig}
use zeep_orbit.Config.Keys.{Refers}
use zeep_orbit.Provisioner.Topsort.{
  SortError, no_edges, add_tables, roots, kahn, check_length, finish, drain, topo_sort_tables,
}
use zeep_orbit.Provisioner.Topsort.Edges.{
  names, add_all, pending, add_tables-eq-add_all, in_degree-add_all, pending-pos, by_name-of_in,
  by_name-eq_some,
}
use zeep_orbit.Provisioner.Topsort.References.{in-table_edges_cases}
use zeep_orbit.Provisioner.Topsort.Kahn.{
  IsOrdered, IsInvariant, known, edges, dependents, kahn-IsInvariant, length-names,
}

root_cases : (n m : String) (xs : List String) → In n (m ∷ xs) → (n ≡ m) ⊎ In n xs
root_cases n m xs h = h

in-roots_cases :
    (degree : String → ℤ) (ts : List TableConfig) (n : String)
    → In n (roots degree ts)
    → In n (names ts) × (is_zero (degree n) ≡ true)
unfolding roots
in-roots_cases degree [] n h = elim h [ ]
in-roots_cases degree (t ∷ ts) n h = elim (Bool-cases (is_zero (degree t.name))) [
  | inl e ↦ elim (root_cases n t.name (roots degree ts) (rw (e, roots) at h)) [
    | inl p ↦ (inl p, rw p e)
    | inr k ↦ let (i, z) = in-roots_cases degree ts n k in (inr i, z)
  ]
  | inr e ↦ let (i, z) = in-roots_cases degree ts n (rw (e, roots) at h) in (inr i, z)
]

in-roots :
    (degree : String → ℤ) (ts : List TableConfig) (n : String)
    → In n (names ts)
    → is_zero (degree n) ≡ true
    → In n (roots degree ts)
unfolding roots
in-roots degree [] n h z = elim h [ ]
in-roots degree (t ∷ ts) n (inl e) z = rw (← e, z, roots) (inl refl)
in-roots degree (t ∷ ts) n (inr h) z = elim (Bool-cases (is_zero (degree t.name))) [
  | inl e ↦ rw (e, roots) (inr (in-roots degree ts n h z))
  | inr e ↦ rw (e, roots) (in-roots degree ts n h z)
]

distinct-roots :
    (degree : String → ℤ) (ts : List TableConfig) → Distinct (names ts) → Distinct (roots degree ts)
unfolding roots
distinct-roots degree [] d = tt
distinct-roots degree (t ∷ ts) d = elim (Bool-cases (is_zero (degree t.name))) [
  | inl e ↦
      rw (e, roots) ((λ h. d.0 (in-roots_cases degree ts t.name h).0), distinct-roots degree ts d.1)
  | inr e ↦ rw (e, roots) (distinct-roots degree ts d.1)
]

zero_of : {k : ℤ} {n : ℕ} → k ≡ pos n → is_zero k ≡ true → n ≡ 0
zero_of e z = ground arith

module _ (tables : List TableConfig) (distinct : Distinct (names tables)) where
  -- The in-degrees before the loop.
  abbrev start : String → ℤ
  start = (add_all (edges tables) no_edges).in_degree

  start-eq : (n : String) → start n ≡ pos (pending (edges tables) [] n + 0)
  start-eq n = in_degree-add_all (edges tables) no_edges n 0 refl ∙ ap pos (omega arith)

  start-IsInvariant : IsInvariant tables start (roots start tables) []
  start-IsInvariant = record {
    settled = record {
      degrees = start-eq;
      distinct = distinct-roots start tables distinct;
      zeros = λ n h. zero_of (start-eq n) (in-roots_cases start tables n h).1;
      complete = λ n i h. in-roots start tables n i (rw (start-eq n, h));
      inside = λ n h. (in-roots_cases start tables n h).0;
    };
    sorted = tt;
    listed = tt;
  }

  drained :
      (result : List TableConfig) (degree : String → ℤ)
      → kahn (known tables) (dependents tables) (length tables) (roots start tables) start []
        ≡ some result
      → topo_sort_tables tables ≡ some (check_length tables result)
  drained result degree e =
      unfold_sort
      ∙ ap (λ g. drain (known tables) g tables)
          (add_tables-eq-add_all (known tables) tables no_edges)
      ∙ unfold drain in ap (finish tables) e
    where
      unfold_sort :
          topo_sort_tables tables
          ≡ drain (known tables) (add_tables (known tables) tables no_edges) tables
      unfold_sort = unfold topo_sort_tables in refl

  loop_result :
      (result : List TableConfig) × (degree : String → ℤ) × (topo_sort_tables tables
        ≡ some (check_length tables result))
      × IsInvariant tables degree [] result
  loop_result =
      let (result, degree, e, v) =
        kahn-IsInvariant tables distinct (length tables) (roots start tables) start [] (omega arith)
          start-IsInvariant in
      (result, degree, drained result degree e, v)

  -- Every list of tables of distinct names has a result: the loop ends within its fuel.
  pub topo_sort_tables-total :
      (r : Result SortError (List TableConfig)) × (topo_sort_tables tables ≡ some r)
  topo_sort_tables-total =
      let (result, degree, e, v) = loop_result in (check_length tables result, e)

  check_length-eq_ok :
      (result ordered : List TableConfig)
      → check_length tables result ≡ ok ordered
      → (result ≡ ordered) × (length result ≡ length tables)
  unfolding check_length
  check_length-eq_ok result ordered h = ground arith

  check_length_ok :
      (result : List TableConfig)
      → length result ≡ length tables
      → check_length tables result ≡ ok result
  unfolding check_length
  check_length_ok result e = ground arith

  known_name : (n : String) (u : TableConfig) → known tables n ≡ some u → In n (names tables)
  known_name n u f = elim (by_name-eq_some (λ _. none) tables n u f) [
    | inl k ↦ cc
    | inr (i, e) ↦ rw (← e) (in-map (λ (t : TableConfig). t.name) tables u i)
  ]

  name_inj : (t u : TableConfig) → In t tables → In u tables → t.name ≡ u.name → t ≡ u
  name_inj t u i j e =
      let a = by_name-of_in (λ _. none) tables t distinct i in
      let b = by_name-of_in (λ _. none) tables u distinct j in cc (a, b)

  -- What the sorted list is: the tables given, each once and behind the tables that it refers to.
  pub record IsCreationOrder (ordered : List TableConfig) : Type 0 where
    pub sorted : IsOrdered (names tables) [] ordered
    pub same_tables : (t : TableConfig) → In t ordered ↔ In t tables
    pub once : Distinct (names ordered)

  ordered_names :
      {degree : String → ℤ} (result : List TableConfig)
      → IsInvariant tables degree [] result
      → Distinct (names result) × ((n : String) → In n (names result) → In n (names tables))
  ordered_names result v = rw append-nil at (
      let both : Distinct (names result ++ [])
          × ((n : String) → In n (names result ++ []) → In n (names tables)) =
        (v.settled.distinct, v.settled.inside) in
      both)

  invariant-IsCreationOrder :
      {degree : String → ℤ} (result : List TableConfig)
      → IsInvariant tables degree [] result
      → length result ≡ length tables
      → IsCreationOrder result
  invariant-IsCreationOrder result v l =
      let (d, inside) = ordered_names result v in
      record {
        sorted = v.sorted;
        same_tables = λ t. (
          λ i. All-at (λ t. In t tables) result t v.listed i,
          λ i.
              let named =
                in-of_length (names result) (names tables) d inside
                  (omega (arith, l, length-names result, length-names tables)) t.name
                  (in-map (λ (t : TableConfig). t.name) tables t i) in
              let (u, j, e) = in-map_cases (λ (t : TableConfig). t.name) result t.name named in
              subst (λ w. In w result)
                (sym (name_inj t u i (All-at (λ t. In t tables) result u v.listed j) e)) j,
        );
        once = d;
      }

  -- On success the tables come out once each, every one behind the tables that it refers to.
  pub topo_sort_tables-IsCreationOrder :
      (ordered : List TableConfig)
      → topo_sort_tables tables ≡ some (ok ordered)
      → IsCreationOrder ordered
  topo_sort_tables-IsCreationOrder ordered h =
      let (result, degree, e, v) = loop_result in
      let e' : some (check_length tables result) ≡ some (ok ordered) = sym e ∙ h in
      let (same, l) = check_length-eq_ok result ordered (cc) in
      subst IsCreationOrder same (invariant-IsCreationOrder result v l)

  module _ (rank : String → ℕ)
      (falls : (t : TableConfig) (n : String)
        → In t tables
        → Refers t n
        → In n (names tables)
        → rank n < rank t.name) where
    reached :
        {degree : String → ℤ} (result : List TableConfig)
        → IsInvariant tables degree [] result
        → (k : ℕ) (n : String) → rank n < k
        → In n (names tables)
        → In n (names result)
    reached result v zero n l i = absurd (omega arith)
    reached result v (suc k) n l i = elim (Zero-cases (pending (edges tables) (names result) n)) [
      | inl z ↦ rw append-nil at (v.settled.complete n i (omega arith))
      | inr p ↦
          let (m, edge, out) = pending-pos (edges tables) (names result) n p in
          let (t, j, e, r, (u, f)) = in-table_edges_cases (known tables) tables n m edge in
          let inside = known_name m u f in
          absurd
            (out (reached result v k m (omega (arith, ap rank e, falls t m j r inside)) inside))
    ]

    -- Without a cycle among the references the sort succeeds.
    pub topo_sort_tables-of_rank :
        (ordered : List TableConfig) × (topo_sort_tables tables ≡ some (ok ordered))
    topo_sort_tables-of_rank =
        let (result, degree, e, v) = loop_result in
        let (d, inside) = ordered_names result v in
        let all_out =
          length-le_of_distinct (names tables) (names result) distinct
            (λ n i. reached result v (suc (rank n)) n (omega arith) i) in
        let not_more = length-le_of_distinct (names result) (names tables) d inside in
        (
          result,
          e
              ∙ ap some (
                  check_length_ok result (omega (arith, length-names result, length-names tables))),
        )
