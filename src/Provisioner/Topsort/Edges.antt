-- ===== src/Provisioner/Topsort/Edges.antt =====
-- The foreign keys that `topo_sort_tables` follows, as a list of pairs (referencing, referenced),
-- and what `dependents` and `inDegree` hold of it.
use zeep_orbit.Prelude.{
  put, ℕ, ◌+◌, String, Bool, true, false, not, ◌&&◌, ◌||◌, Option, none, some, List, [], ◌∷◌, ◌++◌,
  map, ◌==◌, eq_iff, if◌then◌else◌, ◌≡◌, refl, sym, ap, ◌∙◌, ◌⊎◌, inl, inr, arith, In, Distinct,
  contains, contains-eq_true, contains-eq_false, String-cases, Option-cases, Bool-cases, eq_refl,
  eq_false, ◌<◌,
}
use zeep_orbit.Prelude.Int.{pos}
use zeep_orbit.Config.{TableConfig, ColumnConfig, ReferenceConfig}
use zeep_orbit.Provisioner.Topsort.{
  by_name, Graph, add_edge, add_reference, add_columns, add_tables,
}

abbrev pub Edges : Type 0
Edges = List (String × String)

abbrev pub names : List TableConfig → List String
names = map (λ t. t.name)

module _ (known : String → Option TableConfig) where
  abbrev pub reference_edges : String → Option ReferenceConfig → Edges
  reference_edges name none = []
  reference_edges name (some r) =
      if r.table == name
      then []
      else elim (known r.table) [ none ↦ [] | some _ ↦ (name, r.table) ∷ [] ]

  abbrev pub column_edges : String → List ColumnConfig → Edges
  column_edges name [] = []
  column_edges name (c ∷ cs) = reference_edges name c.references ++ column_edges name cs

  abbrev pub table_edges : List TableConfig → Edges
  table_edges [] = []
  table_edges (t ∷ ts) = column_edges t.name t.columns ++ table_edges ts

abbrev pub add_all : Edges → Graph → Graph
add_all [] g = g
add_all ((s, t) ∷ es) g = add_all es (add_edge g s t)

add_all-append : (xs ys : Edges) (g : Graph) → add_all (xs ++ ys) g ≡ add_all ys (add_all xs g)
add_all-append [] ys g = refl
add_all-append ((s, t) ∷ xs) ys g = add_all-append xs ys (add_edge g s t)

module _ (known : String → Option TableConfig) where
  add_reference-eq-add_all :
      (name : String) (r : Option ReferenceConfig) (g : Graph)
      → add_reference known name r g ≡ add_all (reference_edges known name r) g
  unfolding add_reference
  add_reference-eq-add_all name none g = refl
  add_reference-eq-add_all name (some r) g = elim (Bool-cases (r.table == name)) [
    | inl e ↦ rw e
    | inr e ↦ rw e (elim (Option-cases (known r.table)) [ inl k ↦ rw k | inr (t, k) ↦ rw k ])
  ]

  add_columns-eq-add_all :
      (name : String) (cs : List ColumnConfig) (g : Graph)
      → add_columns known name cs g ≡ add_all (column_edges known name cs) g
  unfolding add_columns
  add_columns-eq-add_all name [] g = refl
  add_columns-eq-add_all name (c ∷ cs) g =
      add_columns-eq-add_all name cs (add_reference known name c.references g)
      ∙ ap (add_all (column_edges known name cs)) (add_reference-eq-add_all name c.references g)
      ∙ sym (add_all-append (reference_edges known name c.references) _ g)

  pub add_tables-eq-add_all :
      (ts : List TableConfig) (g : Graph) → add_tables known ts g ≡ add_all (table_edges known ts) g
  unfolding add_tables
  add_tables-eq-add_all [] g = refl
  add_tables-eq-add_all (t ∷ ts) g =
      add_tables-eq-add_all ts (add_columns known t.name t.columns g)
      ∙ ap (add_all (table_edges known ts)) (add_columns-eq-add_all t.name t.columns g)
      ∙ sym (add_all-append (column_edges known t.name t.columns) _ g)

abbrev pub one_if : Bool → ℕ
one_if true = 1
one_if false = 0

-- How often `n` stands in a list.
abbrev pub count : String → List String → ℕ
count n [] = 0
count n (x ∷ xs) = one_if (x == n) + count n xs

-- The edges that leave `n` and do not end in a table of `done`.
abbrev pub pending : Edges → List String → String → ℕ
pending [] done n = 0
pending ((s, t) ∷ es) done n = one_if (s == n && not (contains t done)) + pending es done n

-- The edges from `n` to `m`.
abbrev pub pairs : Edges → String → String → ℕ
pairs [] n m = 0
pairs ((s, t) ∷ es) n m = one_if (s == n && t == m) + pairs es n m

count-append : (n : String) (xs ys : List String) → count n (xs ++ ys) ≡ count n xs + count n ys
count-append n [] ys = omega arith
count-append n (x ∷ xs) ys = omega (arith, count-append n xs ys)

pub in_degree-add_all :
    (es : Edges) (g : Graph) (n : String) (k : ℕ)
    → g.in_degree n ≡ pos k
    → (add_all es g).in_degree n ≡ pos (k + pending es [] n)
in_degree-add_all [] g n k h = h ∙ ap pos (omega arith)
in_degree-add_all ((s, t) ∷ es) g n k h = elim (String-cases s n) [
  | inl (e, p) ↦
      in_degree-add_all es (add_edge g s t) n (k + 1) (rw (p, eq_refl, h) (ap pos (omega arith)))
      ∙ ap pos (rw e (omega arith))
  | inr (e, p) ↦ in_degree-add_all es (add_edge g s t) n k (rw e h) ∙ ap pos (rw e (omega arith))
]

count-add_edge :
    (g : Graph) (s t n m : String)
    → count n ((add_edge g s t).dependents m) ≡ count n (g.dependents m) + one_if (s == n && t == m)
count-add_edge g s t n m = elim (String-cases t m) [
  | inl (e, p) ↦
      rw (e, p)
        (count-append n (g.dependents m) (s ∷ [])
          ∙ elim (Bool-cases (s == n)) [ inl q ↦ rw q (omega arith) | inr q ↦ rw q (omega arith) ])
  | inr (e, p) ↦
      rw e (elim (Bool-cases (s == n)) [ inl q ↦ rw q (omega arith) | inr q ↦ rw q (omega arith) ])
]

pub count-add_all :
    (es : Edges) (g : Graph) (n m : String)
    → count n ((add_all es g).dependents m) ≡ count n (g.dependents m) + pairs es n m
count-add_all [] g n m = omega arith
count-add_all ((s, t) ∷ es) g n m =
    omega (arith, count-add_all es (add_edge g s t) n m, count-add_edge g s t n m)

contains-append :
    (t : String) (xs : List String) (m : String)
    → contains t (xs ++ m ∷ []) ≡ (contains t xs || m == t)
contains-append t [] m = ground arith
contains-append t (x ∷ xs) m = ground (arith, contains-append t xs m)

not-contains : (t : String) (xs : List String) → ¬ In t xs → contains t xs ≡ false
not-contains t xs h = elim (Bool-cases (contains t xs)) [
  | inl e ↦ absurd (h (contains-eq_true t xs e))
  | inr e ↦ e
]

done_step :
    (b : Bool) (done : List String) (t m : String)
    → ¬ In m done
    → one_if (b && not (contains t done))
      ≡ one_if (b && not (contains t (done ++ m ∷ []))) + one_if (b && t == m)
done_step b done t m h = elim (String-cases t m) [
  | inl (e, p) ↦
      let absent : contains t done ≡ false = not-contains t done (rw p h) in
      rw contains-append (ground (arith, eq_iff m t))
  | inr (e, p) ↦ rw contains-append (ground (arith, eq_iff m t))
]

-- What taking `m` off the queue changes.
pub pending-done :
    (es : Edges) (done : List String) (n m : String)
    → ¬ In m done
    → pending es done n ≡ pending es (done ++ m ∷ []) n + pairs es n m
pending-done [] done n m h = omega arith
pending-done ((s, t) ∷ es) done n m h =
    omega (arith, pending-done es done n m h, done_step (s == n) done t m h)

-- With nothing pending, every table that `n` refers to is done.
pub pending-eq_zero :
    (es : Edges) (done : List String) (n t : String)
    → pending es done n ≡ 0
    → In (n, t) es
    → In t done
pending-eq_zero [] done n t z h = elim h [ ]
pending-eq_zero ((s, u) ∷ es) done n t z (inl e) =
    let src : n ≡ s = ap (λ p. p.0) e in
    let tgt : t ≡ u = ap (λ p. p.1) e in
    contains-eq_true t done (rw tgt (ground (arith, eq_iff s n)))
pending-eq_zero ((s, u) ∷ es) done n t z (inr h) = pending-eq_zero es done n t (omega arith) h

-- With something pending there is such a table.
pub pending-pos :
    (es : Edges) (done : List String) (n : String)
    → 0 < pending es done n
    → (t : String) × In (n, t) es × ¬ In t done
pending-pos [] done n h = absurd (omega arith)
pending-pos ((s, t) ∷ es) done n h = elim (Bool-cases (s == n && not (contains t done))) [
  | inl e ↦ (
    t,
    inl (ap (λ x. (x, t)) (sym ((eq_iff s n).0 (ground arith)))),
    contains-eq_false t done (ground arith),
  )
  | inr e ↦
      let (u, m, k) =
        pending-pos es done n (let h' : 0 < 0 + pending es done n = rw e at h in omega arith) in
      (u, inr m, k)
]

pub count-pos : (n : String) (xs : List String) → In n xs → 0 < count n xs
count-pos n [] h = elim h [ ]
count-pos n (x ∷ xs) (inl e) = rw (e, eq_refl) (omega arith)
count-pos n (x ∷ xs) (inr h) = omega (arith, count-pos n xs h)

pub in-of_pairs : (es : Edges) (n m : String) → 0 < pairs es n m → In (n, m) es
in-of_pairs [] n m h = absurd (omega arith)
in-of_pairs ((s, t) ∷ es) n m h = elim (Bool-cases (s == n && t == m)) [
  | inl e ↦
      let src : s ≡ n = (eq_iff s n).0 (ground arith) in
      let tgt : t ≡ m = (eq_iff t m).0 (ground arith) in inl (λ i. (sym src i, sym tgt i))
  | inr e ↦ inr (in-of_pairs es n m (let h' : 0 < 0 + pairs es n m = rw e at h in omega arith))
]

pub by_name-of_not_in :
    (m : String → Option TableConfig) (ts : List TableConfig) (n : String)
    → ¬ In n (names ts)
    → by_name m ts n ≡ m n
unfolding by_name
by_name-of_not_in m [] n h = refl
by_name-of_not_in m (t ∷ ts) n h =
    by_name-of_not_in (put m t.name (some t)) ts n (λ k. h (inr k))
    ∙ rw (eq_false t.name n (λ e. h (inl (sym e))))

pub by_name-of_in :
    (m : String → Option TableConfig) (ts : List TableConfig) (t : TableConfig)
    → Distinct (names ts)
    → In t ts
    → by_name m ts t.name ≡ some t
unfolding by_name
by_name-of_in m [] t d h = elim h [ ]
by_name-of_in m (u ∷ ts) t d (inl e) =
    by_name-of_not_in (put m u.name (some u)) ts t.name (rw e d.0) ∙ rw (e, eq_refl)
by_name-of_in m (u ∷ ts) t d (inr k) = by_name-of_in (put m u.name (some u)) ts t d.1 k

-- A name that is found is the name of a table of the set, the one that is found.
pub by_name-eq_some :
    (m : String → Option TableConfig) (ts : List TableConfig) (n : String) (t : TableConfig)
    → by_name m ts n ≡ some t
    → m n ≡ some t ⊎ (In t ts × (t.name ≡ n))
unfolding by_name
by_name-eq_some m [] n t h = inl h
by_name-eq_some m (u ∷ ts) n t h = elim (by_name-eq_some (put m u.name (some u)) ts n t h) [
  | inl k ↦ elim (String-cases u.name n) [
    | inl (e, p) ↦
        let same : u ≡ t = let k' : some u ≡ some t = rw e at k in cc k' in
        inr (inl (sym same), ap (λ x. x.name) (sym same) ∙ p)
    | inr (e, p) ↦ inl (rw e at k)
  ]
  | inr (k, p) ↦ inr (inr k, p)
]
