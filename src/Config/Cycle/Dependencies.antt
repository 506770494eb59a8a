-- ===== src/Config/Cycle/Dependencies.antt =====
-- `dependencies` holds, for each name, the other tables that the tables of that name refer to.
use zeep_orbit.Prelude.{
  String, Option, none, some, List, [], ◌∷◌, ◌++◌, ◌≡◌, ◌≢◌, ◌⊎◌, refl, sym, ap, ◌∙◌, inl, inr, In,
  put, String-cases, eq_refl, eq_false, in-append_left, in-append_right, in-append_cases, subst,
}
use zeep_orbit.Config.{TableConfig, ColumnConfig, ReferenceConfig}
use zeep_orbit.Config.Keys.{Refers}
use zeep_orbit.Config.Cycle.{add_dependency, column_dependencies, dependencies}

module _ (deps : String → List String) (name x : String) where
  abbrev pushed : String → List String
  pushed = put deps name (deps name ++ x ∷ [])

  in-pushed_cases : (n d : String) → In d (pushed n) → In d (deps n) ⊎ ((n ≡ name) × (d ≡ x))
  in-pushed_cases n d h = elim (String-cases name n) [
    | inl (e, p) ↦ elim (in-append_cases d (deps name) (x ∷ []) (rw e at h)) [
      | inl i ↦ inl (rw (← p) i)
      | inr j ↦ elim j [ inl q ↦ inr (sym p, q) | inr z ↦ absurd z ]
    ]
    | inr (e, p) ↦ inl (rw e at h)
  ]

  in-pushed_old : (n d : String) → In d (deps n) → In d (pushed n)
  in-pushed_old n d h = elim (String-cases name n) [
    | inl (e, p) ↦ rw e (in-append_left d (deps name) (x ∷ []) (rw p h))
    | inr (e, p) ↦ rw e h
  ]

  in-pushed_new : In x (pushed name)
  in-pushed_new = rw eq_refl (in-append_right x (deps name) (x ∷ []) (inl refl))

-- A reference of a column to another table `d`.
abbrev RefersTo : String → Option ReferenceConfig → String → Type 0
RefersTo name r d = (x : ReferenceConfig) × (r ≡ some x) × (x.table ≡ d) × (d ≢ name)

in-add_dependency_cases :
    (name : String) (r : Option ReferenceConfig) (deps : String → List String) (n d : String)
    → In d (add_dependency name r deps n)
    → In d (deps n) ⊎ ((n ≡ name) × RefersTo name r d)
unfolding add_dependency
in-add_dependency_cases name none deps n d h = inl h
in-add_dependency_cases name (some r) deps n d h = elim (String-cases r.table name) [
  | inl (e, p) ↦ inl (rw (e, add_dependency) at h)
  | inr (e, p) ↦ elim (in-pushed_cases deps name r.table n d (rw (e, add_dependency) at h)) [
    | inl i ↦ inl i
    | inr (q, t) ↦ inr (q, (r, refl, sym t, rw t p))
  ]
]

in-add_dependency_old :
    (name : String) (r : Option ReferenceConfig) (deps : String → List String) (n d : String)
    → In d (deps n)
    → In d (add_dependency name r deps n)
unfolding add_dependency
in-add_dependency_old name none deps n d h = h
in-add_dependency_old name (some r) deps n d h = elim (String-cases r.table name) [
  | inl (e, p) ↦ rw (e, add_dependency) h
  | inr (e, p) ↦ rw (e, add_dependency) (in-pushed_old deps name r.table n d h)
]

in-add_dependency_new :
    (name : String) (r : ReferenceConfig) (deps : String → List String)
    → r.table ≢ name
    → In r.table (add_dependency name (some r) deps name)
unfolding add_dependency
in-add_dependency_new name r deps h =
    rw (eq_false r.table name h, add_dependency) (in-pushed_new deps name r.table)

in-column_dependencies_cases :
    (name : String) (cs : List ColumnConfig) (deps : String → List String) (n d : String)
    → In d (column_dependencies name cs deps n)
    → In d (deps n) ⊎ ((n ≡ name) × ((c : ColumnConfig) × In c cs × RefersTo name c.references d))
unfolding column_dependencies
in-column_dependencies_cases name [] deps n d h = inl h
in-column_dependencies_cases name (c ∷ cs) deps n d h =
    elim (in-column_dependencies_cases name cs (add_dependency name c.references deps) n d h) [
      | inl i ↦ elim (in-add_dependency_cases name c.references deps n d i) [
        | inl j ↦ inl j
        | inr (q, r) ↦ inr (q, (c, inl refl, r))
      ]
      | inr (q, (e, m, r)) ↦ inr (q, (e, inr m, r))
    ]

in-column_dependencies_old :
    (name : String) (cs : List ColumnConfig) (deps : String → List String) (n d : String)
    → In d (deps n)
    → In d (column_dependencies name cs deps n)
unfolding column_dependencies
in-column_dependencies_old name [] deps n d h = h
in-column_dependencies_old name (c ∷ cs) deps n d h =
    in-column_dependencies_old name cs (add_dependency name c.references deps) n d
      (in-add_dependency_old name c.references deps n d h)

in-column_dependencies_new :
    (name : String) (cs : List ColumnConfig) (deps : String → List String) (c : ColumnConfig)
    (r : ReferenceConfig)
    → In c cs
    → c.references ≡ some r
    → r.table ≢ name
    → In r.table (column_dependencies name cs deps name)
unfolding column_dependencies
in-column_dependencies_new name [] deps c r h e o = elim h [ ]
in-column_dependencies_new name (u ∷ cs) deps c r (inl p) e o =
    in-column_dependencies_old name cs (add_dependency name u.references deps) name r.table (
      subst (λ x. In r.table (add_dependency name x deps name)) (sym e ∙ ap (λ x. x.references) p)
        (in-add_dependency_new name r deps o))
in-column_dependencies_new name (u ∷ cs) deps c r (inr h) e o =
    in-column_dependencies_new name cs (add_dependency name u.references deps) c r h e o

pub in-dependencies_cases :
    (ts : List TableConfig) (deps : String → List String) (n d : String)
    → In d (dependencies ts deps n)
    → In d (deps n) ⊎ ((t : TableConfig) × In t ts × (t.name ≡ n) × Refers t d)
unfolding dependencies
in-dependencies_cases [] deps n d h = inl h
in-dependencies_cases (t ∷ ts) deps n d h =
    elim (in-dependencies_cases ts (column_dependencies t.name t.columns deps) n d h) [
      | inl i ↦ elim (in-column_dependencies_cases t.name t.columns deps n d i) [
        | inl j ↦ inl j
        | inr (q, (c, m, (r, e, tgt, o))) ↦ inr (
          t,
          inl refl,
          sym q,
          record { column = c; listed = m; reference = r; declared = e; target = tgt; other = o },
        )
      ]
      | inr (u, m, e, r) ↦ inr (u, inr m, e, r)
    ]

in-dependencies_old :
    (ts : List TableConfig) (deps : String → List String) (n d : String)
    → In d (deps n)
    → In d (dependencies ts deps n)
unfolding dependencies
in-dependencies_old [] deps n d h = h
in-dependencies_old (t ∷ ts) deps n d h =
    in-dependencies_old ts (column_dependencies t.name t.columns deps) n d
      (in-column_dependencies_old t.name t.columns deps n d h)

pub in-dependencies :
    (ts : List TableConfig) (deps : String → List String) (t : TableConfig) (d : String)
    → In t ts
    → Refers t d
    → In d (dependencies ts deps t.name)
unfolding dependencies
in-dependencies [] deps t d h r = elim h [ ]
in-dependencies (u ∷ ts) deps t d (inl p) r =
    in-dependencies_old ts (column_dependencies u.name u.columns deps) t.name d (
      subst (λ x. In d (column_dependencies x.name x.columns deps t.name)) p
        (subst (λ x. In x (column_dependencies t.name t.columns deps t.name)) r.target
          (in-column_dependencies_new t.name t.columns deps r.column r.reference r.listed r.declared
            (λ e. r.other (sym r.target ∙ e)))))
in-dependencies (u ∷ ts) deps t d (inr h) r =
    in-dependencies ts (column_dependencies u.name u.columns deps) t d h r
