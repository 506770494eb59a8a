-- ===== src/Provisioner/Topsort/References.antt =====
-- What a table's columns refer to, and how the edges of `topo_sort_tables` show it.
use zeep_orbit.Prelude.{
  String, Option, none, some, List, [], ◌∷◌, ◌≡◌, ◌≢◌, refl, sym, ap, ◌∙◌, inl, inr, In,
  in-append_left, in-append_right, in-append_cases, String-cases, Option-cases, eq_false, subst,
}
use zeep_orbit.Config.{TableConfig, ColumnConfig, ReferenceConfig}
use zeep_orbit.Config.Keys.{Refers}
use zeep_orbit.Provisioner.Topsort.Edges.{reference_edges, column_edges, table_edges}

module _ (known : String → Option TableConfig) where
  in-reference_edges :
      (name n : String) (r : ReferenceConfig) (t : TableConfig)
      → r.table ≡ n
      → n ≢ name
      → known n ≡ some t
      → In (name, n) (reference_edges known name (some r))
  in-reference_edges name n r t e o k =
      rw (eq_false r.table name (λ p. o (sym e ∙ p)), e, k) (inl (ap (λ x. (name, x)) (sym e)))

  in-column_edges :
      (name n : String) (cs : List ColumnConfig) (c : ColumnConfig)
      → In c cs
      → In (name, n) (reference_edges known name c.references)
      → In (name, n) (column_edges known name cs)
  in-column_edges name n [] c h m = elim h [ ]
  in-column_edges name n (d ∷ cs) c (inl e) m =
      in-append_left (name, n) (reference_edges known name d.references)
        (column_edges known name cs) (rw (← e) m)
  in-column_edges name n (d ∷ cs) c (inr h) m =
      in-append_right _ (reference_edges known name d.references) _
        (in-column_edges name n cs c h m)

  pub in-table_edges :
      (ts : List TableConfig) (t u : TableConfig) (n : String)
      → In t ts
      → Refers t n
      → known n ≡ some u
      → In (t.name, n) (table_edges known ts)
  in-table_edges [] t u n h r k = elim h [ ]
  in-table_edges (v ∷ ts) t u n (inl e) r k = in-append_left _ _ _ (
      subst (λ w. In (t.name, n) (column_edges known w.name w.columns)) e
        (in-column_edges t.name n t.columns r.column r.listed
          (rw r.declared (in-reference_edges t.name n r.reference u r.target r.other k))))
  in-table_edges (v ∷ ts) t u n (inr h) r k =
      in-append_right _ (column_edges known v.name v.columns) _ (in-table_edges ts t u n h r k)

  edge_parts :
      (name s n : String) (r : ReferenceConfig) (u : TableConfig)
      → r.table ≢ name
      → known r.table ≡ some u
      → In {A = String × String} (s, n) ((name, r.table) ∷ [])
      → (s ≡ name)
        × ((x : ReferenceConfig) × (some r ≡ some x) × (x.table ≡ n) × (n ≢ name))
        × ((u : TableConfig) × (known n ≡ some u))
  edge_parts name s n r u p k (inl q) =
      let tgt : n ≡ r.table = ap (λ x. x.1) q in
      (ap (λ x. x.0) q, (r, refl, sym tgt, rw tgt p), (u, rw tgt k))
  edge_parts name s n r u p k (inr z) = absurd z

  in-reference_edges_cases :
      (name s n : String) (r : Option ReferenceConfig)
      → In (s, n) (reference_edges known name r)
      → (s ≡ name)
        × ((x : ReferenceConfig) × (r ≡ some x) × (x.table ≡ n) × (n ≢ name))
        × ((u : TableConfig) × (known n ≡ some u))
  in-reference_edges_cases name s n none h = elim h [ ]
  in-reference_edges_cases name s n (some r) h = elim (String-cases r.table name) [
    | inl (e, p) ↦ absurd (rw e at h)
    | inr (e, p) ↦ elim (Option-cases (known r.table)) [
      | inl k ↦ absurd (rw (e, k) at h)
      | inr (u, k) ↦ edge_parts name s n r u p k (rw (e, k) at h)
    ]
  ]

  in-column_edges_cases :
      (name s n : String) (cs : List ColumnConfig)
      → In (s, n) (column_edges known name cs)
      → (c : ColumnConfig) × In c cs × In (s, n) (reference_edges known name c.references)
  in-column_edges_cases name s n [] h = elim h [ ]
  in-column_edges_cases name s n (c ∷ cs) h =
      elim (in-append_cases _ (reference_edges known name c.references) _ h) [
        | inl k ↦ (c, inl refl, k)
        | inr k ↦ let (d, i, m) = in-column_edges_cases name s n cs k in (d, inr i, m)
      ]

  -- An edge is a reference of a table of the set, to a table that the lookup finds.
  pub in-table_edges_cases :
      (ts : List TableConfig) (s n : String)
      → In (s, n) (table_edges known ts)
      → (t : TableConfig) × In t ts
        × (t.name ≡ s)
        × Refers t n
        × ((u : TableConfig) × (known n ≡ some u))
  in-table_edges_cases [] s n h = elim h [ ]
  in-table_edges_cases (t ∷ ts) s n h =
      elim (in-append_cases _ (column_edges known t.name t.columns) _ h) [
        | inl k ↦
            let (c, i, m) = in-column_edges_cases t.name s n t.columns k in
            let (same, (x, d, tgt, o), found) =
              in-reference_edges_cases t.name s n c.references m in
            (
              t,
              inl refl,
              sym same,
              record {
                column = c;
                listed = i;
                reference = x;
                declared = d;
                target = tgt;
                other = o;
              },
              found,
            )
        | inr k ↦ let (u, i, e, r, f) = in-table_edges_cases ts s n k in (u, inr i, e, r, f)
      ]
