-- ===== src/PolicyTemplates/Valid.antt =====
-- Whatever a template produces, the provisioner accepts.
use zeep_orbit.Prelude.{
  String, true, false, not, some, List, [], ◌∷◌, Result, ok, guard-eq-ok, is_empty, ◌==◌, ◌≡◌, ◌≢◌,
  inl, inr, refl, arith, eq_iff, In, All, keys, contains-eq_true, contains-eq_false, Bool-cases,
  String-cases,
}
use zeep_orbit.Config.{ColumnConfig}
use zeep_orbit.Provisioner.Policy.{
  PolicyDef, is_ident, allowed_actions, policy_operators, column_by_name, owner_column,
  unary_operators,
}
use zeep_orbit.Provisioner.Policy.Operands.{
  IsValidClause, unary, one_claim, one_literal, nonempty, takes_no_list,
}
use zeep_orbit.Provisioner.Policy.Accepts.{IsValidPolicy}
use zeep_orbit.PolicyTemplates.{
  TemplateInput, TemplateError, generated_policy_name, open_read_clause, owner_clause, value_clause,
  build_owner_only_policies, build_open_read_policy, build_read_only_policy,
  build_value_match_policy, build_open_read_owner_write_policies, build_template_policies,
}

ok_inj :
    {a b : List PolicyDef} → ◌≡◌ {A = Result TemplateError (List PolicyDef)} (ok a) (ok b) → a ≡ b
ok_inj h = cc

module _ (columns : List ColumnConfig) where
  owner_found : column_by_name columns "owner_id" ≡ some owner_column
  unfolding column_by_name
  owner_found = refl

  open_read_clause-IsValid : IsValidClause (column_by_name columns) open_read_clause
  unfolding is_ident
  open_read_clause-IsValid = record {
    ident = refl;
    column = owner_column;
    found = owner_found;
    operator = contains-eq_true "IS NOT NULL" (keys policy_operators) refl;
    operand = unary (inr (inl refl)) refl refl;
  }

  owner_clause-IsValid : IsValidClause (column_by_name columns) owner_clause
  unfolding is_ident
  owner_clause-IsValid = record {
    ident = refl;
    column = owner_column;
    found = owner_found;
    operator = inl refl;
    operand =
        one_claim (contains-eq_false "=" unary_operators refl) (takes_no_list owner_clause refl)
          refl (inr (inl refl));
  }

  module _ (roles : List String) (some_role : roles ≢ [])
      (idents : All (λ r. is_ident r ≡ true) roles) where
    owner_only-IsValid :
        (actions : List String)
        → All (λ a. In a allowed_actions) actions
        → All (IsValidPolicy columns) (build_owner_only_policies actions roles)
    unfolding build_owner_only_policies
    owner_only-IsValid [] h = tt
    owner_only-IsValid (a ∷ as') h = (
      record {
        name = named a h.0;
        action = h.0;
        some_role = some_role;
        roles = idents;
        clauses = (refl, owner_clause-IsValid, tt);
      },
      owner_only-IsValid as' h.1,
    )
      where
        named :
            (a : String)
            → In a allowed_actions
            → is_ident (generated_policy_name "owner_only" a) ≡ true
        named a (inl e) = unfold is_ident in rw e
        named a (inr (inl e)) = unfold is_ident in rw e
        named a (inr (inr (inl e))) = unfold is_ident in rw e
        named a (inr (inr (inr (inl e)))) = unfold is_ident in rw e
        named a (inr (inr (inr (inr z)))) = absurd z

    open_read-IsValid : IsValidPolicy columns (build_open_read_policy roles)
    unfolding build_open_read_policy is_ident
    open_read-IsValid = record {
      name = refl;
      action = inl refl;
      some_role = some_role;
      roles = idents;
      clauses = (refl, open_read_clause-IsValid, tt);
    }

    read_only-IsValid : IsValidPolicy columns (build_read_only_policy roles)
    unfolding build_read_only_policy is_ident
    read_only-IsValid = record {
      name = refl;
      action = inl refl;
      some_role = some_role;
      roles = idents;
      clauses = (refl, open_read_clause-IsValid, tt);
    }

    open_read_owner_write-IsValid :
        All (IsValidPolicy columns) (build_open_read_owner_write_policies roles)
    unfolding build_open_read_owner_write_policies is_ident
    open_read_owner_write-IsValid = (
      record {
        name = refl;
        action = inl refl;
        some_role = some_role;
        roles = idents;
        clauses = (refl, open_read_clause-IsValid, tt);
      },
      (
        record {
          name = refl;
          action = inr (inr (inl refl));
          some_role = some_role;
          roles = idents;
          clauses = (refl, owner_clause-IsValid, tt);
        },
        (
          record {
            name = refl;
            action = inr (inr (inr (inl refl)));
            some_role = some_role;
            roles = idents;
            clauses = (refl, owner_clause-IsValid, tt);
          },
          tt,
        ),
      ),
    )

    value_match-IsValid :
        (column value : String) (col : ColumnConfig)
        → is_ident column ≡ true
        → column_by_name columns column ≡ some col
        → value ≢ ""
        → IsValidPolicy columns (build_value_match_policy column value roles)
    unfolding build_value_match_policy
    value_match-IsValid column value col i f n = record {
      name = unfold is_ident in refl;
      action = inl refl;
      some_role = some_role;
      roles = idents;
      clauses = (
        refl,
        record {
          ident = i;
          column = col;
          found = f;
          operator = inl refl;
          operand =
              one_literal (contains-eq_false "=" unary_operators refl)
                (takes_no_list (value_clause column value) refl) refl n;
        },
        tt,
      );
    }

  -- What the caller of a template owes: role names, actions and a column that exist.
  pub record IsSoundInput (i : TemplateInput) : Type 0 where
    pub roles : All (λ r. is_ident r ≡ true) i.roles
    pub actions : i.template_id ≡ "owner_only" → All (λ a. In a allowed_actions) i.actions
    pub column :
        i.template_id ≡ "value_match"
        → (is_ident i.column ≡ true)
          × ((c : ColumnConfig) × (column_by_name columns i.column ≡ some c))

  other_templates :
      (i : TemplateInput) (defs : List PolicyDef)
      → IsSoundInput i
      → (i.template_id == "owner_only") ≡ false
      → (i.template_id == "open_read") ≡ false
      → (i.template_id == "read_only") ≡ false
      → build_template_policies i ≡ ok defs
      → All (IsValidPolicy columns) defs
  unfolding build_template_policies
  other_templates i defs v e1 e2 e3 h = elim (String-cases i.template_id "value_match") [
    | inl (e, p) ↦
        let (r, h1) = guard-eq-ok (not (is_empty i.roles)) _ _ (rw (e1, e2, e3, e) at h) in
        let (_, h2) = guard-eq-ok (not (i.column == "")) _ _ h1 in
        let (n, h3) = guard-eq-ok (not (i.value == "")) _ _ h2 in
        let (ident, (c, f)) = v.column p in
        rw (← ok_inj h3) (
          value_match-IsValid i.roles (nonempty i.roles r) v.roles i.column i.value c ident f
              (ground (arith, eq_iff i.value "")),
          tt,
        )
    | inr (e4, _) ↦ elim (Bool-cases (i.template_id == "open_read_owner_write")) [
      | inl e ↦
          let (r, h1) = guard-eq-ok (not (is_empty i.roles)) _ _ (rw (e1, e2, e3, e4, e) at h) in
          rw (← ok_inj h1) (open_read_owner_write-IsValid i.roles (nonempty i.roles r) v.roles)
      | inr e5 ↦ elim (Bool-cases (i.template_id == "blocked_by_default")) [
        | inl e ↦ absurd (let z = rw (e1, e2, e3, e4, e5, e) at h in cc)
        | inr e ↦ absurd (let z = rw (e1, e2, e3, e4, e5, e) at h in cc)
      ]
    ]
  ]

  -- From an input whose roles are identifiers, whose actions are known and whose column is one of the
  -- table, as far as its template uses them, every policy that a template produces is valid.
  pub build_template_policies-IsValid :
      (i : TemplateInput) (defs : List PolicyDef)
      → IsSoundInput i
      → build_template_policies i ≡ ok defs
      → All (IsValidPolicy columns) defs
  unfolding build_template_policies
  build_template_policies-IsValid i defs v h = elim (String-cases i.template_id "owner_only") [
    | inl (e, p) ↦
        let (r, h1) = guard-eq-ok (not (is_empty i.roles)) _ _ (rw e at h) in
        let (a, h2) = guard-eq-ok (not (is_empty i.actions)) _ _ h1 in
        rw (← ok_inj h2)
          (owner_only-IsValid i.roles (nonempty i.roles r) v.roles i.actions (v.actions p))
    | inr (e1, _) ↦ elim (Bool-cases (i.template_id == "open_read")) [
      | inl e ↦
          let (r, h1) = guard-eq-ok (not (is_empty i.roles)) _ _ (rw (e1, e) at h) in
          rw (← ok_inj h1) (open_read-IsValid i.roles (nonempty i.roles r) v.roles, tt)
      | inr e2 ↦ elim (Bool-cases (i.template_id == "read_only")) [
        | inl e ↦
            let (r, h1) = guard-eq-ok (not (is_empty i.roles)) _ _ (rw (e1, e2, e) at h) in
            rw (← ok_inj h1) (read_only-IsValid i.roles (nonempty i.roles r) v.roles, tt)
        | inr e3 ↦ other_templates i defs v e1 e2 e3 h
      ]
    ]
  ]
