-- ===== src/Provisioner/Policy/Accepts.antt =====
-- Which policies `build_policy_sql` accepts.
use zeep_orbit.Prelude.{
  ℕ, suc, String, true, not, Option, List, [], ◌∷◌, Result, ok, err, guard-eq-ok, bind-eq-ok, ◌==◌,
  ◌≡◌, ◌≢◌, ◌↔◌, refl, eq_iff, contains, is_empty, In, All, contains-eq_true, contains-of_in,
}
use zeep_orbit.Prelude.Text.{concat}
use zeep_orbit.Config.{ColumnConfig}
use zeep_orbit.Provisioner.Policy.{
  PolicyClause, PolicyDef, PolicyError, ClauseError, is_ident, allowed_actions, allowed_logic,
  column_by_name, quote_literal,
}
use zeep_orbit.Provisioner.Policy.Clause.{translate_clause}
use zeep_orbit.Provisioner.Policy.Operands.{
  IsValidClause, translate_clause_iff, nonempty, not_empty,
}
use zeep_orbit.Provisioner.Policy.Build.{
  clause_error, connect, role_check, statement, fold_from, fold_clauses, role_literals,
  build_policy, exported, build_policy_sql,
}

abbrev pub Connects : (String → Option ColumnConfig) → PolicyClause → Type 0
Connects columns c = In c.logic allowed_logic × IsValidClause columns c

-- A first clause with no logic, and clauses that connect to what stands before them.
abbrev pub AreValidClauses : (String → Option ColumnConfig) → List PolicyClause → Type 0
AreValidClauses columns [] = ⊥
AreValidClauses columns (c ∷ cs) =
    (c.logic ≡ "") × IsValidClause columns c × All (Connects columns) cs

pub record IsValidPolicy (columns : List ColumnConfig) (def : PolicyDef) : Type 0 where
  pub name : is_ident def.name ≡ true
  pub action : In def.action allowed_actions
  pub some_role : def.roles ≢ []
  pub roles : All (λ r. is_ident r ≡ true) def.roles
  pub clauses : AreValidClauses (column_by_name columns) def.clauses

clause_error-eq-ok :
    (i : ℕ) (r : Result ClauseError String) {s : String} → clause_error i r ≡ ok s → r ≡ ok s
clause_error-eq-ok i (ok s) h = cc
clause_error-eq-ok i (err e) h = cc

module _ (columns : String → Option ColumnConfig) where
  rest_sound :
      (i : ℕ) (acc : String) (cs : List PolicyClause) {s : String}
      → fold_from columns (suc i) acc cs ≡ ok s
      → All (Connects columns) cs
  unfolding fold_from
  rest_sound i acc [] h = tt
  rest_sound i acc (c ∷ cs) h =
      let (l, h') = guard-eq-ok (contains c.logic allowed_logic) _ _ h in
      let (frag, q, h'') = bind-eq-ok (clause_error (suc i) (translate_clause columns c)) _ h' in
      (
        (
          contains-eq_true c.logic allowed_logic l,
          (translate_clause_iff columns c).0 (frag, clause_error-eq-ok (suc i) _ q),
        ),
        rest_sound (suc i) (connect (suc i) acc c frag) cs h'',
      )

  rest_complete :
      (i : ℕ) (acc : String) (cs : List PolicyClause)
      → All (Connects columns) cs
      → (s : String) × (fold_from columns (suc i) acc cs ≡ ok s)
  unfolding fold_from
  rest_complete i acc [] h = (acc, refl)
  rest_complete i acc (c ∷ cs) ((l, v), h) =
      let (frag, q) = (translate_clause_iff columns c).1 v in
      let (s, e) = rest_complete (suc i) (connect (suc i) acc c frag) cs h in
      (s, rw (contains-of_in c.logic allowed_logic l, q) e)

  clauses_sound :
      (cs : List PolicyClause) {s : String}
      → not (is_empty cs) ≡ true
      → fold_clauses columns cs ≡ ok s
      → AreValidClauses columns cs
  unfolding fold_from
  clauses_sound [] n h = cc
  clauses_sound (c ∷ cs) n h =
      let (l, h') = guard-eq-ok (c.logic == "") _ _ h in
      let (frag, q, h'') = bind-eq-ok (clause_error 0 (translate_clause columns c)) _ h' in
      (
        (eq_iff c.logic "").0 l,
        (translate_clause_iff columns c).0 (frag, clause_error-eq-ok 0 _ q),
        rest_sound 0 frag cs h'',
      )

  clauses_complete :
      (cs : List PolicyClause)
      → AreValidClauses columns cs
      → (not (is_empty cs) ≡ true) × ((s : String) × (fold_clauses columns cs ≡ ok s))
  unfolding fold_from
  clauses_complete [] h = elim h [ ]
  clauses_complete (c ∷ cs) (l, v, h) =
      let (frag, q) = (translate_clause_iff columns c).1 v in
      let (s, e) = rest_complete 0 frag cs h in (refl, (s, rw ((eq_iff c.logic "").1 l, q) e))

roles_sound :
    (roles : List String) {ls : List String}
    → role_literals roles ≡ ok ls
    → All (λ r. is_ident r ≡ true) roles
unfolding role_literals
roles_sound [] h = tt
roles_sound (r ∷ rs) h =
    let (i, h') = guard-eq-ok (is_ident r) _ _ h in
    let (ls, q, _) = bind-eq-ok (role_literals rs) _ h' in (i, roles_sound rs q)

roles_complete :
    (roles : List String)
    → All (λ r. is_ident r ≡ true) roles
    → (ls : List String) × (role_literals roles ≡ ok ls)
unfolding role_literals
roles_complete [] h = ([], refl)
roles_complete (r ∷ rs) (i, h) =
    let (ls, q) = roles_complete rs h in (quote_literal r ∷ ls, rw (i, q))

exported-eq-ok :
    (r : Result PolicyError String) {sql : String} → exported r ≡ ok sql → (s : String) × (r ≡ ok s)
exported-eq-ok (ok s) h = (s, refl)
exported-eq-ok (err e) h = absurd (cc)

module _ (schema table : String) (def : PolicyDef) (columns : List ColumnConfig) where
  policy_sound :
      {sql : String} → build_policy schema table def columns ≡ ok sql → IsValidPolicy columns def
  unfolding build_policy
  policy_sound h =
      let (a, h1) = guard-eq-ok (is_ident def.name) _ _ h in
      let (b, h2) = guard-eq-ok (contains def.action allowed_actions) _ _ h1 in
      let (c, h3) = guard-eq-ok (not (is_empty def.roles)) _ _ h2 in
      let (ls, d, h4) = bind-eq-ok (role_literals def.roles) _ h3 in
      let (e, h5) = guard-eq-ok (not (is_empty def.clauses)) _ _ h4 in
      let (folded, f, _) = bind-eq-ok (fold_clauses (column_by_name columns) def.clauses) _ h5 in
      record {
        name = a;
        action = contains-eq_true def.action allowed_actions b;
        some_role = nonempty def.roles c;
        roles = roles_sound def.roles d;
        clauses = clauses_sound (column_by_name columns) def.clauses e f;
      }

  policy_complete :
      IsValidPolicy columns def → (sql : String) × (build_policy schema table def columns ≡ ok sql)
  unfolding build_policy
  policy_complete v =
      let (ls, d) = roles_complete def.roles v.roles in
      let (e, (folded, f)) = clauses_complete (column_by_name columns) def.clauses v.clauses in
      (
        statement schema table def (concat ("(" ∷ role_check ls ∷ ") AND (" ∷ folded ∷ ")" ∷ [])),
        rw (
          v.name,
          contains-of_in def.action allowed_actions v.action,
          not_empty def.roles v.some_role,
          d,
          e,
          f,
        ),
      )

  -- BuildPolicySQL returns a statement exactly if the policy is valid, whatever the schema and table:
  -- its name is an identifier, its action is known, it has roles and they are identifiers, it has
  -- clauses, each of them valid, and all but the first are joined by AND or OR.
  pub build_policy_sql_iff :
      ((sql : String) × (build_policy_sql schema table def columns ≡ ok sql))
      ↔ IsValidPolicy columns def
  unfolding build_policy_sql
  build_policy_sql_iff = (
    λ r.
        let (sql, e) = exported-eq-ok (build_policy schema table def columns) r.1 in policy_sound e,
    λ v. let (sql, e) = policy_complete v in (sql, rw e),
  )
