-- ===== src/Provisioner/Policy/Build.antt =====
-- The policy as a whole: foldClauses, buildPolicySQL and BuildPolicySQL of
-- internal/provisioner/policy.go.
use zeep_orbit.Prelude.{
  ℕ, zero, suc, String, not, Option, List, [], ◌∷◌, Result, ok, err, ◌>>=◌, ◌>>◌, guard, ◌==◌, ◌||◌,
  contains, is_empty, if◌then◌else◌,
}
use zeep_orbit.Prelude.Text.{concat, join}
use zeep_orbit.Prelude.Text.Quoting.{quote}
use zeep_orbit.Config.{ColumnConfig}
use zeep_orbit.Provisioner.Policy.{
  PolicyClause, PolicyDef, ClauseError, PolicyError, invalid_name, invalid_action, no_role,
  invalid_role, no_clause, first_clause_has_logic, invalid_logic, bad_clause, ValidationError,
  validation, is_ident, allowed_actions, allowed_logic, claim_guc, column_by_name, quote_literal,
}
use zeep_orbit.Provisioner.Policy.Clause.{translate_clause}

-- The check of `Logic`, by the clause's index.
unfoldable pub check_logic : ℕ → PolicyClause → Result PolicyError (Unit {0})
check_logic zero clause = guard (clause.logic == "") first_clause_has_logic
check_logic (suc i) clause =
    guard (contains clause.logic allowed_logic) (invalid_logic (suc (suc i)) clause.logic)

abbrev pub clause_error : ℕ → Result ClauseError String → Result PolicyError String
clause_error i (ok frag) = ok frag
clause_error i (err e) = err (bad_clause (suc i) e)

unfoldable pub connect : ℕ → String → PolicyClause → String → String
connect zero acc clause frag = frag
connect (suc i) acc clause frag = concat ("(" ∷ acc ∷ " " ∷ clause.logic ∷ " " ∷ frag ∷ ")" ∷ [])

module _ (columns : String → Option ColumnConfig) where
  -- The loop of foldClauses, from index `i` and with what is folded so far.
  unfoldable pub fold_from : ℕ → String → List PolicyClause → Result PolicyError String
  unfolding check_logic connect
  fold_from i acc [] = ok acc
  fold_from i acc (clause ∷ rest) = do
    check_logic i clause
    frag ← clause_error i (translate_clause columns clause)
    fold_from (suc i) (connect i acc clause frag) rest

  abbrev pub fold_clauses : List PolicyClause → Result PolicyError String
  fold_clauses clauses = fold_from 0 "" clauses

-- The loop over the roles.
unfoldable pub role_literals : List String → Result PolicyError (List String)
role_literals [] = ok []
role_literals (role ∷ roles) = do
  guard (is_ident role) (invalid_role role)
  rest ← role_literals roles
  ok (quote_literal role ∷ rest)

-- db.EnduserRole of internal/db/client.go.
abbrev pub enduser_role : String
enduser_role = "zeep_app_enduser"

-- `strings.ToUpper`, on the four actions.
upper_action : String → String
upper_action action =
    if action == "select"
    then "SELECT"
    else if action == "insert"
    then "INSERT"
    else if action == "update"
    then "UPDATE"
    else if action == "delete"
    then "DELETE"
    else action

abbrev pub role_check : List String → String
role_check literals = concat (
    "current_setting('"
    ∷ claim_guc "role"
    ∷ "', true) = ANY (ARRAY["
    ∷ join ", " literals
    ∷ "])"
    ∷ [])

-- The statement, as it is written to the string builder.
unfoldable pub statement : String → String → PolicyDef → String → String
unfolding upper_action
statement schema table def expr = concat (
    "CREATE POLICY "
    ∷ quote def.name
    ∷ " ON "
    ∷ quote schema
    ∷ "."
    ∷ quote table
    ∷ " FOR "
    ∷ upper_action def.action
    ∷ " TO "
    ∷ enduser_role
    ∷ (if def.action == "insert" then "" else concat (" USING (" ∷ expr ∷ ")" ∷ []))
    ∷ (if def.action == "insert" || def.action == "update"
        then concat (" WITH CHECK (" ∷ expr ∷ ")" ∷ [])
        else "")
    ∷ [])

unfoldable pub build_policy :
    String → String → PolicyDef → List ColumnConfig → Result PolicyError String
unfolding statement
build_policy schema table def columns = do
  guard (is_ident def.name) (invalid_name def.name)
  guard (contains def.action allowed_actions) (invalid_action def.action)
  guard (not (is_empty def.roles)) no_role
  literals ← role_literals def.roles
  guard (not (is_empty def.clauses)) no_clause
  folded ← fold_clauses (column_by_name columns) def.clauses
  ok (
      statement schema table def
        (concat ("(" ∷ role_check literals ∷ ") AND (" ∷ folded ∷ ")" ∷ [])))

abbrev pub exported : Result PolicyError String → Result ValidationError String
exported (ok sql) = ok sql
exported (err e) = err (validation e)

unfoldable pub build_policy_sql :
    String → String → PolicyDef → List ColumnConfig → Result ValidationError String
unfolding build_policy
build_policy_sql schema table def columns = exported (build_policy schema table def columns)
