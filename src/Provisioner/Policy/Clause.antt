-- ===== src/Provisioner/Policy/Clause.antt =====
-- The translation of one clause: translateClause and translateOperand of
-- internal/provisioner/policy.go.
use zeep_orbit.Prelude.{
  String, Bool, not, ◌&&◌, ◌||◌, Option, none, some, List, [], ◌∷◌, map, Result, ok, err, ◌>>=◌,
  ◌>>◌, guard, ◌==◌, contains, is_empty, lookup, if◌then◌else◌,
}
use zeep_orbit.Prelude.Text.{concat, join}
use zeep_orbit.Prelude.Text.Quoting.{quote}
use zeep_orbit.Config.{ColumnConfig}
use zeep_orbit.Provisioner.Types.{pg_type}
use zeep_orbit.Provisioner.Policy.{
  PolicyClause, ClauseError, invalid_column, unknown_column, invalid_operator, unary_with_value,
  invalid_claim, empty_value, invalid_value_source, is_ident, policy_operators, unary_operators,
  allowed_claims, claim_guc, quote_literal, split_value_list,
}

unfoldable pub claim_expr : String → ColumnConfig → String
claim_expr claim col =
    concat ("current_setting('" ∷ claim_guc claim ∷ "', true)::" ∷ pg_type col.type ∷ [])

unfoldable pub literal_expr : String → ColumnConfig → String
literal_expr value col = concat (quote_literal value ∷ "::" ∷ pg_type col.type ∷ [])

-- The loop over the parts of a claim list.
unfoldable pub claim_exprs : List String → ColumnConfig → Result ClauseError (List String)
claim_exprs [] col = ok []
claim_exprs (p ∷ ps) col = do
  guard (contains p allowed_claims) (invalid_claim p)
  rest ← claim_exprs ps col
  ok (claim_expr p col ∷ rest)

abbrev pub parenthesised : List String → String
parenthesised exprs = concat ("(" ∷ join ", " exprs ∷ ")" ∷ [])

abbrev pub is_list_operator : String → Bool
is_list_operator op = op == "IN" || op == "NOT IN"

-- The branch of translateOperand for value_source "claim".
unfoldable pub claim_operand : PolicyClause → ColumnConfig → Result ClauseError String
unfolding claim_exprs
claim_operand clause col =
    let is_list = is_list_operator clause.operator in
    let parts = split_value_list clause.value in
    guard (contains clause.value allowed_claims || is_list) (invalid_claim clause.value)
    >> (if is_list
        then (do
          guard (not (is_empty parts)) empty_value
          exprs ← claim_exprs parts col
          ok (parenthesised exprs))
        else ok (claim_expr clause.value col))

-- The branch for "literal".
unfoldable pub literal_operand : PolicyClause → ColumnConfig → Result ClauseError String
literal_operand clause col =
    let parts = split_value_list clause.value in
    if is_list_operator clause.operator
    then guard (not (is_empty parts)) empty_value
      >> ok (parenthesised (map (λ p. literal_expr p col) parts))
    else guard (not (clause.value == "")) empty_value >> ok (literal_expr clause.value col)

unfoldable pub translate_operand : PolicyClause → ColumnConfig → Result ClauseError String
unfolding claim_operand literal_operand
translate_operand clause col =
    if clause.value_source == "claim"
    then claim_operand clause col
    else if clause.value_source == "literal"
    then literal_operand clause col
    else err (invalid_value_source clause.value_source)

-- What follows the checks of column and operator.
unfoldable pub translate_checked : PolicyClause → ColumnConfig → String → Result ClauseError String
translate_checked clause col sql_op =
    if contains clause.operator unary_operators
    then (guard (clause.value_source == "" && clause.value == "") (unary_with_value clause.operator)
        >> ok (concat (quote clause.column ∷ " " ∷ sql_op ∷ [])))
    else (do
      operand ← translate_operand clause col
      ok (concat (quote clause.column ∷ " " ∷ sql_op ∷ " " ∷ operand ∷ [])))

unfoldable pub translate_with :
    PolicyClause → Option ColumnConfig → Option String → Result ClauseError String
translate_with clause none sql_op = err (unknown_column clause.column)
translate_with clause (some col) none = err (invalid_operator clause.operator)
translate_with clause (some col) (some sql_op) = translate_checked clause col sql_op

unfoldable pub translate_clause :
    (String → Option ColumnConfig) → PolicyClause → Result ClauseError String
unfolding translate_operand translate_checked translate_with
translate_clause col_by_name clause =
    guard (is_ident clause.column) (invalid_column clause.column)
    >> translate_with clause (col_by_name clause.column) (lookup clause.operator policy_operators)
