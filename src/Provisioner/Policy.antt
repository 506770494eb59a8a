-- ===== src/Provisioner/Policy.antt =====
-- Row policies and their translation to SQL: internal/provisioner/policy.go. The errors are the
-- constructors of `ClauseError` and `PolicyError`, one for each message.
pub mod Literal
pub mod Clause
pub mod Operands
pub mod Build
pub mod Accepts
use Prim.Native.String
use Prim.Native.Nat.{ℕ}
use zeep_orbit.Prelude.{
  String, Bool, true, false, ◌&&◌, ◌||◌, Option, none, some, List, [], ◌∷◌, ◌==◌, leb, code,
  contains, lookup, put, if◌then◌else◌,
}
use zeep_orbit.Prelude.Text.{cat, contains_char, replace_all, split, trim_space}
use zeep_orbit.Config.{ColumnConfig}

is_lower : ℕ → Bool
is_lower c = leb b'a' c && leb c b'z'

is_ident_char : ℕ → Bool
is_ident_char c = leb b'a' c && leb c b'z' || (leb b'0' c && leb c b'9' || leb b'_' c && leb c b'_')

-- [a-z0-9_]*
all_ident_chars : String → Bool
all_ident_chars String.[] = true
all_ident_chars (String.◌∷◌ x s) = is_ident_char (code x) && all_ident_chars s

-- identRe, ^[a-z][a-z0-9_]{0,62}$
unfoldable pub is_ident : String → Bool
unfolding is_lower is_ident_char all_ident_chars
is_ident String.[] = false
is_ident (String.◌∷◌ x s) = is_lower (code x) && (all_ident_chars s && leb (String.count s) 62)

abbrev pub policy_operators : List (String × String)
policy_operators =
    ("=", "=")
    ∷ ("!=", "!=")
    ∷ ("IN", "IN")
    ∷ ("NOT IN", "NOT IN")
    ∷ (">", ">")
    ∷ ("<", "<")
    ∷ (">=", ">=")
    ∷ ("<=", "<=")
    ∷ ("IS NULL", "IS NULL")
    ∷ ("IS NOT NULL", "IS NOT NULL")
    ∷ []

abbrev pub unary_operators : List String
unary_operators = "IS NULL" ∷ "IS NOT NULL" ∷ []

abbrev pub allowed_claims : List String
allowed_claims = "role" ∷ "sub" ∷ "email" ∷ []

-- claimGUC; a missing key reads "".
unfoldable pub claim_guc : String → String
claim_guc claim =
    if claim == "role"
    then "app.jwt_role"
    else if claim == "sub"
    then "app.jwt_sub"
    else if claim == "email"
    then "app.jwt_email"
    else ""

abbrev pub allowed_actions : List String
allowed_actions = "select" ∷ "insert" ∷ "update" ∷ "delete" ∷ []

abbrev pub allowed_logic : List String
allowed_logic = "AND" ∷ "OR" ∷ []

pub record PolicyClause : Type 0 where
  pub column : String
  pub operator : String
  pub value_source : String
  pub value : String
  pub logic : String

pub record PolicyDef : Type 0 where
  pub name : String
  pub action : String
  pub roles : List String
  pub clauses : List PolicyClause

-- What is wrong with one clause.
pub data ClauseError : Type 0 where
  invalid_column : String → ClauseError
  unknown_column : String → ClauseError
  invalid_operator : String → ClauseError
  unary_with_value : String → ClauseError
  invalid_claim : String → ClauseError
  empty_value : ClauseError
  invalid_value_source : String → ClauseError

-- What is wrong with a definition; clauses count from 1.
pub data PolicyError : Type 0 where
  invalid_name : String → PolicyError
  invalid_action : String → PolicyError
  no_role : PolicyError
  invalid_role : String → PolicyError
  no_clause : PolicyError
  first_clause_has_logic : PolicyError
  invalid_logic : ℕ → String → PolicyError
  bad_clause : ℕ → ClauseError → PolicyError

-- The error type that `BuildPolicySQL` exports.
pub data ValidationError : Type 0 where
  validation : PolicyError → ValidationError

-- `colByName`, with the system column owner_id put in last.
add_columns : (String → Option ColumnConfig) → List ColumnConfig → String → Option ColumnConfig
add_columns m [] = m
add_columns m (c ∷ cs) = add_columns (put m c.name (some c)) cs

abbrev pub owner_column : ColumnConfig
owner_column = record {
  name = "owner_id";
  type = "uuid";
  required = false;
  default = "";
  default_is_expression = false;
  unique = false;
  rename_from = "";
  references = none;
  allowed_values = [];
}

unfoldable pub column_by_name : List ColumnConfig → String → Option ColumnConfig
unfolding add_columns
column_by_name cs = put (add_columns (λ _. none) cs) "owner_id" (some owner_column)

-- quoteLiteral: single quotes doubled, and with a backslash the E'…' form, backslashes doubled too.
unfoldable pub quote_literal : String → String
quote_literal value =
    let escaped = replace_all b'\'' "''" value in
    if contains_char b'\\' value
    then cat "E'" (cat (replace_all b'\\' "\\\\" escaped) "'")
    else cat "'" (cat escaped "'")

-- The loop of splitValueList: parts trimmed, empty ones left out.
trim_parts : List String → List String
trim_parts [] = []
trim_parts (v ∷ vs) =
    let rest = trim_parts vs in
    let trimmed = trim_space v in if trimmed == "" then rest else trimmed ∷ rest

unfoldable pub split_value_list : String → List String
unfolding trim_parts
split_value_list value = trim_parts (split b',' value)
