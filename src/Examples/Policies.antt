-- ===== src/Examples/Policies.antt =====
-- Policies on a table of notes with an owner.
use zeep_orbit.Prelude.{
  String, false, List, [], ◌∷◌, All, none, some, ok, ◌≡◌, ◌↔◌, inl, inr, refl, arith,
}
use zeep_orbit.Prelude.Text.{cat}
use zeep_orbit.Config.{ColumnConfig}
use zeep_orbit.Provisioner.Policy.{is_ident, PolicyClause, PolicyDef, column_by_name, quote_literal}
use zeep_orbit.Provisioner.Policy.Literal.{read_literal, read_literal-quote_literal}
use zeep_orbit.Provisioner.Policy.Clause.{translate_clause}
use zeep_orbit.Provisioner.Policy.Operands.{IsValidClause, translate_clause_iff}
use zeep_orbit.Provisioner.Policy.Build.{build_policy_sql}
use zeep_orbit.Provisioner.Policy.Accepts.{IsValidPolicy, build_policy_sql_iff}
use zeep_orbit.PolicyTemplates.{TemplateInput, build_owner_only_policies, build_template_policies}
use zeep_orbit.PolicyTemplates.Valid.{IsSoundInput, build_template_policies-IsValid}

abbrev columns : List ColumnConfig
columns =
    record {
      name = "title";
      type = "text";
      required = false;
      default = "";
      default_is_expression = false;
      unique = false;
      rename_from = "";
      references = none;
      allowed_values = [];
    }
    ∷ []

abbrev is_shop : PolicyClause
is_shop = record {
  column = "title";
  operator = "=";
  value_source = "literal";
  value = "it's";
  logic = "";
}

abbrev shops : PolicyDef
shops = record { name = "shops"; action = "select"; roles = "member" ∷ []; clauses = is_shop ∷ [] }

build_policy_sql_iff_example :
    ((sql : String) × (build_policy_sql "app" "notes" shops columns ≡ ok sql))
    ↔ IsValidPolicy columns shops
build_policy_sql_iff_example = build_policy_sql_iff "app" "notes" shops columns

translate_clause_iff_example :
    ((s : String) × (translate_clause (column_by_name columns) is_shop ≡ ok s))
    ↔ IsValidClause (column_by_name columns) is_shop
translate_clause_iff_example = translate_clause_iff (column_by_name columns) is_shop

read_literal-quote_literal_example :
    read_literal (cat (quote_literal "it's \\ done") "::text") ≡ some ("it's \\ done", "::text")
read_literal-quote_literal_example =
    read_literal-quote_literal "it's \\ done" "::text" (λ e. absurd (omega (arith, e)))

abbrev input : TemplateInput
input = record {
  template_id = "owner_only";
  actions = "select" ∷ "update" ∷ [];
  roles = "member" ∷ [];
  column = "";
  value = "";
}

input-IsSoundInput : IsSoundInput columns input
unfolding is_ident
input-IsSoundInput = record {
  roles = (refl, tt);
  actions = λ e. (inl refl, (inr (inr (inl refl)), tt));
  column = λ e. absurd (cc);
}

abbrev produced : List PolicyDef
produced = build_owner_only_policies ("select" ∷ "update" ∷ []) ("member" ∷ [])

input-produces : build_template_policies input ≡ ok produced
unfolding build_template_policies
input-produces = refl

build_template_policies-IsValid_example : All (IsValidPolicy columns) produced
build_template_policies-IsValid_example =
    build_template_policies-IsValid columns input produced input-IsSoundInput input-produces
