-- ===== src/PolicyTemplates.antt =====
-- The named row-policy templates: internal/policytemplates/templates.go, and the choice among them
-- in internal/mcpserver/tools.go. The types PolicyClause and PolicyDef of that package, of the
-- dashboard and of the provisioner have the same fields, which are copied from one to the next; one
-- type stands for the three here.
pub mod Valid
use zeep_orbit.Prelude.{
  String, Bool, true, false, List, [], ◌∷◌, map, Result, ok, err, ◌>>=◌, ◌>>◌, guard, not, is_empty,
  ◌==◌, if◌then◌else◌,
}
use zeep_orbit.Prelude.Text.{concat}
use zeep_orbit.Provisioner.Policy.{PolicyClause, PolicyDef}

pub record TemplateDefinition : Type 0 where
  pub id : String
  pub requires_owner_column : Bool
  pub kind : String
  pub actions_fixed : List String

-- `List`
abbrev pub templates : List TemplateDefinition
templates =
    record { id = "owner_only"; requires_owner_column = true; kind = "single"; actions_fixed = [] }
    ∷ record {
      id = "open_read";
      requires_owner_column = false;
      kind = "single";
      actions_fixed = "select" ∷ [];
    }
    ∷ record {
      id = "read_only";
      requires_owner_column = false;
      kind = "single";
      actions_fixed = "select" ∷ [];
    }
    ∷ record {
      id = "value_match";
      requires_owner_column = false;
      kind = "single";
      actions_fixed = "select" ∷ [];
    }
    ∷ record {
      id = "open_read_owner_write";
      requires_owner_column = true;
      kind = "composite";
      actions_fixed = "select" ∷ "update" ∷ "delete" ∷ [];
    }
    ∷ record {
      id = "blocked_by_default";
      requires_owner_column = false;
      kind = "info";
      actions_fixed = [];
    }
    ∷ []

abbrev pub generated_policy_name : String → String → String
generated_policy_name template_id action = concat ("tpl_" ∷ template_id ∷ "_" ∷ action ∷ [])

abbrev pub open_read_clause : PolicyClause
open_read_clause = record {
  column = "owner_id";
  operator = "IS NOT NULL";
  value_source = "";
  value = "";
  logic = "";
}

abbrev pub owner_clause : PolicyClause
owner_clause = record {
  column = "owner_id";
  operator = "=";
  value_source = "claim";
  value = "sub";
  logic = "";
}

unfoldable pub build_owner_only_policies : List String → List String → List PolicyDef
build_owner_only_policies [] roles = []
build_owner_only_policies (action ∷ actions) roles =
    record {
      name = generated_policy_name "owner_only" action;
      action = action;
      roles = roles;
      clauses = owner_clause ∷ [];
    }
    ∷ build_owner_only_policies actions roles

unfoldable pub build_open_read_policy : List String → PolicyDef
build_open_read_policy roles = record {
  name = generated_policy_name "open_read" "select";
  action = "select";
  roles = roles;
  clauses = open_read_clause ∷ [];
}

unfoldable pub build_read_only_policy : List String → PolicyDef
unfolding build_open_read_policy
build_read_only_policy roles = record (build_open_read_policy roles) {
  name = generated_policy_name "read_only" "select";
}

abbrev pub value_clause : String → String → PolicyClause
value_clause column value = record {
  column = column;
  operator = "=";
  value_source = "literal";
  value = value;
  logic = "";
}

unfoldable pub build_value_match_policy : String → String → List String → PolicyDef
build_value_match_policy column value roles = record {
  name = generated_policy_name "value_match" "select";
  action = "select";
  roles = roles;
  clauses = value_clause column value ∷ [];
}

-- `p.Name = GeneratedPolicyName(TemplateIDOpenReadOwnerWrite, p.Action)`
abbrev pub rebase : PolicyDef → PolicyDef
rebase p = record p { name = generated_policy_name "open_read_owner_write" p.action }

unfoldable pub build_open_read_owner_write_policies : List String → List PolicyDef
unfolding build_open_read_policy build_owner_only_policies
build_open_read_owner_write_policies read_roles =
    rebase (build_open_read_policy read_roles)
    ∷ map rebase (build_owner_only_policies ("update" ∷ "delete" ∷ []) read_roles)

-- orbitCreatePolicyFromTemplateInput, without the app and the table, which are not read here.
pub record TemplateInput : Type 0 where
  pub template_id : String
  pub actions : List String
  pub roles : List String
  pub column : String
  pub value : String

pub data TemplateError : Type 0 where
  missing_input : String → TemplateError
  creates_no_policy : TemplateError

-- buildTemplatePolicies
unfoldable pub build_template_policies : TemplateInput → Result TemplateError (List PolicyDef)
build_template_policies i =
    let no_roles = guard (not (is_empty i.roles)) (missing_input "roles") in
    if i.template_id == "owner_only"
    then (no_roles
        >> (guard (not (is_empty i.actions)) (missing_input "actions")
            >> ok (build_owner_only_policies i.actions i.roles)))
    else if i.template_id == "open_read"
    then (no_roles >> ok (build_open_read_policy i.roles ∷ []))
    else if i.template_id == "read_only"
    then (no_roles >> ok (build_read_only_policy i.roles ∷ []))
    else if i.template_id == "value_match"
    then (no_roles
        >> (guard (not (i.column == "")) (missing_input "column")
            >> (guard (not (i.value == "")) (missing_input "value")
                >> ok (build_value_match_policy i.column i.value i.roles ∷ []))))
    else if i.template_id == "open_read_owner_write"
    then (no_roles >> ok (build_open_read_owner_write_policies i.roles))
    else if i.template_id == "blocked_by_default"
    then err creates_no_policy
    else err (missing_input "template_id")
