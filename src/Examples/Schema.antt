-- ===== src/Examples/Schema.antt =====
-- A library's tables: books refer to their authors.
use zeep_orbit.Prelude.{
  ◌≤◌, String, false, List, [], ◌∷◌, length, All, Distinct, Option, none, some, Result, ok, err,
  ◌≡◌, ◌⊎◌, ◌↔◌, inl, inr, refl,
}
use zeep_orbit.Config.{ColumnConfig, ReferenceConfig, TableConfig}
use zeep_orbit.Config.Cycle.{Walk, detect_reference_cycle, circular}
use zeep_orbit.Config.Cycle.Decision.{
  IsAcyclic, IsReferenceCycle, detect_reference_cycle-total, detect_reference_cycle-of_acyclic,
}
use zeep_orbit.Config.Validate.{Parsers, validate_enum_values}
use zeep_orbit.Config.Validate.Enum.{HasFairLength, validate_enum_values_iff}
use zeep_orbit.Config.Validate.Tables.{validate_tables}
use zeep_orbit.Config.Validate.Schema.{IsSoundTable}
use zeep_orbit.Config.Validate.Accepted.{validate_tables-IsSound}
use zeep_orbit.Provisioner.Topsort.{SortError, topo_sort_tables}
use zeep_orbit.Provisioner.Topsort.Edges.{names}
use zeep_orbit.Provisioner.Topsort.Order.{IsCreationOrder, topo_sort_tables-total}
use zeep_orbit.Provisioner.Topsort.Validated.{topo_sort_tables-of_validated}

abbrev column : String → String → Option ReferenceConfig → ColumnConfig
column name type references = record {
  name = name;
  type = type;
  required = false;
  default = "";
  default_is_expression = false;
  unique = false;
  rename_from = "";
  references = references;
  allowed_values = [];
}

abbrev authors : TableConfig
authors = record {
  name = "authors";
  rls = "";
  columns = column "name" "text" none ∷ [];
  indexes = [];
}

abbrev books : TableConfig
books = record {
  name = "books";
  rls = "";
  columns =
      column "author_id" "uuid"
        (some (record { table = "authors"; column = "id"; on_delete = "cascade" }))
      ∷ [];
  indexes = [];
}

abbrev library : List TableConfig
library = books ∷ authors ∷ []

-- No text is a number, a time or JSON: no default asks for one here.
abbrev parsers : Parsers
parsers = record { parses_float = λ s. false; parses_rfc3339 = λ s. false; is_json = λ s. false }

library-Distinct : Distinct (names library)
library-Distinct = ((λ m. elim m [ inl e ↦ (let w = e in cc) | inr k ↦ k ]), ((λ m. m), tt))

library-validated : validate_tables parsers library ≡ some (ok tt)
unfolding validate_tables
library-validated = refl

topo_sort_tables-of_validated_example :
    (ordered : List TableConfig) × (topo_sort_tables library ≡ some (ok ordered))
    × IsCreationOrder library library-Distinct ordered
topo_sort_tables-of_validated_example =
    topo_sort_tables-of_validated parsers library library-Distinct library-validated

topo_sort_tables-total_example :
    (r : Result SortError (List TableConfig)) × (topo_sort_tables library ≡ some r)
topo_sort_tables-total_example = topo_sort_tables-total library library-Distinct

validate_tables-IsSound_example : All (IsSoundTable library) library × IsAcyclic library
validate_tables-IsSound_example = validate_tables-IsSound parsers library library-validated

detect_reference_cycle-total_example :
    ((w : Walk) × (detect_reference_cycle library ≡ some (ok w)))
    ⊎ ((p : List String) × (detect_reference_cycle library ≡ some (err (circular p)))
        × IsReferenceCycle library p)
detect_reference_cycle-total_example = detect_reference_cycle-total library

library-IsAcyclic : IsAcyclic library
library-IsAcyclic =
    let accepted = validate_tables-IsSound parsers library library-validated in accepted.1

detect_reference_cycle-of_acyclic_example :
    (w : Walk) × (detect_reference_cycle library ≡ some (ok w))
detect_reference_cycle-of_acyclic_example =
    detect_reference_cycle-of_acyclic library library-IsAcyclic

abbrev drafts : List String
drafts = "draft" ∷ "draft" ∷ []

validate_enum_values_iff_example :
    (validate_enum_values drafts ≡ ok tt)
    ↔ ((1 ≤ length drafts) × (length drafts ≤ 50) × All HasFairLength drafts × Distinct drafts)
validate_enum_values_iff_example = validate_enum_values_iff drafts
