-- ===== src/Provisioner/Topsort/Validated.antt =====
-- The cycle check of the validation and the sort of the provisioner, together.
use zeep_orbit.Prelude.{some, List, ok, ◌≡◌, Distinct}
use zeep_orbit.Config.{TableConfig}
use zeep_orbit.Config.Cycle.{Walk, detect_reference_cycle}
use zeep_orbit.Config.Cycle.Decision.{detect_reference_cycle-IsAcyclic}
use zeep_orbit.Config.Validate.{Parsers}
use zeep_orbit.Config.Validate.Tables.{validate_tables}
use zeep_orbit.Config.Validate.Accepted.{validate_tables-checked}
use zeep_orbit.Provisioner.Topsort.{topo_sort_tables}
use zeep_orbit.Provisioner.Topsort.Edges.{names}
use zeep_orbit.Provisioner.Topsort.Order.{
  IsCreationOrder, topo_sort_tables-of_rank, topo_sort_tables-IsCreationOrder,
}

-- Tables of distinct names that pass the cycle check can be sorted, and come out once each, every
-- one behind the tables that it refers to.
pub topo_sort_tables-of_checked :
    (tables : List TableConfig) (distinct : Distinct (names tables)) (w : Walk)
    → detect_reference_cycle tables ≡ some (ok w)
    → (ordered : List TableConfig) × (topo_sort_tables tables ≡ some (ok ordered))
      × IsCreationOrder tables distinct ordered
topo_sort_tables-of_checked tables distinct w h =
    let a = detect_reference_cycle-IsAcyclic tables w h in
    let (ordered, e) =
      topo_sort_tables-of_rank tables distinct a.rank (λ t n i r k. a.falls t n i r) in
    (ordered, e, topo_sort_tables-IsCreationOrder tables distinct ordered e)

-- Tables of distinct names that ValidateTables accepts can be sorted, and come out once each, every
-- one behind the tables that it refers to.
pub topo_sort_tables-of_validated :
    (parsers : Parsers) (tables : List TableConfig) (distinct : Distinct (names tables))
    → validate_tables parsers tables ≡ some (ok tt)
    → (ordered : List TableConfig) × (topo_sort_tables tables ≡ some (ok ordered))
      × IsCreationOrder tables distinct ordered
topo_sort_tables-of_validated parsers tables distinct h =
    let (each, run) = validate_tables-checked parsers tables h in
    let (w, checked) = run in topo_sort_tables-of_checked tables distinct w checked
