-- ===== src/Config/Validate/Accepted.antt =====
-- The decision of ValidateTables of internal/config/validate.go as a whole.
use zeep_orbit.Prelude.{List, All, none, some, Result, ok, err, ◌≡◌, ◌⊎◌, inl, inr, refl}
use zeep_orbit.Config.{TableConfig}
use zeep_orbit.Config.Cycle.{Walk, Visited, circular, detect_reference_cycle}
use zeep_orbit.Config.Cycle.Decision.{
  IsAcyclic, detect_reference_cycle-IsAcyclic, detect_reference_cycle-total,
}
use zeep_orbit.Config.Validate.{Parsers, ValidateError, in_cycle}
use zeep_orbit.Config.Validate.Tables.{tables_by_name, validate_each, cycle_result, validate_tables}
use zeep_orbit.Config.Validate.Schema.{IsSoundTable, validate_each_sound}

Result-cases : {E : Type 0} (r : Result E (Unit {0})) → (r ≡ ok tt) ⊎ ((e : E) × (r ≡ err e))
Result-cases (ok u) = inl refl
Result-cases (err e) = inr (e, refl)

checked-of_result : (v : Visited) → cycle_result v ≡ some (ok tt) → (w : Walk) × (v ≡ some (ok w))
checked-of_result none h = absurd (cc)
checked-of_result (some (ok w)) h = (w, refl)
checked-of_result (some (err e)) h = absurd (cc)

module _ (parsers : Parsers) (tables : List TableConfig) where
  -- Validation always has a result: the fuel of the cycle check never runs out.
  pub validate_tables-total :
      (r : Result ValidateError (Unit {0})) × (validate_tables parsers tables ≡ some r)
  unfolding validate_tables
  validate_tables-total =
      elim (Result-cases (validate_each parsers (tables_by_name tables) tables)) [
        | inr (e, h) ↦ (err e, rw (h, validate_tables) refl)
        | inl h ↦ elim (detect_reference_cycle-total tables) [
          | inl (w, k) ↦ (ok tt, rw (h, k, validate_tables) refl)
          | inr (p, k, c) ↦ (err (in_cycle (circular p)), rw (h, k, validate_tables) refl)
        ]
      ]

  -- What is accepted passed both parts.
  pub validate_tables-checked :
      validate_tables parsers tables ≡ some (ok tt)
      → (validate_each parsers (tables_by_name tables) tables ≡ ok tt)
        × ((w : Walk) × (detect_reference_cycle tables ≡ some (ok w)))
  unfolding validate_tables
  validate_tables-checked h =
      elim (Result-cases (validate_each parsers (tables_by_name tables) tables)) [
        | inr (e, k) ↦ (let w = rw (k, validate_tables) at h in absurd (cc))
        | inl k ↦
            (k, checked-of_result (detect_reference_cycle tables) (rw (k, validate_tables) at h))
      ]

  -- Tables that are accepted have no cycle of references, and each is sound. An enum's values are
  -- valid ones, an expression as a default is on the list of its type, a foreign key refers to the id
  -- of the app's users or to an id or a unique column of one of the tables and has a valid ON DELETE
  -- that never sets a required column to null, and an index has columns and they are its table's.
  pub validate_tables-IsSound :
      validate_tables parsers tables ≡ some (ok tt)
      → All (IsSoundTable tables) tables × IsAcyclic tables
  validate_tables-IsSound h =
      let (each, run) = validate_tables-checked h in
      let (w, checked) = run in
      (
        validate_each_sound parsers tables tables each,
        detect_reference_cycle-IsAcyclic tables w checked,
      )
