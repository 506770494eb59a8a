-- ===== src/Query/ById.antt =====
-- The statements on one row by its id: BuildGetByID and BuildDelete of internal/query/builder.go.
use zeep_orbit.Prelude.{String, Bool, [], ◌∷◌, ◌==◌, not, if◌then◌else◌}
use zeep_orbit.Prelude.Text.{concat}
use zeep_orbit.Query.{text, WriteQuery}

unfoldable pub build_get_by_id : String → String → String → String → WriteQuery
build_get_by_id schema_name table_name id owner_id =
    if not (owner_id == "")
    then record {
      sql = concat (
          "SELECT * FROM " ∷ schema_name ∷ "." ∷ table_name
          ∷ " WHERE id = $1::uuid AND owner_id = $2::uuid" ∷ []);
      args = text id ∷ text owner_id ∷ [];
    }
    else record {
      sql =
          concat ("SELECT * FROM " ∷ schema_name ∷ "." ∷ table_name ∷ " WHERE id = $1::uuid" ∷ []);
      args = text id ∷ [];
    }

soft_delete : String → String → String → String → WriteQuery
soft_delete schema_name table_name id owner_id =
    if not (owner_id == "")
    then record {
      sql = concat (
          "UPDATE " ∷ schema_name ∷ "." ∷ table_name
          ∷ " SET deleted_at = now() WHERE id = $1::uuid AND owner_id = $2::uuid AND deleted_at IS NULL"
          ∷ []);
      args = text id ∷ text owner_id ∷ [];
    }
    else record {
      sql = concat (
          "UPDATE " ∷ schema_name ∷ "." ∷ table_name
          ∷ " SET deleted_at = now() WHERE id = $1::uuid AND deleted_at IS NULL" ∷ []);
      args = text id ∷ [];
    }

hard_delete : String → String → String → String → WriteQuery
hard_delete schema_name table_name id owner_id =
    if not (owner_id == "")
    then record {
      sql = concat (
          "DELETE FROM " ∷ schema_name ∷ "." ∷ table_name
          ∷ " WHERE id = $1::uuid AND owner_id = $2::uuid" ∷ []);
      args = text id ∷ text owner_id ∷ [];
    }
    else record {
      sql = concat ("DELETE FROM " ∷ schema_name ∷ "." ∷ table_name ∷ " WHERE id = $1::uuid" ∷ []);
      args = text id ∷ [];
    }

unfoldable pub build_delete : String → String → String → String → Bool → WriteQuery
unfolding soft_delete hard_delete
build_delete schema_name table_name id owner_id is_soft =
    if is_soft
    then soft_delete schema_name table_name id owner_id
    else hard_delete schema_name table_name id owner_id
