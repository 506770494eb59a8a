-- ===== src/Config/Rls.antt =====
-- The row-level security modes of a table: internal/config/rls.go.
use zeep_orbit.Prelude.{String, Bool, ◌||◌, ◌==◌}

unfoldable pub valid_rls : String → Bool
valid_rls rls = rls == "" || (rls == "owner" || (rls == "enabled" || rls == "policy"))

unfoldable pub has_owner_column : String → Bool
has_owner_column rls = rls == "owner" || (rls == "enabled" || rls == "policy")

unfoldable pub auto_scopes_by_owner : String → Bool
auto_scopes_by_owner rls = rls == "owner" || rls == "enabled"
