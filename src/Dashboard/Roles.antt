-- ===== src/Dashboard/Roles.antt =====
-- The roles of the platform and of an app: internal/dashboard/platform_roles.go and the type AppRole
-- of internal/dashboard/rbac.go.
use zeep_orbit.Prelude.{
  String, Bool, false, not, ◌&&◌, ◌||◌, List, [], ◌∷◌, none, some, ◌==◌, contains, lookup,
}

-- `platformPerms`: the roles that have an action.
abbrev pub platform_perms : List (String × List String)
platform_perms =
    ("templates", "superadmin" ∷ "admin" ∷ [])
    ∷ ("branding", "superadmin" ∷ "admin" ∷ [])
    ∷ ("users", "superadmin" ∷ "admin" ∷ [])
    ∷ ("integrations", "superadmin" ∷ [])
    ∷ ("infra", "superadmin" ∷ [])
    ∷ ("audit", "superadmin" ∷ "auditor" ∷ [])
    ∷ ("own_apps", "superadmin" ∷ "admin" ∷ "member" ∷ [])
    ∷ []

unfoldable pub has_platform_permission : String → String → Bool
unfolding lookup
has_platform_permission role action = elim (lookup action platform_perms) [
  | none ↦ false
  | some roles ↦ contains role roles
]

unfoldable pub can_read_any_app : String → Bool
can_read_any_app role = role == "superadmin" || (role == "admin" || role == "auditor")

unfoldable pub can_create_user_with_role : String → String → Bool
can_create_user_with_role actor_role target_role =
    not (target_role == "superadmin" && not (actor_role == "superadmin"))

-- `AppRole.Effective`
unfoldable pub effective : String → Bool
effective role = not (role == "")

unfoldable pub can_write : String → Bool
can_write role = role == "admin" || role == "editor"

unfoldable pub can_manage : String → Bool
can_manage role = role == "admin"
