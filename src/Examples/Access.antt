-- ===== src/Examples/Access.antt =====
-- The members of one backend app.
use zeep_orbit.Prelude.{◌≤◌, String, List, [], ◌∷◌, some, ok, ◌≡◌, refl}
use zeep_orbit.Dashboard.Members.{
  is_member, AppRef, AppId, backend, Member, User, lock_app_members, member_role,
  update_app_member_role, resolve_app_role,
}
use zeep_orbit.Dashboard.Members.Admins.{admins, IsUnique}
use zeep_orbit.Dashboard.Members.Kept.{updates, Step-keeps_admins}
use zeep_orbit.Dashboard.Members.Roster.{RosterStep, roster, Step-RosterStep}
use zeep_orbit.Dashboard.Members.Resolved.{IsResolved, resolve_app_role_iff}

abbrev shop : AppRef
shop = record { backend_app_id = "shop"; frontend_app_id = "" }

abbrev member : String → String → Member
member user_id role = record { app = backend "shop"; user_id = user_id; role = role }

abbrev members : List Member
members = member "ada" "admin" ∷ member "ben" "admin" ∷ []

abbrev demoted : List Member
demoted = member "ada" "viewer" ∷ member "ben" "admin" ∷ []

ada-demoted : update_app_member_role shop "ada" "viewer" members ≡ ok demoted
unfolding update_app_member_role
ada-demoted = refl

members-IsUnique : IsUnique members
unfolding is_member
members-IsUnique = (refl, (refl, tt))

Step-keeps_admins_example :
    IsUnique demoted × ((app : AppId) → 1 ≤ admins app members → 1 ≤ admins app demoted)
Step-keeps_admins_example =
    Step-keeps_admins members demoted (updates shop "ada" "viewer" ada-demoted) members-IsUnique

abbrev ben : User
ben = record { id = "ben"; role = "auditor" }

resolve_app_role_iff_example :
    (role : String) × (resolve_app_role members (some ben) shop ≡ ok role)
    × IsResolved "auditor" (some "admin") role
unfolding resolve_app_role lock_app_members member_role
resolve_app_role_iff_example = resolve_app_role_iff members ben shop (backend "shop") refl

Step-RosterStep_example : RosterStep (roster members) (roster demoted)
Step-RosterStep_example = Step-RosterStep members demoted (updates shop "ada" "viewer" ada-demoted)
