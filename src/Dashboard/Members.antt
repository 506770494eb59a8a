-- ===== src/Dashboard/Members.antt =====
-- The memberships of the apps: internal/dashboard/app_members_store.go and ResolveAppRole of
-- internal/dashboard/rbac.go. The table zeep_system.app_members is the list of its rows; each
-- operation is one transaction that holds the app's rows. Failures of the database, which leave the
-- rows as they are, are not modelled.
pub mod Admins
pub mod Kept
pub mod Access
pub mod Roster
pub mod Resolved
use zeep_orbit.Prelude.{
  ℕ, suc, String, Bool, true, false, not, ◌&&◌, ◌||◌, List, [], ◌∷◌, ◌++◌, Option, none, some,
  Result, ok, err, ◌>>=◌, ◌>>◌, guard, ◌==◌, ltb, if◌then◌else◌,
}
use zeep_orbit.Dashboard.Roles.{can_read_any_app}

-- `AppRef`
pub record AppRef : Type 0 where
  pub backend_app_id : String
  pub frontend_app_id : String

-- A row belongs to a backend app or to a frontend app, as the table's CHECK says.
pub data AppId : Type 0 where
  backend : String → AppId
  frontend : String → AppId

pub record Member : Type 0 where
  pub app : AppId
  pub user_id : String
  pub role : String

pub data MemberError : Type 0 where
  invalid_app_ref : MemberError
  nil_user : MemberError
  invalid_role : String → MemberError
  already_member : MemberError
  not_found : MemberError
  last_app_admin : MemberError

-- The check that opens each operation, and the column that its WHERE clause compares.
unfoldable pub app_of : AppRef → Result MemberError AppId
app_of ref =
    if ref.backend_app_id == "" && ref.frontend_app_id == ""
      || not (ref.backend_app_id == "") && not (ref.frontend_app_id == "")
    then err invalid_app_ref
    else if not (ref.backend_app_id == "")
    then ok (backend ref.backend_app_id)
    else ok (frontend ref.frontend_app_id)

abbrev pub same_app : AppId → AppId → Bool
same_app (backend a) (backend b) = a == b
same_app (frontend a) (frontend b) = a == b
same_app _ _ = false

-- `WHERE … = $1 AND user_id = $2`
abbrev pub is_row : AppId → String → Member → Bool
is_row app user_id m = same_app m.app app && m.user_id == user_id

-- `lockAppMembers`. The order of the rows, by user_id there, is not used.
unfoldable pub lock_app_members : AppId → List Member → List Member
lock_app_members app [] = []
lock_app_members app (m ∷ ms) =
    let rest = lock_app_members app ms in if same_app m.app app then m ∷ rest else rest

unfoldable pub member_role : List Member → String → Option String
member_role [] user_id = none
member_role (m ∷ ms) user_id = if m.user_id == user_id then some m.role else member_role ms user_id

unfoldable pub count_admins : List Member → ℕ
count_admins [] = 0
count_admins (m ∷ ms) = let rest = count_admins ms in if m.role == "admin" then suc rest else rest

abbrev pub valid_app_role : String → Bool
valid_app_role role = role == "admin" || (role == "editor" || role == "viewer")

-- The UPDATE statement.
unfoldable pub set_role : AppId → String → String → List Member → List Member
set_role app user_id role [] = []
set_role app user_id role (m ∷ ms) =
    let rest = set_role app user_id role ms in
    if is_row app user_id m then (record m { role = role }) ∷ rest else m ∷ rest

-- The DELETE statement.
unfoldable pub delete_row : AppId → String → List Member → List Member
delete_row app user_id [] = []
delete_row app user_id (m ∷ ms) =
    let rest = delete_row app user_id ms in if is_row app user_id m then rest else m ∷ rest

-- Whether the row violates the unique index on the app and the user.
unfoldable pub is_member : AppId → String → List Member → Bool
is_member app user_id [] = false
is_member app user_id (m ∷ ms) = is_row app user_id m || is_member app user_id ms

unfoldable pub add_app_member :
    AppRef → String → String → List Member → Result MemberError (List Member)
unfolding app_of is_member
add_app_member ref user_id role rows = do
  app ← app_of ref
  guard (valid_app_role role) (invalid_role role)
  guard (not (is_member app user_id rows)) already_member
  ok (record { app = app; user_id = user_id; role = role } ∷ rows)

-- The role of the locked member.
abbrev pub found : Option String → Result MemberError String
found none = err not_found
found (some role) = ok role

unfoldable pub update_app_member_role :
    AppRef → String → String → List Member → Result MemberError (List Member)
unfolding app_of lock_app_members member_role count_admins set_role
update_app_member_role ref user_id new_role rows = do
  app ← app_of ref
  guard (valid_app_role new_role) (invalid_role new_role)
  old_role ← found (member_role (lock_app_members app rows) user_id)
  guard
      (not (
        old_role == "admin"
        && not (new_role == "admin")
        && ltb (count_admins (lock_app_members app rows)) 2))
      last_app_admin
  ok (set_role app user_id new_role rows)

unfoldable pub remove_app_member : AppRef → String → List Member → Result MemberError (List Member)
unfolding app_of lock_app_members member_role count_admins delete_row
remove_app_member ref user_id rows = do
  app ← app_of ref
  old_role ← found (member_role (lock_app_members app rows) user_id)
  guard (not (old_role == "admin" && ltb (count_admins (lock_app_members app rows)) 2))
      last_app_admin
  ok (delete_row app user_id rows)

-- `CountAppAdmins`
unfoldable pub count_app_admins : AppRef → List Member → Result MemberError ℕ
unfolding app_of lock_app_members count_admins
count_app_admins ref rows = do app ← app_of ref; ok (count_admins (lock_app_members app rows))

-- `DashboardUser`, as far as roles are resolved by it.
pub record User : Type 0 where
  pub id : String
  pub role : String

-- The zero value "" is "not a member".
unfoldable pub resolve_app_role : List Member → Option User → AppRef → Result MemberError String
unfolding app_of lock_app_members member_role can_read_any_app
resolve_app_role rows none ref = do app ← app_of ref; err nil_user
resolve_app_role rows (some user) ref = do
  app ← app_of ref
  if user.role == "superadmin"
      then ok "admin"
      else elim (member_role (lock_app_members app rows) user.id) [
        | some role ↦ ok role
        | none ↦ ok (if can_read_any_app user.role then "viewer" else "")
      ]
