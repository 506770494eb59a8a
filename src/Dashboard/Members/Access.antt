-- ===== src/Dashboard/Members/Access.antt =====
-- Who may write on an app: ResolveAppRole of internal/dashboard/rbac.go.
use zeep_orbit.Prelude.{
  String, Bool, true, false, List, some, ok, bind-eq-ok, Bool-cases, Option-cases, eq_iff, ◌==◌,
  ◌≡◌, ◌⊎◌, inl, inr, refl, subst, sym, ap, ◌∙◌, if◌then◌else◌,
}
use zeep_orbit.Dashboard.Roles.{can_read_any_app, can_write}
use zeep_orbit.Dashboard.Members.{
  AppRef, AppId, Member, User, app_of, lock_app_members, member_role, resolve_app_role,
}

reader-no_writer : (b : Bool) → can_write (if b then "viewer" else "") ≡ false
unfolding can_write
reader-no_writer true = refl
reader-no_writer false = refl

-- A user whose resolved role on an app may write is a superadmin, or has a membership row of the app
-- with this role: the platform roles that read every app never write.
pub resolve_app_role-of_writer :
    (rows : List Member) (user : User) (ref : AppRef) (role : String)
    → resolve_app_role rows (some user) ref ≡ ok role
    → can_write role ≡ true
    → (user.role ≡ "superadmin")
      ⊎ ((app : AppId) × (app_of ref ≡ ok app)
          × (member_role (lock_app_members app rows) user.id ≡ some role))
unfolding resolve_app_role
resolve_app_role-of_writer rows user ref role h w =
    let (app, a, k) = bind-eq-ok (app_of ref) _ h in
    elim (Bool-cases (user.role == "superadmin")) [
      | inl e ↦ inl ((eq_iff user.role "superadmin").0 e)
      | inr e ↦ elim (Option-cases (member_role (lock_app_members app rows) user.id)) [
        | inr (r, f) ↦
            let same = rw (e, f) at k in let is : r ≡ role = cc in inr (app, a, f ∙ ap some is)
        | inl f ↦
            let same = rw (e, f) at k in
            let is : (if can_read_any_app user.role then "viewer" else "") ≡ role = cc in
            let no = reader-no_writer (can_read_any_app user.role) in
            absurd (let yes = subst (λ x. can_write x ≡ true) (sym is) w in cc)
      ]
    ]
