-- ===== src/Dashboard/Members/Resolved.antt =====
-- What a user may do on an app: ResolveAppRole of internal/dashboard/rbac.go with the roles of
-- internal/dashboard/platform_roles.go.
use zeep_orbit.Prelude.{
  String, Bool, true, false, Option, none, some, List, Result, ok, String-cases, ◌==◌, ◌≡◌, ◌⊎◌,
  ◌↔◌, inl, inr, refl, subst, if◌then◌else◌,
}
use zeep_orbit.Dashboard.Roles.{can_read_any_app, can_write, effective}
use zeep_orbit.Dashboard.Members.{
  AppRef, AppId, Member, User, MemberError, app_of, lock_app_members, member_role, resolve_app_role,
}

-- The membership row has a role that satisfies the test.
abbrev HasRow : (String → Bool) → Option String → Type 0
HasRow test found = (role : String) × (found ≡ some role) × (test role ≡ true)

abbrev pub MayWrite : String → Option String → Type 0
MayWrite platform_role found = (platform_role ≡ "superadmin") ⊎ HasRow can_write found

-- A role on the platform that reads every app counts where there is no row only.
abbrev pub MayAccess : String → Option String → Type 0
MayAccess platform_role found =
    (platform_role ≡ "superadmin")
    ⊎ (HasRow effective found ⊎ ((found ≡ none) × (can_read_any_app platform_role ≡ true)))

abbrev pub IsResolved : String → Option String → String → Type 0
IsResolved platform_role found role =
    ((can_write role ≡ true) ↔ MayWrite platform_role found)
    × ((effective role ≡ true) ↔ MayAccess platform_role found)

admin-IsResolved :
    (platform_role : String) (found : Option String)
    → platform_role ≡ "superadmin"
    → IsResolved platform_role found "admin"
unfolding can_write effective
admin-IsResolved platform_role found p = (((λ w. inl p), (λ m. refl)), ((λ w. inl p), (λ m. refl)))

HasRow-known : (test : String → Bool) (role : String) → HasRow test (some role) → test role ≡ true
HasRow-known test role (r, e, w) = subst (λ x. test x ≡ true) (cc) w

row-IsResolved :
    (platform_role role : String)
    → ¬ (platform_role ≡ "superadmin")
    → IsResolved platform_role (some role) role
row-IsResolved platform_role role a = (
  (
    (λ w. inr (role, refl, w)),
    (λ m. elim m [ inl p ↦ absurd (a p) | inr row ↦ HasRow-known can_write role row ]),
  ),
  (
    (λ w. inr (inl (role, refl, w))),
    (λ m. elim m [
      | inl p ↦ absurd (a p)
      | inr (inl row) ↦ HasRow-known effective role row
      | inr (inr (e, r)) ↦ absurd (cc)
    ]),
  ),
)

no_row-IsResolved :
    (platform_role : String) (reads : Bool)
    → ¬ (platform_role ≡ "superadmin")
    → can_read_any_app platform_role ≡ reads
    → IsResolved platform_role none (if reads then "viewer" else "")
unfolding can_write effective
no_row-IsResolved platform_role true a c = (
  ((λ w. absurd (cc)), (λ m. elim m [ inl p ↦ absurd (a p) | inr (r, e, w) ↦ absurd (cc) ])),
  ((λ w. inr (inr (refl, c))), (λ m. refl)),
)
no_row-IsResolved platform_role false a c = (
  ((λ w. absurd (cc)), (λ m. elim m [ inl p ↦ absurd (a p) | inr (r, e, w) ↦ absurd (cc) ])),
  (
    (λ w. absurd (cc)),
    (λ m. elim m [
      | inl p ↦ absurd (a p)
      | inr (inl (r, e, w)) ↦ absurd (cc)
      | inr (inr (e, r)) ↦ absurd (cc)
    ]),
  ),
)

chosen-IsResolved :
    (platform_role : String) (found : Option String)
    → (role : String) × ◌≡◌ {A = Result MemberError String}
        (if platform_role == "superadmin" then ok "admin" else elim found [
          | some r ↦ ok r
          | none ↦ ok (if can_read_any_app platform_role then "viewer" else "")
        ])
        (ok role)
      × IsResolved platform_role found role
chosen-IsResolved platform_role (some role) = elim (String-cases platform_role "superadmin") [
  | inl (e, p) ↦ ("admin", rw e refl, admin-IsResolved platform_role (some role) p)
  | inr (e, a) ↦ (role, rw e refl, row-IsResolved platform_role role a)
]
chosen-IsResolved platform_role none = elim (String-cases platform_role "superadmin") [
  | inl (e, p) ↦ ("admin", rw e refl, admin-IsResolved platform_role none p)
  | inr (e, a) ↦ (
    (if can_read_any_app platform_role then "viewer" else ""),
    rw e refl,
    no_row-IsResolved platform_role (can_read_any_app platform_role) a refl,
  )
]

-- For an app that is well referred to, ResolveAppRole answers every user with a role. The role may
-- write exactly if the user is a superadmin or has a membership row of the app whose role may write,
-- and it gives access at all exactly if the user is a superadmin, has a row with a role, or has no
-- row and a role on the platform that reads every app.
pub resolve_app_role_iff :
    (rows : List Member) (user : User) (ref : AppRef) (app : AppId)
    → app_of ref ≡ ok app
    → (role : String) × (resolve_app_role rows (some user) ref ≡ ok role)
      × IsResolved user.role (member_role (lock_app_members app rows) user.id) role
unfolding resolve_app_role
resolve_app_role_iff rows user ref app a =
    rw a (chosen-IsResolved user.role (member_role (lock_app_members app rows) user.id))
