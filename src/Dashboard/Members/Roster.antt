-- ===== src/Dashboard/Members/Roster.antt =====
-- What the memberships are for: a role for each app and user.
use zeep_orbit.Prelude.{
  String, Bool, true, false, not, ◌&&◌, ltb, List, [], ◌∷◌, Option, none, some, ok, guard-eq-ok,
  bind-eq-ok, Bool-cases, inl, inr, ◌==◌, eq_iff, ◌≡◌, refl, sym, ap, subst, ◌∙◌, if◌then◌else◌,
}
use zeep_orbit.Dashboard.Members.{
  AppRef, AppId, Member, already_member, invalid_role, last_app_admin, app_of, same_app, is_row,
  is_member, lock_app_members, member_role, valid_app_role, count_admins, set_role, delete_row,
  found, add_app_member, update_app_member_role, remove_app_member,
}
use zeep_orbit.Dashboard.Members.Admins.{same_app-eq, is_row-eq}
use zeep_orbit.Dashboard.Members.Kept.{Step, adds, updates, removes, found-eq-ok, false-of_not}

-- The role of each user on each app.
abbrev pub Roster : Type 0
Roster = AppId → String → Option String

unfoldable pub roster : List Member → Roster
unfolding lock_app_members member_role
roster rows app u = member_role (lock_app_members app rows) u

-- The two name one app and one user.
abbrev pub is_same : AppId → String → AppId → String → Bool
is_same app u other v = same_app app other && u == v

-- Nothing but this app's role of this user differs, which is now `role`.
abbrev pub IsChangedAt : Roster → Roster → AppId → String → Option String → Type 0
IsChangedAt r r' app u role =
    (other : AppId) (v : String) → r' other v ≡ (if is_same app u other v then role else r other v)

-- The operations on a map.
pub data RosterStep (r r' : Roster) : Type 0 where
  put_in :
      (app : AppId) (u role : String)
      → r app u ≡ none
      → valid_app_role role ≡ true
      → IsChangedAt r r' app u (some role)
      → RosterStep r r'
  replaced :
      (app : AppId) (u role old : String)
      → r app u ≡ some old
      → valid_app_role role ≡ true
      → IsChangedAt r r' app u (some role)
      → RosterStep r r'
  taken_out :
      (app : AppId) (u old : String)
      → r app u ≡ some old
      → IsChangedAt r r' app u none
      → RosterStep r r'

roster-cons :
    (m : Member) (ms : List Member) (other : AppId) (v : String)
    → roster (m ∷ ms) other v ≡ (if is_row other v m then some m.role else roster ms other v)
unfolding roster
roster-cons m ms other v = elim (Bool-cases (same_app m.app other)) [
  | inr e ↦ rw (e, lock_app_members) refl
  | inl e ↦ elim (Bool-cases (m.user_id == v)) [
    | inl f ↦ rw (e, lock_app_members, member_role, f) refl
    | inr f ↦ rw (e, lock_app_members, member_role, f) refl
  ]
]

is_row-same :
    (app : AppId) (u : String) (m : Member) (other : AppId) (v : String)
    → is_row app u m ≡ true
    → is_row other v m ≡ is_same app u other v
is_row-same app u m other v h =
    let (a, b) = is_row-eq app u m h in
    ap (λ x. same_app x other && m.user_id == v) a ∙ ap (λ x. same_app app other && x == v) b

is_same-eq :
    (app : AppId) (u : String) (other : AppId) (v : String)
    → is_same app u other v ≡ true
    → (app ≡ other) × (u ≡ v)
is_same-eq app u other v h = elim (Bool-cases (same_app app other)) [
  | inl e ↦ (same_app-eq app other e, (eq_iff u v).0 (rw e at h))
  | inr e ↦ absurd (let w = rw e at h in cc)
]

same-is_row :
    (app : AppId) (u : String) (m : Member) (other : AppId) (v : String)
    → is_same app u other v ≡ true
    → is_row other v m ≡ is_row app u m
same-is_row app u m other v h =
    let (a, b) = is_same-eq app u other v h in
    ap (λ x. same_app m.app x && m.user_id == v) (sym a)
    ∙ ap (λ x. same_app m.app app && m.user_id == x) (sym b)

-- A member's row, if there is one, gets the role.
abbrev given : String → Option String → Option String
given role none = none
given role (some old) = some role

set_role-roster :
    (app : AppId) (u role : String) (rows : List Member) (other : AppId) (v : String)
    → roster (set_role app u role rows) other v
      ≡ (if is_same app u other v then given role (roster rows other v) else roster rows other v)
unfolding set_role
set_role-roster app u role [] other v = elim (Bool-cases (is_same app u other v)) [
  | inl e ↦ unfold roster in rw e refl
  | inr e ↦ rw e refl
]
set_role-roster app u role (m ∷ ms) other v =
    let rest = set_role app u role ms in
    let later = set_role-roster app u role ms other v in
    let old = roster-cons m ms other v in
    let kept = roster-cons m rest other v in
    let changed = roster-cons (record m { role = role }) rest other v in
    elim (Bool-cases (is_row app u m)) [
      | inl r ↦ elim (Bool-cases (is_same app u other v)) [
        | inl e ↦ let hit = is_row-same app u m other v r ∙ e in rw (r, changed, old, e, hit) refl
        | inr e ↦
            let missed = is_row-same app u m other v r ∙ e in
            rw (r, changed, old, e, missed) (rw e at later)
      ]
      | inr r ↦ elim (Bool-cases (is_same app u other v)) [
        | inl e ↦
            let missed = same-is_row app u m other v e ∙ r in
            rw (r, kept, old, e, missed) (rw e at later)
        | inr e ↦
            rw (r, kept, old, e)
              (ap (λ o. if is_row other v m then some m.role else o) (rw e at later))
      ]
    ]

set_role-IsChangedAt :
    (app : AppId) (u role old : String) (rows : List Member)
    → roster rows app u ≡ some old
    → IsChangedAt (roster rows) (roster (set_role app u role rows)) app u (some role)
set_role-IsChangedAt app u role old rows member other v =
    elim (Bool-cases (is_same app u other v)) [
      | inl e ↦
          let (a, b) = is_same-eq app u other v e in
          let there : roster rows other v ≡ some old =
            subst (λ x. roster rows x v ≡ some old) a
              (subst (λ x. roster rows app x ≡ some old) b member) in
          rw (set_role-roster app u role rows other v, e, there) refl
      | inr e ↦ rw (set_role-roster app u role rows other v, e) refl
    ]

delete_row-roster :
    (app : AppId) (u : String) (rows : List Member) (other : AppId) (v : String)
    → roster (delete_row app u rows) other v
      ≡ (if is_same app u other v then none else roster rows other v)
unfolding delete_row
delete_row-roster app u [] other v = elim (Bool-cases (is_same app u other v)) [
  | inl e ↦ unfold roster in rw e refl
  | inr e ↦ rw e refl
]
delete_row-roster app u (m ∷ ms) other v =
    let rest = delete_row app u ms in
    let later = delete_row-roster app u ms other v in
    let old = roster-cons m ms other v in
    let kept = roster-cons m rest other v in
    elim (Bool-cases (is_row app u m)) [
      | inl r ↦ elim (Bool-cases (is_same app u other v)) [
        | inl e ↦ rw (r, e) (rw e at later)
        | inr e ↦
            let missed = is_row-same app u m other v r ∙ e in rw (r, old, e, missed) (rw e at later)
      ]
      | inr r ↦ elim (Bool-cases (is_same app u other v)) [
        | inl e ↦
            let missed = same-is_row app u m other v e ∙ r in
            rw (r, kept, e, missed) (rw e at later)
        | inr e ↦
            rw (r, kept, old, e)
              (ap (λ o. if is_row other v m then some m.role else o) (rw e at later))
      ]
    ]

-- A row that is not there has no role.
roster-of_free :
    (app : AppId) (u : String) (rows : List Member)
    → is_member app u rows ≡ false
    → roster rows app u ≡ none
unfolding is_member
roster-of_free app u [] h = unfold roster in refl
roster-of_free app u (m ∷ ms) h = elim (Bool-cases (is_row app u m)) [
  | inl e ↦ absurd (let w = rw e at h in cc)
  | inr e ↦ roster-cons m ms app u ∙ (rw e (roster-of_free app u ms (rw e at h)))
]

add-RosterStep :
    (ref : AppRef) (u role : String) (rows : List Member) {rows' : List Member}
    → add_app_member ref u role rows ≡ ok rows'
    → RosterStep (roster rows) (roster rows')
unfolding add_app_member
add-RosterStep ref u role rows {rows'} e =
    let (app, a, e1) = bind-eq-ok (app_of ref) _ e in
    let (valid, e2) = guard-eq-ok (valid_app_role role) (invalid_role role) _ e1 in
    let row : Member = record { app = app; user_id = u; role = role } in
    let (free, e3) = guard-eq-ok (not (is_member app u rows)) already_member (ok (row ∷ rows)) e2 in
    let done : row ∷ rows ≡ rows' = cc in
    subst (λ x. RosterStep (roster rows) (roster x)) done
      (put_in app u role (roster-of_free app u rows (false-of_not (is_member app u rows) free))
        valid (λ other v. roster-cons row rows other v))

update-RosterStep :
    (ref : AppRef) (u role : String) (rows : List Member) {rows' : List Member}
    → update_app_member_role ref u role rows ≡ ok rows'
    → RosterStep (roster rows) (roster rows')
unfolding update_app_member_role
update-RosterStep ref u role rows {rows'} e =
    let (app, a, e1) = bind-eq-ok (app_of ref) _ e in
    let (valid, e2) = guard-eq-ok (valid_app_role role) (invalid_role role) _ e1 in
    let (old, b, e3) = bind-eq-ok (found (member_role (lock_app_members app rows) u)) _ e2 in
    let (kept, e4) =
      guard-eq-ok
        (not (
          old == "admin"
          && not (role == "admin")
          && ltb (count_admins (lock_app_members app rows)) 2))
        last_app_admin (ok (set_role app u role rows)) e3 in
    let done : set_role app u role rows ≡ rows' = cc in
    let member : roster rows app u ≡ some old =
      unfold roster in found-eq-ok (member_role (lock_app_members app rows) u) b in
    subst (λ x. RosterStep (roster rows) (roster x)) done
      (replaced app u role old member valid (set_role-IsChangedAt app u role old rows member))

remove-RosterStep :
    (ref : AppRef) (u : String) (rows : List Member) {rows' : List Member}
    → remove_app_member ref u rows ≡ ok rows'
    → RosterStep (roster rows) (roster rows')
unfolding remove_app_member
remove-RosterStep ref u rows {rows'} e =
    let (app, a, e1) = bind-eq-ok (app_of ref) _ e in
    let (old, b, e2) = bind-eq-ok (found (member_role (lock_app_members app rows) u)) _ e1 in
    let (kept, e3) =
      guard-eq-ok (not (old == "admin" && ltb (count_admins (lock_app_members app rows)) 2))
        last_app_admin (ok (delete_row app u rows)) e2 in
    let done : delete_row app u rows ≡ rows' = cc in
    let member : roster rows app u ≡ some old =
      unfold roster in found-eq-ok (member_role (lock_app_members app rows) u) b in
    subst (λ x. RosterStep (roster rows) (roster x)) done
      (taken_out app u old member (λ other v. delete_row-roster app u rows other v))

-- Every request that adds, updates or removes a member and succeeds is the one operation on the map
-- from apps and users to roles: a valid role is put in where there was none, replaces the one that was
-- there, or the one that was there is taken out, and no other user or app has another role after it.
pub Step-RosterStep :
    (rows rows' : List Member) → Step rows rows' → RosterStep (roster rows) (roster rows')
Step-RosterStep rows _ (adds ref u role e) = add-RosterStep ref u role rows e
Step-RosterStep rows _ (updates ref u role e) = update-RosterStep ref u role rows e
Step-RosterStep rows _ (removes ref u e) = remove-RosterStep ref u rows e
