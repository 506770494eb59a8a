-- ===== src/Dashboard/Members/Kept.antt =====
-- An app that has an admin keeps one: internal/dashboard/app_members_store.go.
use zeep_orbit.Prelude.{
  ℕ, ◌≤◌, String, Bool, true, false, not, ◌&&◌, ltb, List, [], ◌∷◌, Option, none, some, ok,
  guard-eq-ok, bind-eq-ok, Bool-cases, ◌==◌, eq_iff, ◌≡◌, ◌⊎◌, inl, inr, refl, sym, ap, subst,
  arith, ◌∙◌,
}
use zeep_orbit.Dashboard.Members.{
  AppRef, AppId, Member, already_member, invalid_role, last_app_admin, app_of, same_app, is_row,
  is_member, lock_app_members, member_role, valid_app_role, count_admins, set_role, delete_row,
  found, add_app_member, update_app_member_role, remove_app_member,
}
use zeep_orbit.Dashboard.Members.Admins.{
  admins, admins-cons, IsUnique, same_app-eq, weight, set_role-alter, delete_row-alter, alter,
  alter-other, alter-drop, alter-keeps, alter-raises, alter-IsUnique,
}

-- One request on the memberships that succeeds.
pub data Step : List Member → List Member → Type 0 where
  adds :
      {rows rows' : List Member} (ref : AppRef) (u role : String)
      → add_app_member ref u role rows ≡ ok rows'
      → Step rows rows'
  updates :
      {rows rows' : List Member} (ref : AppRef) (u role : String)
      → update_app_member_role ref u role rows ≡ ok rows'
      → Step rows rows'
  removes :
      {rows rows' : List Member} (ref : AppRef) (u : String)
      → remove_app_member ref u rows ≡ ok rows'
      → Step rows rows'

pub found-eq-ok : (o : Option String) {s : String} → found o ≡ ok s → o ≡ some s
found-eq-ok none h = absurd (cc)
found-eq-ok (some r) {s} h = (let e : r ≡ s = cc in ap some e)

-- The role as a change of rows, and the removal.
abbrev with_role : String → Member → List Member
with_role role m = (record m { role = role }) ∷ []

abbrev no_row : Member → List Member
no_row m = []

with_role-other :
    (app other : AppId) (role : String)
    → same_app app other ≡ false
    → (m : Member) → m.app ≡ app
    → admins other (with_role role m) ≡ 0
unfolding lock_app_members count_admins
with_role-other app other role d m e =
    let away : same_app m.app other ≡ false = subst (λ x. same_app x other ≡ false) (sym e) d in
    rw away refl

no_row-other : (other : AppId) → (m : Member) → admins other (no_row m) ≡ 0
unfolding lock_app_members count_admins
no_row-other other m = refl

-- A change that costs the app at most one admin, or none, and other apps none.
keeps :
    (app : AppId) (u : String) (f : Member → List Member) (rows : List Member)
    → ((other : AppId)
        → same_app app other ≡ false
        → (m : Member) → m.app ≡ app
        → admins other (f m) ≡ 0)
    → (admins app rows ≤ admins app (alter app u f rows)) ⊎ (IsUnique rows × (2 ≤ admins app rows))
    → (other : AppId) → 1 ≤ admins other rows
    → 1 ≤ admins other (alter app u f rows)
keeps app u f rows z cost other h = elim (Bool-cases (same_app app other)) [
  | inr d ↦ (let same = alter-other app u f other d (z other d) rows in omega (arith, same, h))
  | inl d ↦
      let is : app ≡ other = same_app-eq app other d in
      subst (λ x. 1 ≤ admins x rows → 1 ≤ admins x (alter app u f rows)) is
        (λ k. elim cost [
          | inl c ↦ omega (arith, c, k)
          | inr c ↦ (let drop = alter-drop app u f rows c.0 in omega (arith, drop, c.1))
        ])
        h
]

-- What the guard on the last admin leaves.
cost_of :
    (app : AppId) (u : String) (f : Member → List Member) (rows : List Member) {old : String}
    → IsUnique rows
    → member_role (lock_app_members app rows) u ≡ some old
    → not (old == "admin" && ltb (admins app rows) 2) ≡ true
    → (admins app rows ≤ admins app (alter app u f rows)) ⊎ (IsUnique rows × (2 ≤ admins app rows))
cost_of app u f rows {old} h k g = elim (Bool-cases (old == "admin")) [
  | inr e ↦ inl (alter-keeps app u f rows h k e)
  | inl e ↦ inr (h, enough (admins app rows) (rw e at g))
]
  where
    enough : (n : ℕ) → not (ltb n 2) ≡ true → 2 ≤ n
    enough n h = ground arith

role_raises :
    (app : AppId) (u : String) (m : Member)
    → is_row app u m ≡ true
    → weight app m ≤ admins app (with_role "admin" m)
unfolding lock_app_members count_admins
role_raises app u m h = elim (Bool-cases (same_app m.app app)) [
  | inr e ↦ absurd (let w = rw e at h in cc)
  | inl e ↦ elim (Bool-cases (m.role == "admin")) [
    | inl f ↦ rw (e, f) (omega arith)
    | inr f ↦ rw (e, f) (omega arith)
  ]
]

update_cost :
    (app : AppId) (u role : String) (rows : List Member) {old : String}
    → IsUnique rows
    → member_role (lock_app_members app rows) u ≡ some old
    → not (old == "admin" && not (role == "admin") && ltb (admins app rows) 2) ≡ true
    → (admins app rows ≤ admins app (alter app u (with_role role) rows))
      ⊎ (IsUnique rows × (2 ≤ admins app rows))
update_cost app u role rows {old} h k g = elim (Bool-cases (role == "admin")) [
  | inl e ↦
      let is : role ≡ "admin" = (eq_iff role "admin").0 e in
      inl (
        subst (λ x. admins app rows ≤ admins app (alter app u (with_role x) rows)) (sym is)
          (alter-raises app u (with_role "admin") (λ m i. role_raises app u m i) rows))
  | inr e ↦ cost_of app u (with_role role) rows h k (without_new (old == "admin") _ (rw e at g))
]
  where
    without_new : (a b : Bool) → not (a && true && b) ≡ true → not (a && b) ≡ true
    without_new true b h = h
    without_new false b h = refl

pub false-of_not : (b : Bool) → not b ≡ true → b ≡ false
false-of_not true h = cc
false-of_not false h = refl

-- What every request keeps.
abbrev Keeps : List Member → List Member → Type 0
Keeps rows rows' =
    IsUnique rows' × ((other : AppId) → 1 ≤ admins other rows → 1 ≤ admins other rows')

role-IsUnique :
    (app : AppId) (u role : String) (rows : List Member)
    → IsUnique rows
    → IsUnique (alter app u (with_role role) rows)
unfolding is_member
role-IsUnique app u role rows h =
    alter-IsUnique app u (with_role role) (λ a v m k. rw k refl) (λ m ms free k. (free, k)) rows h

none-IsUnique :
    (app : AppId) (u : String) (rows : List Member)
    → IsUnique rows
    → IsUnique (alter app u no_row rows)
unfolding is_member
none-IsUnique app u rows h = alter-IsUnique app u no_row (λ a v m k. refl) (λ m ms free k. k) rows h

update-Keeps :
    (ref : AppRef) (u role : String) (rows : List Member) {rows' : List Member}
    → IsUnique rows
    → update_app_member_role ref u role rows ≡ ok rows'
    → Keeps rows rows'
unfolding update_app_member_role
update-Keeps ref u role rows {rows'} h e =
    let (app, a, e1) = bind-eq-ok (app_of ref) _ e in
    let (valid, e2) = guard-eq-ok (valid_app_role role) (invalid_role role) _ e1 in
    let (old, b, e3) = bind-eq-ok (found (member_role (lock_app_members app rows) u)) _ e2 in
    let (kept, e4) =
      guard-eq-ok
        (not (
          old == "admin"
          && not (role == "admin")
          && ltb (count_admins (lock_app_members app rows)) 2))
        last_app_admin (ok (set_role app u role rows)) e3 in
    let member = found-eq-ok (member_role (lock_app_members app rows) u) b in
    let done : set_role app u role rows ≡ rows' = cc in
    subst (Keeps rows) (sym (set_role-alter app u role rows) ∙ done) (
      role-IsUnique app u role rows h,
      keeps app u (with_role role) rows (λ other d. with_role-other app other role d)
          (update_cost app u role rows h member kept),
    )

remove-Keeps :
    (ref : AppRef) (u : String) (rows : List Member) {rows' : List Member}
    → IsUnique rows
    → remove_app_member ref u rows ≡ ok rows'
    → Keeps rows rows'
unfolding remove_app_member
remove-Keeps ref u rows {rows'} h e =
    let (app, a, e1) = bind-eq-ok (app_of ref) _ e in
    let (old, b, e2) = bind-eq-ok (found (member_role (lock_app_members app rows) u)) _ e1 in
    let (kept, e3) =
      guard-eq-ok (not (old == "admin" && ltb (count_admins (lock_app_members app rows)) 2))
        last_app_admin (ok (delete_row app u rows)) e2 in
    let member = found-eq-ok (member_role (lock_app_members app rows) u) b in
    let done : delete_row app u rows ≡ rows' = cc in
    subst (Keeps rows) (sym (delete_row-alter app u rows) ∙ done) (
      none-IsUnique app u rows h,
      keeps app u no_row rows (λ other d m i. no_row-other other m)
          (cost_of app u no_row rows h member kept),
    )

add-Keeps :
    (ref : AppRef) (u role : String) (rows : List Member) {rows' : List Member}
    → IsUnique rows
    → add_app_member ref u role rows ≡ ok rows'
    → Keeps rows rows'
unfolding add_app_member
add-Keeps ref u role rows {rows'} h e =
    let (app, a, e1) = bind-eq-ok (app_of ref) _ e in
    let (valid, e2) = guard-eq-ok (valid_app_role role) (invalid_role role) _ e1 in
    let row : Member = record { app = app; user_id = u; role = role } in
    let (free, e3) = guard-eq-ok (not (is_member app u rows)) already_member (ok (row ∷ rows)) e2 in
    let done : row ∷ rows ≡ rows' = cc in
    subst (Keeps rows) done (
      (false-of_not (is_member app u rows) free, h),
      λ other k. (let more = admins-cons other row rows in omega (arith, more, k)),
    )

-- If no two rows have the same app and user, then every request that adds, updates or removes a member
-- and succeeds keeps that, and every app that has an admin still has one.
pub Step-keeps_admins :
    (rows rows' : List Member)
    → Step rows rows'
    → IsUnique rows
    → IsUnique rows' × ((app : AppId) → 1 ≤ admins app rows → 1 ≤ admins app rows')
Step-keeps_admins rows _ (adds ref u role e) h = add-Keeps ref u role rows h e
Step-keeps_admins rows _ (updates ref u role e) h = update-Keeps ref u role rows h e
Step-keeps_admins rows _ (removes ref u e) h = remove-Keeps ref u rows h e
