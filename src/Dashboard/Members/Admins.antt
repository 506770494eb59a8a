-- ===== src/Dashboard/Members/Admins.antt =====
-- How a statement on one member's row changes the number of an app's admins:
-- internal/dashboard/app_members_store.go.
use zeep_orbit.Prelude.{
  ℕ, ◌+◌, ◌≤◌, String, true, false, ◌&&◌, List, [], ◌∷◌, ◌++◌, some, Bool-cases, eq_iff, ◌==◌,
  if◌then◌else◌, ◌≡◌, inl, inr, refl, sym, ap, subst, arith,
}
use zeep_orbit.Dashboard.Members.{
  AppId, backend, frontend, Member, same_app, is_row, is_member, lock_app_members, member_role,
  count_admins, set_role, delete_row,
}

-- The number of an app's admins.
abbrev pub admins : AppId → List Member → ℕ
admins app rows = count_admins (lock_app_members app rows)

-- No two rows have the same app and user: the unique indexes of the table.
abbrev pub IsUnique : List Member → Type 0
IsUnique [] = Unit
IsUnique (m ∷ ms) = (is_member m.app m.user_id ms ≡ false) × IsUnique ms

pub same_app-eq : (a b : AppId) → same_app a b ≡ true → a ≡ b
same_app-eq (backend a) (backend b) h = ap backend ((eq_iff a b).0 h)
same_app-eq (frontend a) (frontend b) h = ap frontend ((eq_iff a b).0 h)
same_app-eq (backend a) (frontend b) h = cc
same_app-eq (frontend a) (backend b) h = cc

pub is_row-eq :
    (app : AppId) (u : String) (m : Member)
    → is_row app u m ≡ true
    → (m.app ≡ app) × (m.user_id ≡ u)
is_row-eq app u m h = elim (Bool-cases (same_app m.app app)) [
  | inl e ↦ (same_app-eq m.app app e, (eq_iff m.user_id u).0 (rw e at h))
  | inr e ↦ absurd (let w = rw e at h in cc)
]

-- The row's share in the number.
abbrev pub weight : AppId → Member → ℕ
weight app m = if same_app m.app app && m.role == "admin" then 1 else 0

pub admins-cons :
    (app : AppId) (m : Member) (ms : List Member)
    → admins app (m ∷ ms) ≡ weight app m + admins app ms
unfolding lock_app_members count_admins
admins-cons app m ms = elim (Bool-cases (same_app m.app app)) [
  | inr e ↦ rw (e, lock_app_members) (omega arith)
  | inl e ↦ elim (Bool-cases (m.role == "admin")) [
    | inl f ↦ rw (e, f, lock_app_members, count_admins) (omega arith)
    | inr f ↦ rw (e, f, lock_app_members, count_admins) (omega arith)
  ]
]

-- A statement on the rows of a member: each becomes the rows that `f` says.
abbrev pub alter : AppId → String → (Member → List Member) → List Member → List Member
alter app u f [] = []
alter app u f (m ∷ ms) =
    let rest = alter app u f ms in if is_row app u m then f m ++ rest else m ∷ rest

pub set_role-alter :
    (app : AppId) (u r : String) (rows : List Member)
    → set_role app u r rows ≡ alter app u (λ m. (record m { role = r }) ∷ []) rows
unfolding set_role
set_role-alter app u r [] = refl
set_role-alter app u r (m ∷ ms) = rw (set_role-alter app u r ms) refl

pub delete_row-alter :
    (app : AppId) (u : String) (rows : List Member)
    → delete_row app u rows ≡ alter app u (λ m. []) rows
unfolding delete_row
delete_row-alter app u [] = refl
delete_row-alter app u (m ∷ ms) = rw (delete_row-alter app u ms) refl

alter-none :
    (app : AppId) (u : String) (f : Member → List Member) (rows : List Member)
    → is_member app u rows ≡ false
    → alter app u f rows ≡ rows
unfolding is_member
alter-none app u f [] h = refl
alter-none app u f (m ∷ ms) h = elim (Bool-cases (is_row app u m)) [
  | inl e ↦ absurd (let w = rw e at h in cc)
  | inr e ↦ rw (e, alter-none app u f ms (rw e at h)) refl
]

-- Behind a row of the member there is none.
alter-rest :
    (app : AppId) (u : String) (f : Member → List Member) (m : Member) (ms : List Member)
    → is_row app u m ≡ true
    → is_member m.app m.user_id ms ≡ false
    → alter app u f ms ≡ ms
alter-rest app u f m ms h k =
    let (a, b) = is_row-eq app u m h in
    alter-none app u f ms
      (subst (λ z. is_member z u ms ≡ false) a (subst (λ z. is_member m.app z ms ≡ false) b k))

weight-le : (app : AppId) (m : Member) → weight app m ≤ 1
weight-le app m = elim (Bool-cases (same_app m.app app && m.role == "admin")) [
  | inl e ↦ rw e (omega arith)
  | inr e ↦ rw e (omega arith)
]

admins-append :
    (app : AppId) (xs ys : List Member) → admins app (xs ++ ys) ≡ admins app xs + admins app ys
unfolding lock_app_members count_admins
admins-append app [] ys = omega arith
admins-append app (m ∷ ms) ys =
    omega (arith, admins-cons app m (ms ++ ys), admins-cons app m ms, admins-append app ms ys)

is_member-append :
    (a : AppId) (v : String) (xs ys : List Member)
    → is_member a v xs ≡ false
    → is_member a v ys ≡ false
    → is_member a v (xs ++ ys) ≡ false
unfolding is_member
is_member-append a v [] ys h k = k
is_member-append a v (m ∷ ms) ys h k = elim (Bool-cases (is_row a v m)) [
  | inl e ↦ absurd (let w = rw e at h in cc)
  | inr e ↦ rw e (is_member-append a v ms ys (rw e at h) k)
]

module _ (app : AppId) (u : String) (f : Member → List Member) where
  -- Another app's number stays, if the row's new rows are none of its admins.
  pub alter-other :
      (other : AppId)
      → same_app app other ≡ false
      → ((m : Member) → m.app ≡ app → admins other (f m) ≡ 0)
      → (rows : List Member) → admins other (alter app u f rows) ≡ admins other rows
  alter-other other d z [] = refl
  alter-other other d z (m ∷ ms) = elim (Bool-cases (is_row app u m)) [
    | inl e ↦
        let (a, b) = is_row-eq app u m e in
        let away : same_app m.app other ≡ false = subst (λ x. same_app x other ≡ false) (sym a) d in
        let light : weight other m ≡ 0 = rw away refl in
        rw e (
          omega (
            arith,
            admins-append other (f m) (alter app u f ms),
            z m a,
            alter-other other d z ms,
            admins-cons other m ms,
            light,
          ))
    | inr e ↦ rw e (
        omega (
          arith,
          admins-cons other m (alter app u f ms),
          admins-cons other m ms,
          alter-other other d z ms,
        ))
  ]

  -- At most one admin is lost.
  pub alter-drop :
      (rows : List Member) → IsUnique rows → admins app rows ≤ admins app (alter app u f rows) + 1
  alter-drop [] h = omega arith
  alter-drop (m ∷ ms) h = elim (Bool-cases (is_row app u m)) [
    | inl e ↦
        rw (e, alter-rest app u f m ms e h.0)
          (omega (arith, weight-le app m, admins-cons app m ms, admins-append app (f m) ms))
    | inr e ↦ rw e (
        omega
          (arith, admins-cons app m (alter app u f ms), admins-cons app m ms, alter-drop ms h.1))
  ]

  alter-keeps_other :
      (m : Member) (ms : List Member)
      → is_row app u m ≡ false
      → admins app ms ≤ admins app (alter app u f ms)
      → admins app (m ∷ ms) ≤ admins app (alter app u f (m ∷ ms))
  alter-keeps_other m ms e h =
      rw e (omega (arith, h, admins-cons app m (alter app u f ms), admins-cons app m ms))

  alter-keeps_row :
      (m : Member) (ms : List Member)
      → is_row app u m ≡ true
      → weight app m ≡ 0
      → is_member m.app m.user_id ms ≡ false
      → admins app (m ∷ ms) ≤ admins app (alter app u f (m ∷ ms))
  alter-keeps_row m ms e light h =
      rw (e, alter-rest app u f m ms e h)
        (omega (arith, light, admins-cons app m ms, admins-append app (f m) ms))

  -- None is lost if the member was no admin.
  pub alter-keeps :
      (rows : List Member) {old : String}
      → IsUnique rows
      → member_role (lock_app_members app rows) u ≡ some old
      → (old == "admin") ≡ false
      → admins app rows ≤ admins app (alter app u f rows)
  unfolding member_role lock_app_members
  alter-keeps [] h k l = omega arith
  alter-keeps (m ∷ ms) {old} h k l = elim (Bool-cases (same_app m.app app)) [
    | inr e ↦
        alter-keeps_other m ms (rw e refl) (alter-keeps ms h.1 (rw (e, lock_app_members) at k) l)
    | inl e ↦ elim (Bool-cases (m.user_id == u)) [
      | inr g ↦
          alter-keeps_other m ms (rw (e, g) refl)
            (alter-keeps ms h.1 (rw (e, g, lock_app_members, member_role) at k) l)
      | inl g ↦
          let same : some m.role ≡ some old = (rw (e, g, lock_app_members, member_role) at k) in
          let role : m.role ≡ old = cc in
          let no_admin : (m.role == "admin") ≡ false =
            subst (λ x. (x == "admin") ≡ false) (sym role) l in
          alter-keeps_row m ms (rw (e, g) refl) (rw (e, no_admin) refl) h.0
    ]
  ]

  -- None is lost if the row's new rows weigh as much.
  pub alter-raises :
      ((m : Member) → is_row app u m ≡ true → weight app m ≤ admins app (f m))
      → (rows : List Member) → admins app rows ≤ admins app (alter app u f rows)
  alter-raises w [] = omega arith
  alter-raises w (m ∷ ms) = elim (Bool-cases (is_row app u m)) [
    | inl e ↦ rw e (
        omega (
          arith,
          w m e,
          alter-raises w ms,
          admins-cons app m ms,
          admins-append app (f m) (alter app u f ms),
        ))
    | inr e ↦ rw e (
        omega
          (arith, admins-cons app m (alter app u f ms), admins-cons app m ms, alter-raises w ms))
  ]

  -- The rows stay unique.
  alter-member :
      ((a : AppId) (v : String) (m : Member) → is_row a v m ≡ false → is_member a v (f m) ≡ false)
      → (a : AppId) (v : String) (rows : List Member) → is_member a v rows ≡ false
      → is_member a v (alter app u f rows) ≡ false
  unfolding is_member
  alter-member k a v [] h = refl
  alter-member k a v (m ∷ ms) h = elim (Bool-cases (is_row a v m)) [
    | inl g ↦ absurd (let w = rw g at h in cc)
    | inr g ↦
        let later = alter-member k a v ms (rw g at h) in
        elim (Bool-cases (is_row app u m)) [
          | inl e ↦ rw e (is_member-append a v (f m) (alter app u f ms) (k a v m g) later)
          | inr e ↦ rw (e, g) later
        ]
  ]

  pub alter-IsUnique :
      ((a : AppId) (v : String) (m : Member) → is_row a v m ≡ false → is_member a v (f m) ≡ false)
      → ((m : Member) (ms : List Member)
          → is_member m.app m.user_id ms ≡ false
          → IsUnique ms
          → IsUnique (f m ++ ms))
      → (rows : List Member) → IsUnique rows
      → IsUnique (alter app u f rows)
  alter-IsUnique k n [] h = tt
  alter-IsUnique k n (m ∷ ms) h =
      let later = alter-IsUnique k n ms h.1 in
      let free = alter-member k m.app m.user_id ms h.0 in
      elim (Bool-cases (is_row app u m)) [
        | inl e ↦ rw e (n m (alter app u f ms) free later)
        | inr e ↦ rw e (free, later)
      ]
