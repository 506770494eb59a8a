-- ===== src/Prelude/Pigeonhole.antt =====
-- A list of distinct texts that all stand in another list is no longer than that list.
use Prim.Native.Nat.{suc, ◌≤◌}
use Prim.Native.String.{String}
use mathlib.Core.Path.{◌≡◌, refl, sym, subst, ◌∙◌}
use mathlib.Core.Logic.{◌≢◌, inl, inr}
use mathlib.Core.List.{List, [], ◌∷◌}
use native.Mathlib.Omega.{arith}
use text.Mathlib.Text.{◌==◌}
use zeep_orbit.Prelude.Tests.{if◌then◌else◌, String-cases, Bool-cases}
use zeep_orbit.Prelude.Lists.{length, In, Distinct, contains, contains-eq_true, contains-eq_false}

-- Without the first occurrence of `x`.
erase : String → List String → List String
erase x [] = []
erase x (y ∷ ys) = let rest = erase x ys in if x == y then ys else y ∷ rest

length-erase : (x : String) (ys : List String) → In x ys → length ys ≡ suc (length (erase x ys))
unfolding erase
length-erase x [] h = elim h [ ]
length-erase x (y ∷ ys) h = elim (String-cases x y) [
  | inl (e, p) ↦ rw (e, erase)
  | inr (e, p) ↦
      let later : In x ys = elim h [ inl q ↦ absurd (p q) | inr k ↦ k ] in
      rw (e, erase) (omega (arith, length-erase x ys later))
]

in-erase : (x z : String) (ys : List String) → In z ys → z ≢ x → In z (erase x ys)
unfolding erase
in-erase x z [] h n = elim h [ ]
in-erase x z (y ∷ ys) h n = elim (String-cases x y) [
  | inl (e, p) ↦ rw (e, erase) (elim h [ inl q ↦ absurd (n (q ∙ sym p)) | inr k ↦ k ])
  | inr (e, p) ↦ rw (e, erase) (elim h [ inl q ↦ inl q | inr k ↦ inr (in-erase x z ys k n) ])
]

pub length-le_of_distinct :
    (xs ys : List String) → Distinct xs → ((x : String) → In x xs → In x ys) → length xs ≤ length ys
length-le_of_distinct [] ys d h = omega arith
length-le_of_distinct (x ∷ xs) ys d h =
    let shorter =
      length-le_of_distinct xs (erase x ys) d.1
        (λ z m. in-erase x z ys (h z (inr m)) (λ e. d.0 (subst (λ w. In w xs) e m))) in
    omega (arith, length-erase x ys (h x (inl refl)))

-- If it is as long, it holds everything that the other list holds.
pub in-of_length :
    (xs ys : List String)
    → Distinct xs
    → ((x : String) → In x xs → In x ys)
    → length ys ≤ length xs
    → (y : String) → In y ys
    → In y xs
in-of_length xs ys d h l y i = elim (Bool-cases (contains y xs)) [
  | inl e ↦ contains-eq_true y xs e
  | inr e ↦ absurd (
      let longer =
        length-le_of_distinct (y ∷ xs) ys (contains-eq_false y xs e, d)
          (λ z m. elim m [ inl p ↦ rw p i | inr k ↦ h z k ]) in
      omega arith)
]
