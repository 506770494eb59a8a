-- ===== src/Prelude/Lists.antt =====
-- Lists measured by native numbers, membership and the other predicates on lists.
use Prim.Native.Nat.{ℕ, zero, suc, ◌+◌}
use Prim.Native.String.{String}
use mathlib.Core.Path.{◌≡◌, refl, sym, ap}
use mathlib.Core.Logic.{◌≢◌, ◌⊎◌, inl, inr}
use mathlib.Core.Bool.{Bool, true, false, not, ◌||◌, ◌&&◌}
use mathlib.Core.List.{List, [], ◌∷◌, ◌++◌, map}
use mathlib.Core.Option.{Option, none, some}
use native.Mathlib.Omega.{arith}
use text.Mathlib.Text.{◌==◌}
use text.Mathlib.TextEquality.{eq_iff}
use zeep_orbit.Prelude.Tests.{if◌then◌else◌, String-cases}

module _ {ℓ} {A : Type ℓ} where
  abbrev pub length : List A → ℕ
  length [] = 0
  length (x ∷ xs) = suc (length xs)

  abbrev pub get_elem? : List A → ℕ → Option A
  get_elem? [] i = none
  get_elem? (x ∷ xs) zero = some x
  get_elem? (x ∷ xs) (suc i) = get_elem? xs i

  abbrev pub All {κ} : (A → Type κ) → List A → Type κ
  All P [] = Unit
  All P (x ∷ xs) = P x × All P xs

  abbrev pub is_empty : List A → Bool
  is_empty [] = true
  is_empty (x ∷ xs) = false

  abbrev pub all : (A → Bool) → List A → Bool
  all p [] = true
  all p (x ∷ xs) = p x && all p xs

  abbrev pub any : (A → Bool) → List A → Bool
  any p [] = false
  any p (x ∷ xs) = p x || any p xs

module _ {A : Type 0} where
  -- Membership by recursion, which the tactics take apart.
  abbrev pub In : A → List A → Type 0
  In a [] = ⊥
  In a (x ∷ xs) = (a ≡ x) ⊎ In a xs

  -- No element occurs twice.
  abbrev pub Distinct : List A → Type 0
  Distinct [] = Unit
  Distinct (x ∷ xs) = ¬ In x xs × Distinct xs

pub length-append {ℓ} : {A : Type ℓ} (xs ys : List A) → length (xs ++ ys) ≡ length xs + length ys
length-append [] ys = omega arith
length-append (x ∷ xs) ys = omega (arith, length-append xs ys)

module _ {A : Type 0} where
  pub in-append_left : (a : A) (xs ys : List A) → In a xs → In a (xs ++ ys)
  in-append_left a [] ys h = elim h [ ]
  in-append_left a (x ∷ xs) ys (inl e) = inl e
  in-append_left a (x ∷ xs) ys (inr h) = inr (in-append_left a xs ys h)

  pub in-append_right : (a : A) (xs ys : List A) → In a ys → In a (xs ++ ys)
  in-append_right a [] ys h = h
  in-append_right a (x ∷ xs) ys h = inr (in-append_right a xs ys h)

  pub in-append_cases : (a : A) (xs ys : List A) → In a (xs ++ ys) → In a xs ⊎ In a ys
  in-append_cases a [] ys h = inr h
  in-append_cases a (x ∷ xs) ys (inl e) = inl (inl e)
  in-append_cases a (x ∷ xs) ys (inr h) = elim (in-append_cases a xs ys h) [
    | inl k ↦ inl (inr k)
    | inr k ↦ inr k
  ]

  pub All-append {κ} : (P : A → Type κ) (xs ys : List A) → All P xs → All P ys → All P (xs ++ ys)
  All-append P [] ys hx hy = hy
  All-append P (x ∷ xs) ys hx hy = (hx.0, All-append P xs ys hx.1 hy)

  pub All-at {κ} : (P : A → Type κ) (xs : List A) (a : A) → All P xs → In a xs → P a
  All-at P [] a h m = elim m [ ]
  All-at P (x ∷ xs) a h (inl e) = rw e h.0
  All-at P (x ∷ xs) a h (inr m) = All-at P xs a h.1 m

  pub All-of_in {κ} : (P : A → Type κ) (xs : List A) → ((a : A) → In a xs → P a) → All P xs
  All-of_in P [] h = tt
  All-of_in P (x ∷ xs) h = (h x (inl refl), All-of_in P xs (λ a m. h a (inr m)))

pub in-map : {A B : Type 0} (f : A → B) (xs : List A) (a : A) → In a xs → In (f a) (map f xs)
in-map f [] a h = elim h [ ]
in-map f (x ∷ xs) a (inl e) = inl (ap f e)
in-map f (x ∷ xs) a (inr h) = inr (in-map f xs a h)

pub in-map_cases :
    {A B : Type 0} (f : A → B) (xs : List A) (b : B)
    → In b (map f xs)
    → (a : A) × In a xs × (b ≡ f a)
in-map_cases f [] b h = elim h [ ]
in-map_cases f (x ∷ xs) b (inl e) = (x, inl refl, e)
in-map_cases f (x ∷ xs) b (inr h) = let (a, m, e) = in-map_cases f xs b h in (a, inr m, e)

pub not_nil-of_not_empty : {A : Type 0} (xs : List A) → not (is_empty xs) ≡ true → xs ≢ []
not_nil-of_not_empty [] h e = absurd (cc)
not_nil-of_not_empty (x ∷ xs) h e = absurd (cc)

-- A Go `map[string]bool` or a loop that looks for a text.
abbrev pub contains : String → List String → Bool
contains s [] = false
contains s (x ∷ xs) = x == s || contains s xs

pub contains-eq_true : (s : String) (xs : List String) → contains s xs ≡ true → In s xs
contains-eq_true s [] h = cc
contains-eq_true s (x ∷ xs) h = ground (arith, eq_iff x s, contains-eq_true s xs)

pub contains-of_in : (s : String) (xs : List String) → In s xs → contains s xs ≡ true
contains-of_in s [] h = elim h [ ]
contains-of_in s (x ∷ xs) h = ground (arith, eq_iff x s, contains-of_in s xs)

pub contains-eq_false : (s : String) (xs : List String) → contains s xs ≡ false → ¬ In s xs
contains-eq_false s xs h m = cc (contains-of_in s xs m)

-- A Go map with text keys, as an association list: the first entry of a key counts.
unfoldable pub lookup {ℓ} : {V : Type ℓ} → String → List (String × V) → Option V
lookup k [] = none
lookup k ((j, v) ∷ m) = if j == k then some v else lookup k m

abbrev pub keys {ℓ} : {V : Type ℓ} → List (String × V) → List String
keys [] = []
keys ((k, v) ∷ m) = k ∷ keys m

pub lookup-of_in {ℓ} :
    {V : Type ℓ} (k : String) (m : List (String × V))
    → In k (keys m)
    → (v : V) × (lookup k m ≡ some v)
unfolding lookup
lookup-of_in k [] h = elim h [ ]
lookup-of_in k ((j, v) ∷ m) h = elim (String-cases j k) [
  | inl (e, p) ↦ (v, rw e)
  | inr (e, p) ↦
      let later : In k (keys m) = elim h [ inl q ↦ absurd (p (sym q)) | inr i ↦ i ] in
      let (w, f) = lookup-of_in k m later in (w, rw (e, lookup) f)
]

pub in-of_lookup {ℓ} :
    {V : Type ℓ} (k : String) (m : List (String × V)) {v : V} → lookup k m ≡ some v → In k (keys m)
unfolding lookup
in-of_lookup k [] h = absurd (cc)
in-of_lookup k ((j, w) ∷ m) h = elim (String-cases j k) [
  | inl (e, p) ↦ inl (sym p)
  | inr (e, p) ↦ inr (in-of_lookup k m (rw (e, lookup) at h))
]

-- A Go map as a function, with a zero value for a missing key: `m[k] = v`.
abbrev pub put {ℓ} : {V : Type ℓ} → (String → V) → String → V → String → V
put m k v x = if k == x then v else m x
