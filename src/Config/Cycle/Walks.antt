-- ===== src/Config/Cycle/Walks.antt =====
-- Walks along the dependencies, cycles, and ranks, which exclude each other.
use zeep_orbit.Prelude.{
  ℕ, ◌+◌, ◌≤◌, ◌<◌, String, List, [], ◌∷◌, ◌++◌, ◌≡◌, inl, inr, arith, In, subst,
}

module _ (deps : String → List String) where
  -- Each table of the list refers to the next.
  abbrev pub IsWalk : List String → Type 0
  IsWalk [] = Unit
  IsWalk (x ∷ []) = Unit
  IsWalk (x ∷ y ∷ xs) = In y (deps x) × IsWalk (y ∷ xs)

  -- A walk that ends in a table that it has passed before.
  pub record IsCycle (walk : List String) : Type 0 where
    pub before : List String
    pub last : String
    pub parts : walk ≡ before ++ last ∷ []
    pub passed : In last before
    pub walks : IsWalk walk

  pub IsWalk-snoc :
      (xs : List String) (x y : String)
      → IsWalk (xs ++ x ∷ [])
      → In y (deps x)
      → IsWalk ((xs ++ x ∷ []) ++ y ∷ [])
  IsWalk-snoc [] x y w h = (h, tt)
  IsWalk-snoc (a ∷ []) x y w h = (w.0, (h, tt))
  IsWalk-snoc (a ∷ b ∷ xs) x y w h = (w.0, IsWalk-snoc (b ∷ xs) x y w.1 h)

  module _ (rank : String → ℕ) (falls : (x y : String) → In y (deps x) → rank y < rank x) where
    last_below_first :
        (x : String) (xs : List String) (y : String) → IsWalk (x ∷ xs ++ y ∷ []) → rank y < rank x
    last_below_first x [] y w = falls x y w.0
    last_below_first x (z ∷ xs) y w = omega (arith, falls x z w.0, last_below_first z xs y w.1)

    last_below :
        (xs : List String) (x y : String) → In x xs → IsWalk (xs ++ y ∷ []) → rank y < rank x
    last_below [] x y h w = elim h [ ]
    last_below (z ∷ xs) x y (inl e) w = rw e (last_below_first z xs y w)
    last_below (z ∷ []) x y (inr h) w = elim h [ ]
    last_below (z ∷ u ∷ xs) x y (inr h) w = last_below (u ∷ xs) x y h w.1

    -- Where every dependency lowers a rank there is no cycle.
    pub not-IsCycle : (walk : List String) → ¬ IsCycle walk
    not-IsCycle walk c =
        let lower = last_below c.before c.last c.last c.passed (subst IsWalk c.parts c.walks) in
        omega arith

-- No rank in a list is above the sum of them all.
pub total_rank : (String → ℕ) → List String → ℕ
total_rank rank [] = 0
total_rank rank (x ∷ xs) = rank x + total_rank rank xs

pub le-total_rank :
    (rank : String → ℕ) (xs : List String) (x : String) → In x xs → rank x ≤ total_rank rank xs
unfolding total_rank
le-total_rank rank [] x h = elim h [ ]
le-total_rank rank (y ∷ xs) x (inl e) = rw e (omega arith)
le-total_rank rank (y ∷ xs) x (inr h) = omega (arith, le-total_rank rank xs x h)
