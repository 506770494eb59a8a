-- ===== src/RateLimit/Admissions.antt =====
-- The requests that a limiter answers, and those that it lets through.
use zeep_orbit.Prelude.{
  ℕ, ◌+◌, ◌≤◌, String, Bool, List, [], ◌∷◌, ◌++◌, ◌≡◌, ◌==◌, ◌&&◌, arith, ltb, leb, length,
  if◌then◌else◌,
}

-- The clock of the calls does not go back.
abbrev pub InOrder : ℕ → List (ℕ × String) → Type 0
InOrder last [] = Unit
InOrder last ((now, _) ∷ calls) = (last ≤ now) × InOrder now calls

-- How many of the times lie after `start` and not after `start + window`.
unfoldable pub count_within : ℕ → ℕ → List ℕ → ℕ
count_within start window [] = 0
count_within start window (t ∷ ts) =
    (if ltb start t && leb t (start + window) then 1 else 0) + count_within start window ts

-- The times at which a key's requests were let through.
unfoldable pub admitted_times : String → List (ℕ × String) → List Bool → List ℕ
admitted_times key [] answers = []
admitted_times key (call ∷ calls) [] = []
admitted_times key ((now, k) ∷ calls) (answer ∷ answers) =
    let rest = admitted_times key calls answers in if answer && k == key then now ∷ rest else rest

pub count_within-append :
    (start window : ℕ) (xs ys : List ℕ)
    → count_within start window (xs ++ ys)
      ≡ count_within start window xs + count_within start window ys
unfolding count_within
count_within-append start window [] ys = omega arith
count_within-append start window (t ∷ xs) ys = omega (arith, count_within-append start window xs ys)

pub count_within-le-length :
    (start window : ℕ) (ts : List ℕ) → count_within start window ts ≤ length ts
unfolding count_within
count_within-le-length start window [] = omega arith
count_within-le-length start window (t ∷ ts) =
    ground (arith, count_within-le-length start window ts)
