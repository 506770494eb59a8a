-- ===== src/RateLimit/SignIn.antt =====
-- The sliding window of the sign-in routes: internal/auth/ratelimit.go.
pub mod Log
pub mod Window
use zeep_orbit.Prelude.{
  ℕ, ◌+◌, ◌≤◌, String, Bool, true, false, Option, none, some, List, [], ◌∷◌, ◌++◌, ◌≡◌, length,
  is_empty, ltb, leb, put, if◌then◌else◌,
}

-- `windows map[string][]time.Time`: a missing key is `none`. No caller gives a negative limit.
pub record RateLimiter : Type 0 where
  pub windows : String → Option (List ℕ)
  pub limit : ℕ
  pub window : ℕ

unfoldable pub new_rate_limiter : ℕ → ℕ → RateLimiter
new_rate_limiter limit window = record { windows = λ _. none; limit = limit; window = window }

-- `rl.windows[key]`, nil where the key is missing.
abbrev pub times : Option (List ℕ) → List ℕ
times none = []
times (some ts) = ts

-- `t.After(cutoff)` with `cutoff = now - window`.
abbrev pub after_cutoff : ℕ → ℕ → ℕ → Bool
after_cutoff now window t = ltb now (t + window)

-- The loop that collects `fresh`.
unfoldable pub fresh_times : ℕ → ℕ → List ℕ → List ℕ
fresh_times now window [] = []
fresh_times now window (t ∷ ts) =
    let rest = fresh_times now window ts in if after_cutoff now window t then t ∷ rest else rest

unfoldable pub allow : ℕ → String → RateLimiter → RateLimiter × Bool
allow now key rl =
    let fresh = fresh_times now rl.window (times (rl.windows key)) in
    let kept : String → Option (List ℕ) =
      put rl.windows key (if is_empty fresh then none else some fresh) in
    if leb rl.limit (length fresh)
    then (record rl { windows = kept }, false)
    else (record rl { windows = put kept key (some (fresh ++ now ∷ [])) }, true)

-- Calls of `allow` by the requests that arrive, with what each was told.
unfoldable pub allow_all : List (ℕ × String) → RateLimiter → RateLimiter × List Bool
allow_all [] rl = (rl, [])
allow_all ((now, key) ∷ calls) rl =
    let (rl', allowed) = allow now key rl in
    let (rl'', rest) = allow_all calls rl' in (rl'', allowed ∷ rest)
