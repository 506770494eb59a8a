-- ===== src/RateLimit/PerApp.antt =====
-- The fixed windows of an app's clients: internal/server/ratelimit.go.
pub mod Sweep
pub mod Windows
pub mod Growth
pub mod Middleware
use zeep_orbit.Prelude.Int.{ℤ, pos, negsuc}
use zeep_orbit.Prelude.{
  ℕ, zero, suc, ◌+◌, ◌≤◌, String, Bool, true, false, Option, none, some, List, [], ◌∷◌, ltb, leb,
  put, if◌then◌else◌, ◌||◌,
}

-- `count` is an int, which the requests of one minute do not overflow.
pub record RlEntry : Type 0 where
  pub count : ℕ
  pub window_start : ℕ

-- `lastSwept` is `none` while it is the zero time.
pub record PerAppLimiter : Type 0 where
  pub entries : String → Option RlEntry
  pub max : ℕ
  pub window : ℕ
  pub last_swept : Option ℕ

-- `now.Sub(e.windowStart) > l.window`
abbrev pub is_stale : ℕ → ℕ → RlEntry → Bool
is_stale now window e = ltb (e.window_start + window) now

unfoldable pub keep_fresh : ℕ → ℕ → Option RlEntry → Option RlEntry
keep_fresh now window none = none
keep_fresh now window (some e) = if is_stale now window e then none else some e

-- `l.lastSwept.IsZero() || now.Sub(l.lastSwept) > l.window`
unfoldable pub is_due : ℕ → ℕ → Option ℕ → Bool
is_due now window none = true
is_due now window (some swept) = ltb (swept + window) now

-- The sweep of stale entries.
unfoldable pub sweep : ℕ → PerAppLimiter → PerAppLimiter
unfolding keep_fresh is_due
sweep now l =
    if is_due now l.window l.last_swept
    then record l { entries = λ ip. keep_fresh now l.window (l.entries ip); last_swept = some now }
    else l

-- The entry that a request of its client leaves.
unfoldable pub next_entry : ℕ → ℕ → Option RlEntry → RlEntry
next_entry now window none = record { count = 1; window_start = now }
next_entry now window (some e) =
    if is_stale now window e
    then record { count = 1; window_start = now }
    else record e { count = e.count + 1 }

-- A first request of a window is let through whatever `max` is.
unfoldable pub is_allowed : ℕ → ℕ → ℕ → Option RlEntry → Bool
is_allowed now window max none = true
is_allowed now window max (some e) = is_stale now window e || leb (e.count + 1) max

-- The lookup and the count, after the sweep.
unfoldable pub count_request : ℕ → String → PerAppLimiter → PerAppLimiter × Bool
unfolding next_entry is_allowed
count_request now ip l = (
  record l { entries = put l.entries ip (some (next_entry now l.window (l.entries ip))) },
  is_allowed now l.window l.max (l.entries ip),
)

unfoldable pub allow : ℕ → String → PerAppLimiter → PerAppLimiter × Bool
unfolding sweep count_request
allow now ip l = count_request now ip (sweep now l)

-- `rpm <= 0` is replaced by 60. A minute.
unfoldable pub max_requests : ℤ → ℕ
max_requests (pos zero) = 60
max_requests (pos (suc n)) = suc n
max_requests (negsuc n) = 60

unfoldable pub new_limiter : ℤ → PerAppLimiter
unfolding max_requests
new_limiter rpm = record {
  entries = λ _. none;
  max = max_requests rpm;
  window = 60000000000;
  last_swept = none;
}

-- Calls of `allow` by the requests that arrive, with what each was told.
unfoldable pub allow_all : List (ℕ × String) → PerAppLimiter → PerAppLimiter × List Bool
allow_all [] l = (l, [])
allow_all ((now, ip) ∷ calls) l =
    let (l', allowed) = allow now ip l in
    let (l'', rest) = allow_all calls l' in (l'', allowed ∷ rest)
