-- ===== src/Examples/Limits.antt =====
-- Requests to the two limiters.
use zeep_orbit.Prelude.Int.{pos}
use zeep_orbit.Prelude.{
  ℕ, String, true, false, List, none, some, [], ◌∷◌, ◌*◌, ◌+◌, ◌≤◌, ◌≡◌, refl, arith, eq_iff,
}
use zeep_orbit.Config.{RateLimitConfig}
use zeep_orbit.Registry.{App}
use zeep_orbit.RateLimit.Admissions.{count_within, admitted_times}
use zeep_orbit.RateLimit.SignIn
use zeep_orbit.RateLimit.SignIn.{new_rate_limiter}
use zeep_orbit.RateLimit.SignIn.Log.{admit_all, allow_all-eq-admit_all}
use zeep_orbit.RateLimit.SignIn.Window.{allow_all-le-limit}
use zeep_orbit.RateLimit.PerApp
use zeep_orbit.RateLimit.PerApp.{RlEntry, new_limiter, max_requests}
use zeep_orbit.RateLimit.PerApp.Sweep.{count_all, allow_all-eq-count_all}
use zeep_orbit.RateLimit.PerApp.Windows.{allow_all-le-twice_max}
use zeep_orbit.RateLimit.PerApp.Growth.{entries_recent_lem}
use zeep_orbit.RateLimit.PerApp.Middleware.{
  Request, new_app_rate_limiter, limit_of, serve_all, HasMax, serve_all-first_max,
}

-- Three requests within the window, and one after it.
abbrev sign_ins : List (ℕ × String)
sign_ins = (1, "a") ∷ (2, "a") ∷ (3, "a") ∷ (14, "a") ∷ []

allow_all-eq-admit_all_example :
    (SignIn.allow_all sign_ins (new_rate_limiter 2 10)).1 ≡ (admit_all 2 10 sign_ins (λ _. [])).1
allow_all-eq-admit_all_example = allow_all-eq-admit_all 2 10 sign_ins (omega arith)

allow_all-le-limit_example :
    count_within 0 10
      (admitted_times "a" sign_ins (SignIn.allow_all sign_ins (new_rate_limiter 2 10)).1)
    ≤ 2
allow_all-le-limit_example = allow_all-le-limit 2 10 sign_ins "a" 0 (omega arith)

third_refused :
    (SignIn.allow_all sign_ins (new_rate_limiter 2 10)).1 ≡ true ∷ true ∷ false ∷ true ∷ []
unfolding SignIn.allow_all SignIn.allow SignIn.fresh_times new_rate_limiter
third_refused = refl

-- The last request comes after the minute, and sweeps the other client out.
abbrev calls : List (ℕ × String)
calls = (5, "a") ∷ (6, "b") ∷ (70000000000, "a") ∷ []

allow_all-eq-count_all_example :
    (PerApp.allow_all calls (new_limiter (pos 1))).1 ≡ (count_all calls (new_limiter (pos 1))).1
allow_all-eq-count_all_example = allow_all-eq-count_all calls 0 (new_limiter (pos 1)) (omega arith)

allow_all-le-twice_max_example :
    count_within 0 60000000000
      (admitted_times "a" calls (PerApp.allow_all calls (new_limiter (pos 1))).1)
    ≤ 2 * max_requests (pos 1)
allow_all-le-twice_max_example = allow_all-le-twice_max (pos 1) calls "a" 0 (omega arith)

abbrev latest : RlEntry
latest = record { count = 1; window_start = 70000000000 }

latest_found : (PerApp.allow_all calls (new_limiter (pos 1))).0.entries "a" ≡ some latest
unfolding PerApp.allow_all PerApp.allow new_limiter
latest_found = refl

entries_recent_lem_example : 70000000000 ≤ latest.window_start + 2 * 60000000000
entries_recent_lem_example =
    entries_recent_lem (pos 1) ((5, "a") ∷ (6, "b") ∷ []) 70000000000 "a" "a" latest (omega arith)
      latest_found

abbrev limit : ℕ → RateLimitConfig
limit rpm = record { enabled = true; requests_per_minute = pos rpm }

abbrev shop : ℕ → App
shop rpm = record {
  config = record {
    name = "shop";
    auth = record { jwt_secret = "s"; email = true };
    tables = [];
    storage = none;
    rate_limit = some (limit rpm);
  };
  schema_name = "shop";
  tables = λ _. none;
  auth_providers = [];
  storage_config = none;
  rate_limit = some (limit rpm);
}

abbrev request : ℕ → ℕ → Request
request now rpm = record {
  now = now;
  app_name = "shop";
  app = some (shop rpm);
  remote_addr = "::1";
}

shop_limited : limit_of (some (shop 100)) ≡ some (limit 100)
unfolding limit_of
shop_limited = refl

-- The limit was lowered to 10 before the second request.
serve_all-first_max_example :
    HasMax "shop"
      (max_requests (pos 100))
      (serve_all some (request 1 100 ∷ request 2 10 ∷ []) new_app_rate_limiter)
serve_all-first_max_example =
    serve_all-first_max some (request 1 100) (request 2 10 ∷ []) (limit 100) new_app_rate_limiter
      (λ e. cc ((eq_iff "shop" "").1 e)) shop_limited refl
