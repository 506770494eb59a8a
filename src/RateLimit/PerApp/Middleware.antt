-- ===== src/RateLimit/PerApp/Middleware.antt =====
-- RateLimitMiddleware and AppRateLimiter of internal/server/ratelimit.go. `net.SplitHostPort` is a
-- parameter: the host, or nothing where it gives an error.
use zeep_orbit.Prelude.Int.{ℤ}
use zeep_orbit.Prelude.{
  ℕ, String, Option, none, some, List, [], ◌∷◌, ◌≡◌, ◌≢◌, ◌==◌, inl, inr, refl, ap, ◌∙◌, put,
  String-cases, Option-cases, eq_false, eq_refl, Bool-cases, if◌then◌else◌,
}
use zeep_orbit.Config.{RateLimitConfig}
use zeep_orbit.Registry.{App}
use zeep_orbit.RateLimit.PerApp.{
  PerAppLimiter, new_limiter, max_requests, allow, sweep, count_request, is_due,
}

pub record AppRateLimiter : Type 0 where
  pub limiters : String → Option PerAppLimiter

abbrev pub new_app_rate_limiter : AppRateLimiter
new_app_rate_limiter = record { limiters = λ _. none }

-- The limiter of the app. `rpm` counts for a new one only.
unfoldable pub get_or_create : String → ℤ → AppRateLimiter → AppRateLimiter × PerAppLimiter
get_or_create app_name rpm arl = elim (arl.limiters app_name) [
  | some l ↦ (arl, l)
  | none ↦ (
    record arl { limiters = put arl.limiters app_name (some (new_limiter rpm)) },
    new_limiter rpm,
  )
]

abbrev pub remote_ip : (String → Option String) → String → String
remote_ip split_host_port remote_addr = elim (split_host_port remote_addr) [
  | none ↦ remote_addr
  | some host ↦ host
]

-- `!ok || app.RateLimit == nil || !app.RateLimit.Enabled` is `none`.
unfoldable pub limit_of : Option App → Option RateLimitConfig
limit_of none = none
limit_of (some app) = elim app.rate_limit [
  | none ↦ none
  | some cfg ↦ if cfg.enabled then some cfg else none
]

-- The next handler, or 429 with the header `Retry-After: 60`.
pub data Verdict : Type 0 where
  served : Verdict
  too_many_requests : Verdict

-- A request: its app is the URL parameter, and `app` what the registry has under that name.
pub record Request : Type 0 where
  pub now : ℕ
  pub app_name : String
  pub app : Option App
  pub remote_addr : String

-- The app's limiter has this maximum.
abbrev pub HasMax : String → ℕ → AppRateLimiter → Type 0
HasMax name max arl = (l : PerAppLimiter) × (arl.limiters name ≡ some l) × (l.max ≡ max)

module _ (split_host_port : String → Option String) where
  -- `limiter.allow(remoteIP(r))`, which changes the limiter that the map points to.
  unfoldable pub count_in : Request → AppRateLimiter × PerAppLimiter → AppRateLimiter × Verdict
  unfolding allow
  count_in r (arl, l) =
      let (l', allowed) = allow r.now (remote_ip split_host_port r.remote_addr) l in
      (
        record arl { limiters = put arl.limiters r.app_name (some l') },
        if allowed then served else too_many_requests,
      )

  unfoldable pub limit_request :
      Option RateLimitConfig → Request → AppRateLimiter → AppRateLimiter × Verdict
  unfolding get_or_create count_in
  limit_request none r arl = (arl, served)
  limit_request (some cfg) r arl = count_in r (get_or_create r.app_name cfg.requests_per_minute arl)

  unfoldable pub rate_limit_middleware : Request → AppRateLimiter → AppRateLimiter × Verdict
  unfolding limit_of limit_request
  rate_limit_middleware r arl =
      if r.app_name == "" then (arl, served) else limit_request (limit_of r.app) r arl

  unfoldable pub serve_all : List Request → AppRateLimiter → AppRateLimiter
  unfolding rate_limit_middleware
  serve_all [] arl = arl
  serve_all (r ∷ rs) arl = serve_all rs (rate_limit_middleware r arl).0

  allow-max : (now : ℕ) (ip : String) (l : PerAppLimiter) → (allow now ip l).0.max ≡ l.max
  unfolding allow sweep count_request
  allow-max now ip l = elim (Bool-cases (is_due now l.window l.last_swept)) [
    | inl e ↦ rw e refl
    | inr e ↦ rw e refl
  ]

  get_or_create-known :
      (name : String) (rpm : ℤ) (arl : AppRateLimiter) (l : PerAppLimiter)
      → arl.limiters name ≡ some l
      → get_or_create name rpm arl ≡ (arl, l)
  unfolding get_or_create
  get_or_create-known name rpm arl l e = rw (e, get_or_create) refl

  get_or_create-new :
      (name : String) (rpm : ℤ) (arl : AppRateLimiter)
      → arl.limiters name ≡ none
      → get_or_create name rpm arl ≡ (
        record arl { limiters = put arl.limiters name (some (new_limiter rpm)) },
        new_limiter rpm,
      )
  unfolding get_or_create
  get_or_create-new name rpm arl e = rw (e, get_or_create) refl

  new_limiter-max : (rpm : ℤ) → (new_limiter rpm).max ≡ max_requests rpm
  unfolding new_limiter
  new_limiter-max rpm = refl

  get_or_create-HasMax :
      (name' : String) (rpm : ℤ) (arl : AppRateLimiter) (name : String) (max : ℕ)
      → HasMax name max arl
      → HasMax name max (get_or_create name' rpm arl).0
  unfolding get_or_create
  get_or_create-HasMax name' rpm arl name max (l, known, same) =
      elim (Option-cases (arl.limiters name')) [
        | inl e ↦
            rw (e, get_or_create)
              (elim (String-cases name' name) [
                | inl (f, p) ↦ absurd (cc)
                | inr (f, p) ↦ rw f (l, known, same)
              ])
        | inr (k, e) ↦ rw (e, get_or_create) (l, known, same)
      ]

  get_or_create-same :
      (name' : String) (rpm : ℤ) (arl : AppRateLimiter) (name : String) (max : ℕ)
      → HasMax name max arl
      → name' ≡ name
      → (get_or_create name' rpm arl).1.max ≡ max
  get_or_create-same name' rpm arl name max (l, known, same) e =
      rw (get_or_create-known name' rpm arl l (ap arl.limiters e ∙ known)) same

  counted-HasMax :
      (r : Request) (found : AppRateLimiter × PerAppLimiter) (name : String) (max : ℕ)
      → HasMax name max found.0
      → (r.app_name ≡ name → found.1.max ≡ max)
      → HasMax name max (count_in r found).0
  unfolding count_in
  counted-HasMax r (arl, l) name max (k, known, same) h = elim (String-cases r.app_name name) [
    | inl (e, p) ↦
        let next = (allow r.now (remote_ip split_host_port r.remote_addr) l).0 in
        rw e (next, refl, allow-max r.now (remote_ip split_host_port r.remote_addr) l ∙ h p)
    | inr (e, p) ↦ rw e (k, known, same)
  ]

  limit_request-HasMax :
      (cfg : Option RateLimitConfig) (r : Request) (arl : AppRateLimiter) (name : String) (max : ℕ)
      → HasMax name max arl
      → HasMax name max (limit_request cfg r arl).0
  unfolding limit_request
  limit_request-HasMax none r arl name max h = h
  limit_request-HasMax (some cfg) r arl name max h =
      counted-HasMax r (get_or_create r.app_name cfg.requests_per_minute arl) name max
        (get_or_create-HasMax r.app_name cfg.requests_per_minute arl name max h)
        (λ e. get_or_create-same r.app_name cfg.requests_per_minute arl name max h e)

  middleware-HasMax :
      (r : Request) (arl : AppRateLimiter) (name : String) (max : ℕ)
      → HasMax name max arl
      → HasMax name max (rate_limit_middleware r arl).0
  unfolding rate_limit_middleware
  middleware-HasMax r arl name max h = elim (Bool-cases (r.app_name == "")) [
    | inl e ↦ rw e h
    | inr e ↦ rw e (limit_request-HasMax (limit_of r.app) r arl name max h)
  ]

  serve_all-HasMax :
      (rs : List Request) (arl : AppRateLimiter) (name : String) (max : ℕ)
      → HasMax name max arl
      → HasMax name max (serve_all rs arl)
  unfolding serve_all
  serve_all-HasMax [] arl name max h = h
  serve_all-HasMax (r ∷ rs) arl name max h =
      serve_all-HasMax rs (rate_limit_middleware r arl).0 name max
        (middleware-HasMax r arl name max h)

  created-HasMax :
      (r : Request) (cfg : RateLimitConfig) (arl : AppRateLimiter)
      → arl.limiters r.app_name ≡ none
      → HasMax r.app_name (max_requests cfg.requests_per_minute) (limit_request (some cfg) r arl).0
  unfolding limit_request
  created-HasMax r cfg arl fresh =
      rw (get_or_create-new r.app_name cfg.requests_per_minute arl fresh) (
        counted-HasMax r
          (
            record arl {
              limiters = put arl.limiters r.app_name (some (new_limiter cfg.requests_per_minute));
            },
            new_limiter cfg.requests_per_minute,
          )
          r.app_name (max_requests cfg.requests_per_minute)
          (
            new_limiter cfg.requests_per_minute,
            rw (eq_refl r.app_name) refl,
            new_limiter-max cfg.requests_per_minute,
          )
          (λ e. new_limiter-max cfg.requests_per_minute))

  -- Once an app's first limited request has made its limiter, the limiter's maximum stays that of
  -- the configuration which this request found, whatever the configurations that later requests
  -- find.
  pub serve_all-first_max :
      (r : Request) (rs : List Request) (cfg : RateLimitConfig) (arl : AppRateLimiter)
      → r.app_name ≢ ""
      → limit_of r.app ≡ some cfg
      → arl.limiters r.app_name ≡ none
      → HasMax r.app_name (max_requests cfg.requests_per_minute) (serve_all (r ∷ rs) arl)
  unfolding serve_all rate_limit_middleware
  serve_all-first_max r rs cfg arl named limited fresh =
      serve_all-HasMax rs (rate_limit_middleware r arl).0 r.app_name
        (max_requests cfg.requests_per_minute)
        (rw (eq_false r.app_name "" named, limited) (created-HasMax r cfg arl fresh))
