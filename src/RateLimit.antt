-- ===== src/RateLimit.antt =====
-- The two limiters of requests: internal/auth/ratelimit.go (sign-in) and
-- internal/server/ratelimit.go (the requests to an app). A time is a count of nanoseconds, and each
-- call runs under the limiter's mutex, so a call is one step on its state.
pub mod Admissions
pub mod SignIn
pub mod PerApp
