-- ===== src/TokenCache/Requests.antt =====
-- The cache among its callers: the token check of internal/server/middleware.go and the revocation
-- of internal/dashboard/app_tokens_store.go, interleaved in any way.
mod Checks
pub mod Safe
use zeep_orbit.Prelude.{
  ℕ, ◌+◌, ◌^◌, ◌<◌, ◌≤◌, ◌%◌, String, Bool, true, false, Option, none, some, List, [], ◌∷◌, ◌++◌,
  In, put, ◌≡◌, ◌≢◌, ◌⊎◌, inl, inr, refl, sym, subst, arith, String-cases, Bool-cases, eqb, eqb_iff,
  ◌==◌, if◌then◌else◌, in-append_cases,
}
use zeep_orbit.TokenCache.{
  Entry, Cache, empty, set, set_if_generation, generation, invalidate, clear, next_gen,
}

-- A check that missed the cache: it has read the generation, and then the token's row.
pub data Check : Type 0 where
  reading : String → ℕ → Check
  read : String → ℕ → Bool → Check

pub record System : Type 0 where
  pub cache : Cache
  -- the row's `revoked_at` is set
  pub revoked : String → Bool
  -- revoked in the database, and the revoker has not come to the cache yet
  pub revoking : String → Bool
  pub checks : List Check

pub data Step : System → System → Type 0 where
  -- `gen := tokencache.Generation()`
  begins :
      (s : System) (jti : String)
      → Step s (record s { checks = reading jti (generation s.cache) ∷ s.checks })
  -- GetAppTokenByJTI, and `active`, which is false for a revoked or expired token
  reads :
      (s : System) (before after : List Check) (jti : String) (g : ℕ) (active : Bool)
      → s.checks ≡ before ++ (reading jti g ∷ after)
      → (s.revoked jti ≡ true → active ≡ false)
      → Step s (record s { checks = before ++ (read jti g active ∷ after) })
  -- `tokencache.SetIfGeneration(jti, active, gen)`
  fills :
      (s : System) (before after : List Check) (jti : String) (g : ℕ) (active : Bool) (now : ℕ)
      → s.checks ≡ before ++ (read jti g active ∷ after)
      → Step s (record s {
        cache = set_if_generation now jti active g s.cache;
        checks = before ++ after;
      })
  -- the UPDATE of RevokeAppToken
  revokes :
      (s : System) (jti : String)
      → Step s (record s { revoked = put s.revoked jti true; revoking = put s.revoking jti true })
  -- `tokencache.Invalidate(jti)`, before the counter wraps around
  invalidates :
      (s : System) (jti : String)
      → s.cache.gen + 1 < 2 ^ 64
      → Step s (record s { cache = invalidate jti s.cache; revoking = put s.revoking jti false })
  -- `tokencache.Clear()`, likewise: it tells the cache of every revocation so far
  clears :
      (s : System)
      → s.cache.gen + 1 < 2 ^ 64
      → Step s (record s { cache = clear s.cache; revoking = λ _. false })

pub data Reachable : System → Type 0 where
  starts :
      Reachable (record { cache = empty; revoked = λ _. false; revoking = λ _. false; checks = [] })
  steps : (s t : System) → Reachable s → Step s t → Reachable t

-- What a check in flight may still write.
pub record IsHarmless (gen : ℕ) (revoked revoking : String → Bool) (jti : String) (g : ℕ)
    (active : Bool) : Type 0 where
  pub read_le : g ≤ gen
  pub stale : revoked jti ≡ true → revoking jti ≡ false → active ≡ true → g < gen

pub record IsSafe (s : System) : Type 0 where
  -- a revoked token that its revoker has told the cache of is not active in the cache
  pub entries_safe :
      (jti : String) (e : Entry)
      → s.revoked jti ≡ true
      → s.revoking jti ≡ false
      → s.cache.entries jti ≡ some e
      → e.active ≡ false
  pub reading_safe : (jti : String) (g : ℕ) → In (reading jti g) s.checks → g ≤ s.cache.gen
  pub read_safe :
      (jti : String) (g : ℕ) (active : Bool)
      → In (read jti g active) s.checks
      → IsHarmless s.cache.gen s.revoked s.revoking jti g active
