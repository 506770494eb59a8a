-- ===== src/TokenCache.antt =====
-- The cache of token activity: internal/tokencache/tokencache.go. Each operation runs under the
-- mutex, so it is one step on the state. A time is a count of nanoseconds.
pub mod Requests
use zeep_orbit.Prelude.{
  ℕ, ◌+◌, ◌-◌, ◌*◌, ◌%◌, ◌^◌, String, Bool, true, false, Option, none, some, ◌==◌, eqb, ltb, put,
  if◌then◌else◌,
}

-- 30 seconds.
abbrev pub ttl : ℕ
ttl = 30000000000

pub record Entry : Type 0 where
  pub active : Bool
  pub at : ℕ

-- `cache` and `gen`, a uint64.
pub record Cache : Type 0 where
  pub entries : String → Option Entry
  pub gen : ℕ

abbrev pub empty : Cache
empty = record { entries = λ _. none; gen = 0 }

-- The pair `active, fresh`.
unfoldable pub is_active : ℕ → String → Cache → Bool × Bool
is_active now jti c = elim (c.entries jti) [
  | none ↦ (false, false)
  | some e ↦ if ltb ttl (now - e.at) then (false, false) else (e.active, true)
]

unfoldable pub set : ℕ → String → Bool → Cache → Cache
set now jti active c = record c {
  entries = put c.entries jti (some (record { active = active; at = now }));
}

abbrev pub generation : Cache → ℕ
generation c = c.gen

unfoldable pub set_if_generation : ℕ → String → Bool → ℕ → Cache → Cache
unfolding set
set_if_generation now jti active g c = if eqb c.gen g then set now jti active c else c

-- `gen++`
abbrev pub next_gen : ℕ → ℕ
next_gen gen = (gen + 1) % 2 ^ 64

unfoldable pub invalidate : String → Cache → Cache
invalidate jti c = record { entries = put c.entries jti none; gen = next_gen c.gen }

unfoldable pub clear : Cache → Cache
clear c = record { entries = λ _. none; gen = next_gen c.gen }
