-- ===== src/TokenCache/Requests/Safe.antt =====
-- No interleaving of checks and revocations leaves a revoked token active in the cache.
use native.Mathlib.Nat.{mod-eq_of_lt}
use zeep_orbit.Prelude.{
  ℕ, ◌-◌, ltb, Option-cases, ◌+◌, ◌^◌, ◌<◌, String, true, false, none, put, ◌≡◌, ◌≢◌, inl, inr,
  refl, arith, String-cases, Bool-cases,
}
use zeep_orbit.TokenCache.{is_active, ttl, invalidate, clear, next_gen}
use zeep_orbit.TokenCache.Requests.{
  System, Step, begins, reads, fills, revokes, invalidates, clears, Reachable, starts, steps,
  IsSafe,
}
use zeep_orbit.TokenCache.Requests.Checks.{put-cases, begins-IsSafe, reads-IsSafe, fills-IsSafe}

next_gen-eq : (g : ℕ) → g + 1 < 2 ^ 64 → next_gen g ≡ g + 1
next_gen-eq g h = mod-eq_of_lt h

other :
    {V : Type 0} (k x : String) (m : String → V) (v : V) {w : V} → k ≢ x → put m k v x ≡ w → m x ≡ w
other k x m v p h = elim (String-cases k x) [ inl (e, q) ↦ absurd (p q) | inr (e, q) ↦ (rw e at h) ]

revokes-IsSafe :
    (s : System) (jti : String)
    → IsSafe s
    → IsSafe (record s { revoked = put s.revoked jti true; revoking = put s.revoking jti true })
revokes-IsSafe s jti h = record {
  entries_safe = λ j x r q f. elim (put-cases s.revoking jti true j q) [
    | inl (p, wrong) ↦ absurd (cc)
    | inr (p, old) ↦ h.entries_safe j x (other jti j s.revoked true p r) old f
  ];
  reading_safe = h.reading_safe;
  read_safe = λ j g a m. record {
    read_le = (h.read_safe j g a m).read_le;
    stale = λ r q t. elim (put-cases s.revoking jti true j q) [
      | inl (p, wrong) ↦ absurd (cc)
      | inr (p, old) ↦ (h.read_safe j g a m).stale (other jti j s.revoked true p r) old t
    ];
  };
}

invalidates-IsSafe :
    (s : System) (jti : String)
    → s.cache.gen + 1 < 2 ^ 64
    → IsSafe s
    → IsSafe (record s { cache = invalidate jti s.cache; revoking = put s.revoking jti false })
unfolding invalidate
invalidates-IsSafe s jti room h =
    let moved : next_gen s.cache.gen ≡ s.cache.gen + 1 = next_gen-eq s.cache.gen room in
    record {
      entries_safe = λ j x r q f. elim (put-cases s.cache.entries jti none j f) [
        | inl (p, wrong) ↦ absurd (cc)
        | inr (p, old) ↦ h.entries_safe j x r (other jti j s.revoking false p q) old
      ];
      reading_safe = λ j g m. let low = h.reading_safe j g m in omega (arith, low, moved);
      read_safe = λ j g a m.
          let low = (h.read_safe j g a m).read_le in
          record {
            read_le = omega (arith, low, moved);
            stale = λ r q t. omega (arith, low, moved);
          };
    }

clears-IsSafe :
    (s : System)
    → s.cache.gen + 1 < 2 ^ 64
    → IsSafe s
    → IsSafe (record s { cache = clear s.cache; revoking = λ _. false })
unfolding clear
clears-IsSafe s room h =
    let moved : next_gen s.cache.gen ≡ s.cache.gen + 1 = next_gen-eq s.cache.gen room in
    record {
      entries_safe = λ j x r q f. absurd (cc);
      reading_safe = λ j g m. let low = h.reading_safe j g m in omega (arith, low, moved);
      read_safe = λ j g a m.
          let low = (h.read_safe j g a m).read_le in
          record {
            read_le = omega (arith, low, moved);
            stale = λ r q t. omega (arith, low, moved);
          };
    }

Step-IsSafe : (s t : System) → Step s t → IsSafe s → IsSafe t
Step-IsSafe _ _ (begins s jti) h = begins-IsSafe s jti h
Step-IsSafe _ _ (reads s before after jti g active e fresh) h =
    reads-IsSafe s before after jti g active e fresh h
Step-IsSafe _ _ (fills s before after jti g active now e) h =
    fills-IsSafe s before after jti g active now e h
Step-IsSafe _ _ (revokes s jti) h = revokes-IsSafe s jti h
Step-IsSafe _ _ (invalidates s jti room) h = invalidates-IsSafe s jti room h
Step-IsSafe _ _ (clears s room) h = clears-IsSafe s room h

Reachable-IsSafe : (s : System) → Reachable s → IsSafe s
Reachable-IsSafe _ starts = record {
  entries_safe = λ j x r q f. absurd (cc);
  reading_safe = λ j g m. elim m [ ];
  read_safe = λ j g a m. elim m [ ];
}
Reachable-IsSafe _ (steps s t r p) = Step-IsSafe s t p (Reachable-IsSafe s r)

-- In every state that checks, revocations and clears reach in any interleaving, before the generation
-- wraps around, the cache does not answer "active" for a token that is revoked in the database and of
-- whose revocation the cache was told.
pub is_active-of_revoked :
    (s : System) (now : ℕ) (jti : String)
    → Reachable s
    → s.revoked jti ≡ true
    → s.revoking jti ≡ false
    → (is_active now jti s.cache).0 ≡ false
unfolding is_active
is_active-of_revoked s now jti r revoked told = elim (Option-cases (s.cache.entries jti)) [
  | inl e ↦ rw (e, is_active) refl
  | inr (x, e) ↦
      let dead = (Reachable-IsSafe s r).entries_safe jti x revoked told e in
      elim (Bool-cases (ltb ttl (now - x.at))) [
        | inl f ↦ rw (e, f, is_active) refl
        | inr f ↦ rw (e, f, is_active) dead
      ]
]
