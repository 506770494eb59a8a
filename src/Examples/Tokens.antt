-- ===== src/Examples/Tokens.antt =====
-- A token that is revoked while a check of it is under way.
use zeep_orbit.Prelude.{true, false, [], ◌∷◌, put, ◌≡◌, refl, arith}
use zeep_orbit.TokenCache.{empty, is_active, set_if_generation, invalidate}
use zeep_orbit.TokenCache.Requests.{
  reading, read, System, begins, reads, fills, revokes, invalidates, Reachable, starts, steps,
}
use zeep_orbit.TokenCache.Requests.Safe.{is_active-of_revoked}

abbrev idle : System
idle = record { cache = empty; revoked = λ _. false; revoking = λ _. false; checks = [] }

abbrev checking : System
checking = record idle { checks = reading "t" 0 ∷ [] }

-- The row is read before the revocation.
abbrev was_active : System
was_active = record idle { checks = read "t" 0 true ∷ [] }

abbrev in_database : System
in_database = record was_active {
  revoked = put idle.revoked "t" true;
  revoking = put idle.revoking "t" true;
}

abbrev told : System
told = record in_database {
  cache = invalidate "t" empty;
  revoking = put in_database.revoking "t" false;
}

-- The check writes last, and its write is dropped.
abbrev written : System
written = record told { cache = set_if_generation 7 "t" true 0 told.cache; checks = [] }

written-Reachable : Reachable written
written-Reachable =
    steps told written
      (steps in_database told
        (steps was_active in_database
          (steps checking was_active (steps idle checking starts (begins idle "t"))
            (reads checking [] [] "t" 0 true refl (λ h. cc)))
          (revokes was_active "t"))
        (invalidates in_database "t" (omega arith)))
      (fills told [] [] "t" 0 true 7 refl)

is_active-of_revoked_example : (is_active 8 "t" written.cache).0 ≡ false
is_active-of_revoked_example = is_active-of_revoked written 8 "t" written-Reachable refl refl
