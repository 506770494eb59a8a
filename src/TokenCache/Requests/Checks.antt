-- ===== src/TokenCache/Requests/Checks.antt =====
-- The steps of a check keep the cache safe: internal/server/middleware.go on
-- internal/tokencache/tokencache.go.
use zeep_orbit.Prelude.{
  ℕ, ◌≤◌, String, Bool, true, false, some, List, ◌∷◌, ◌++◌, In, put, ◌≡◌, ◌≢◌, ◌⊎◌, inl, inr, refl,
  sym, ap, subst, arith, String-cases, Bool-cases, eqb, eqb_iff, in-append_cases, in-append_left,
  in-append_right, ◌∙◌,
}
use zeep_orbit.TokenCache.{set, set_if_generation}
use zeep_orbit.TokenCache.Requests.{Check, reading, read, System, IsSafe}

module _ {A : Type 0} (c x : A) (before after : List A) where
  in-middle_cases : In c (before ++ (x ∷ after)) → (c ≡ x) ⊎ In c (before ++ after)
  in-middle_cases h = elim (in-append_cases c before (x ∷ after) h) [
    | inl m ↦ inr (in-append_left c before after m)
    | inr m ↦ elim m [ inl e ↦ inl e | inr k ↦ inr (in-append_right c before after k) ]
  ]

  in-middle_skip : In c (before ++ after) → In c (before ++ (x ∷ after))
  in-middle_skip h = elim (in-append_cases c before after h) [
    | inl m ↦ in-append_left c before (x ∷ after) m
    | inr m ↦ in-append_right c before (x ∷ after) (inr m)
  ]

in-middle : {A : Type 0} (x : A) (before after : List A) → In x (before ++ (x ∷ after))
in-middle x before after = in-append_right x before (x ∷ after) (inl refl)

reading≢read : {j k : String} {g i : ℕ} {b : Bool} → reading j g ≢ read k i b
reading≢read h = cc

pub begins-IsSafe :
    (s : System) (jti : String)
    → IsSafe s
    → IsSafe (record s { checks = reading jti s.cache.gen ∷ s.checks })
begins-IsSafe s jti h = record {
  entries_safe = h.entries_safe;
  reading_safe = λ j g m. elim m [
    | inl e ↦ (let same : g ≡ s.cache.gen = cc in omega (arith, same))
    | inr k ↦ h.reading_safe j g k
  ];
  read_safe =
      λ j g a m. elim m [ inl e ↦ absurd (reading≢read (sym e)) | inr k ↦ h.read_safe j g a k ];
}

pub reads-IsSafe :
    (s : System) (before after : List Check) (jti : String) (g : ℕ) (active : Bool)
    → s.checks ≡ before ++ (reading jti g ∷ after)
    → (s.revoked jti ≡ true → active ≡ false)
    → IsSafe s
    → IsSafe (record s { checks = before ++ (read jti g active ∷ after) })
reads-IsSafe s before after jti g active e fresh h =
    let old = λ (c : Check) (m : In c (before ++ after)).
      subst (In c) (sym e) (in-middle_skip c (reading jti g) before after m) in
    let low =
      h.reading_safe jti g
        (subst (In (reading jti g)) (sym e) (in-middle (reading jti g) before after)) in
    record {
      entries_safe = h.entries_safe;
      reading_safe = λ j i m.
          elim (in-middle_cases (reading j i) (read jti g active) before after m) [
            | inl p ↦ absurd (reading≢read p)
            | inr k ↦ h.reading_safe j i (old (reading j i) k)
          ];
      read_safe = λ j i a m.
          elim (in-middle_cases (read j i a) (read jti g active) before after m) [
            | inl p ↦
                (let same_jti : jti ≡ j = cc in
                  let same_g : g ≡ i = cc in
                  let same_active : active ≡ a = cc in
                  record {
                    read_le = subst (λ z. z ≤ s.cache.gen) same_g low;
                    stale = λ r q t. absurd (
                        let no = fresh (subst (λ z. s.revoked z ≡ true) (sym same_jti) r) in
                        let yes : active ≡ true = same_active ∙ t in cc);
                  })
            | inr k ↦ h.read_safe j i a (old (read j i a) k)
          ];
    }

not_true-false : (b : Bool) → b ≢ true → b ≡ false
not_true-false true h = absurd (h refl)
not_true-false false h = refl

pub put-cases :
    {V : Type 0} (m : String → V) (k : String) (v : V) (x : String) {w : V}
    → put m k v x ≡ w
    → ((k ≡ x) × (v ≡ w)) ⊎ ((k ≢ x) × (m x ≡ w))
put-cases m k v x h = elim (String-cases k x) [
  | inl (e, p) ↦ inl (p, (rw e at h))
  | inr (e, p) ↦ inr (p, (rw e at h))
]

stored-IsSafe :
    (s : System) (before after : List Check) (jti : String) (g : ℕ) (active : Bool) (now : ℕ)
    → s.checks ≡ before ++ (read jti g active ∷ after)
    → s.cache.gen ≡ g
    → IsSafe s
    → IsSafe (record s { cache = set now jti active s.cache; checks = before ++ after })
unfolding set
stored-IsSafe s before after jti g active now e current h =
    let old = λ (c : Check) (m : In c (before ++ after)).
      subst (In c) (sym e) (in-middle_skip c (read jti g active) before after m) in
    let mine =
      h.read_safe jti g active
        (subst (In (read jti g active)) (sym e) (in-middle (read jti g active) before after)) in
    record {
      entries_safe = λ j x r q f.
          elim (put-cases s.cache.entries jti (some (record { active = active; at = now })) j f) [
            | inl (p, same) ↦
                let kept : record { active = active; at = now } ≡ x = cc in
                ap (λ z. z.active) (sym kept)
                ∙ not_true-false active (λ t.
                  let late =
                    mine.stale (subst (λ z. s.revoked z ≡ true) (sym p) r)
                      (subst (λ z. s.revoking z ≡ false) (sym p) q) t in
                  omega (arith, late, current))
            | inr (p, same) ↦ h.entries_safe j x r q same
          ];
      reading_safe = λ j i m. h.reading_safe j i (old (reading j i) m);
      read_safe = λ j i a m. h.read_safe j i a (old (read j i a) m);
    }

dropped-IsSafe :
    (s : System) (before after : List Check) (jti : String) (g : ℕ) (active : Bool)
    → s.checks ≡ before ++ (read jti g active ∷ after)
    → IsSafe s
    → IsSafe (record s { cache = s.cache; checks = before ++ after })
dropped-IsSafe s before after jti g active e h =
    let old = λ (c : Check) (m : In c (before ++ after)).
      subst (In c) (sym e) (in-middle_skip c (read jti g active) before after m) in
    record {
      entries_safe = h.entries_safe;
      reading_safe = λ j i m. h.reading_safe j i (old (reading j i) m);
      read_safe = λ j i a m. h.read_safe j i a (old (read j i a) m);
    }

pub fills-IsSafe :
    (s : System) (before after : List Check) (jti : String) (g : ℕ) (active : Bool) (now : ℕ)
    → s.checks ≡ before ++ (read jti g active ∷ after)
    → IsSafe s
    → IsSafe
        (record s { cache = set_if_generation now jti active g s.cache; checks = before ++ after })
unfolding set_if_generation
fills-IsSafe s before after jti g active now e h = elim (Bool-cases (eqb s.cache.gen g)) [
  | inl current ↦
      rw (current, set_if_generation)
        (stored-IsSafe s before after jti g active now e ((eqb_iff s.cache.gen g).0 current) h)
  | inr moved ↦ rw (moved, set_if_generation) (dropped-IsSafe s before after jti g active e h)
]
