-- ===== src/RateLimit/PerApp/Growth.antt =====
-- The sweep keeps old clients out of the map.
use zeep_orbit.Prelude.Int.{ℤ}
use zeep_orbit.Prelude.{
  ◌++◌, ℕ, ◌+◌, ◌*◌, ◌≤◌, String, false, Option, none, some, List, [], ◌∷◌, ◌≡◌, ◌⊎◌, inl, inr,
  refl, sym, ◌∙◌, arith, String-cases, Bool-cases,
}
use zeep_orbit.RateLimit.Admissions.{InOrder}
use zeep_orbit.RateLimit.PerApp.{
  RlEntry, PerAppLimiter, is_stale, keep_fresh, is_due, sweep, next_entry, count_request, allow,
  allow_all, new_limiter,
}

-- The last sweep is at most a window ago, and no entry was stale then.
pub record IsSwept (now swept : ℕ) (l : PerAppLimiter) : Type 0 where
  pub swept_at : l.last_swept ≡ some swept
  pub swept_le : swept ≤ now
  pub swept_recent : now ≤ swept + l.window
  pub entries_recent :
      (ip : String) (e : RlEntry) → l.entries ip ≡ some e → swept ≤ e.window_start + l.window

kept-recent :
    (now window : ℕ) (found : Option RlEntry) (e : RlEntry)
    → keep_fresh now window found ≡ some e
    → now ≤ e.window_start + window
unfolding keep_fresh
kept-recent now window none e h = absurd (cc)
kept-recent now window (some x) e h = elim (Bool-cases (is_stale now window x)) [
  | inl s ↦ absurd (cc (rw s at h))
  | inr s ↦ let same : x ≡ e = cc (rw s at h) in rw (← same) (ground arith)
]

not_due :
    (now window : ℕ) (at : Option ℕ)
    → is_due now window at ≡ false
    → (swept : ℕ) × (at ≡ some swept) × (now ≤ swept + window)
unfolding is_due
not_due now window none h = absurd (cc)
not_due now window (some swept) h = (swept, refl, ground arith)

next_entry-recent :
    (now swept window : ℕ) (found : Option RlEntry)
    → swept ≤ now
    → ((e : RlEntry) → found ≡ some e → swept ≤ e.window_start + window)
    → swept ≤ (next_entry now window found).window_start + window
unfolding next_entry
next_entry-recent now swept window none le h = omega arith
next_entry-recent now swept window (some e) le h = elim (Bool-cases (is_stale now window e)) [
  | inl s ↦ rw s (omega arith)
  | inr s ↦ rw s (h e refl)
]

-- A fresh limiter has not swept yet.
abbrev Swept : ℕ → PerAppLimiter → Type 0
Swept last l = (l.last_swept ≡ none) ⊎ ((swept : ℕ) × IsSwept last swept l)

sweep-IsSwept :
    (last now : ℕ) (l : PerAppLimiter)
    → last ≤ now
    → Swept last l
    → (swept : ℕ) × IsSwept now swept (sweep now l)
unfolding sweep
sweep-IsSwept last now l le h = elim (Bool-cases (is_due now l.window l.last_swept)) [
  | inl due ↦ rw due (
    now,
    record {
      swept_at = refl;
      swept_le = omega arith;
      swept_recent = omega arith;
      entries_recent = λ ip e found. kept-recent now l.window (l.entries ip) e found;
    },
  )
  | inr early ↦ rw early (elim h [
    | inl fresh ↦ let (s, at, near) = not_due now l.window l.last_swept early in absurd (cc)
    | inr (swept, k) ↦ (
      swept,
      record {
        swept_at = k.swept_at;
        swept_le = let b = k.swept_le in omega arith;
        swept_recent =
            let (s, at, near) = not_due now l.window l.last_swept early in
            let twice : some swept ≡ some s = sym k.swept_at ∙ at in
            let same : swept ≡ s = cc in omega arith;
        entries_recent = k.entries_recent;
      },
    )
  ])
]

count_request-IsSwept :
    (now swept : ℕ) (ip : String) (l : PerAppLimiter)
    → IsSwept now swept l
    → IsSwept now swept (count_request now ip l).0
unfolding count_request
count_request-IsSwept now swept ip l h = record {
  swept_at = h.swept_at;
  swept_le = h.swept_le;
  swept_recent = h.swept_recent;
  entries_recent = λ other e found. elim (String-cases ip other) [
    | inl (q, p) ↦
        let there : some (next_entry now l.window (l.entries ip)) ≡ some e = rw q at found in
        let same : next_entry now l.window (l.entries ip) ≡ e = cc in
        rw (← same)
          (next_entry-recent now swept l.window (l.entries ip) h.swept_le (h.entries_recent ip))
    | inr (q, p) ↦ h.entries_recent other e (rw q at found)
  ];
}

new_limiter-unswept : (rpm : ℤ) → (new_limiter rpm).last_swept ≡ none
unfolding new_limiter
new_limiter-unswept rpm = refl

new_limiter-window : (rpm : ℤ) → (new_limiter rpm).window ≡ 60000000000
unfolding new_limiter
new_limiter-window rpm = refl

allow-window : (now : ℕ) (ip : String) (l : PerAppLimiter) → (allow now ip l).0.window ≡ l.window
unfolding allow sweep count_request
allow-window now ip l = elim (Bool-cases (is_due now l.window l.last_swept)) [
  | inl e ↦ rw e refl
  | inr e ↦ rw e refl
]

allow-IsSwept :
    (last now : ℕ) (ip : String) (l : PerAppLimiter)
    → last ≤ now
    → Swept last l
    → (swept : ℕ) × IsSwept now swept (allow now ip l).0
unfolding allow
allow-IsSwept last now ip l le h =
    let (swept, k) = sweep-IsSwept last now l le h in
    (swept, count_request-IsSwept now swept ip (sweep now l) k)

allow_all-IsSwept :
    (calls : List (ℕ × String)) (last now : ℕ) (key : String) (l : PerAppLimiter)
    → InOrder last (calls ++ (now, key) ∷ [])
    → Swept last l
    → let l' = (allow_all (calls ++ (now, key) ∷ []) l).0 in
      (swept : ℕ) × IsSwept now swept l' × (l'.window ≡ l.window)
unfolding allow_all
allow_all-IsSwept [] last now key l (le, o) h =
    let (swept, k) = allow-IsSwept last now key l le h in (swept, k, allow-window now key l)
allow_all-IsSwept ((t, ip) ∷ calls) last now key l (le, o) h =
    let first = allow-IsSwept last t ip l le h in
    let (swept, k, same) = allow_all-IsSwept calls t now key (allow t ip l).0 o (inr first) in
    (swept, k, same ∙ allow-window t ip l)

-- After any sequence of requests in clock order, of which the last is at `now`, no client stays in
-- the map of a new limiter unless its window started in the two minutes before.
pub entries_recent_lem :
    (rpm : ℤ) (calls : List (ℕ × String)) (now : ℕ) (key ip : String) (e : RlEntry)
    → InOrder 0 (calls ++ (now, key) ∷ [])
    → (allow_all (calls ++ (now, key) ∷ []) (new_limiter rpm)).0.entries ip ≡ some e
    → now ≤ e.window_start + 2 * 60000000000
entries_recent_lem rpm calls now key ip e o found =
    let (swept, k, same) =
      allow_all-IsSwept calls 0 now key (new_limiter rpm) o (inl (new_limiter-unswept rpm)) in
    let minute : (new_limiter rpm).window ≡ 60000000000 = new_limiter-window rpm in
    omega (arith, k.swept_recent, k.entries_recent ip e found, same, minute)
