-- ===== src/RateLimit/SignIn/Log.antt =====
-- The limiter forgets the times that are out of its window. A limiter that keeps every time gives
-- the same answers.
use zeep_orbit.Prelude.{
  ℕ, ◌≤◌, String, Bool, true, false, Option, none, some, List, [], ◌∷◌, ◌++◌, ◌≡◌, inl, inr, refl,
  sym, ap, ◌∙◌, length, is_empty, arith, leb, put, String-cases, Bool-cases, if◌then◌else◌,
}
use zeep_orbit.RateLimit.Admissions.{InOrder}
use zeep_orbit.RateLimit.SignIn.{
  RateLimiter, new_rate_limiter, times, fresh_times, allow, allow_all,
}

-- Every time at which a key was admitted.
abbrev pub AdmittedLog : Type 0
AdmittedLog = String → List ℕ

-- A request is admitted if fewer than `limit` of its key were admitted within the window.
unfoldable pub admit : ℕ → ℕ → ℕ → String → AdmittedLog → AdmittedLog × Bool
admit limit window now key log =
    if leb limit (length (fresh_times now window (log key)))
    then (log, false)
    else (put log key (log key ++ now ∷ []), true)

unfoldable pub admit_all : ℕ → ℕ → List (ℕ × String) → AdmittedLog → AdmittedLog × List Bool
admit_all limit window [] log = (log, [])
admit_all limit window ((now, key) ∷ calls) log =
    let (log', allowed) = admit limit window now key log in
    let (log'', rest) = admit_all limit window calls log' in (log'', allowed ∷ rest)

pub fresh_times-append :
    (now window : ℕ) (xs ys : List ℕ)
    → fresh_times now window (xs ++ ys) ≡ fresh_times now window xs ++ fresh_times now window ys
unfolding fresh_times
fresh_times-append now window [] ys = refl
fresh_times-append now window (t ∷ ts) ys = ground (arith, fresh_times-append now window ts ys)

-- What is out of the window now is out of every later window.
fresh_times-fresh_times :
    (now later window : ℕ) (ts : List ℕ)
    → now ≤ later
    → fresh_times later window (fresh_times now window ts) ≡ fresh_times later window ts
unfolding fresh_times
fresh_times-fresh_times now later window [] h = refl
fresh_times-fresh_times now later window (t ∷ ts) h =
    ground (arith, fresh_times-fresh_times now later window ts h)

-- The limiter and the log hold the same times of a key, as far as a window from `last` on shows.
abbrev Agrees : ℕ → RateLimiter → AdmittedLog → Type 0
Agrees last rl log =
    (key : String) (now : ℕ)
    → last ≤ now
    → fresh_times now rl.window (times (rl.windows key)) ≡ fresh_times now rl.window (log key)

times-kept : (fresh : List ℕ) → times (if is_empty fresh then none else some fresh) ≡ fresh
times-kept [] = refl
times-kept (t ∷ ts) = refl

record Agreed (last : ℕ) (r : RateLimiter × Bool) (s : AdmittedLog × Bool) (rl : RateLimiter)
    : Type 0 where
  state : Agrees last r.0 s.0
  answer : r.1 ≡ s.1
  same_limit : r.0.limit ≡ rl.limit
  same_window : r.0.window ≡ rl.window

module _ (last now window : ℕ) (key : String) (w : String → Option (List ℕ)) (log : AdmittedLog)
    (le : last ≤ now)
    (h : (k : String) (t : ℕ)
      → last ≤ t
      → fresh_times t window (times (w k)) ≡ fresh_times t window (log k)) where
  abbrev kept : String → Option (List ℕ)
  kept =
      let fresh = fresh_times now window (times (w key)) in
      put w key (if is_empty fresh then none else some fresh)

  kept_fresh :
      (k : String) (t : ℕ)
      → now ≤ t
      → fresh_times t window (times (kept k)) ≡ fresh_times t window (log k)
  kept_fresh k t later = elim (String-cases key k) [
    | inl (e, p) ↦
        rw (e, times-kept (fresh_times now window (times (w key))))
          (fresh_times-fresh_times now t window (times (w key)) later
            ∙ h key t (omega arith)
            ∙ ap (λ x. fresh_times t window (log x)) p)
    | inr (e, p) ↦ rw e (h k t (omega arith))
  ]

  admitted_fresh :
      (k : String) (t : ℕ)
      → now ≤ t
      → fresh_times t window
          (times (put kept key (some (fresh_times now window (times (w key)) ++ now ∷ [])) k))
        ≡ fresh_times t window (put log key (log key ++ now ∷ []) k)
  admitted_fresh k t later = elim (String-cases key k) [
    | inl (e, p) ↦
        rw
          (
            e,
            fresh_times-append,
            fresh_times-fresh_times now t window (times (w key)) later,
            h key t (omega arith),
          )
          (sym (fresh_times-append t window (log key) (now ∷ [])))
    | inr (e, p) ↦ rw e (h k t (omega arith))
  ]

allow-Agreed :
    (last now : ℕ) (key : String) (rl : RateLimiter) (log : AdmittedLog)
    → last ≤ now
    → Agrees last rl log
    → Agreed now (allow now key rl) (admit rl.limit rl.window now key log) rl
unfolding allow admit
allow-Agreed last now key rl log le h =
    let same = h key now le in
    elim (Bool-cases (leb rl.limit (length (fresh_times now rl.window (times (rl.windows key)))))) [
      | inl e ↦
          rw (e, rw same at e)
            (record {
              state = kept_fresh last now rl.window key rl.windows log le h;
              answer = refl;
              same_limit = refl;
              same_window = refl;
            })
      | inr e ↦
          rw (e, rw same at e)
            (record {
              state = admitted_fresh last now rl.window key rl.windows log le h;
              answer = refl;
              same_limit = refl;
              same_window = refl;
            })
    ]

allow_all-answer :
    (calls : List (ℕ × String)) (last : ℕ) (rl : RateLimiter) (log : AdmittedLog)
    → InOrder last calls
    → Agrees last rl log
    → (allow_all calls rl).1 ≡ (admit_all rl.limit rl.window calls log).1
unfolding allow_all admit_all
allow_all-answer [] last rl log o h = refl
allow_all-answer ((now, key) ∷ calls) last rl log (le, o) h =
    let step = allow-Agreed last now key rl log le h in
    let rest =
      allow_all-answer calls now (allow now key rl).0 (admit rl.limit rl.window now key log).0 o
        step.state in
    rw (step.answer, rest, step.same_limit, step.same_window) refl

-- On every sequence of sign-in requests in clock order, a new limiter, which drops the times that
-- have left the window, answers as the limiter that keeps the time of every admitted request.
pub allow_all-eq-admit_all :
    (limit window : ℕ) (calls : List (ℕ × String))
    → InOrder 0 calls
    → (allow_all calls (new_rate_limiter limit window)).1
      ≡ (admit_all limit window calls (λ _. [])).1
unfolding new_rate_limiter fresh_times
allow_all-eq-admit_all limit window calls o =
    allow_all-answer calls 0 (new_rate_limiter limit window) (λ _. []) o (λ key now le. refl)
