-- ===== src/RateLimit/SignIn/Window.antt =====
-- The bound that the window promises, in any stretch of time of its length.
use zeep_orbit.Prelude.{
  ℕ, ◌+◌, ◌≤◌, String, false, List, [], ◌∷◌, ◌++◌, ◌≡◌, inl, inr, ap, length, arith, leb, put,
  String-cases, Bool-cases,
}
use zeep_orbit.RateLimit.Admissions.{count_within, admitted_times, count_within-append, InOrder}
use zeep_orbit.RateLimit.SignIn.{new_rate_limiter, fresh_times, allow_all}
use zeep_orbit.RateLimit.SignIn.Log.{AdmittedLog, admit, admit_all, allow_all-eq-admit_all}

count_within-le-fresh :
    (start window now : ℕ) (ts : List ℕ)
    → now ≤ start + window
    → count_within start window ts ≤ length (fresh_times now window ts)
unfolding count_within fresh_times
count_within-le-fresh start window now [] h = omega arith
count_within-le-fresh start window now (t ∷ ts) h =
    ground (arith, count_within-le-fresh start window now ts h)

module _ (limit window : ℕ) where
  abbrev IsBounded : List ℕ → Type 0
  IsBounded ts = (start : ℕ) → count_within start window ts ≤ limit

  admitted-IsBounded :
      (now : ℕ) (ts : List ℕ)
      → IsBounded ts
      → leb limit (length (fresh_times now window ts)) ≡ false
      → IsBounded (ts ++ now ∷ [])
  unfolding count_within
  admitted-IsBounded now ts h room start =
      let old = h start in
      let split = count_within-append start window ts (now ∷ []) in
      ground (arith, old, split, count_within-le-fresh start window now ts)

  abbrev logged : ℕ → String → AdmittedLog → AdmittedLog
  logged now k log = put log k (log k ++ now ∷ [])

  logged-IsBounded :
      (now : ℕ) (k : String) (log : AdmittedLog)
      → ((j : String) → IsBounded (log j))
      → leb limit (length (fresh_times now window (log k))) ≡ false
      → (j : String) → IsBounded (logged now k log j)
  logged-IsBounded now k log h room j = elim (String-cases k j) [
    | inl (e, p) ↦ rw e (admitted-IsBounded now (log k) (h k) room)
    | inr (e, p) ↦ rw e (h j)
  ]

  -- The key's times of the log and those of the calls to come.
  admit_all-le-limit :
      (calls : List (ℕ × String)) (log : AdmittedLog) (key : String) (start : ℕ)
      → ((k : String) → IsBounded (log k))
      → count_within start window (log key)
          + count_within start window
              (admitted_times key calls (admit_all limit window calls log).1)
        ≤ limit
  unfolding admit_all admit admitted_times count_within
  admit_all-le-limit [] log key start h = let old = h key start in omega arith
  admit_all-le-limit ((now, k) ∷ calls) log key start h =
      elim (Bool-cases (leb limit (length (fresh_times now window (log k))))) [
        | inl e ↦ rw e (admit_all-le-limit calls log key start h)
        | inr e ↦
            let rest =
              admit_all-le-limit calls (logged now k log) key start
                (logged-IsBounded now k log h e) in
            elim (String-cases k key) [
              | inl (f, p) ↦
                  let logged_before = ap (λ x. count_within start window (log x)) p in
                  let moved = count_within-append start window (log k) (now ∷ []) in
                  let known = rw f at rest in rw (e, f) (omega (arith, logged_before, moved, known))
              | inr (f, p) ↦ let known = rw f at rest in rw (e, f) known
            ]
      ]

-- Of the requests of one client, in clock order from the start of a new sign-in limiter, at most
-- `limit` are let through in any stretch of time as long as the window.
pub allow_all-le-limit :
    (limit window : ℕ) (calls : List (ℕ × String)) (key : String) (start : ℕ)
    → InOrder 0 calls
    → count_within start window
        (admitted_times key calls (allow_all calls (new_rate_limiter limit window)).1)
      ≤ limit
unfolding count_within
allow_all-le-limit limit window calls key start o =
    let bound = admit_all-le-limit limit window calls (λ _. []) key start (λ k s. omega arith) in
    rw (allow_all-eq-admit_all limit window calls o) (omega (arith, bound))
