-- ===== src/RateLimit/PerApp/Sweep.antt =====
-- The sweep bounds the map and changes no answer.
use zeep_orbit.Prelude.{
  ℕ, ◌≤◌, String, Bool, Option, none, some, List, [], ◌∷◌, ◌≡◌, inl, inr, refl, sym, ap, ◌∙◌, arith,
  String-cases, Bool-cases,
}
use zeep_orbit.RateLimit.Admissions.{InOrder}
use zeep_orbit.RateLimit.PerApp.{
  RlEntry, PerAppLimiter, keep_fresh, is_due, sweep, next_entry, is_allowed, count_request, allow,
  allow_all,
}

-- The limiter that never sweeps.
unfoldable pub count_all : List (ℕ × String) → PerAppLimiter → PerAppLimiter × List Bool
count_all [] l = (l, [])
count_all ((now, ip) ∷ calls) l =
    let (l', allowed) = count_request now ip l in
    let (l'', rest) = count_all calls l' in (l'', allowed ∷ rest)

keep_fresh-keep_fresh :
    (now later window : ℕ) (e : Option RlEntry)
    → now ≤ later
    → keep_fresh later window (keep_fresh now window e) ≡ keep_fresh later window e
unfolding keep_fresh
keep_fresh-keep_fresh now later window none h = refl
keep_fresh-keep_fresh now later window (some e) h = ground arith

next_entry-keep_fresh :
    (now window : ℕ) (e : Option RlEntry)
    → next_entry now window (keep_fresh now window e) ≡ next_entry now window e
unfolding next_entry keep_fresh
next_entry-keep_fresh now window none = refl
next_entry-keep_fresh now window (some e) = ground arith

is_allowed-keep_fresh :
    (now window max : ℕ) (e : Option RlEntry)
    → is_allowed now window max (keep_fresh now window e) ≡ is_allowed now window max e
unfolding is_allowed keep_fresh
is_allowed-keep_fresh now window max none = refl
is_allowed-keep_fresh now window max (some e) = ground arith

-- Both limiters hold the same entries, but for those that are stale from `last` on.
pub record Agree (last : ℕ) (l m : PerAppLimiter) : Type 0 where
  same_window : l.window ≡ m.window
  same_max : l.max ≡ m.max
  same_fresh :
      (ip : String) (now : ℕ)
      → last ≤ now
      → keep_fresh now m.window (l.entries ip) ≡ keep_fresh now m.window (m.entries ip)

sweep-Agree :
    (last now : ℕ) (l m : PerAppLimiter) → last ≤ now → Agree last l m → Agree now (sweep now l) m
unfolding sweep
sweep-Agree last now l m le h = elim (Bool-cases (is_due now l.window l.last_swept)) [
  | inl e ↦ rw e (record {
    same_window = h.same_window;
    same_max = h.same_max;
    same_fresh = λ ip later before. rw h.same_window (
        keep_fresh-keep_fresh now later m.window (l.entries ip) before
        ∙ h.same_fresh ip later (omega arith));
  })
  | inr e ↦ rw e (record {
    same_window = h.same_window;
    same_max = h.same_max;
    same_fresh = λ ip later before. h.same_fresh ip later (omega arith);
  })
]

module _ (now : ℕ) (ip : String) (l m : PerAppLimiter) (h : Agree now l m) where
  abbrev here : keep_fresh now m.window (l.entries ip) ≡ keep_fresh now m.window (m.entries ip)
  here = h.same_fresh ip now (omega arith)

  count_request-answer : (count_request now ip l).1 ≡ (count_request now ip m).1
  unfolding count_request
  count_request-answer =
      rw (h.same_window, h.same_max)
        (sym (is_allowed-keep_fresh now m.window m.max (l.entries ip))
          ∙ ap (is_allowed now m.window m.max) here
          ∙ is_allowed-keep_fresh now m.window m.max (m.entries ip))

  same_next : next_entry now l.window (l.entries ip) ≡ next_entry now m.window (m.entries ip)
  same_next = rw h.same_window (
      sym (next_entry-keep_fresh now m.window (l.entries ip))
      ∙ ap (next_entry now m.window) here
      ∙ next_entry-keep_fresh now m.window (m.entries ip))

  count_request-Agree : Agree now (count_request now ip l).0 (count_request now ip m).0
  unfolding count_request
  count_request-Agree = record {
    same_window = h.same_window;
    same_max = h.same_max;
    same_fresh = λ other later before. elim (String-cases ip other) [
      | inl (e, p) ↦ rw (e, same_next) refl
      | inr (e, p) ↦ rw e (h.same_fresh other later before)
    ];
  }

allow_all-answer :
    (calls : List (ℕ × String)) (last : ℕ) (l m : PerAppLimiter)
    → InOrder last calls
    → Agree last l m
    → (allow_all calls l).1 ≡ (count_all calls m).1
unfolding allow_all count_all allow
allow_all-answer [] last l m o h = refl
allow_all-answer ((now, ip) ∷ calls) last l m (le, o) h =
    let swept = sweep-Agree last now l m le h in
    rw
      (
        count_request-answer now ip (sweep now l) m swept,
        allow_all-answer calls now (count_request now ip (sweep now l)).0 (count_request now ip m).0
            o (count_request-Agree now ip (sweep now l) m swept),
      )
      refl

-- On every sequence of requests in clock order, a limiter answers as the same limiter without the
-- sweep of its stale entries.
pub allow_all-eq-count_all :
    (calls : List (ℕ × String)) (last : ℕ) (l : PerAppLimiter)
    → InOrder last calls
    → (allow_all calls l).1 ≡ (count_all calls l).1
allow_all-eq-count_all calls last l o =
    allow_all-answer calls last l l o
      (record { same_window = refl; same_max = refl; same_fresh = λ ip now le. refl })
