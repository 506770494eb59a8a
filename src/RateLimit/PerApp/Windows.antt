-- ===== src/RateLimit/PerApp/Windows.antt =====
-- The bound on a client's requests that the fixed windows give.
use mathlib.Core.List.{append_assoc}
use zeep_orbit.Prelude.{
  ℕ, zero, suc, and_true, and_false, ◌+◌, ◌*◌, ◌≤◌, ◌<◌, String, Bool, true, false, Option, none,
  some, List, [], ◌∷◌, ◌++◌, ◌≡◌, inl, inr, refl, sym, ap, subst, ◌∙◌, arith, leb, length,
  length-append, String-cases, Bool-cases, if◌then◌else◌,
}
use zeep_orbit.RateLimit.Admissions.{
  count_within, admitted_times, count_within-append, count_within-le-length, InOrder,
}
use zeep_orbit.Prelude.Int.{ℤ, pos, negsuc}
use zeep_orbit.RateLimit.PerApp.{
  new_limiter, max_requests, RlEntry, PerAppLimiter, is_stale, next_entry, is_allowed,
  count_request, allow_all,
}
use zeep_orbit.RateLimit.PerApp.Sweep.{count_all, allow_all-eq-count_all}

-- A client's admitted times up to `last`: those of its current window, which starts at `start`, and
-- those before it.
pub record IsWindowed (max window last start count : ℕ) (older current : List ℕ) : Type 0 where
  pub started : start ≤ last
  pub counted : length current ≤ count
  pub current_le : length current ≤ max
  pub current_past : (from : ℕ) → last ≤ from → count_within from window current ≡ 0
  pub older_past : (from : ℕ) → start ≤ from → count_within from window older ≡ 0
  pub older_le : (from : ℕ) → start ≤ from + window → count_within from window older ≤ max
  pub total_le : (from : ℕ) → count_within from window (older ++ current) ≤ 2 * max

abbrev Windowed : ℕ → ℕ → ℕ → Option RlEntry → List ℕ → Type 0
Windowed max window last none times = times ≡ []
Windowed max window last (some e) times =
    (older : List ℕ) × (current : List ℕ) × (times ≡ older ++ current)
    × IsWindowed max window last e.window_start e.count older current

-- The times after one more request.
abbrev pub noted : ℕ → Bool → List ℕ → List ℕ
noted now allowed times = if allowed then times ++ now ∷ [] else times

module _ (max window last now : ℕ) (positive : 1 ≤ max) (le : last ≤ now) where
  later-IsWindowed :
      (start count count' : ℕ) (older current : List ℕ)
      → count ≤ count'
      → IsWindowed max window last start count older current
      → IsWindowed max window now start count' older current
  later-IsWindowed start count count' older current more h = record {
    started = let a = h.started in omega arith;
    counted = let a = h.counted in omega arith;
    current_le = h.current_le;
    current_past = λ from a. h.current_past from (omega arith);
    older_past = h.older_past;
    older_le = h.older_le;
    total_le = h.total_le;
  }

  admitted-IsWindowed :
      (start count : ℕ) (older current : List ℕ)
      → count + 1 ≤ max
      → IsWindowed max window last start count older current
      → IsWindowed max window now start (count + 1) older (current ++ now ∷ [])
  unfolding count_within
  admitted-IsWindowed start count older current room h =
      let a = h.started in
      let b = h.counted in
      let size = length-append current (now ∷ []) in
      record {
        started = omega arith;
        counted = omega (arith, size);
        current_le = omega (arith, size);
        current_past = λ from past.
            let c = h.current_past from (omega arith) in
            let d = count_within-append from window current (now ∷ []) in ground (arith, c, d);
        older_past = h.older_past;
        older_le = h.older_le;
        total_le = λ from.
            let apart = count_within-append from window older (current ++ now ∷ []) in
            let both = count_within-append from window older current in
            let more = count_within-append from window current (now ∷ []) in
            let few = count_within-le-length from window (current ++ now ∷ []) in
            let total = h.total_le from in
            elim (Bool-cases (leb now (from + window))) [
              | inl e ↦
                  let near = h.older_le from (ground arith) in omega (arith, apart, near, few, size)
              | inr e ↦
                  let none_now : count_within from window (now ∷ []) ≡ 0 = ground arith in
                  omega (arith, apart, both, more, total, none_now)
            ];
      }

  opened-IsWindowed :
      (start count : ℕ) (older current : List ℕ)
      → start + window < now
      → IsWindowed max window last start count older current
      → IsWindowed max window now now 1 (older ++ current) (now ∷ [])
  unfolding count_within
  opened-IsWindowed start count older current stale h =
      let a = h.started in
      record {
        started = omega arith;
        counted = omega arith;
        current_le = positive;
        current_past = λ from past. ground arith;
        older_past = λ from past.
            let c = h.current_past from (omega arith) in
            let d = h.older_past from (omega arith) in
            omega (arith, c, d, count_within-append from window older current);
        older_le = λ from past.
            let c = h.older_past from (omega arith) in
            omega (
              arith,
              c,
              h.current_le,
              count_within-append from window older current,
              count_within-le-length from window current,
            );
        total_le = λ from.
            let apart = count_within-append from window (older ++ current) (now ∷ []) in
            let both = count_within-append from window older current in
            let few = count_within-le-length from window (now ∷ []) in
            let total = h.total_le from in
            elim (Bool-cases (leb now (from + window))) [
              | inl e ↦
                  let near = h.older_past from (ground arith) in
                  omega (
                    arith,
                    apart,
                    both,
                    near,
                    few,
                    count_within-le-length from window current,
                    h.current_le,
                  )
              | inr e ↦
                  let none_now : count_within from window (now ∷ []) ≡ 0 = ground arith in
                  omega (arith, apart, total, none_now)
            ];
      }

  first-IsWindowed : IsWindowed max window now now 1 [] (now ∷ [])
  unfolding count_within
  first-IsWindowed = record {
    started = omega arith;
    counted = omega arith;
    current_le = positive;
    current_past = λ from past. ground arith;
    older_past = λ from past. refl;
    older_le = λ from past. omega arith;
    total_le =
        λ from. let few = count_within-le-length from window (now ∷ []) in omega (arith, few);
  }

  request-Windowed :
      (e : Option RlEntry) (times : List ℕ)
      → Windowed max window last e times
      → Windowed max window now
          (some (next_entry now window e))
          (noted now (is_allowed now window max e) times)
  unfolding next_entry is_allowed
  request-Windowed none times empty = rw empty ([], now ∷ [], refl, first-IsWindowed)
  request-Windowed (some e) times (older, current, split, h) =
      elim (Bool-cases (is_stale now window e)) [
        | inl stale ↦ rw stale (
          older ++ current,
          now ∷ [],
          ap (λ ts. ts ++ now ∷ []) split,
          opened-IsWindowed e.window_start e.count older current (ground arith) h,
        )
        | inr fresh ↦ elim (Bool-cases (leb (e.count + 1) max)) [
          | inl room ↦
              rw (fresh, room)
                (
                  older,
                  current ++ now ∷ [],
                  ap (λ ts. ts ++ now ∷ []) split ∙ append_assoc older current (now ∷ []),
                  admitted-IsWindowed e.window_start e.count older current (ground arith) h,
                )
          | inr full ↦
              rw (fresh, full)
                (
                  older,
                  current,
                  split,
                  later-IsWindowed e.window_start e.count (e.count + 1) older current (omega arith)
                      h,
                )
        ]
      ]

  waiting-Windowed :
      (e : Option RlEntry) (times : List ℕ)
      → Windowed max window last e times
      → Windowed max window now e times
  waiting-Windowed none times empty = empty
  waiting-Windowed (some e) times (older, current, split, h) = (
    older,
    current,
    split,
    later-IsWindowed e.window_start e.count e.count older current (omega arith) h,
  )

Windowed-le :
    (max window last : ℕ) (e : Option RlEntry) (times : List ℕ) (from : ℕ)
    → Windowed max window last e times
    → count_within from window times ≤ 2 * max
unfolding count_within
Windowed-le max window last none times from empty = rw empty (omega arith)
Windowed-le max window last (some e) times from (older, current, split, h) =
    rw split (h.total_le from)

noted-split :
    (from window now : ℕ) (allowed : Bool) (times rest : List ℕ)
    → count_within from window (noted now allowed times) + count_within from window rest
      ≡ count_within from window times
        + count_within from window (if allowed then now ∷ rest else rest)
unfolding count_within
noted-split from window now true times rest =
    omega (arith, count_within-append from window times (now ∷ []))
noted-split from window now false times rest = refl

count_all-le :
    (calls : List (ℕ × String)) (last : ℕ) (l : PerAppLimiter) (ip : String) (times : List ℕ)
    (from : ℕ)
    → 1 ≤ l.max
    → InOrder last calls
    → Windowed l.max l.window last (l.entries ip) times
    → count_within from l.window times
        + count_within from l.window (admitted_times ip calls (count_all calls l).1)
      ≤ 2 * l.max
unfolding count_all count_request admitted_times count_within
count_all-le [] last l ip times from positive o h =
    let bound = Windowed-le l.max l.window last (l.entries ip) times from h in omega (arith, bound)
count_all-le ((now, k) ∷ calls) last l ip times from positive (le, o) h =
    let l' = (count_request now k l).0 in
    let allowed = is_allowed now l.window l.max (l.entries k) in
    elim (String-cases k ip) [
      | inl (e, p) ↦
          let before = subst (λ x. Windowed l.max l.window last (l.entries x) times) (sym p) h in
          let after : Windowed l.max l.window now (l'.entries ip) (noted now allowed times) =
            rw e
              (request-Windowed l.max l.window last now positive le (l.entries k) times before) in
          let rest = count_all-le calls now l' ip (noted now allowed times) from positive o after in
          let split =
            noted-split from l.window now allowed times
              (admitted_times ip calls (count_all calls l').1) in
          rw (e, and_true) (omega (arith, rest, split))
      | inr (e, p) ↦
          let after : Windowed l.max l.window now (l'.entries ip) times =
            rw e (waiting-Windowed l.max l.window last now positive le (l.entries ip) times h) in
          rw (e, and_false) (count_all-le calls now l' ip times from positive o after)
    ]

max_requests-pos : (rpm : ℤ) → 1 ≤ max_requests rpm
unfolding max_requests
max_requests-pos (pos zero) = omega arith
max_requests-pos (pos (suc n)) = omega arith
max_requests-pos (negsuc n) = omega arith

-- Of the requests of one client, in clock order from the start of an app's limiter, at most twice
-- the app's requests per minute (60 where none are configured) are let through in any stretch of
-- one minute.
pub allow_all-le-twice_max :
    (rpm : ℤ) (calls : List (ℕ × String)) (ip : String) (from : ℕ)
    → InOrder 0 calls
    → count_within from 60000000000 (admitted_times ip calls (allow_all calls (new_limiter rpm)).1)
      ≤ 2 * max_requests rpm
unfolding new_limiter count_within
allow_all-le-twice_max rpm calls ip from o =
    let bound = count_all-le calls 0 (new_limiter rpm) ip [] from (max_requests-pos rpm) o refl in
    rw (allow_all-eq-count_all calls 0 (new_limiter rpm) o) (omega (arith, bound))
