-- ===== src/Config/Cycle/Node.antt =====
-- Entering and leaving a node, and the call of `visit` between them.
use zeep_orbit.Prelude.{
  ℕ, zero, suc, ◌+◌, ◌≤◌, ◌<◌, String, List, [], ◌∷◌, ◌++◌, ◌≡◌, ◌≢◌, ◌⊎◌, refl, sym, ap, ◌∙◌, inl,
  inr, arith, In, put, String-cases, eq_refl, eq_false, in-append_left, in-append_right,
  in-append_cases,
}
use zeep_orbit.Config.Cycle.{
  Mark, unvisited, visiting, visited, Walk, drop_last, enter, leave, visit,
}
use zeep_orbit.Config.Cycle.Walks.{IsWalk, IsWalk-snoc, total_rank, le-total_rank}
use zeep_orbit.Config.Cycle.Visit.{
  Mark-cases, open_count, open_count-enter_in, Advances, IsReady, IsLeft, IsLoopLeft, Outcome,
  returns, reports, loop-Outcome,
}

put-eq_cases :
    (s : String → Mark) (n m : String) (a b : Mark)
    → put s n a m ≡ b
    → ((n ≡ m) × (a ≡ b)) ⊎ ((n ≢ m) × (s m ≡ b))
put-eq_cases s n m a b h = elim (String-cases n m) [
  | inl (e, p) ↦ inl (p, rw e at h)
  | inr (e, p) ↦ inr (p, rw e at h)
]

put-ne : (s : String → Mark) (n m : String) (a : Mark) → n ≢ m → put s n a m ≡ s m
put-ne s n m a h = rw (eq_false n m h)

drop_last-snoc : (xs : List String) (x : String) → drop_last (xs ++ x ∷ []) ≡ xs
unfolding drop_last
drop_last-snoc [] x = refl
drop_last-snoc (y ∷ []) x = refl
drop_last-snoc (y ∷ z ∷ xs) x = ap (λ r. y ∷ r) (drop_last-snoc (z ∷ xs) x)

module _ (deps : String → List String) (node : String) (w : Walk) (fresh : w.state node ≡ unvisited)
    (v : IsReady deps w) where
  still_visited : (d : String) → w.state d ≡ visited → put w.state node visiting d ≡ visited
  still_visited d h = put-ne w.state node d visiting (λ p. cc (ap w.state p)) ∙ h

  was_visited : (m : String) → put w.state node visiting m ≡ visited → w.state m ≡ visited
  was_visited m h = elim (put-eq_cases w.state node m visiting visited h) [
    | inl (p, q) ↦ cc
    | inr (p, q) ↦ q
  ]

  pub enter-IsReady : IsReady deps (enter node w)
  enter-IsReady = record {
    ranked = record {
      rank = v.ranked.rank;
      closed = λ m d h i. still_visited d (v.ranked.closed m d (was_visited m h) i);
      falls = λ m d h i. v.ranked.falls m d (was_visited m h) i;
    };
    tracked = λ m h. elim (put-eq_cases w.state node m visiting visiting h) [
      | inl (p, q) ↦ in-append_right m w.path (node ∷ []) (inl (sym p))
      | inr (p, q) ↦ in-append_left m w.path (node ∷ []) (v.tracked m q)
    ];
  }

  module _ (w' : Walk) (l : IsLoopLeft deps (deps node) (enter node w) w') where
    is_visiting : w'.state node ≡ visiting
    is_visiting = elim (l.advances node) [
      | inl e ↦ e ∙ rw eq_refl
      | inr (a, b) ↦ let c : visiting ≡ unvisited = rw eq_refl at a in cc
    ]

    ne_node : (d : String) → w'.state d ≡ visited → node ≢ d
    ne_node d h p = cc (ap w'.state p, is_visiting)

    now_visited : (d : String) → w'.state d ≡ visited → put w'.state node visited d ≡ visited
    now_visited d h = put-ne w'.state node d visited (ne_node d h) ∙ h

    abbrev new_rank : String → ℕ
    new_rank = put l.ready.ranked.rank node (suc (total_rank l.ready.ranked.rank (deps node)))

    old_rank : (d : String) → w'.state d ≡ visited → new_rank d ≡ l.ready.ranked.rank d
    old_rank d h = rw (eq_false node d (ne_node d h))

    leave_closed :
        (m d : String)
        → put w'.state node visited m ≡ visited
        → In d (deps m)
        → put w'.state node visited d ≡ visited
    leave_closed m d h i = elim (put-eq_cases w'.state node m visited visited h) [
      | inl (p, q) ↦ now_visited d (l.done d (rw p i))
      | inr (p, q) ↦ now_visited d (l.ready.ranked.closed m d q i)
    ]

    leave_falls :
        (m d : String)
        → put w'.state node visited m ≡ visited
        → In d (deps m)
        → new_rank d < new_rank m
    leave_falls m d h i = elim (put-eq_cases w'.state node m visited visited h) [
      | inl (p, q) ↦
          let j : In d (deps node) = rw p i in
          let top : new_rank m ≡ suc (total_rank l.ready.ranked.rank (deps node)) =
            rw (← p, eq_refl) in
          omega
            (arith, old_rank d (l.done d j), top, le-total_rank l.ready.ranked.rank (deps node) d j)
      | inr (p, q) ↦ omega (
        arith,
        old_rank m q,
        old_rank d (l.ready.ranked.closed m d q i),
        l.ready.ranked.falls m d q i,
      )
    ]

    leave_tracked : (m : String) → put w'.state node visited m ≡ visiting → In m w.path
    leave_tracked m h = elim (put-eq_cases w'.state node m visited visiting h) [
      | inl (p, q) ↦ cc
      | inr (p, q) ↦
          elim (in-append_cases m w.path (node ∷ []) (rw (← l.same_path) (l.ready.tracked m q))) [
            | inl i ↦ i
            | inr j ↦ elim j [ inl e ↦ absurd (p (sym e)) | inr z ↦ absurd z ]
          ]
    ]

    leave-Advances : Advances w.state (put w'.state node visited)
    leave-Advances m = elim (String-cases node m) [
      | inl (e, p) ↦ inr (rw (← p) fresh, rw e)
      | inr (e, p) ↦ rw e (let a = l.advances m in rw e at a)
    ]

    same_path : drop_last w'.path ≡ w.path
    same_path = ap drop_last l.same_path ∙ drop_last-snoc w.path node

    pub leave-IsLeft :
        IsLeft deps node w (record { state = put w'.state node visited; path = drop_last w'.path })
    leave-IsLeft = record {
      advances = leave-Advances;
      same_path = same_path;
      done = rw eq_refl;
      ready = record {
        ranked = record { rank = new_rank; closed = leave_closed; falls = leave_falls };
        tracked = λ m h. rw same_path (leave_tracked m h);
      };
    }

module _ (deps : String → List String) (known : List String)
    (inside : (n d : String) → In d (deps n) → In n known) where
  pub visit-Outcome :
      (fuel : ℕ) (node : String) (w : Walk)
      → open_count known w.state + 1 ≤ fuel
      → IsReady deps w
      → IsWalk deps (w.path ++ node ∷ [])
      → Outcome deps (IsLeft deps node w) (visit deps fuel node w)
  unfolding visit leave
  visit-Outcome zero node w room v k = absurd (omega arith)
  visit-Outcome (suc fuel) node w room v k = elim (Mark-cases (w.state node)) [
    | inl fresh ↦
        elim (loop-Outcome deps known fuel (visit deps fuel)
          (λ d x r u t. visit-Outcome fuel d x r u t) (deps node) (enter node w)
          (λ d h. omega (arith, open_count-enter_in w.state node fresh known (inside node d h)))
          (enter-IsReady deps node w fresh v) (λ d h. IsWalk-snoc deps w.path node d k h)) [
            | returns w' e l ↦
                returns (record { state = put w'.state node visited; path = drop_last w'.path })
                  (rw (fresh, e, visit)) (leave-IsLeft deps node w fresh v w' l)
            | reports p e c ↦ reports p (rw (fresh, e, visit)) c
          ]
    | inr old ↦ elim old [
      | inl e ↦ reports (w.path ++ node ∷ []) (rw (e, visit)) (record {
        before = w.path;
        last = node;
        parts = refl;
        passed = v.tracked node e;
        walks = k;
      })
      | inr e ↦
          returns w (rw (e, visit))
            (record { advances = λ m. inl refl; same_path = refl; done = e; ready = v })
    ]
  ]
