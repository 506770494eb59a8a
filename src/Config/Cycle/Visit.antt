-- ===== src/Config/Cycle/Visit.antt =====
-- One call of `visit`: it ends, and either reports a real cycle or leaves its node, with all that
-- the node depends on, visited and ranked.
use zeep_orbit.Prelude.{
  ℕ, ◌+◌, ◌≤◌, ◌<◌, String, some, List, [], ◌∷◌, ◌++◌, ok, err, ◌≡◌, ◌⊎◌, refl, ◌∙◌, inl, inr,
  arith, In, put, String-cases, eq_refl,
}
use zeep_orbit.Config.Cycle.{Mark, unvisited, visiting, visited, Walk, circular, Visited, visit_all}
use zeep_orbit.Config.Cycle.Walks.{IsWalk, IsCycle}

pub Mark-cases : (m : Mark) → (m ≡ unvisited) ⊎ (m ≡ visiting) ⊎ (m ≡ visited)
Mark-cases unvisited = inl refl
Mark-cases visiting = inr (inl refl)
Mark-cases visited = inr (inr refl)

-- How many entries of a list are not visited.
abbrev one_if_open : Mark → ℕ
one_if_open unvisited = 1
one_if_open _ = 0

abbrev pub open_count : List String → (String → Mark) → ℕ
open_count [] state = 0
open_count (n ∷ ns) state = one_if_open (state n) + open_count ns state

-- From one state to a later one, only unvisited tables change, and they become visited.
abbrev pub Advances : (String → Mark) → (String → Mark) → Type 0
Advances s s' = (m : String) → (s' m ≡ s m) ⊎ ((s m ≡ unvisited) × (s' m ≡ visited))

one_if_open-le :
    (a b : Mark) → (b ≡ a) ⊎ ((a ≡ unvisited) × (b ≡ visited)) → one_if_open b ≤ one_if_open a
one_if_open-le a b h = ground arith

pub open_count-Advances :
    (ns : List String) (s s' : String → Mark) → Advances s s' → open_count ns s' ≤ open_count ns s
open_count-Advances [] s s' h = omega arith
open_count-Advances (n ∷ ns) s s' h =
    omega (arith, one_if_open-le (s n) (s' n) (h n), open_count-Advances ns s s' h)

module _ (s : String → Mark) (node : String) (fresh : s node ≡ unvisited) where
  enter_le : (n : String) → one_if_open (put s node visiting n) ≤ one_if_open (s n)
  enter_le n = elim (String-cases node n) [
    | inl (e, p) ↦ rw e (omega arith)
    | inr (e, p) ↦ rw e (omega arith)
  ]

  open_count-enter : (ns : List String) → open_count ns (put s node visiting) ≤ open_count ns s
  open_count-enter [] = omega arith
  open_count-enter (n ∷ ns) = omega (arith, enter_le n, open_count-enter ns)

  pub open_count-enter_in :
      (ns : List String) → In node ns → open_count ns (put s node visiting) + 1 ≤ open_count ns s
  open_count-enter_in [] h = elim h [ ]
  open_count-enter_in (n ∷ ns) (inl e) =
      let now : one_if_open (put s node visiting n) ≡ 0 = rw (e, eq_refl) in
      let then' : one_if_open (s n) ≡ 1 = rw (← e, fresh) in
      omega (arith, now, then', open_count-enter ns)
  open_count-enter_in (n ∷ ns) (inr h) = omega (arith, enter_le n, open_count-enter_in ns h)

module _ (deps : String → List String) where
  -- Whatever a visited table depends on is visited, with a lower rank.
  pub record IsRanked (state : String → Mark) : Type 0 where
    pub rank : String → ℕ
    pub closed : (m d : String) → state m ≡ visited → In d (deps m) → state d ≡ visited
    pub falls : (m d : String) → state m ≡ visited → In d (deps m) → rank d < rank m

  pub record IsReady (w : Walk) : Type 0 where
    pub ranked : IsRanked w.state
    pub tracked : (m : String) → w.state m ≡ visiting → In m w.path

  -- What a call of `visit node` that returns nil leaves behind.
  pub record IsLeft (node : String) (w w' : Walk) : Type 0 where
    pub advances : Advances w.state w'.state
    pub same_path : w'.path ≡ w.path
    pub done : w'.state node ≡ visited
    pub ready : IsReady w'

  -- What the loop over the dependencies leaves behind.
  pub record IsLoopLeft (ds : List String) (w w' : Walk) : Type 0 where
    pub advances : Advances w.state w'.state
    pub same_path : w'.path ≡ w.path
    pub done : (d : String) → In d ds → w'.state d ≡ visited
    pub ready : IsReady w'

  pub data Outcome (Left : Walk → Type 0) (r : Visited) : Type 0 where
    returns : (w : Walk) → r ≡ some (ok w) → Left w → Outcome Left r
    reports : (p : List String) → r ≡ some (err (circular p)) → IsCycle deps p → Outcome Left r

  pub Advances-trans : (s s' s'' : String → Mark) → Advances s s' → Advances s' s'' → Advances s s''
  Advances-trans s s' s'' h k m = ground (arith, h m, k m)

  pub advance_visited :
      (s s' : String → Mark) (m : String) → Advances s s' → s m ≡ visited → s' m ≡ visited
  advance_visited s s' m h e = ground (arith, h m)

  module _ (known : List String) (fuel : ℕ) (step : String → Walk → Visited)
      (works : (d : String) (w : Walk)
        → open_count known w.state + 1 ≤ fuel
        → IsReady w
        → IsWalk deps (w.path ++ d ∷ [])
        → Outcome (IsLeft d w) (step d w)) where
    pub loop-Outcome :
        (ds : List String) (w : Walk)
        → ((d : String) → In d ds → open_count known w.state + 1 ≤ fuel)
        → IsReady w
        → ((d : String) → In d ds → IsWalk deps (w.path ++ d ∷ []))
        → Outcome (IsLoopLeft ds w) (visit_all step ds w)
    unfolding visit_all
    loop-Outcome [] w room v k =
        returns w refl (record {
          advances = λ m. inl refl;
          same_path = refl;
          done = λ d h. elim h [ ];
          ready = v;
        })
    loop-Outcome (d ∷ ds) w room v k = elim (works d w (room d (inl refl)) v (k d (inl refl))) [
      | reports p e c ↦ reports p (rw (e, visit_all)) c
      | returns w' e l ↦
          elim (loop-Outcome ds w'
            (λ x h.
              omega (arith, room x (inr h), open_count-Advances known w.state w'.state l.advances))
            l.ready (λ x h. rw l.same_path (k x (inr h)))) [
              | reports p e' c ↦ reports p (rw (e, visit_all) e') c
              | returns w'' e' l' ↦ returns w'' (rw (e, visit_all) e') (record {
                advances = Advances-trans w.state w'.state w''.state l.advances l'.advances;
                same_path = l'.same_path ∙ l.same_path;
                done = λ x h. elim h [
                  | inl p ↦ rw p (advance_visited w'.state w''.state d l'.advances l.done)
                  | inr q ↦ l'.done x q
                ];
                ready = l'.ready;
              })
            ]
    ]
