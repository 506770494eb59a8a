-- ===== src/Config/Cycle/Tables.antt =====
-- The loop of `detect_reference_cycle` over the tables.
use zeep_orbit.Prelude.{
  ℕ, ◌+◌, ◌≤◌, String, List, [], ◌∷◌, ◌≡◌, ◌⊎◌, refl, inl, inr, arith, In, subst,
}
use zeep_orbit.Config.{TableConfig}
use zeep_orbit.Config.Cycle.{visiting, visited, Walk, Visited, visit_tables}
use zeep_orbit.Config.Cycle.Visit.{
  Mark-cases, open_count, open_count-Advances, Advances, IsReady, Outcome, returns, reports,
  advance_visited, Advances-trans,
}
use zeep_orbit.Config.Cycle.Node.{visit-Outcome}

abbrev pub reset : Walk → Walk
reset w = record { state = w.state; path = [] }

module _ (deps : String → List String) (known : List String)
    (inside : (n d : String) → In d (deps n) → In n known) where
  -- After the loop over the tables.
  pub record IsFinished (ts : List TableConfig) (w w' : Walk) : Type 0 where
    pub advances : Advances w.state w'.state
    pub done : (t : TableConfig) → In t ts → w'.state t.name ≡ visited
    pub ready : IsReady deps (reset w')

  -- Between two walks no table is being visited.
  reset-IsReady : (w : Walk) → w.path ≡ [] → IsReady deps w → IsReady deps (reset w)
  reset-IsReady w e v = record {
    ranked = v.ranked;
    tracked = λ m h. subst (λ p. In m p) e (v.tracked m h);
  }

  finished :
      (t : TableConfig) (ts : List TableConfig) (w w' w'' : Walk)
      → Advances w.state w'.state
      → w'.state t.name ≡ visited
      → IsFinished ts w' w''
      → IsFinished (t ∷ ts) w w''
  finished t ts w w' w'' a d f = record {
    advances = Advances-trans deps w.state w'.state w''.state a f.advances;
    done = λ u h. elim h [
      | inl e ↦ rw e (advance_visited deps w'.state w''.state t.name f.advances d)
      | inr k ↦ f.done u k
    ];
    ready = f.ready;
  }

  skip :
      (t : TableConfig) (ts : List TableConfig) (w : Walk) (fuel : ℕ) {r : Visited}
      → (w.state t.name ≡ visiting) ⊎ (w.state t.name ≡ visited)
      → visit_tables deps fuel ts w ≡ r
      → visit_tables deps fuel (t ∷ ts) w ≡ r
  unfolding visit_tables
  skip t ts w fuel (inl e) h = rw (e, visit_tables) h
  skip t ts w fuel (inr e) h = rw (e, visit_tables) h

  pub tables-Outcome :
      (fuel : ℕ) (ts : List TableConfig) (w : Walk)
      → open_count known w.state + 1 ≤ fuel
      → IsReady deps (reset w)
      → Outcome deps (IsFinished ts w) (visit_tables deps fuel ts w)
  unfolding visit_tables
  tables-Outcome fuel [] w room v =
      returns w refl (record { advances = λ m. inl refl; done = λ t h. elim h [ ]; ready = v })
  tables-Outcome fuel (t ∷ ts) w room v = elim (Mark-cases (w.state t.name)) [
    | inl fresh ↦ elim (visit-Outcome deps known inside fuel t.name (reset w) room v tt) [
      | reports p e c ↦ reports p (rw (fresh, e, visit_tables)) c
      | returns w' e l ↦
          elim (tables-Outcome fuel ts w'
            (omega (arith, open_count-Advances known w.state w'.state l.advances))
            (reset-IsReady w' l.same_path l.ready)) [
              | reports p e' c ↦ reports p (rw (fresh, e, visit_tables) e') c
              | returns w'' e' f ↦
                  returns w'' (rw (fresh, e, visit_tables) e')
                    (finished t ts w w' w'' l.advances l.done f)
            ]
    ]
    | inr old ↦ elim (tables-Outcome fuel ts w room v) [
      | reports p e c ↦ reports p (skip t ts w fuel old e) c
      | returns w' e f ↦
          returns w' (skip t ts w fuel old e) (finished t ts w w w' (λ m. inl refl) (marked old) f)
    ]
  ]
    where
      marked : (w.state t.name ≡ visiting) ⊎ (w.state t.name ≡ visited) → w.state t.name ≡ visited
      marked (inl e) = absurd (v.tracked t.name e)
      marked (inr e) = e
