-- ===== src/Provisioner/Apply/Atomic.antt =====
-- Apps that fail leave nothing behind.
use zeep_orbit.Prelude.{
  String, false, none, some, List, [], ◌∷◌, ◌++◌, Result, ok, err, ◌≡◌, refl, ap, Option,
}
use zeep_orbit.Config.{AppConfig}
use zeep_orbit.Provisioner.Ddl.{Server, Ddl, DbError, DdlError, committed, finish, proceed, give}
use zeep_orbit.Provisioner.Ddl.Lock.{tagged, begun, with_app_lock}
use zeep_orbit.Provisioner.Apply.{
  Report, no_changes, merge, apply_locked, apply, apply_app, schema_name_of,
}

-- An error with the state as it was, or a result.
abbrev pub IsAtomic : {S A : Type 0} → S → S × Result DdlError A → Type 0
IsAtomic s (s', err e) = s' ≡ s
IsAtomic s (s', ok a) = Unit

tagged-IsAtomic :
    {S A : Type 0} (schema_name : String) (s : S) (r : S × Result DdlError A)
    → IsAtomic s r
    → IsAtomic s (tagged schema_name r)
unfolding tagged
tagged-IsAtomic schema_name s (s', ok a) h = tt
tagged-IsAtomic schema_name s (s', err e) h = h

module _ (server : Server) where
  open server use {State, begin, commit}

  committed-IsAtomic :
      {A : Type 0} (failed : DbError → DdlError) (s : State) (a : A) (r : Result DbError State)
      → IsAtomic s (committed server failed s a r)
  committed-IsAtomic failed s a (ok done) = tt
  committed-IsAtomic failed s a (err e) = refl

  finish-IsAtomic :
      {A : Type 0} (failed : DbError → DdlError) (s : State) (r : State × Result DdlError A)
      → IsAtomic s (finish server failed s r)
  finish-IsAtomic failed s (s', err e) = refl
  finish-IsAtomic failed s (s', ok a) = committed-IsAtomic failed s a (commit s')

  begun-IsAtomic :
      {A : Type 0} (schema_name : String) (fn : Ddl State A) (s : State) (o : Option DbError)
      → IsAtomic s (begun server schema_name fn s o)
  begun-IsAtomic schema_name fn s (some e) = refl
  begun-IsAtomic schema_name fn s none =
      tagged-IsAtomic schema_name s (finish server _ s _) (finish-IsAtomic _ s _)

  with_app_lock-IsAtomic :
      {A : Type 0} (schema_name : String) (fn : Ddl State A) (s : State)
      → IsAtomic s (with_app_lock server false schema_name fn s)
  unfolding with_app_lock
  with_app_lock-IsAtomic schema_name fn s = begun-IsAtomic schema_name fn s (begin s)

module _ (server : Server) (digest : String → String) where
  open server use {State}

  -- Why the rest was not applied: there is none, or its first app fails and leaves the state.
  abbrev pub Stopped : List AppConfig → State → Result DdlError Report → Report → Type 0
  Stopped [] s r report = r ≡ ok report
  Stopped (app ∷ later) s r report =
      (e : DdlError) × (apply_locked server digest app s ≡ (s, err e)) × (r ≡ err e)

  -- The outcome is that of a prefix of the apps, and then `Stopped`.
  abbrev pub IsPrefixApplied : List AppConfig → State → State × Result DdlError Report → Type 0
  IsPrefixApplied apps s (s', r) =
      (done : List AppConfig) × (rest : List AppConfig) × (report : Report) × (apps ≡ done ++ rest)
      × (apply server digest done s ≡ (s', ok report))
      × Stopped rest s' r report

  abbrev merged : Report → Result DdlError Report → Result DdlError Report
  merged report (ok more) = ok (merge report more)
  merged report (err e) = err e

  Stopped-merged :
      (first : Report) (rest : List AppConfig) (s : State) (r : Result DdlError Report)
      (report : Report)
      → Stopped rest s r report
      → Stopped rest s (merged first r) (merge first report)
  Stopped-merged first [] s r report h = ap (merged first) h
  Stopped-merged first (app ∷ later) s r report (e, q, h) = (e, q, ap (merged first) h)

  -- One app more in front, which was applied.
  extend :
      (app : AppConfig) (first : Report) (apps : List AppConfig) (s s1 : State)
      (y : State × Result DdlError Report)
      → apply_locked server digest app s ≡ (s1, ok first)
      → IsPrefixApplied apps s1 y
      → IsPrefixApplied (app ∷ apps) s (proceed (λ report. give (merge first report)) y)
  unfolding apply
  extend app first apps s s1 (s2, ok more) q (done, rest, report, e, f, h) = (
    app ∷ done,
    rest,
    merge first report,
    ap (λ (l : List AppConfig). app ∷ l) e,
    rw (q, f) refl,
    Stopped-merged first rest s2 (ok more) report h,
  )
  extend app first apps s s1 (s2, err e0) q (done, rest, report, e, f, h) = (
    app ∷ done,
    rest,
    merge first report,
    ap (λ (l : List AppConfig). app ∷ l) e,
    rw (q, f) refl,
    Stopped-merged first rest s2 (err e0) report h,
  )

  -- An app in front, whose run is atomic.
  first_app :
      (app : AppConfig) (apps : List AppConfig) (s : State) (x : State × Result DdlError Report)
      → apply_locked server digest app s ≡ x
      → IsAtomic s x
      → ((s1 : State) → IsPrefixApplied apps s1 (apply server digest apps s1))
      → IsPrefixApplied (app ∷ apps) s (apply server digest (app ∷ apps) s)
  unfolding apply
  first_app app apps s (s1, ok first) q h ih =
      rw q (extend app first apps s s1 (apply server digest apps s1) q (ih s1))
  first_app app apps s (s1, err e) q h ih =
      rw q ([], app ∷ apps, no_changes, refl, rw h refl, (e, rw h (rw h at q), refl))

  -- Whatever comes of Apply, the state is the one that it reaches without an error on a prefix of the
  -- apps: on all of them if it returns no error, and otherwise on those before an app whose own run, in
  -- that state, gives the error that Apply returns and leaves the state. No app is left half changed.
  pub apply-IsPrefixApplied :
      (apps : List AppConfig) (s : State) → IsPrefixApplied apps s (apply server digest apps s)
  unfolding apply apply_locked
  apply-IsPrefixApplied [] s = ([], [], no_changes, refl, refl, refl)
  apply-IsPrefixApplied (app ∷ apps) s =
      let name = schema_name_of app in
      first_app app apps s (apply_locked server digest app s) refl
        (with_app_lock-IsAtomic server name (apply_app server digest app name) s)
        (λ s1. apply-IsPrefixApplied apps s1)
