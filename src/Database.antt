-- ===== src/Database.antt =====
-- The database as the request path uses it: WithRLSContext of internal/db/client.go. The server and
-- pgx are a parameter: a transaction is a run of statements on a state, which an error throws away.
use zeep_orbit.Prelude.Int.{ℤ, pos, negsuc}
use zeep_orbit.Prelude.{
  ℕ, zero, suc, String, Option, none, some, List, [], ◌∷◌, Result, ok, err, ◌>>=◌,
}
use zeep_orbit.Prelude.Text.{concat}
use zeep_orbit.Prelude.Text.Numbers.{itoa}
use zeep_orbit.Provisioner.Policy.Build.{enduser_role}
use zeep_orbit.Query.{Value, text}

-- A row is its columns, with a uuid as its text.
abbrev pub DbRow : Type 0
DbRow = List (String × Value)

-- A commit that fails leaves the state as it was.
pub record Database : Type 1 where
  pub State : Type 0
  pub begin : State → Option String
  pub exec : String → List Value → State → Result String (State × ℕ)
  pub query : String → List Value → State → Result String (State × List DbRow)
  pub commit : State → Result String State

pub record RlsClaims : Type 0 where
  pub role : String
  pub sub : String
  pub email : String

-- `fn` may fail with errors of its own, into which `failed` puts those of the database.
unfoldable pub lift : {E A : Type 0} → (String → E) → Result String A → Result E A
lift failed (ok a) = ok a
lift failed (err e) = err (failed e)

module _ (db : Database) where
  open db use {State, begin, exec, query, commit}

  -- `if _, err := tx.Exec(…); err != nil { return err }`
  unfoldable pub run : String → List Value → State → Result String State
  run sql args s = do (s', affected) ← exec sql args s; ok s'

  -- `if timeoutMs > 0`
  unfoldable pub set_timeout : ℤ → State → Result String State
  unfolding run itoa
  set_timeout (pos zero) s = ok s
  set_timeout (pos (suc n)) s =
      run (concat ("SET LOCAL statement_timeout = " ∷ itoa (suc n) ∷ [])) [] s
  set_timeout (negsuc n) s = ok s

  -- The loop over `gucs`.
  unfoldable pub set_claims : List (String × String) → State → Result String State
  unfolding run
  set_claims [] s = ok s
  set_claims ((name, val) ∷ gucs) s = do
    s' ← run "SELECT set_config($1, $2, true)" (text name ∷ text val ∷ []) s
    set_claims gucs s'

  -- What comes before `fn`.
  unfoldable pub enter_role : RlsClaims → ℤ → State → Result String State
  unfolding set_timeout set_claims run
  enter_role claims timeout_ms s = do
    s1 ← set_timeout timeout_ms s
    s2 ← run (concat ("SET LOCAL ROLE " ∷ enduser_role ∷ [])) [] s1
    set_claims
        (("app.jwt_role", claims.role)
          ∷ ("app.jwt_sub", claims.sub)
          ∷ ("app.jwt_email", claims.email)
          ∷ [])
        s2

  unfoldable pub with_rls_context :
      {E A : Type 0}
      → (String → E)
      → RlsClaims
      → ℤ
      → (State → Result E (State × A))
      → State
      → Result E (State × A)
  unfolding enter_role lift
  with_rls_context failed claims timeout_ms fn s = elim (begin s) [
    | some e ↦ err (failed e)
    | none ↦ do
      entered ← lift failed (enter_role claims timeout_ms s)
      (done, a) ← fn entered
      s' ← lift failed (commit done)
      ok (s', a)
  ]
