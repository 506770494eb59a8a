-- ===== src/Provisioner/Ddl/Lock.antt =====
-- The per-app DDL lock: internal/provisioner/ddl_lock.go and internal/db/ddl_lock.go.
use zeep_orbit.Prelude.{
  String, Bool, true, false, Option, none, some, [], ◌∷◌, Result, ok, err, ◌==◌, if◌then◌else◌, not,
  ◌&&◌,
}
use zeep_orbit.Prelude.Text.{concat, cat}
use zeep_orbit.Prelude.Text.Quoting.{quote}
use zeep_orbit.Provisioner.Ddl.{
  Server, Ddl, DdlError, DbError, pg_error, wrapped, within, unsorted, plain, refused, type_change,
  foreign_key_violation, enum_value_in_use, column_constraint, ddl_lock_timeout, execute, finish,
  ◌>>◌,
}

-- The chain of `Unwrap` down to the error of the database.
unfoldable pub root_cause : DdlError → Option DbError
root_cause (wrapped message cause) = some cause
root_cause (within message e) = root_cause e
root_cause (unsorted e) = none
root_cause (plain cause) = some cause
root_cause (refused message) = none
root_cause (type_change e) = e.cause
root_cause (foreign_key_violation e) = some e.cause
root_cause (enum_value_in_use e) = none
root_cause (column_constraint e) = e.cause
root_cause (ddl_lock_timeout schema_name e) = root_cause e

unfoldable pub has_code : String → Option DbError → Bool
has_code code (some (pg_error c detail)) = c == code
has_code code _ = false

-- `errors.Is(err, ErrDDLLockTimeout)`
unfoldable pub is_tagged : DdlError → Bool
is_tagged (ddl_lock_timeout schema_name e) = true
is_tagged (within message e) = is_tagged e
is_tagged _ = false

unfoldable pub is_lock_timeout : DdlError → Bool
unfolding has_code root_cause
is_lock_timeout e = has_code "55P03" (root_cause e)

unfoldable pub wrap_lock_timeout : String → DdlError → DdlError
unfolding is_lock_timeout is_tagged
wrap_lock_timeout schema_name e =
    if is_lock_timeout e && not (is_tagged e) then ddl_lock_timeout schema_name e else e

-- The error is wrapped, the state is not touched.
unfoldable pub tagged : {S A : Type 0} → String → S × Result DdlError A → S × Result DdlError A
unfolding wrap_lock_timeout
tagged schema_name (s, ok a) = (s, ok a)
tagged schema_name (s, err e) = (s, err (wrap_lock_timeout schema_name e))

module _ (server : Server) where
  open server use {State, begin}

  unfoldable pub lock_app_ddl : String → Ddl State (Unit {0})
  lock_app_ddl schema_name = do
    execute server (wrapped "db: set lock_timeout") "SET LOCAL lock_timeout = '5000ms'" []
    execute server (wrapped (concat ("db: lock app ddl " ∷ schema_name ∷ [])))
        "SELECT pg_advisory_xact_lock(hashtextextended($1, 0))"
        (cat "zeep-orbit-ddl:" schema_name ∷ [])

  -- The transaction, once `Begin` has answered.
  abbrev pub begun :
      {A : Type 0} → String → Ddl State A → State → Option DbError → State × Result DdlError A
  begun schema_name fn s (some e) = (
    s,
    err (wrapped (concat ("provisioner: begin ddl transaction for " ∷ quote schema_name ∷ [])) e),
  )
  begun schema_name fn s none = tagged schema_name (
      finish server
        (wrapped (concat ("provisioner: commit ddl transaction for " ∷ quote schema_name ∷ []))) s
        ((do lock_app_ddl schema_name; fn) s))

  -- `locked` is that of the provisioner: its transaction holds the lock already.
  unfoldable pub with_app_lock : {A : Type 0} → Bool → String → Ddl State A → Ddl State A
  unfolding lock_app_ddl tagged quote
  with_app_lock true schema_name fn s = fn s
  with_app_lock false schema_name fn s = begun schema_name fn s (begin s)
