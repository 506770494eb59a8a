-- ===== src/Provisioner/Schema.antt =====
-- The schema of an app, the grants on it and its system tables: internal/provisioner/schema.go, auth.go
-- and storage.go. Statements are written on one line, with single blanks.
use zeep_orbit.Prelude.{
  String, Bool, true, false, List, [], ◌∷◌, ◌++◌, Result, ok, err, if◌then◌else◌, length, eqb, ◌&&◌,
}
use zeep_orbit.Prelude.Text.{cat, concat}
use zeep_orbit.Prelude.Text.Quoting.{quote}
use zeep_orbit.Provisioner.Policy.Build.{enduser_role}
use zeep_orbit.Provisioner.Ddl.{
  Server, Ddl, DdlError, DbError, wrapped, within, ◌>>=◌, ◌>>◌, give, execute, read_as, qualified,
}
use zeep_orbit.Provisioner.Ddl.Lock.{with_app_lock}

unfoldable pub grant_statements : String → List String
unfolding quote
grant_statements schema_name =
    concat (
      "DO $do$ BEGIN IF NOT EXISTS (SELECT 1 FROM pg_roles WHERE rolname = '" ∷ enduser_role
      ∷ "') THEN CREATE ROLE " ∷ enduser_role ∷ " NOSUPERUSER NOBYPASSRLS NOLOGIN; END IF; END $do$"
      ∷ [])
    ∷ concat ("GRANT USAGE ON SCHEMA " ∷ quote schema_name ∷ " TO " ∷ enduser_role ∷ [])
    ∷ concat (
        "GRANT SELECT, INSERT, UPDATE, DELETE ON ALL TABLES IN SCHEMA "
        ∷ quote schema_name
        ∷ " TO "
        ∷ enduser_role
        ∷ [])
    ∷ concat (
        "ALTER DEFAULT PRIVILEGES IN SCHEMA "
        ∷ quote schema_name
        ∷ " GRANT SELECT, INSERT, UPDATE, DELETE ON TABLES TO "
        ∷ enduser_role
        ∷ [])
    ∷ []

abbrev pub auth_user_columns : List String
auth_user_columns =
    "phone" ∷ "email_confirmed_at" ∷ "last_sign_in_at" ∷ "active" ∷ "provider" ∷ "google_id"
    ∷ "role" ∷ []

abbrev add_auth_column : String → String → String
add_auth_column schema_name column = concat (
    "ALTER TABLE " ∷ quote schema_name ∷ ".\"_auth_users\" ADD COLUMN IF NOT EXISTS " ∷ column ∷ [])

unfoldable pub auth_user_alters : String → List String
unfolding quote
auth_user_alters schema_name =
    add_auth_column schema_name "\"phone\" TEXT"
    ∷ add_auth_column schema_name "\"email_confirmed_at\" TIMESTAMPTZ"
    ∷ add_auth_column schema_name "\"last_sign_in_at\" TIMESTAMPTZ"
    ∷ add_auth_column schema_name "\"active\" BOOLEAN NOT NULL DEFAULT true"
    ∷ add_auth_column schema_name "\"provider\" TEXT NOT NULL DEFAULT 'email'"
    ∷ add_auth_column schema_name "\"google_id\" TEXT"
    ∷ add_auth_column schema_name "\"role\" TEXT NOT NULL DEFAULT 'member'"
    ∷ concat (
        "CREATE INDEX IF NOT EXISTS "
        ∷ quote (cat schema_name "_auth_users_email_idx")
        ∷ " ON "
        ∷ quote schema_name
        ∷ ".\"_auth_users\" (\"email\")"
        ∷ [])
    ∷ []

unfoldable pub users_ddl : String → String
unfolding quote
users_ddl schema_name = concat (
    "CREATE TABLE IF NOT EXISTS "
    ∷ quote schema_name
    ∷ ".\"_auth_users\" ( \"id\" UUID PRIMARY KEY DEFAULT gen_random_uuid(), \"email\" TEXT NOT NULL UNIQUE, \"phone\" TEXT, \"password_hash\" TEXT NOT NULL, \"name\" TEXT, \"avatar_url\" TEXT, \"email_confirmed_at\" TIMESTAMPTZ, \"last_sign_in_at\" TIMESTAMPTZ, \"provider\" TEXT NOT NULL DEFAULT 'email', \"google_id\" TEXT, \"created_at\" TIMESTAMPTZ NOT NULL DEFAULT now(), \"updated_at\" TIMESTAMPTZ NOT NULL DEFAULT now() )"
    ∷ [])

unfoldable pub sessions_ddl : String → String
unfolding quote
sessions_ddl schema_name = concat (
    "CREATE TABLE IF NOT EXISTS "
    ∷ quote schema_name
    ∷ ".\"_auth_sessions\" ( \"id\" UUID PRIMARY KEY DEFAULT gen_random_uuid(), \"user_id\" UUID NOT NULL REFERENCES "
    ∷ quote schema_name
    ∷ ".\"_auth_users\"(\"id\") ON DELETE CASCADE, \"refresh_token\" TEXT NOT NULL UNIQUE, \"expires_at\" TIMESTAMPTZ NOT NULL, \"created_at\" TIMESTAMPTZ NOT NULL DEFAULT now() )"
    ∷ [])

unfoldable pub files_ddl : String → String
unfolding quote
files_ddl schema_name = concat (
    "CREATE TABLE IF NOT EXISTS "
    ∷ quote schema_name
    ∷ ".\"_files\" ( \"id\" UUID PRIMARY KEY DEFAULT gen_random_uuid(), \"name\" TEXT NOT NULL, \"size\" BIGINT NOT NULL, \"mime_type\" TEXT NOT NULL DEFAULT 'application/octet-stream', \"key\" TEXT NOT NULL UNIQUE, \"owner_id\" UUID, \"created_at\" TIMESTAMPTZ NOT NULL DEFAULT now() )"
    ∷ [])

-- A table that was created, as the report names it.
abbrev listed : Bool → String → List String
listed true name = name ∷ []
listed false name = []

module _ (server : Server) where
  open server use {State, read_flag, read_presence}

  -- The loop over statements, with the error of one.
  unfoldable pub run_all : (String → DbError → DdlError) → List String → Ddl State (Unit {0})
  run_all failed [] = give tt
  run_all failed (sql ∷ stmts) = do execute server (failed sql) sql []; run_all failed stmts

  unfoldable pub grant_enduser_schema_access : String → Ddl State (Unit {0})
  unfolding run_all grant_statements quote
  grant_enduser_schema_access schema_name =
      run_all (λ sql. wrapped (concat ("schema: grant enduser access " ∷ quote schema_name ∷ [])))
        (grant_statements schema_name)

  -- True if the schema was created. `locked` is that of the provisioner.
  unfoldable pub create_schema : Bool → String → Ddl State Bool
  unfolding grant_enduser_schema_access with_app_lock quote
  create_schema locked schema_name = do
    exists ← λ s.
        read_as (wrapped (concat ("schema: check existence " ∷ quote schema_name ∷ []))) s (
          read_flag "SELECT EXISTS(SELECT 1 FROM pg_namespace WHERE nspname = $1)"
            (schema_name ∷ []) s)
    (if exists
        then (do
          with_app_lock server locked schema_name (grant_enduser_schema_access schema_name)
          give false)
        else (do
          execute server (wrapped (concat ("schema: create " ∷ quote schema_name ∷ [])))
              (concat ("CREATE SCHEMA IF NOT EXISTS " ∷ quote schema_name ∷ [])) []
          grant_enduser_schema_access schema_name
          give true))

  abbrev backfilled :
      String
      → (State → State × List DdlError)
      → State × Result DdlError (Unit {0})
      → State × List DdlError
  backfilled schema_name rest (s, ok a) = rest s
  backfilled schema_name rest (s, err e) =
      let (s', errs) = rest s in
      (
        s',
        within (concat ("provisioner: backfill enduser grants " ∷ quote schema_name ∷ [])) e ∷ errs,
      )

  -- A schema that fails does not stop the others.
  unfoldable pub backfill_enduser_grants : Bool → List String → State → State × List DdlError
  unfolding grant_enduser_schema_access with_app_lock quote
  backfill_enduser_grants locked [] s = (s, [])
  backfill_enduser_grants locked (schema_name ∷ names) s =
      backfilled schema_name (backfill_enduser_grants locked names)
        (with_app_lock server locked schema_name (grant_enduser_schema_access schema_name) s)

  unfoldable pub create_auth_table : String → String → String → Ddl State Bool
  unfolding qualified
  create_auth_table schema_name table ddl = do
    exists ← λ s.
        read_as
          (wrapped (concat ("auth table: check existence " ∷ qualified schema_name table ∷ []))) s
          (read_flag
            "SELECT EXISTS(SELECT 1 FROM information_schema.tables WHERE table_schema = $1 AND table_name = $2)"
            (schema_name ∷ table ∷ []) s)
    (if exists then give false else (do
      execute server (wrapped (concat ("auth table: create " ∷ qualified schema_name table ∷ [])))
          ddl []
      give true))

  unfoldable pub add_missing_auth_user_columns : String → Ddl State (Unit {0})
  unfolding run_all auth_user_alters quote
  add_missing_auth_user_columns schema_name =
      run_all (λ sql. wrapped (concat ("auth migration " ∷ quote sql ∷ [])))
        (auth_user_alters schema_name)

  -- False where the read fails: then the columns are added. The second argument of the query is the
  -- list of the columns.
  unfoldable pub auth_user_columns_present : String → State → Result DbError Bool
  auth_user_columns_present schema_name s =
      elim (read_presence
        "SELECT (SELECT count(*) FROM information_schema.columns WHERE table_schema = $1 AND table_name = '_auth_users' AND column_name = ANY($2)), EXISTS (SELECT 1 FROM pg_indexes WHERE schemaname = $1 AND indexname = $3)"
        ((schema_name ∷ auth_user_columns) ++ cat schema_name "_auth_users_email_idx" ∷ []) s) [
          | err e ↦ err e
          | ok found ↦ ok (eqb found.0 (length auth_user_columns) && found.1)
        ]

  -- The locked body runs only where something is missing.
  unfoldable pub ensure_auth_user_columns : Bool → String → Ddl State (Unit {0})
  unfolding auth_user_columns_present with_app_lock add_missing_auth_user_columns
  ensure_auth_user_columns locked schema_name s = elim (auth_user_columns_present schema_name s) [
    | ok true ↦ (s, ok tt)
    | other ↦ with_app_lock server locked schema_name (add_missing_auth_user_columns schema_name) s
  ]

  unfoldable pub provision_auth_tables : String → Ddl State (List String)
  unfolding create_auth_table add_missing_auth_user_columns users_ddl sessions_ddl
  provision_auth_tables schema_name = do
    users ← create_auth_table schema_name "_auth_users" (users_ddl schema_name)
    add_missing_auth_user_columns schema_name
    sessions ← create_auth_table schema_name "_auth_sessions" (sessions_ddl schema_name)
    give (
        listed users (cat schema_name "._auth_users")
        ++ listed sessions (cat schema_name "._auth_sessions"))

  unfoldable pub provision_storage_tables : String → Ddl State (List String)
  unfolding files_ddl quote
  provision_storage_tables schema_name = do
    exists ← λ s.
        read_as (wrapped (concat ("storage: check _files existence " ∷ quote schema_name ∷ []))) s (
          read_flag
            "SELECT EXISTS(SELECT 1 FROM information_schema.tables WHERE table_schema = $1 AND table_name = '_files')"
            (schema_name ∷ []) s)
    (if exists then give [] else (do
      execute server (wrapped (concat ("storage: create _files in " ∷ quote schema_name ∷ [])))
          (files_ddl schema_name) []
      give (cat schema_name "._files" ∷ [])))
