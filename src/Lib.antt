-- ===== src/Lib.antt =====
-- Zeep Orbit serves apps from declared schemas: a request is turned into SQL on the app's tables, and
-- a change of the schema into DDL. The development models the parts that decide what is sent to
-- Postgres, and the cache that decides whether a token is still accepted.
--
-- - Config: internal/config. The schema types of types.go, the RLS predicates of rls.go (Rls), the
--   search for cycles of references, detectReferenceCycle of validate.go (Cycle), and the rest of
--   validate.go, ValidateTables (Validate).
-- - Provisioner: internal/provisioner. The creation order of the tables, topoSortTables of topsort.go
--   (Topsort), the column types, pgType of table.go (Types), and BuildPolicySQL of policy.go (Policy).
--   The DDL: how statements run and the per-app lock of ddl_lock.go (Ddl), the text of columns (Columns),
--   the tables of table.go and index.go (Table), renames and type changes of migration.go (Migration),
--   column_constraints.go (Constraints), foreign keys (ForeignKeys), enum values (EnumValues), the
--   schema with its system tables (Schema), and Apply of provisioner.go with the operations that are
--   locked (Apply).
-- - PolicyTemplates: internal/policytemplates/templates.go, and buildTemplatePolicies of
--   internal/mcpserver/tools.go, whose policies go to BuildPolicySQL.
-- - Registry: internal/registry. The apps, their tables and the operations of registry.go, and the
--   sync with the database of syncer.go (Syncer), with the misses that it answers (Misses) and one pod
--   among the others as interleaved steps (Pods).
-- - RateLimit: the sliding window of internal/auth/ratelimit.go (SignIn), and the fixed windows and the
--   middleware of internal/server/ratelimit.go (PerApp).
-- - Query: internal/query/builder.go. BuildList (Select), with operatorMap (Operators), the checks of
--   values (Values), the loop that INSERT and UPDATE share (Assignments), BuildInsertWithOptions
--   (Insert), BuildUpdate (Update), and BuildGetByID and BuildDelete (ById).
-- - TokenCache: internal/tokencache/tokencache.go, and its callers in internal/server/middleware.go
--   and internal/dashboard/app_tokens_store.go as interleaved steps (Requests).
-- - Dashboard: the platform's permissions of internal/dashboard/platform_roles.go (Roles), and the
--   members of apps, internal/dashboard/app_members_store.go with ResolveAppRole of rbac.go (Members).
-- - Database: WithRLSContext of internal/db/client.go, over a database that is a parameter.
-- - Webhooks: internal/webhookengine/mapping.go (Mapping), the tables of the webhooks and their limiter
--   in internal/dashboard (Store), and the public route of internal/server/webhook_handler.go
--   (Delivery), from the lookup and the token (Handle) through the event (Active) to the write
--   (Dispatch), which are the statements of Query. The management of webhooks and mappings by
--   webhooks_store.go, and its runs among deliveries (Manage).
-- - Prelude: shared types, tests, lists, Go's results, and what is used of strings, strconv and fmt.
-- - Examples: concrete inputs of the theorems.
--
-- A function that returns an error is a function into Result, whose errors are constructors with what
-- the message names. A Go map that is ranged over is the list of its entries in the order in which
-- they come, so that the theorems hold for every order; a map that is read is a function or an
-- association list. An `any` from JSON is a Value; a float64 is a numerator over a power of two. A
-- text is a list of code points.
--
-- The search for cycles is recursive without a bound in the source: it has the number of the tables
-- plus one as fuel, and the loop of the sort has one step for each table. Both are proved to have a
-- result. The generation of the token cache is a uint64 and wraps around; its theorem is about runs
-- in which it does not. The generation of the registry is one too, and the steps of
-- Registry.Syncer.Pods stop short of its end.
--
-- Parameters: strconv.ParseFloat, time.Parse and json.Valid in Config.Validate, and time.Parse and
-- the Scan of pgtype.Timestamptz in Query.Values, each by whether it
-- succeeds; net.SplitHostPort in RateLimit.PerApp.Middleware; what the
-- database answers to a sync, where the load of a snapshot is several queries without a transaction,
-- and what it gives is known only if nothing was committed since the version was read; what the
-- handlers of a pod register, and when, in Registry.Syncer.Pods; the database itself in Database and in Webhooks.Delivery, whose `Faults`
-- say what fails during a run; and decryption, encoding/json and fmt.Sprint there; in
-- Provisioner.Ddl the server, whose statements change nothing when they fail, and SHA-256 in
-- Provisioner.Migration. SQL is written on one line, with single blanks. Not modelled: HTTP
-- handlers, the other SQL stores of the dashboard, deployment, storage, and the clients, which are I/O.
pub mod Prelude
pub mod Config
pub mod Provisioner
pub mod PolicyTemplates
pub mod Registry
pub mod Query
pub mod TokenCache
pub mod RateLimit
pub mod Webhooks
pub mod Database
pub mod Dashboard
pub mod Examples
