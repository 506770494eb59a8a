-- ===== src/Webhooks/Delivery/Dispatch.antt =====
-- The write of an event: dispatchInsert and dispatchUpdateOrDelete.
use zeep_orbit.Prelude.{
  String, Bool, Option, none, some, List, [], ◌∷◌, Result, ok, err, ◌>>=◌, ◌==◌, lookup, eqb,
  if◌then◌else◌,
}
use zeep_orbit.Prelude.Text.{concat}
use zeep_orbit.Database.{Database, DbRow, RlsClaims, lift, with_rls_context}
use zeep_orbit.Registry.{App, Table, Column}
use zeep_orbit.Query
use zeep_orbit.Query.{Value, QueryError, WriteQuery, pg_cast}
use zeep_orbit.Query.Insert.{build_insert}
use zeep_orbit.Query.Update.{build_update}
use zeep_orbit.Query.ById.{build_delete}
use zeep_orbit.Webhooks.{Json, to_value}
use zeep_orbit.Webhooks.Store.{
  EventMappingRow, no_detail, message, query_error, no_match_key, match_key_not_mapped,
  ambiguous_key,
}
use zeep_orbit.Webhooks.Delivery.{
  Packages, Faults, WebhookState, Response, respond, error, status_only, affected, Event,
  log_delivery, log_delivery_with_target, write_error,
}

-- The errors of the closure that is given to WithRLSContext.
pub data DispatchError : Type 0 where
  row_not_found : DispatchError
  ambiguous_match : DispatchError
  failed : String → DispatchError
  rejected : QueryError → DispatchError

-- The event's app, table and mapping, and the resolved columns.
pub record Target : Type 0 where
  pub app : App
  pub table : Table
  pub mapping : EventMappingRow
  pub resolved : List (String × Json)

-- `targetRowID` and `outcome`.
pub record Changed : Type 0 where
  pub row_id : String
  pub outcome : String

abbrev pub webhook_claims : String → RlsClaims
webhook_claims id = record { role = "webhook"; sub = id; email = "" }

-- The map as the query builder takes it.
unfoldable pub to_body : (Json → String) → List (String × Json) → List (String × Value)
unfolding to_value
to_body marshal [] = []
to_body marshal ((column, v) ∷ resolved) = (column, to_value marshal v) ∷ to_body marshal resolved

-- `sanitizeRow(row)["id"].(string)`, "" where it is no text.
unfoldable pub row_id : DbRow → String
unfolding lookup
row_id row = elim (lookup "id" row) [ some (Query.text id) ↦ id | some _ ↦ "" | none ↦ "" ]

-- `pgx.RowTo[string]` on the row's only column, which is a uuid.
unfoldable pub row_ids : List DbRow → List String
unfolding row_id
row_ids [] = []
row_ids (row ∷ rows) = row_id row ∷ row_ids rows

unfoldable pub match_column_cast : List Column → String → String
unfolding pg_cast
match_column_cast [] column = ""
match_column_cast (c ∷ cs) column =
    if c.name == column then pg_cast c.type else match_column_cast cs column

unfoldable pub lookup_sql : Target → String → Bool → String
unfolding match_column_cast
lookup_sql t match_column soft_delete = concat (
    "SELECT id FROM "
    ∷ t.app.schema_name
    ∷ "."
    ∷ t.mapping.target_table
    ∷ " WHERE "
    ∷ match_column
    ∷ " = $1"
    ∷ match_column_cast t.table.columns match_column
    ∷ (if soft_delete then " AND deleted_at IS NULL" else "")
    ∷ " LIMIT 2"
    ∷ [])

-- `len(matchedIDs)` of 0, 1 or more.
unfoldable pub only_row : List String → Result DispatchError String
only_row [] = err row_not_found
only_row (id ∷ []) = ok id
only_row (id ∷ other ∷ ids) = err ambiguous_match

-- `pgx.CollectOneRow`, with ErrNoRows as an error of its own.
unfoldable pub first_row : {E : Type 0} → E → List DbRow → Result E DbRow
first_row no_rows [] = err no_rows
first_row no_rows (row ∷ rows) = ok row

unfoldable pub build : Result QueryError WriteQuery → Result DispatchError WriteQuery
build (ok q) = ok q
build (err e) = err (rejected e)

module _ (db : Database) (packages : Packages) (faults : Faults) where
  -- The case "update": the state, the row's id and the outcome.
  unfoldable pub update_row : Target → String → db.State → Result DispatchError (db.State × Changed)
  unfolding build build_update to_body first_row row_id lift
  update_row t id s = do
    q ← build (
        build_update packages.time t.app.schema_name t.mapping.target_table t.table id
          (to_body packages.marshal t.resolved) "")
    (s', rows) ← lift failed (db.query q.sql q.args s)
    row ← first_row row_not_found rows
    ok (s', record { row_id = row_id row; outcome = "updated" })

  unfoldable pub delete_row :
      Target → Bool → String → db.State → Result DispatchError (db.State × Changed)
  unfolding build_delete lift
  delete_row t soft_delete id s = do
    let q = build_delete t.app.schema_name t.mapping.target_table id "" soft_delete
    (s', count) ← lift failed (db.exec q.sql q.args s)
    (if eqb count 0
        then err row_not_found
        else ok (s', record { row_id = id; outcome = "deleted" }))

  -- The closure. `SaveEventMapping` stores no other action, and for another the code commits with no
  -- row and no outcome.
  unfoldable pub change_row :
      Target → String → Json → Bool → db.State → Result DispatchError (db.State × Changed)
  unfolding lookup_sql row_ids only_row update_row delete_row lift to_value
  change_row t match_column match_value soft_delete s = do
    (s1, rows) ← lift failed (
        db.query (lookup_sql t match_column soft_delete)
          (to_value packages.marshal match_value ∷ []) s)
    id ← only_row (row_ids rows)
    (if t.mapping.action == "update"
        then update_row t id s1
        else if t.mapping.action == "delete"
        then delete_row t soft_delete id s1
        else ok (s1, record { row_id = ""; outcome = "" }))

  -- What follows the transaction.
  unfoldable pub finish_change :
      Event
      → Target
      → String
      → Result DispatchError (db.State × Changed)
      → WebhookState db.State
      → WebhookState db.State × Response
  unfolding log_delivery log_delivery_with_target write_error
  finish_change e t match_column (ok (rows, changed)) s = (
    log_delivery_with_target faults e.webhook.id 200 changed.outcome e.raw_payload
        e.event_type_value e.event_id changed.row_id no_detail (record s { rows = rows }),
    respond 200 (affected changed.outcome changed.row_id),
  )
  finish_change e t match_column (err row_not_found) s = (
    log_delivery faults e.webhook.id 200 "row_not_found" e.raw_payload e.event_type_value e.event_id
        no_detail s,
    respond 200 (status_only "row_not_found"),
  )
  finish_change e t match_column (err ambiguous_match) s = (
    log_delivery faults e.webhook.id 409 "ambiguous_match" e.raw_payload e.event_type_value
        e.event_id (ambiguous_key match_column t.mapping.target_table) s,
    respond 409 (error "match key is ambiguous: matched more than one row"),
  )
  finish_change e t match_column (err (failed text)) s = write_error faults e (message text) s
  finish_change e t match_column (err (rejected q)) s = write_error faults e (query_error q) s

  unfoldable pub change_by_key :
      Event
      → Target
      → String
      → Option Json
      → WebhookState db.State
      → WebhookState db.State × Response
  unfolding write_error finish_change change_row with_rls_context
  change_by_key e t match_column none s = write_error faults e (match_key_not_mapped match_column) s
  change_by_key e t match_column (some v) s =
      finish_change e t match_column
        (with_rls_context db failed (webhook_claims e.webhook.id)
          s.system_config.statement_timeout_ms
          (change_row t match_column v s.system_config.soft_delete_enabled) s.rows)
        s

  unfoldable pub dispatch_update_or_delete :
      Event → Target → WebhookState db.State → WebhookState db.State × Response
  unfolding write_error change_by_key lookup
  dispatch_update_or_delete e t s = elim t.mapping.match_key_column [
    | none ↦ write_error faults e no_match_key s
    | some column ↦
        if column == ""
        then write_error faults e no_match_key s
        else change_by_key e t column (lookup column t.resolved) s
  ]

  unfoldable pub insert_row : WriteQuery → db.State → Result String (db.State × DbRow)
  unfolding first_row
  insert_row q s = do
    (s', rows) ← db.query q.sql q.args s
    row ← first_row "no rows in result set" rows
    ok (s', row)

  unfoldable pub finish_insert :
      Event
      → Result String (db.State × DbRow)
      → WebhookState db.State
      → WebhookState db.State × Response
  unfolding log_delivery_with_target write_error row_id
  finish_insert e (ok (rows, row)) s = (
    log_delivery_with_target faults e.webhook.id 200 "inserted" e.raw_payload e.event_type_value
        e.event_id (row_id row) no_detail (record s { rows = rows }),
    respond 200 (affected "inserted" (row_id row)),
  )
  finish_insert e (err text) s = write_error faults e (message text) s

  unfoldable pub insert_built :
      Event
      → Result QueryError WriteQuery
      → WebhookState db.State
      → WebhookState db.State × Response
  unfolding write_error insert_row finish_insert with_rls_context
  insert_built e (err q) s = write_error faults e (query_error q) s
  insert_built e (ok q) s =
      finish_insert e
        (with_rls_context db (λ (text : String). text) (webhook_claims e.webhook.id)
          s.system_config.statement_timeout_ms (insert_row q) s.rows)
        s

  unfoldable pub dispatch_insert :
      Event → Target → WebhookState db.State → WebhookState db.State × Response
  unfolding insert_built build_insert to_body
  dispatch_insert e t s =
      insert_built e
        (build_insert packages.time t.app.schema_name t.mapping.target_table t.table
          (to_body packages.marshal t.resolved) "")
        s
