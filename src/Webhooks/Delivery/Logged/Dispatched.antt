-- ===== src/Webhooks/Delivery/Logged/Dispatched.antt =====
-- The entries of the branches that write: dispatchInsert and dispatchUpdateOrDelete.
use zeep_orbit.Prelude.Int.{ℤ}
use zeep_orbit.Prelude.{
  ℕ, String, Bool, true, Option, none, some, List, [], ◌∷◌, Result, ok, err, ◌>>=◌, bind-Ensures,
  Ensures, ◌==◌, ◌||◌, ◌≡◌, inl, inr, refl, Bool-cases, Option-cases, All, eq_iff, contains, lookup,
  eqb, if◌then◌else◌,
}
use zeep_orbit.Database.{Database, DbRow, RlsClaims, lift, enter_role, with_rls_context}
use zeep_orbit.Query.{QueryError, WriteQuery}
use zeep_orbit.Query.ById.{build_delete}
use zeep_orbit.Webhooks.{Json, to_value}
use zeep_orbit.Webhooks.Store.{no_match_key}
use zeep_orbit.Webhooks.Delivery.{Packages, Faults, WebhookState, Response, Event}
use zeep_orbit.Webhooks.Delivery.Dispatch.{
  DispatchError, row_not_found, ambiguous_match, failed, rejected, Target, Changed, webhook_claims,
  row_id, row_ids, lookup_sql, only_row, first_row, build, update_row, delete_row, change_row,
  finish_change, change_by_key, dispatch_update_or_delete, finish_insert, insert_built,
  dispatch_insert,
}
use zeep_orbit.Webhooks.Delivery.Logged.{
  IsSaved, HasKey, applied_outcomes, IsNew, applied, IsLogged, log_target-IsLogged, log-IsLogged,
  write_error-IsLogged,
}

-- What the closure gives is what the transaction gives.
with_rls_context-Ensures :
    (db : Database) {E A : Type 0} (P : A → Type 0) (put_in : String → E) (claims : RlsClaims)
    (timeout : ℤ) (fn : db.State → Result E (db.State × A)) (s : db.State)
    → ((entered : db.State) → Ensures (λ (r : db.State × A). P r.1) (fn entered))
    → Ensures (λ (r : db.State × A). P r.1) (with_rls_context db put_in claims timeout fn s)
unfolding with_rls_context
with_rls_context-Ensures db {E} {A} P put_in claims timeout fn s h =
    elim (Option-cases (db.begin s)) [
      | inr (text, e) ↦ rw (e, with_rls_context) tt
      | inl e ↦
          rw (e, with_rls_context)
            (bind-Ensures (λ (r : db.State × A). P r.1)
              (lift put_in (enter_role db claims timeout s)) _
              (λ entered. ran entered (fn entered) (h entered)))
    ]
  where
    ran :
        (entered : db.State) (r : Result E (db.State × A))
        → Ensures (λ (x : db.State × A). P x.1) r
        → Ensures
            (λ (x : db.State × A). P x.1)
            (r >>= λ (x : db.State × A). (lift put_in (db.commit x.0) >>= λ t. ok (t, x.1)))
    ran entered (ok (done, a)) k =
        bind-Ensures (λ (x : db.State × A). P x.1) (lift put_in (db.commit done)) _ (λ t. k)
    ran entered (err e) k = tt

abbrev IsApplied : Changed → Type 0
IsApplied c = contains c.outcome applied_outcomes ≡ true

-- The row that a closure changed.
abbrev HasApplied : (db : Database) → db.State × Changed → Type 0
HasApplied db r = IsApplied r.1

module _ (db : Database) (packages : Packages) (faults : Faults) where
  update_row-applied :
      (t : Target) (id : String) (s : db.State)
      → Ensures (HasApplied db) (update_row db packages faults t id s)
  unfolding update_row
  update_row-applied t id s = bind-Ensures (HasApplied db) (build _) _ (λ q.
      bind-Ensures (HasApplied db) (lift DispatchError.failed (db.query q.sql q.args s)) _
        (λ x. bind-Ensures (HasApplied db) (first_row row_not_found x.1) _ (λ row. refl)))

  affected_row :
      (s : db.State) (count : ℕ) (id : String)
      → Ensures (HasApplied db) (
          if eqb count 0
          then err row_not_found
          else ok (s, record { row_id = id; outcome = "deleted" }))
  affected_row s count id = elim (Bool-cases (eqb count 0)) [ inl e ↦ rw e tt | inr e ↦ rw e refl ]

  delete_row-applied :
      (t : Target) (soft : Bool) (id : String) (s : db.State)
      → Ensures (HasApplied db) (delete_row db packages faults t soft id s)
  unfolding delete_row
  delete_row-applied t soft id s =
      let q = build_delete t.app.schema_name t.mapping.target_table id "" soft in
      bind-Ensures (HasApplied db) (lift DispatchError.failed (db.exec q.sql q.args s)) _
        (λ (x : db.State × ℕ). affected_row x.0 x.1 id)

  by_action-applied :
      (t : Target) (soft : Bool) (id : String) (s : db.State)
      → (t.mapping.action == "update" || t.mapping.action == "delete") ≡ true
      → Ensures (HasApplied db) (
          if t.mapping.action == "update"
          then update_row db packages faults t id s
          else if t.mapping.action == "delete"
          then delete_row db packages faults t soft id s
          else ok (s, record { row_id = ""; outcome = "" }))
  by_action-applied t soft id s known = elim (Bool-cases (t.mapping.action == "update")) [
    | inl e ↦ rw e (update_row-applied t id s)
    | inr e ↦
        let deletes : t.mapping.action == "delete" ≡ true = rw e at known in
        rw (e, deletes) (delete_row-applied t soft id s)
  ]

  -- With an action that SaveEventMapping stores.
  change_row-applied :
      (t : Target) (column : String) (v : Json) (soft : Bool) (s : db.State)
      → (t.mapping.action == "update" || t.mapping.action == "delete") ≡ true
      → Ensures (HasApplied db) (change_row db packages faults t column v soft s)
  unfolding change_row
  change_row-applied t column v soft s known =
      bind-Ensures (HasApplied db)
        (lift DispatchError.failed
          (db.query (lookup_sql t column soft) (to_value packages.marshal v ∷ []) s))
        _
        (λ (x : db.State × List DbRow).
          bind-Ensures (HasApplied db) (only_row (row_ids x.1)) _
            (λ (id : String). by_action-applied t soft id x.0 known))

  module _ (works : faults.log_works ≡ true) (e : Event) where
    -- What the state is logged with.
    abbrev Logs : WebhookState db.State → WebhookState db.State × Response → Type 0
    Logs s r = IsLogged e.webhook.id s.deliveries s.rows s.mappings r

    finish_change-IsLogged :
        (t : Target) (column : String) (r : Result DispatchError (db.State × Changed))
        (s : WebhookState db.State)
        → IsNew e.webhook.id e.event_id s.deliveries
        → Ensures (HasApplied db) r
        → Logs s (finish_change db packages faults e t column r s)
    unfolding finish_change
    finish_change-IsLogged t column (ok (rows, changed)) s fresh done =
        log_target-IsLogged faults works e.webhook.id 200 changed.outcome e.raw_payload
          e.event_type_value e.event_id changed.row_id _ (record s { rows = rows }) s.deliveries
          s.rows _ (λ h. tt) refl (λ raw. applied done fresh)
    finish_change-IsLogged t column (err row_not_found) s fresh done =
        log-IsLogged faults works e.webhook.id 200 "row_not_found" e.raw_payload e.event_type_value
          e.event_id _ s _ refl (λ h. tt)
    finish_change-IsLogged t column (err ambiguous_match) s fresh done =
        log-IsLogged faults works e.webhook.id 409 "ambiguous_match" e.raw_payload
          e.event_type_value e.event_id _ s _ refl (λ h. tt)
    finish_change-IsLogged t column (err (failed text)) s fresh done =
        write_error-IsLogged faults works e _ s (λ h. tt)
    finish_change-IsLogged t column (err (rejected q)) s fresh done =
        write_error-IsLogged faults works e _ s (λ h. tt)

    change_by_key-IsLogged :
        (t : Target) (column : String) (v : Option Json) (s : WebhookState db.State)
        → (t.mapping.action == "update" || t.mapping.action == "delete") ≡ true
        → IsNew e.webhook.id e.event_id s.deliveries
        → Logs s (change_by_key db packages faults e t column v s)
    unfolding change_by_key
    change_by_key-IsLogged t column none s known fresh =
        write_error-IsLogged faults works e _ s (λ h. tt)
    change_by_key-IsLogged t column (some v) s known fresh =
        finish_change-IsLogged t column _ s fresh (
          with_rls_context-Ensures db IsApplied DispatchError.failed (webhook_claims e.webhook.id)
            s.system_config.statement_timeout_ms
            (change_row db packages faults t column v s.system_config.soft_delete_enabled) s.rows
            (λ entered.
              change_row-applied t column v s.system_config.soft_delete_enabled entered known))

    pub dispatch_update_or_delete-IsLogged :
        (t : Target) (s : WebhookState db.State)
        → (t.mapping.action == "update" || t.mapping.action == "delete") ≡ true
        → IsNew e.webhook.id e.event_id s.deliveries
        → (All IsSaved s.mappings → HasKey t.mapping.match_key_column)
        → Logs s (dispatch_update_or_delete db packages faults e t s)
    unfolding dispatch_update_or_delete
    dispatch_update_or_delete-IsLogged t s known fresh key =
        elim (Option-cases t.mapping.match_key_column) [
          | inl e0 ↦
              rw (e0, dispatch_update_or_delete)
                (write_error-IsLogged faults works e no_match_key s (rw e0 at key))
          | inr (column, e0) ↦ elim (Bool-cases (column == "")) [
            | inl e1 ↦
                rw (e0, dispatch_update_or_delete, e1)
                  (write_error-IsLogged faults works e no_match_key s
                    (λ h. (rw e0 at key) h ((eq_iff column "").0 e1)))
            | inr e1 ↦
                rw (e0, dispatch_update_or_delete, e1)
                  (change_by_key-IsLogged t column (lookup column t.resolved) s known fresh)
          ]
        ]

    finish_insert-IsLogged :
        (r : Result String (db.State × DbRow)) (s : WebhookState db.State)
        → IsNew e.webhook.id e.event_id s.deliveries
        → Logs s (finish_insert db packages faults e r s)
    unfolding finish_insert
    finish_insert-IsLogged (ok (rows, row)) s fresh =
        log_target-IsLogged faults works e.webhook.id 200 "inserted" e.raw_payload
          e.event_type_value e.event_id (row_id row) _ (record s { rows = rows }) s.deliveries
          s.rows _ (λ h. tt) refl (λ raw. applied refl fresh)
    finish_insert-IsLogged (err text) s fresh = write_error-IsLogged faults works e _ s (λ h. tt)

    insert_built-IsLogged :
        (q : Result QueryError WriteQuery) (s : WebhookState db.State)
        → IsNew e.webhook.id e.event_id s.deliveries
        → Logs s (insert_built db packages faults e q s)
    unfolding insert_built
    insert_built-IsLogged (err q) s fresh = write_error-IsLogged faults works e _ s (λ h. tt)
    insert_built-IsLogged (ok q) s fresh = finish_insert-IsLogged _ s fresh

    pub dispatch_insert-IsLogged :
        (t : Target) (s : WebhookState db.State)
        → IsNew e.webhook.id e.event_id s.deliveries
        → Logs s (dispatch_insert db packages faults e t s)
    unfolding dispatch_insert
    dispatch_insert-IsLogged t s fresh = insert_built-IsLogged _ s fresh
