-- ===== src/Webhooks/Delivery/Logged.antt =====
-- The entry that a run of the handler leaves in the log, branch by branch.
pub mod Dispatched
pub mod Handled
use zeep_orbit.Prelude.{
  ◌≢◌, ◌||◌, Option, none, some, All, ℕ, String, Bool, true, false, List, [], ◌∷◌, ◌==◌, ◌≡◌, ◌⊎◌,
  inl, inr, refl, sym, ap, contains, if◌then◌else◌,
}
use zeep_orbit.Webhooks.Store.{
  EventMappingRow, no_match_key, unknown_action, ErrorDetail, DeliveryEntry, payload_or_empty,
  insert_delivery, has_processed_event_id,
}
use zeep_orbit.Webhooks.Delivery.{
  Faults, WebhookState, Body, Response, respond, Event, log_delivery_with_target, log_delivery,
  write_error,
}

-- The outcomes of a write.
abbrev pub applied_outcomes : List String
applied_outcomes = "inserted" ∷ "updated" ∷ "deleted" ∷ []

-- An event without an id, or one that was not processed before.
abbrev pub IsNew : String → String → List DeliveryEntry → Type 0
IsNew webhook_id event_id deliveries =
    (event_id ≡ "") ⊎ (has_processed_event_id webhook_id event_id deliveries ≡ false)

-- Either the entry is that of a write of a new event, or the apps' rows are as they were.
pub data Change {D : Type 0} (deliveries : List DeliveryEntry) (before after : D)
    (entry : DeliveryEntry) : Type 0 where
  applied :
      contains entry.outcome applied_outcomes ≡ true
      → IsNew entry.webhook_id entry.event_id deliveries
      → Change deliveries before after entry
  kept :
      contains entry.outcome applied_outcomes ≡ false
      → after ≡ before
      → Change deliveries before after entry

-- What SaveEventMapping sees to: a known action, and a key for an update or a deletion.
abbrev pub HasKey : Option String → Type 0
HasKey none = ⊥
HasKey (some column) = column ≢ ""

abbrev pub IsSaved : EventMappingRow → Type 0
IsSaved m =
    (m.action ≡ "insert")
    ⊎ ((m.action == "update" || m.action == "delete") ≡ true) × HasKey m.match_key_column

-- Not the detail of one of the branches that the code calls unreachable.
abbrev pub IsForeseen : ErrorDetail → Type 0
IsForeseen (unknown_action action) = ⊥
IsForeseen no_match_key = ⊥
IsForeseen _ = Unit

-- One entry more, which is of the webhook and has the status of the response.
pub record IsLogged {D : Type 0} (id : String) (deliveries : List DeliveryEntry) (rows : D)
    (mappings : List EventMappingRow) (r : WebhookState D × Response) : Type 0 where
  pub entry : DeliveryEntry
  pub appended : r.0.deliveries ≡ entry ∷ deliveries
  pub of_webhook : entry.webhook_id ≡ id
  pub same_status : entry.http_status ≡ r.1.status
  pub change : Change deliveries rows r.0.rows entry
  pub same_mappings : r.0.mappings ≡ mappings
  pub foreseen : All IsSaved mappings → IsForeseen entry.error_detail

module _ {D : Type 0} (faults : Faults) (works : faults.log_works ≡ true) where
  pub log_target-IsLogged :
      (id : String) (status : ℕ) (outcome raw value event_id target : String) (detail : ErrorDetail)
      (s : WebhookState D) (deliveries : List DeliveryEntry) (rows : D) (body : Body)
      → (All IsSaved s.mappings → IsForeseen detail)
      → s.deliveries ≡ deliveries
      → ((raw' : String)
          → Change deliveries rows s.rows (record {
            webhook_id = id;
            http_status = status;
            outcome = outcome;
            event_type_value = value;
            event_id = event_id;
            raw_payload = raw';
            target_row_id = target;
            error_detail = detail;
          }))
      → IsLogged id deliveries rows s.mappings (
        log_delivery_with_target faults id status outcome raw value event_id target detail s,
        respond status body,
      )
  unfolding log_delivery_with_target insert_delivery
  log_target-IsLogged id status outcome raw value event_id target detail s deliveries rows body
        foreseen same change =
      rw works (record {
        entry = record {
          webhook_id = id;
          http_status = status;
          outcome = outcome;
          event_type_value = value;
          event_id = event_id;
          raw_payload = payload_or_empty raw;
          target_row_id = target;
          error_detail = detail;
        };
        appended =
            ap
              (λ (ds : List DeliveryEntry).
                record {
                  webhook_id = id;
                  http_status = status;
                  outcome = outcome;
                  event_type_value = value;
                  event_id = event_id;
                  raw_payload = payload_or_empty raw;
                  target_row_id = target;
                  error_detail = detail;
                }
                ∷ ds)
              same;
        of_webhook = refl;
        same_status = refl;
        change = change (payload_or_empty raw);
        same_mappings = refl;
        foreseen = foreseen;
      })

  -- The branches that write no row.
  pub log-IsLogged :
      (id : String) (status : ℕ) (outcome raw value event_id : String) (detail : ErrorDetail)
      (s : WebhookState D) (body : Body)
      → contains outcome applied_outcomes ≡ false
      → (All IsSaved s.mappings → IsForeseen detail)
      → IsLogged id s.deliveries s.rows s.mappings
          (log_delivery faults id status outcome raw value event_id detail s, respond status body)
  unfolding log_delivery
  log-IsLogged id status outcome raw value event_id detail s body none_applied foreseen =
      log_target-IsLogged id status outcome raw value event_id "" detail s s.deliveries s.rows body
        foreseen refl (λ raw'. kept none_applied refl)

  pub write_error-IsLogged :
      (e : Event) (detail : ErrorDetail) (s : WebhookState D)
      → (All IsSaved s.mappings → IsForeseen detail)
      → IsLogged e.webhook.id s.deliveries s.rows s.mappings (write_error faults e detail s)
  unfolding write_error
  write_error-IsLogged e detail s foreseen =
      log-IsLogged e.webhook.id 500 "write_error" e.raw_payload e.event_type_value e.event_id detail
        s _ refl foreseen
