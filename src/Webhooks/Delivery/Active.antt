-- ===== src/Webhooks/Delivery/Active.antt =====
-- A delivery to an active webhook: handleActiveDelivery.
use zeep_orbit.Prelude.{String, Option, none, some, ok, err, ◌==◌, ◌||◌, lookup, if◌then◌else◌}
use zeep_orbit.Database.{Database}
use zeep_orbit.Registry.{App}
use zeep_orbit.Webhooks.{Json, Fields}
use zeep_orbit.Webhooks.Mapping.{extract_path, resolve_fields}
use zeep_orbit.Webhooks.Store.{
  WebhookRow, EventMappingRow, no_detail, message, app_not_found, table_not_found, path_not_found,
  unknown_action, get_event_mapping_by_type, has_processed_event_id,
}
use zeep_orbit.Webhooks.Delivery.{
  Packages, Faults, WebhookState, Response, respond, status_only, Event, log_delivery, write_error,
  stringify_path_value,
}
use zeep_orbit.Webhooks.Delivery.Dispatch.{Target, dispatch_insert, dispatch_update_or_delete}

unfoldable pub text_at : (Json → String) → Fields → String → String
unfolding extract_path stringify_path_value
text_at sprint payload path = elim (extract_path payload path) [
  | none ↦ ""
  | some v ↦ stringify_path_value sprint v
]

-- `eventID`, "" where the webhook has no path or the path leads nowhere.
unfoldable pub event_id_of : (Json → String) → Fields → Option String → String
unfolding text_at
event_id_of sprint payload none = ""
event_id_of sprint payload (some path) = if path == "" then "" else text_at sprint payload path

module _ (db : Database) (packages : Packages) (faults : Faults) where
  -- The switch on the action.
  unfoldable pub dispatch :
      Event → Target → WebhookState db.State → WebhookState db.State × Response
  unfolding write_error dispatch_insert dispatch_update_or_delete
  dispatch e t s =
      if t.mapping.action == "insert"
      then dispatch_insert db packages faults e t s
      else if t.mapping.action == "update" || t.mapping.action == "delete"
      then dispatch_update_or_delete db packages faults e t s
      else write_error faults e (unknown_action t.mapping.action) s

  -- From `ResolveFields` on.
  unfoldable pub resolve_event :
      Event → EventMappingRow → App → WebhookState db.State → WebhookState db.State × Response
  unfolding write_error dispatch resolve_fields
  resolve_event e mapping app s = elim (app.tables mapping.target_table) [
    | none ↦ write_error faults e (table_not_found mapping.target_table) s
    | some table ↦ elim (resolve_fields e.payload mapping.field_mappings) [
      | err path ↦ write_error faults e (path_not_found path) s
      | ok resolved ↦
          dispatch e (record { app = app; table = table; mapping = mapping; resolved = resolved }) s
    ]
  ]

  -- `resolveAppName` and `h.reg.Get`. A webhook's app has a row in the table of the apps.
  unfoldable pub find_app :
      Event → EventMappingRow → WebhookState db.State → WebhookState db.State × Response
  unfolding write_error resolve_event lookup
  find_app e mapping s = elim faults.get_app_name [
    | some text ↦ write_error faults e (message text) s
    | none ↦ elim (lookup e.webhook.app_id s.app_names) [
      | none ↦ write_error faults e (message "no rows in result set") s
      | some name ↦ elim (s.get_app name) [
        | none ↦ write_error faults e (app_not_found name) s
        | some app ↦ resolve_event e mapping app s
      ]
    ]
  ]

  -- The lock on the event id, and the check whether it was processed.
  unfoldable pub check_processed :
      Event → EventMappingRow → WebhookState db.State → WebhookState db.State × Response
  unfolding write_error find_app log_delivery has_processed_event_id
  check_processed e mapping s = elim faults.lock [
    | some text ↦ write_error faults e (message text) s
    | none ↦ elim faults.read_processed [
      | some text ↦ write_error faults e (message text) s
      | none ↦
          if has_processed_event_id e.webhook.id e.event_id s.deliveries
          then (
            log_delivery faults e.webhook.id 200 "duplicate_skipped" e.raw_payload
                e.event_type_value e.event_id no_detail s,
            respond 200 (status_only "duplicate_skipped"),
          )
          else find_app e mapping s
    ]
  ]

  unfoldable pub mapped_event :
      Event → EventMappingRow → WebhookState db.State → WebhookState db.State × Response
  unfolding find_app check_processed
  mapped_event e mapping s =
      if e.event_id == "" then find_app e mapping s else check_processed e mapping s

  unfoldable pub find_mapping : Event → WebhookState db.State → WebhookState db.State × Response
  unfolding write_error log_delivery event_id_of mapped_event get_event_mapping_by_type
  find_mapping e s = elim faults.get_mapping [
    | some text ↦ write_error faults e (message text) s
    | none ↦ elim (get_event_mapping_by_type e.webhook.id e.event_type_value s.mappings) [
      | none ↦ (
        log_delivery faults e.webhook.id 200 "unmapped" e.raw_payload e.event_type_value ""
            no_detail s,
        respond 200 (status_only "unmapped"),
      )
      | some mapping ↦
          mapped_event
            (record e { event_id = event_id_of packages.sprint e.payload e.webhook.event_id_path })
            mapping s
    ]
  ]

  unfoldable pub handle_active_delivery :
      WebhookRow → Fields → String → WebhookState db.State → WebhookState db.State × Response
  unfolding find_mapping text_at
  handle_active_delivery wh payload raw_payload s =
      find_mapping
        (record {
          webhook = wh;
          payload = payload;
          raw_payload = raw_payload;
          event_type_value = text_at packages.sprint payload wh.event_type_path;
          event_id = "";
        })
        s
