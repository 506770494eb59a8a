-- ===== src/Webhooks/Delivery.antt =====
-- The public route of the webhooks: internal/server/webhook_handler.go. This file has the request, the
-- state, the answers and the log; the children have the branches in the order of the code.
pub mod Dispatch
pub mod Active
pub mod Handle
pub mod Logged
pub mod Once
pub mod Token
use zeep_orbit.Prelude.Int.{ℤ}
use zeep_orbit.Prelude.{
  ℕ, String, Bool, true, false, not, ◌&&◌, Option, none, some, List, [], ◌∷◌, Result, ok, err, ◌==◌,
  keys, if◌then◌else◌,
}
use zeep_orbit.Registry.{App, SystemConfig}
use zeep_orbit.Query.Values.{TimeParsers}
use zeep_orbit.Webhooks.{Json, str, Fields, no_fields, field, field_at}
use zeep_orbit.Webhooks.Store.{
  WebhookRow, EventMappingRow, ErrorDetail, no_detail, message, DeliveryEntry, insert_delivery,
  RateLimiter,
}

-- The functions of Go's packages that the handler calls. `decrypt` is
-- `crypto.DecryptWebhookToken`, on AES of package crypto; `sprint` is `fmt.Sprint`.
pub record Packages : Type 0 where
  pub time : TimeParsers
  pub split_host_port : String → Option String
  pub decrypt : String → Option String
  pub marshal : Json → String
  pub unmarshal : String → Result String Fields
  pub sprint : Json → String

-- `query` is `r.URL.Query()` as its entries; `body` is what `io.ReadAll` gives of the limited body.
pub record WebhookRequest : Type 0 where
  pub now : ℕ
  pub method : String
  pub webhook_id : String
  pub token : String
  pub remote_addr : String
  pub query : List (String × List String)
  pub body : Result String String

-- What fails during one run: an error of the database where there is one.
pub record Faults : Type 0 where
  pub get_webhook : Bool
  pub store_sample : Option String
  pub get_mapping : Option String
  pub lock : Option String
  pub read_processed : Option String
  pub get_app_name : Option String
  -- whether the INSERT into the log succeeds
  pub log_works : Bool

-- The tables of the webhooks, the rows of the apps (`State` of the database), and the limiters. The
-- registry is read by `get_app`, which is `Registry.get` on the pod.
pub record WebhookState (D : Type 0) : Type 0 where
  pub webhooks : List WebhookRow
  pub mappings : List EventMappingRow
  pub deliveries : List DeliveryEntry
  pub app_names : List (String × String)
  pub rows : D
  pub lookup_limiter : Option RateLimiter
  pub auth_failure_limiter : Option RateLimiter
  pub limiter : Option RateLimiter
  pub get_app : String → Option App
  pub system_config : SystemConfig

-- The JSON of the response: `{"error": …}`, `{"status": …}`, `{"status": …, "id": …}` or
-- `{"challenge": …}`.
pub data Body : Type 0 where
  error : String → Body
  status_only : String → Body
  affected : String → String → Body
  challenge : String → Body

pub record Response : Type 0 where
  pub status : ℕ
  pub body : Body

abbrev pub respond : ℕ → Body → Response
respond status body = record { status = status; body = body }

module _ {D : Type 0} (faults : Faults) where
  unfoldable pub log_delivery_with_target :
      String
      → ℕ
      → String
      → String
      → String
      → String
      → String
      → ErrorDetail
      → WebhookState D
      → WebhookState D
  unfolding insert_delivery
  log_delivery_with_target webhook_id http_status outcome raw_payload event_type_value event_id
        target_row_id detail s =
      record s {
        deliveries =
            insert_delivery faults.log_works
              (record {
                webhook_id = webhook_id;
                http_status = http_status;
                outcome = outcome;
                event_type_value = event_type_value;
                event_id = event_id;
                raw_payload = raw_payload;
                target_row_id = target_row_id;
                error_detail = detail;
              })
              s.deliveries;
      }

  unfoldable pub log_delivery :
      String → ℕ → String → String → String → String → ErrorDetail → WebhookState D → WebhookState D
  unfolding log_delivery_with_target
  log_delivery webhook_id http_status outcome raw_payload event_type_value event_id detail s =
      log_delivery_with_target webhook_id http_status outcome raw_payload event_type_value event_id
        "" detail s

-- A delivery to an active webhook, with what is read of its payload so far.
pub record Event : Type 0 where
  pub webhook : WebhookRow
  pub payload : Fields
  pub raw_payload : String
  pub event_type_value : String
  pub event_id : String

-- The branches that log "write_error" with 500 and answer 500.
unfoldable pub write_error :
    {D : Type 0} → Faults → Event → ErrorDetail → WebhookState D → WebhookState D × Response
unfolding log_delivery
write_error faults e detail s = (
  log_delivery faults e.webhook.id 500 "write_error" e.raw_payload e.event_type_value e.event_id
      detail s,
  respond 500 (error "internal error"),
)

-- `map[string]any` of a GET: the first value of each key.
unfoldable pub query_payload : List (String × List String) → Fields
query_payload [] = no_fields
query_payload ((key, []) ∷ query) = query_payload query
query_payload ((key, v ∷ vs) ∷ query) = field key (str v) (query_payload query)

unfoldable pub parse_webhook_payload :
    (String → Result String Fields) → WebhookRequest → Result String Fields
unfolding query_payload
parse_webhook_payload unmarshal r =
    if r.method == "GET" then ok (query_payload r.query) else elim r.body [
      | err e ↦ err e
      | ok body ↦ if body == "" then ok no_fields else unmarshal body
    ]

unfoldable pub verification_challenge : Fields → Option String
unfolding field_at
verification_challenge payload = elim (field_at "challenge" payload) [
  | some (str s) ↦ if s == "" then none else some s
  | some _ ↦ none
  | none ↦ none
]

unfoldable pub stringify_path_value : (Json → String) → Json → String
stringify_path_value sprint (str s) = s
stringify_path_value sprint v = sprint v

unfoldable pub verify_webhook_token : (String → Option String) → String → String → Bool
verify_webhook_token decrypt token_secret presented =
    if presented == ""
    then false
    else elim (decrypt token_secret) [ none ↦ false | some stored ↦ stored == presented ]
