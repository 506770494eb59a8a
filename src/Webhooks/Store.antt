-- ===== src/Webhooks/Store.antt =====
-- The tables of the webhooks, from internal/dashboard/webhooks_store.go and
-- webhook_deliveries_store.go, and the limiter of internal/dashboard/middleware.go.
use zeep_orbit.Prelude.{
  ℕ, ◌+◌, String, Bool, true, false, not, ◌&&◌, Option, none, some, List, [], ◌∷◌, ◌==◌, leb,
  length, any, contains, lookup, if◌then◌else◌,
}
use zeep_orbit.Query.{QueryError}
use zeep_orbit.RateLimit.PerApp.{RlEntry, is_stale, next_entry, is_allowed}
use zeep_orbit.Webhooks.Mapping.{FieldMapping}

-- Without the three times. `CapturedSample` is its JSON text.
pub record WebhookRow : Type 0 where
  pub id : String
  pub app_id : String
  pub name : String
  pub method : String
  pub token_secret : String
  pub event_type_path : String
  pub event_id_path : Option String
  pub status : String
  pub captured_sample : Option String
  pub is_deleted : Bool
  pub created_by : String

-- Without the two times.
pub record EventMappingRow : Type 0 where
  pub id : String
  pub webhook_id : String
  pub event_type_value : String
  pub action : String
  pub target_table : String
  pub match_key_column : Option String
  pub field_mappings : List FieldMapping

-- `ErrorDetail`, by what the text says.
pub data ErrorDetail : Type 0 where
  no_detail : ErrorDetail
  message : String → ErrorDetail
  query_error : QueryError → ErrorDetail
  path_not_found : String → ErrorDetail
  app_not_found : String → ErrorDetail
  table_not_found : String → ErrorDetail
  unknown_action : String → ErrorDetail
  no_match_key : ErrorDetail
  match_key_not_mapped : String → ErrorDetail
  ambiguous_key : String → String → ErrorDetail

-- An empty text is stored as NULL.
pub record DeliveryEntry : Type 0 where
  pub webhook_id : String
  pub http_status : ℕ
  pub outcome : String
  pub event_type_value : String
  pub event_id : String
  pub raw_payload : String
  pub target_row_id : String
  pub error_detail : ErrorDetail

-- `len(payload) == 0`
abbrev pub payload_or_empty : String → String
payload_or_empty payload = if payload == "" then "{}" else payload

-- The deliveries, the last one first. `works` is whether the INSERT succeeds.
unfoldable pub insert_delivery : Bool → DeliveryEntry → List DeliveryEntry → List DeliveryEntry
insert_delivery works entry deliveries =
    if works
    then record entry { raw_payload = payload_or_empty entry.raw_payload } ∷ deliveries
    else deliveries

abbrev pub processed_outcomes : List String
processed_outcomes = "inserted" ∷ "updated" ∷ "deleted" ∷ "unmapped" ∷ "duplicate_skipped" ∷ []

-- The WHERE clause of the SELECT EXISTS.
unfoldable pub is_processed : String → String → DeliveryEntry → Bool
is_processed webhook_id event_id d =
    d.webhook_id == webhook_id && (d.event_id == event_id && contains d.outcome processed_outcomes)

unfoldable pub has_processed_event_id : String → String → List DeliveryEntry → Bool
unfolding is_processed
has_processed_event_id webhook_id event_id deliveries =
    if event_id == "" then false else any (is_processed webhook_id event_id) deliveries

-- The query without an app: a deleted row is not found.
unfoldable pub get_webhook_by_id : String → List WebhookRow → Option WebhookRow
get_webhook_by_id webhook_id [] = none
get_webhook_by_id webhook_id (w ∷ ws) =
    if w.id == webhook_id && not w.is_deleted then some w else get_webhook_by_id webhook_id ws

unfoldable pub get_event_mapping_by_type :
    String → String → List EventMappingRow → Option EventMappingRow
get_event_mapping_by_type webhook_id value [] = none
get_event_mapping_by_type webhook_id value (m ∷ ms) =
    if m.webhook_id == webhook_id && m.event_type_value == value
    then some m
    else get_event_mapping_by_type webhook_id value ms

-- The UPDATE of StoreCapturedSample, and the number of rows that it affects.
unfoldable pub store_captured_sample : String → String → List WebhookRow → List WebhookRow × ℕ
store_captured_sample webhook_id payload [] = ([], 0)
store_captured_sample webhook_id payload (w ∷ ws) =
    let (ws', n) = store_captured_sample webhook_id payload ws in
    if w.id == webhook_id && not w.is_deleted
    then (record w { captured_sample = some payload } ∷ ws', n + 1)
    else (w ∷ ws', n)

-- The entries of the limiter have distinct keys.
pub record RateLimiter : Type 0 where
  pub entries : List (String × RlEntry)
  pub max : ℕ
  pub window : ℕ

abbrev pub sweep_threshold : ℕ
sweep_threshold = 10000

unfoldable pub drop_stale : ℕ → ℕ → List (String × RlEntry) → List (String × RlEntry)
drop_stale now window [] = []
drop_stale now window ((key, e) ∷ entries) =
    let rest = drop_stale now window entries in
    if is_stale now window e then rest else (key, e) ∷ rest

unfoldable pub sweep : ℕ → RateLimiter → RateLimiter
unfolding drop_stale
sweep now rl = record rl { entries = drop_stale now rl.window rl.entries }

-- `rl.entries[key] = e`
unfoldable pub put_entry : String → RlEntry → List (String × RlEntry) → List (String × RlEntry)
put_entry key e [] = (key, e) ∷ []
put_entry key e ((k, old) ∷ entries) =
    if k == key then (key, e) ∷ entries else (k, old) ∷ put_entry key e entries

-- The entry and the answer are those of the app's limiters: see RateLimit.PerApp.
unfoldable pub allow : ℕ → String → RateLimiter → RateLimiter × Bool
unfolding sweep put_entry lookup next_entry is_allowed
allow now key rl =
    let swept = if leb sweep_threshold (length rl.entries) then sweep now rl else rl in
    let found = lookup key swept.entries in
    (
      record swept { entries = put_entry key (next_entry now rl.window found) swept.entries },
      is_allowed now rl.window rl.max found,
    )

-- `h.limiter != nil && !h.limiter.Allow(key)`, without the last negation.
unfoldable pub charge : ℕ → String → Option RateLimiter → Option RateLimiter × Bool
unfolding allow
charge now key none = (none, true)
charge now key (some rl) = let (rl', allowed) = allow now key rl in (some rl', allowed)
