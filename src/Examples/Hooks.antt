-- ===== src/Examples/Hooks.antt =====
-- A webhook that inserts an order, called twice with the same event.
use zeep_orbit.Prelude.Int.{pos}
use zeep_orbit.Prelude.{
  inl, Bool, ℕ, ◌+◌, ◌≤◌, String, true, false, none, some, List, [], ◌∷◌, map, ok, err, ◌≡◌, ◌⊎◌,
  ◌==◌, refl, arith, eq_iff, All, lookup, if◌then◌else◌,
}
use zeep_orbit.Database.{Database}
use zeep_orbit.Registry.{App, Table, Column}
use zeep_orbit.Query.{text}
use zeep_orbit.Webhooks.{Json, str, Fields, field, no_fields}
use zeep_orbit.Webhooks.Mapping.{FieldMapping, resolve_fields}
use zeep_orbit.Webhooks.Mapping.Resolved.{
  Resolves, FirstMissing, last_value, resolve_fields-all_or_none,
}
use zeep_orbit.Webhooks.Store.{WebhookRow, EventMappingRow, DeliveryEntry, match_key_not_mapped}
use zeep_orbit.Webhooks.Delivery.{Packages, WebhookRequest, Faults, WebhookState}
use zeep_orbit.Webhooks.Delivery.Handle.{handle_webhook_delivery}
use zeep_orbit.Webhooks.Delivery.Once.{count_writes, handle_all, handle_all-at_most_once}
use zeep_orbit.Webhooks.Delivery.Logged.Handled.{
  IsAccounted, found_row, handle_webhook_delivery-IsAccounted,
}
use zeep_orbit.Webhooks.Manage.{EventMappingDef}
use zeep_orbit.Webhooks.Manage.Runs.{
  Action, delete, save, deliver, IsConsistent, run_all, run_all-IsConsistent,
}
use zeep_orbit.Webhooks.Delivery.Token.{
  IsUntouched, IsAuthentic, handle_webhook_delivery-IsAuthentic,
}

abbrev payload : Fields
payload = field "type" (str "order") (field "id" (str "e1") (field "buyer" (str "ann") no_fields))

abbrev links : List FieldMapping
links = record { source_path = "buyer"; column = "name" } ∷ []

resolve_fields-all_or_none_example :
    ((row : List (String × Json)) × (resolve_fields payload links ≡ ok row)
      × All (Resolves payload) links
      × ((name : String) → lookup name row ≡ last_value payload links name))
    ⊎ ((path : String) × (resolve_fields payload links ≡ err path)
        × FirstMissing payload links path)
resolve_fields-all_or_none_example = resolve_fields-all_or_none payload links

-- The state counts the statements that gave a row.
abbrev counting : Database
counting = record {
  State = ℕ;
  begin = λ s. none;
  exec = λ sql args s. ok (s, 1);
  query = λ sql args s. ok (s + 1, (("id", text "r1") ∷ []) ∷ []);
  commit = λ s. ok s;
}

abbrev packages : Packages
packages = record {
  time = record { parses = λ layout s. false; scans = λ s. false };
  split_host_port = λ addr. none;
  decrypt = λ secret. some "t0";
  marshal = λ v. "{…}";
  unmarshal = λ body. ok payload;
  sprint = λ v. "";
}

abbrev hook : WebhookRow
hook = record {
  id = "w1";
  app_id = "a1";
  name = "orders";
  method = "POST";
  token_secret = "…";
  event_type_path = "type";
  event_id_path = some "id";
  status = "active";
  captured_sample = none;
  is_deleted = false;
  created_by = "u1";
}

abbrev order_mapping : EventMappingRow
order_mapping = record {
  id = "m1";
  webhook_id = "w1";
  event_type_value = "order";
  action = "insert";
  target_table = "orders";
  match_key_column = none;
  field_mappings = links;
}

abbrev column : String → Bool → Column
column name required = record {
  name = name;
  type = "text";
  required = required;
  default = "";
  unique = false;
  rename_from = "";
  allowed_values = [];
}

abbrev orders : Table
orders = record {
  name = "orders";
  rls = "";
  columns = column "name" true ∷ column "ref" false ∷ [];
}

abbrev shop : App
shop = record {
  config = record {
    name = "shop";
    auth = record { jwt_secret = "s"; email = true };
    tables = [];
    storage = none;
    rate_limit = none;
  };
  schema_name = "shop";
  tables = λ name. if name == "orders" then some orders else none;
  auth_providers = [];
  storage_config = none;
  rate_limit = none;
}

abbrev start : WebhookState ℕ
start = record {
  webhooks = hook ∷ [];
  mappings = order_mapping ∷ [];
  deliveries = [];
  app_names = ("a1", "shop") ∷ [];
  rows = 0;
  lookup_limiter = none;
  auth_failure_limiter = none;
  limiter = none;
  get_app = λ name. if name == "shop" then some shop else none;
  system_config = record { soft_delete_enabled = true; statement_timeout_ms = pos 0 };
}

abbrev call : WebhookRequest
call = record {
  now = 5;
  method = "POST";
  webhook_id = "w1";
  token = "t0";
  remote_addr = "::1";
  query = [];
  body = ok "{…}";
}

abbrev no_faults : Faults
no_faults = record {
  get_webhook = false;
  store_sample = none;
  get_mapping = none;
  lock = none;
  read_processed = none;
  get_app_name = none;
  log_works = true;
}

abbrev twice : List (Faults × WebhookRequest)
twice = (no_faults, call) ∷ (no_faults, call) ∷ []

outcomes :
    map (λ (d : DeliveryEntry). d.outcome) (handle_all counting packages twice start).deliveries
    ≡ "duplicate_skipped" ∷ "inserted" ∷ []
unfolding handle_all
outcomes = refl

handle_all-at_most_once_example :
    count_writes "w1" "e1" (handle_all counting packages twice start).deliveries ≤ 1
unfolding count_writes
handle_all-at_most_once_example =
    handle_all-at_most_once counting packages twice start "w1" "e1" (λ e. cc ((eq_iff "e1" "").1 e))
      (refl, (refl, tt)) (omega arith)

handle_webhook_delivery-IsAccounted_example :
    IsAccounted
      (found_row no_faults call start)
      start.deliveries
      start.rows
      start.mappings
      (handle_webhook_delivery counting packages no_faults call start)
handle_webhook_delivery-IsAccounted_example =
    handle_webhook_delivery-IsAccounted counting packages no_faults refl call start

handle_webhook_delivery-IsAuthentic_example :
    IsUntouched start (handle_webhook_delivery counting packages no_faults call start).0
    ⊎ IsAuthentic packages call (found_row no_faults call start)
handle_webhook_delivery-IsAuthentic_example =
    handle_webhook_delivery-IsAuthentic counting packages no_faults call start

-- An update whose key is no column of its field mappings is saved, and fails at each delivery.
abbrev unmapped_key : EventMappingDef
unmapped_key = record {
  event_type_value = "order";
  action = "update";
  target_table = "orders";
  match_key_column = "ref";
  field_mappings = record { source_path = "buyer"; column = "name" } ∷ [];
}

abbrev managed : List Action
managed =
    delete none "w1" "m1" ∷ save none "shop" "m2" "w1" unmapped_key ∷ deliver no_faults call ∷ []

fails_always :
    map (λ (d : DeliveryEntry). d.error_detail) (run_all counting packages managed start).deliveries
    ≡ match_key_not_mapped "ref" ∷ []
unfolding run_all
fails_always = refl

run_all-IsConsistent_example : IsConsistent (run_all counting packages managed start)
run_all-IsConsistent_example =
    run_all-IsConsistent counting packages managed start (tt, (tt, (refl, tt))) ((inl refl, tt), tt)
