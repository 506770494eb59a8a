-- ===== src/Webhooks/Manage.antt =====
-- The management of webhooks and their mappings: internal/dashboard/webhooks_store.go. An operation
-- gives its table as it leaves it, or an error, and then the table is as it was. `fault` is the error
-- of a statement that fails.
pub mod Runs
use zeep_orbit.Prelude.{
  ℕ, zero, suc, ◌+◌, String, Bool, true, false, not, ◌&&◌, ◌||◌, Option, none, some, List, [], ◌∷◌,
  Result, ok, err, ◌>>=◌, ◌>>◌, guard, ◌==◌, any, all, map, contains, is_empty, if◌then◌else◌,
}
use zeep_orbit.Prelude.Text.{trim_space}
use zeep_orbit.Registry.{App, Table, Column}
use zeep_orbit.Webhooks.Mapping.{FieldMapping}
use zeep_orbit.Webhooks.Store.{WebhookRow, EventMappingRow}

pub data StoreError : Type 0 where
  invalid_webhook_method : StoreError
  webhook_not_found : StoreError
  no_mappings : StoreError
  event_type_value_required : StoreError
  invalid_action : StoreError
  match_key_required : StoreError
  field_mappings_required : StoreError
  unknown_target_table : StoreError
  unknown_target_column : StoreError
  mapping_conflict : StoreError
  mapping_not_found : StoreError
  -- of the database, or of the package crypto
  failed : String → StoreError

pub record CreateWebhookInput : Type 0 where
  pub app_id : String
  pub name : String
  pub method : String
  pub event_type_path : String
  pub event_id_path : String
  pub created_by : String

pub record UpdateWebhookInput : Type 0 where
  pub name : String
  pub method : String
  pub event_type_path : String
  pub event_id_path : String

pub record EventMappingDef : Type 0 where
  pub event_type_value : String
  pub action : String
  pub target_table : String
  pub match_key_column : String
  pub field_mappings : List FieldMapping

-- `if s != "" { p = &s }`
abbrev pub non_empty : String → Option String
non_empty s = if s == "" then none else some s

-- The error of a statement that fails.
abbrev attempt : Option String → Result StoreError (Unit {0})
attempt none = ok tt
attempt (some text) = err (failed text)

unfoldable pub is_valid_webhook_method : String → Bool
is_valid_webhook_method method = contains method ("GET" ∷ "POST" ∷ "PUT" ∷ "PATCH" ∷ [])

-- `generateWebhookToken` and `EncryptWebhookToken`: the token and its secret.
abbrev pub NewToken : Type 0
NewToken = Result String (String × String)

unfoldable pub fresh_token : NewToken → Result StoreError (String × String)
fresh_token (ok token) = ok token
fresh_token (err text) = err (failed text)

-- `id` is the one that Postgres generates; the status is the default of the table.
unfoldable pub create_webhook :
    Option String
    → NewToken
    → String
    → CreateWebhookInput
    → List WebhookRow
    → Result StoreError (List WebhookRow)
unfolding is_valid_webhook_method fresh_token
create_webhook fault new_token id input webhooks = do
  guard (is_valid_webhook_method input.method) invalid_webhook_method
  (token, secret) ← fresh_token new_token
  attempt fault
  ok (
      record {
        id = id;
        app_id = input.app_id;
        name = input.name;
        method = input.method;
        token_secret = secret;
        event_type_path = input.event_type_path;
        event_id_path = non_empty input.event_id_path;
        status = "capture";
        captured_sample = none;
        is_deleted = false;
        created_by = input.created_by;
      }
      ∷ webhooks)

-- UPDATE … WHERE id = $n AND deleted_at IS NULL, and the number of rows that it affects.
unfoldable pub update_live :
    (WebhookRow → WebhookRow) → String → List WebhookRow → List WebhookRow × ℕ
update_live change id [] = ([], 0)
update_live change id (w ∷ ws) =
    let (ws', n) = update_live change id ws in
    if w.id == id && not w.is_deleted then (change w ∷ ws', n + 1) else (w ∷ ws', n)

-- `tag.RowsAffected() == 0`
abbrev affected_some : List WebhookRow × ℕ → Result StoreError (List WebhookRow)
affected_some (ws, zero) = err webhook_not_found
affected_some (ws, suc n) = ok ws

-- The transaction counts the mappings first; `read_fault` is an error up to there.
unfoldable pub activate_webhook :
    Option String
    → Option String
    → String
    → List EventMappingRow
    → List WebhookRow
    → Result StoreError (List WebhookRow)
unfolding update_live
activate_webhook read_fault fault id mappings webhooks = do
  attempt read_fault
  guard (any (λ (m : EventMappingRow). m.webhook_id == id) mappings) no_mappings
  attempt fault
  affected_some (update_live (λ w. record w { status = "active" }) id webhooks)

unfoldable pub rotate_token :
    Option String → NewToken → String → List WebhookRow → Result StoreError (List WebhookRow)
unfolding fresh_token update_live
rotate_token fault new_token id webhooks = do
  (token, secret) ← fresh_token new_token
  attempt fault
  affected_some (update_live (λ w. record w { token_secret = secret }) id webhooks)

-- Without the query of the changed row, which the function returns.
unfoldable pub update_webhook :
    Option String
    → String
    → UpdateWebhookInput
    → List WebhookRow
    → Result StoreError (List WebhookRow)
unfolding is_valid_webhook_method update_live
update_webhook fault id input webhooks = do
  guard (is_valid_webhook_method input.method) invalid_webhook_method
  attempt fault
  affected_some (
      update_live
        (λ w. record w {
          name = input.name;
          method = input.method;
          event_type_path = input.event_type_path;
          event_id_path = non_empty input.event_id_path;
        })
        id webhooks)

unfoldable pub soft_delete_webhook :
    Option String → String → List WebhookRow → Result StoreError (List WebhookRow)
unfolding update_live
soft_delete_webhook fault id webhooks = do
  attempt fault
  affected_some (update_live (λ w. record w { is_deleted = true }) id webhooks)

unfoldable pub is_known_action : String → Bool
is_known_action action = action == "insert" || (action == "update" || action == "delete")

unfoldable pub has_column : List Column → String → Bool
has_column columns name = any (λ (c : Column). c.name == name) columns

-- `reg.GetTable`
abbrev pub found_table : Option Table → Result StoreError Table
found_table none = err unknown_target_table
found_table (some table) = ok table

-- The UNIQUE constraint of the table.
unfoldable pub is_taken : String → String → List EventMappingRow → Bool
is_taken id value mappings =
    any (λ (m : EventMappingRow). m.webhook_id == id && m.event_type_value == value) mappings

-- The checks in front of the INSERT.
unfoldable pub check_mapping : Option Table → EventMappingDef → Result StoreError (Unit {0})
unfolding trim_space is_known_action has_column
check_mapping table def = do
  guard (not (trim_space def.event_type_value == "")) event_type_value_required
  guard (is_known_action def.action) invalid_action
  guard (def.action == "insert" || not (def.match_key_column == "")) match_key_required
  guard (not (is_empty def.field_mappings)) field_mappings_required
  found ← found_table table
  guard (def.match_key_column == "" || has_column found.columns def.match_key_column)
      unknown_target_column
  guard (all (λ (f : FieldMapping). has_column found.columns f.column) def.field_mappings)
      unknown_target_column

-- The row that is inserted. Its JSON cannot fail to be written.
unfoldable pub mapping_row : String → String → EventMappingDef → EventMappingRow
mapping_row id webhook_id def = record {
  id = id;
  webhook_id = webhook_id;
  event_type_value = def.event_type_value;
  action = def.action;
  target_table = def.target_table;
  match_key_column = non_empty def.match_key_column;
  field_mappings = def.field_mappings;
}

unfoldable pub save_event_mapping :
    Option String
    → Option Table
    → String
    → String
    → EventMappingDef
    → List EventMappingRow
    → Result StoreError (List EventMappingRow)
unfolding check_mapping is_taken mapping_row
save_event_mapping fault table id webhook_id def mappings = do
  check_mapping table def
  attempt fault
  guard (not (is_taken webhook_id def.event_type_value mappings)) mapping_conflict
  ok (mapping_row id webhook_id def ∷ mappings)

-- DELETE … WHERE id = $1 AND webhook_id = $2, and whether a row was there.
unfoldable pub drop_mapping : String → String → List EventMappingRow → List EventMappingRow × Bool
drop_mapping id webhook_id [] = ([], false)
drop_mapping id webhook_id (m ∷ ms) =
    let (ms', found) = drop_mapping id webhook_id ms in
    if m.id == id && m.webhook_id == webhook_id then (ms', true) else (m ∷ ms', found)

abbrev pub deleted_some : List EventMappingRow × Bool → Result StoreError (List EventMappingRow)
deleted_some (ms, false) = err mapping_not_found
deleted_some (ms, true) = ok ms

unfoldable pub delete_event_mapping :
    Option String
    → String
    → String
    → List EventMappingRow
    → Result StoreError (List EventMappingRow)
unfolding drop_mapping
delete_event_mapping fault webhook_id id mappings = do
  attempt fault
  deleted_some (drop_mapping id webhook_id mappings)
