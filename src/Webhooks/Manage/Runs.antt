-- ===== src/Webhooks/Manage/Runs.antt =====
-- Webhooks that are managed while events are delivered.
use zeep_orbit.Prelude.{
  String, Bool, true, false, not, ◌&&◌, ◌||◌, Option, none, some, List, [], ◌∷◌, Result, ok, err,
  guard-eq-ok, ◌==◌, ◌≡◌, inl, inr, All, Bool-cases, String-cases, Result-cases, Option-cases,
}
use zeep_orbit.Prelude.Text.{trim_space}
use zeep_orbit.Database.{Database}
use zeep_orbit.Registry.{App, Table}
use zeep_orbit.Webhooks.Store.{WebhookRow, EventMappingRow, DeliveryEntry}
use zeep_orbit.Webhooks.Delivery.{Packages, WebhookRequest, Faults, WebhookState}
use zeep_orbit.Webhooks.Delivery.Handle.{handle_webhook_delivery}
use zeep_orbit.Webhooks.Delivery.Logged.{HasKey, IsSaved, IsForeseen}
use zeep_orbit.Webhooks.Delivery.Logged.Handled.{
  unlogged, logged, handle_webhook_delivery-IsAccounted,
}
use zeep_orbit.Webhooks.Manage.{
  StoreError, CreateWebhookInput, UpdateWebhookInput, EventMappingDef, NewToken, non_empty,
  create_webhook, update_webhook, rotate_token, activate_webhook, soft_delete_webhook, is_taken,
  deleted_some, is_known_action, check_mapping, mapping_row, save_event_mapping, drop_mapping,
  delete_event_mapping,
}

-- An operation with its arguments and what fails in it, or a request to the public route.
pub data Action : Type 0 where
  create : Option String → NewToken → String → CreateWebhookInput → Action
  update : Option String → String → UpdateWebhookInput → Action
  rotate : Option String → NewToken → String → Action
  activate : Option String → Option String → String → Action
  soft_delete : Option String → String → Action
  save : Option String → String → String → String → EventMappingDef → Action
  delete : Option String → String → String → Action
  deliver : Faults → WebhookRequest → Action

abbrev kept_or : {A : Type 0} → A → Result StoreError A → A
kept_or old (ok new) = new
kept_or old (err e) = old

abbrev target_of : Option App → String → Option Table
target_of none name = none
target_of (some app) name = app.tables name

module _ (db : Database) (packages : Packages) where
  abbrev State : Type 0
  State = WebhookState db.State

  abbrev set_webhooks : State → Result StoreError (List WebhookRow) → State
  set_webhooks s r = record s { webhooks = kept_or s.webhooks r }

  abbrev set_mappings : State → Result StoreError (List EventMappingRow) → State
  set_mappings s r = record s { mappings = kept_or s.mappings r }

  unfoldable pub run_action : Action → State → State
  unfolding create_webhook update_webhook rotate_token activate_webhook soft_delete_webhook
      save_event_mapping delete_event_mapping handle_webhook_delivery
  run_action (create fault new_token id input) s =
      set_webhooks s (create_webhook fault new_token id input s.webhooks)
  run_action (update fault id input) s = set_webhooks s (update_webhook fault id input s.webhooks)
  run_action (rotate fault new_token id) s =
      set_webhooks s (rotate_token fault new_token id s.webhooks)
  run_action (activate read_fault fault id) s =
      set_webhooks s (activate_webhook read_fault fault id s.mappings s.webhooks)
  run_action (soft_delete fault id) s = set_webhooks s (soft_delete_webhook fault id s.webhooks)
  run_action (save fault app_name id webhook_id def) s = set_mappings s (
      save_event_mapping fault (target_of (s.get_app app_name) def.target_table) id webhook_id def
        s.mappings)
  run_action (delete fault webhook_id id) s =
      set_mappings s (delete_event_mapping fault webhook_id id s.mappings)
  run_action (deliver faults r) s = (handle_webhook_delivery db packages faults r s).0

  unfoldable pub run_all : List Action → State → State
  unfolding run_action
  run_all [] s = s
  run_all (action ∷ actions) s = run_all actions (run_action action s)

-- The log can be written.
abbrev pub IsLoggable : Action → Type 0
IsLoggable (deliver faults r) = faults.log_works ≡ true
IsLoggable _ = Unit

abbrev IsPlain : DeliveryEntry → Type 0
IsPlain d = IsForeseen d.error_detail

-- Every mapping is one that SaveEventMapping stores, and no entry of the log is of a branch that the
-- code calls unreachable.
abbrev pub IsConsistent : {D : Type 0} → WebhookState D → Type 0
IsConsistent s = All IsSaved s.mappings × All IsPlain s.deliveries

HasKey-non_empty : (column : String) → not (column == "") ≡ true → HasKey (non_empty column)
HasKey-non_empty column h = elim (String-cases column "") [
  | inl (e, p) ↦ absurd (cc (rw e at h))
  | inr (e, p) ↦ rw e p
]

mapping_row-IsSaved :
    (id webhook_id : String) (def : EventMappingDef)
    → is_known_action def.action ≡ true
    → (def.action == "insert" || not (def.match_key_column == "")) ≡ true
    → IsSaved (mapping_row id webhook_id def)
unfolding mapping_row is_known_action
mapping_row-IsSaved id webhook_id def known key = elim (String-cases def.action "insert") [
  | inl (e, p) ↦ inl p
  | inr (e, p) ↦ inr (rw e at known, HasKey-non_empty def.match_key_column (rw e at key))
]

check_mapping-IsSaved :
    (table : Option Table) (id webhook_id : String) (def : EventMappingDef)
    → check_mapping table def ≡ ok tt
    → IsSaved (mapping_row id webhook_id def)
unfolding check_mapping
check_mapping-IsSaved table id webhook_id def h =
    let (filled, h1) = guard-eq-ok (not (trim_space def.event_type_value == "")) _ _ h in
    let (known, h2) = guard-eq-ok (is_known_action def.action) _ _ h1 in
    let (key, h3) =
      guard-eq-ok (def.action == "insert" || not (def.match_key_column == "")) _ _ h2 in
    mapping_row-IsSaved id webhook_id def known key

save-kept :
    (fault : Option String) (table : Option Table) (id webhook_id : String) (def : EventMappingDef)
    (ms : List EventMappingRow)
    → All IsSaved ms
    → All IsSaved (kept_or ms (save_event_mapping fault table id webhook_id def ms))
unfolding save_event_mapping
save-kept fault table id webhook_id def ms h = elim (Result-cases (check_mapping table def)) [
  | inl (e, q) ↦ rw (q, save_event_mapping) h
  | inr (u, q) ↦ elim (Option-cases fault) [
    | inr (text, f) ↦ rw (q, save_event_mapping, f) h
    | inl f ↦ elim (Bool-cases (is_taken webhook_id def.event_type_value ms)) [
      | inl t ↦ rw (q, save_event_mapping, f, t) h
      | inr t ↦
          rw (q, save_event_mapping, f, t) (check_mapping-IsSaved table id webhook_id def q, h)
    ]
  ]
]

drop_mapping-kept :
    (id webhook_id : String) (ms : List EventMappingRow)
    → All IsSaved ms
    → All IsSaved (drop_mapping id webhook_id ms).0
unfolding drop_mapping
drop_mapping-kept id webhook_id [] h = tt
drop_mapping-kept id webhook_id (m ∷ ms) h =
    elim (Bool-cases (m.id == id && m.webhook_id == webhook_id)) [
      | inl e ↦ rw e (drop_mapping-kept id webhook_id ms h.1)
      | inr e ↦ rw e (h.0, drop_mapping-kept id webhook_id ms h.1)
    ]

deleted-kept :
    (ms : List EventMappingRow) (r : List EventMappingRow × Bool)
    → All IsSaved ms
    → All IsSaved r.0
    → All IsSaved (kept_or ms (deleted_some r))
deleted-kept ms (ms', true) h k = k
deleted-kept ms (ms', false) h k = h

delete-kept :
    (fault : Option String) (webhook_id id : String) (ms : List EventMappingRow)
    → All IsSaved ms
    → All IsSaved (kept_or ms (delete_event_mapping fault webhook_id id ms))
unfolding delete_event_mapping
delete-kept none webhook_id id ms h =
    deleted-kept ms (drop_mapping id webhook_id ms) h (drop_mapping-kept id webhook_id ms h)
delete-kept (some text) webhook_id id ms h = h

module _ (db : Database) (packages : Packages) where
  deliver-IsConsistent :
      (faults : Faults) (r : WebhookRequest) (s : WebhookState db.State)
      → faults.log_works ≡ true
      → IsConsistent s
      → IsConsistent (handle_webhook_delivery db packages faults r s).0
  deliver-IsConsistent faults r s works (saved, plain) =
      elim (handle_webhook_delivery-IsAccounted db packages faults works r s) [
        | unlogged same rows mappings status ↦ (rw mappings saved, rw same plain)
        | logged wh found l ↦ (rw l.same_mappings saved, rw l.appended (l.foreseen saved, plain))
      ]

  action-IsConsistent :
      (action : Action) (s : WebhookState db.State)
      → IsLoggable action
      → IsConsistent s
      → IsConsistent (run_action db packages action s)
  unfolding run_action
  action-IsConsistent (create fault new_token id input) s w h = h
  action-IsConsistent (update fault id input) s w h = h
  action-IsConsistent (rotate fault new_token id) s w h = h
  action-IsConsistent (activate read_fault fault id) s w h = h
  action-IsConsistent (soft_delete fault id) s w h = h
  action-IsConsistent (save fault app_name id webhook_id def) s w h =
      (save-kept fault _ id webhook_id def s.mappings h.0, h.1)
  action-IsConsistent (delete fault webhook_id id) s w h =
      (delete-kept fault webhook_id id s.mappings h.0, h.1)
  action-IsConsistent (deliver faults r) s w h = deliver-IsConsistent faults r s w h

  -- Whatever is done with webhooks and mappings while events are delivered, and whatever fails but the
  -- log: every stored mapping has a known action, and a match key unless it inserts, and no delivery
  -- ends in a branch that the code calls unreachable, that of an unknown action or of a missing match
  -- key, if this holds at the start.
  pub run_all-IsConsistent :
      (actions : List Action) (s : WebhookState db.State)
      → All IsLoggable actions
      → IsConsistent s
      → IsConsistent (run_all db packages actions s)
  unfolding run_all
  run_all-IsConsistent [] s w h = h
  run_all-IsConsistent (action ∷ actions) s (w, ws) h =
      run_all-IsConsistent actions (run_action db packages action s) ws
        (action-IsConsistent action s w h)
