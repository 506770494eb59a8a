-- ===== src/Webhooks/Delivery/Logged/Handled.antt =====
-- The entries of the other branches, and of the whole handler.
use zeep_orbit.Prelude.{
  subst, String, true, false, [], ◌∷◌, ◌&&◌, All, eq_iff, Option, none, some, List, ◌==◌, ◌||◌, ◌≡◌,
  ◌⊎◌, inl, inr, refl, Bool-cases, String-cases, Result-cases, Option-cases, lookup, eqb,
  if◌then◌else◌,
}
use zeep_orbit.Database.{Database}
use zeep_orbit.Registry.{App}
use zeep_orbit.RateLimit.PerApp.Middleware.{remote_ip}
use zeep_orbit.Webhooks.{str, obj, Fields, field, no_fields}
use zeep_orbit.Webhooks.Mapping.{resolve_fields}
use zeep_orbit.Webhooks.Store.{
  WebhookRow, EventMappingRow, DeliveryEntry, unknown_action, get_webhook_by_id,
  get_event_mapping_by_type, has_processed_event_id, store_captured_sample, charge,
}
use zeep_orbit.Webhooks.Delivery.{
  Packages, WebhookRequest, Faults, WebhookState, Response, Event, parse_webhook_payload,
  verification_challenge, verify_webhook_token,
}
use zeep_orbit.Webhooks.Delivery.Dispatch.{Target}
use zeep_orbit.Webhooks.Delivery.Active.{
  dispatch, resolve_event, find_app, check_processed, mapped_event, find_mapping,
  handle_active_delivery, event_id_of, text_at,
}
use zeep_orbit.Webhooks.Delivery.Handle.{
  captured_event, capture, deliver, read_payload, refuse_token, accept_token, found_webhook,
  handle_webhook_delivery,
}
use zeep_orbit.Webhooks.Delivery.Logged.{
  HasKey, IsSaved, IsNew, IsLogged, log-IsLogged, write_error-IsLogged,
}
use zeep_orbit.Webhooks.Delivery.Logged.Dispatched.{
  dispatch_insert-IsLogged, dispatch_update_or_delete-IsLogged,
}

-- What a request did to the log and the rows: see the theorem below.
pub data IsAccounted {D : Type 0} (found : Option WebhookRow) (deliveries : List DeliveryEntry)
    (rows : D) (mappings : List EventMappingRow) (result : WebhookState D × Response) : Type 0 where
  unlogged :
      result.0.deliveries ≡ deliveries
      → result.0.rows ≡ rows
      → result.0.mappings ≡ mappings
      → (result.1.status ≡ 404) ⊎ (result.1.status ≡ 429)
      → IsAccounted found deliveries rows mappings result
  logged :
      (wh : WebhookRow)
      → found ≡ some wh
      → IsLogged wh.id deliveries rows mappings result
      → IsAccounted found deliveries rows mappings result

-- The row that the lookup gives.
abbrev pub found_row : {D : Type 0} → Faults → WebhookRequest → WebhookState D → Option WebhookRow
found_row faults r s =
    if faults.get_webhook then none else get_webhook_by_id r.webhook_id s.webhooks

IsSaved-HasKey :
    (m : EventMappingRow) → m.action == "insert" ≡ false → IsSaved m → HasKey m.match_key_column
IsSaved-HasKey m i (inl e) = absurd (cc ((eq_iff m.action "insert").1 e))
IsSaved-HasKey m i (inr (known, key)) = key

IsSaved-known :
    (m : EventMappingRow)
    → m.action == "insert" ≡ false
    → (m.action == "update" || m.action == "delete") ≡ false
    → ¬ IsSaved m
IsSaved-known m i c (inl e) = cc ((eq_iff m.action "insert").1 e)
IsSaved-known m i c (inr (known, key)) = cc

-- A row that is found is one of the rows.
found_mapping :
    (id value : String) (ms : List EventMappingRow) (m : EventMappingRow)
    → get_event_mapping_by_type id value ms ≡ some m
    → All IsSaved ms
    → IsSaved m
unfolding get_event_mapping_by_type
found_mapping id value [] m e h = absurd (cc)
found_mapping id value (n ∷ ms) m e h =
    elim (Bool-cases (n.webhook_id == id && n.event_type_value == value)) [
      | inl q ↦
          let taken : some n ≡ some m = rw (q, get_event_mapping_by_type) at e in
          let same : n ≡ m = cc in subst IsSaved same h.0
      | inr q ↦ found_mapping id value ms m (rw (q, get_event_mapping_by_type) at e) h.1
    ]

module _ (db : Database) (packages : Packages) (faults : Faults)
    (works : faults.log_works ≡ true) where
  abbrev Logged : WebhookRow → WebhookState db.State → WebhookState db.State × Response → Type 0
  Logged wh s r = IsLogged wh.id s.deliveries s.rows s.mappings r

  dispatch-IsLogged :
      (e : Event) (t : Target) (s : WebhookState db.State)
      → IsNew e.webhook.id e.event_id s.deliveries
      → (All IsSaved s.mappings → IsSaved t.mapping)
      → Logged e.webhook s (dispatch db packages faults e t s)
  unfolding dispatch
  dispatch-IsLogged e t s fresh saved = elim (Bool-cases (t.mapping.action == "insert")) [
    | inl i ↦ rw i (dispatch_insert-IsLogged db packages faults works e t s fresh)
    | inr i ↦ elim (Bool-cases (t.mapping.action == "update" || t.mapping.action == "delete")) [
      | inl c ↦
          rw (i, c)
            (dispatch_update_or_delete-IsLogged db packages faults works e t s c fresh
              (λ h. IsSaved-HasKey t.mapping i (saved h)))
      | inr c ↦
          rw (i, c)
            (write_error-IsLogged faults works e (unknown_action t.mapping.action) s
              (λ h. IsSaved-known t.mapping i c (saved h)))
    ]
  ]

  resolve_event-IsLogged :
      (e : Event) (mapping : EventMappingRow) (app : App) (s : WebhookState db.State)
      → IsNew e.webhook.id e.event_id s.deliveries
      → (All IsSaved s.mappings → IsSaved mapping)
      → Logged e.webhook s (resolve_event db packages faults e mapping app s)
  unfolding resolve_event
  resolve_event-IsLogged e mapping app s fresh saved =
      elim (Option-cases (app.tables mapping.target_table)) [
        | inl a ↦ rw (a, resolve_event) (write_error-IsLogged faults works e _ s (λ h. tt))
        | inr (table, a) ↦ elim (Result-cases (resolve_fields e.payload mapping.field_mappings)) [
          | inl (path, b) ↦
              rw (a, resolve_event, b) (write_error-IsLogged faults works e _ s (λ h. tt))
          | inr (resolved, b) ↦
              rw (a, resolve_event, b)
                (dispatch-IsLogged e
                  (record { app = app; table = table; mapping = mapping; resolved = resolved }) s
                  fresh saved)
        ]
      ]

  find_app-IsLogged :
      (e : Event) (mapping : EventMappingRow) (s : WebhookState db.State)
      → IsNew e.webhook.id e.event_id s.deliveries
      → (All IsSaved s.mappings → IsSaved mapping)
      → Logged e.webhook s (find_app db packages faults e mapping s)
  unfolding find_app
  find_app-IsLogged e mapping s fresh saved = elim (Option-cases faults.get_app_name) [
    | inr (text, a) ↦ rw (a, find_app) (write_error-IsLogged faults works e _ s (λ h. tt))
    | inl a ↦ elim (Option-cases (lookup e.webhook.app_id s.app_names)) [
      | inl b ↦ rw (a, find_app, b) (write_error-IsLogged faults works e _ s (λ h. tt))
      | inr (name, b) ↦ elim (Option-cases (s.get_app name)) [
        | inl c ↦ rw (a, find_app, b, c) (write_error-IsLogged faults works e _ s (λ h. tt))
        | inr (app, c) ↦ rw (a, find_app, b, c) (resolve_event-IsLogged e mapping app s fresh saved)
      ]
    ]
  ]

  check_processed-IsLogged :
      (e : Event) (mapping : EventMappingRow) (s : WebhookState db.State)
      → (All IsSaved s.mappings → IsSaved mapping)
      → Logged e.webhook s (check_processed db packages faults e mapping s)
  unfolding check_processed
  check_processed-IsLogged e mapping s saved = elim (Option-cases faults.lock) [
    | inr (text, a) ↦ rw (a, check_processed) (write_error-IsLogged faults works e _ s (λ h. tt))
    | inl a ↦ elim (Option-cases faults.read_processed) [
      | inr (text, b) ↦
          rw (a, check_processed, b) (write_error-IsLogged faults works e _ s (λ h. tt))
      | inl b ↦ elim (Bool-cases (has_processed_event_id e.webhook.id e.event_id s.deliveries)) [
        | inl c ↦
            rw (a, check_processed, b, c)
              (log-IsLogged faults works e.webhook.id 200 "duplicate_skipped" e.raw_payload
                e.event_type_value e.event_id _ s _ refl (λ h. tt))
        | inr c ↦ rw (a, check_processed, b, c) (find_app-IsLogged e mapping s (inr c) saved)
      ]
    ]
  ]

  mapped_event-IsLogged :
      (e : Event) (mapping : EventMappingRow) (s : WebhookState db.State)
      → (All IsSaved s.mappings → IsSaved mapping)
      → Logged e.webhook s (mapped_event db packages faults e mapping s)
  unfolding mapped_event
  mapped_event-IsLogged e mapping s saved = elim (String-cases e.event_id "") [
    | inl (a, p) ↦ rw a (find_app-IsLogged e mapping s (inl p) saved)
    | inr (a, p) ↦ rw a (check_processed-IsLogged e mapping s saved)
  ]

  find_mapping-IsLogged :
      (e : Event) (s : WebhookState db.State)
      → Logged e.webhook s (find_mapping db packages faults e s)
  unfolding find_mapping
  find_mapping-IsLogged e s = elim (Option-cases faults.get_mapping) [
    | inr (text, a) ↦ rw (a, find_mapping) (write_error-IsLogged faults works e _ s (λ h. tt))
    | inl a ↦
        elim (Option-cases (get_event_mapping_by_type e.webhook.id e.event_type_value s.mappings)) [
          | inl b ↦
              rw (a, find_mapping, b)
                (log-IsLogged faults works e.webhook.id 200 "unmapped" e.raw_payload
                  e.event_type_value "" _ s _ refl (λ h. tt))
          | inr (mapping, b) ↦
              rw (a, find_mapping, b)
                (mapped_event-IsLogged
                  (record e {
                    event_id = event_id_of packages.sprint e.payload e.webhook.event_id_path;
                  })
                  mapping s
                  (λ h. found_mapping e.webhook.id e.event_type_value s.mappings mapping b h))
        ]
  ]

  module _ (r : WebhookRequest) where
    capture-IsLogged :
        (wh : WebhookRow) (payload : Fields) (raw : String) (s : WebhookState db.State)
        → Logged wh s (capture db packages faults r wh payload raw s)
    unfolding capture
    capture-IsLogged wh payload raw s = elim (Option-cases faults.store_sample) [
      | inr (text, a) ↦
          rw (a, capture)
            (write_error-IsLogged faults works (captured_event db packages faults r wh payload raw)
              _ s (λ h. tt))
      | inl a ↦ elim (Bool-cases (eqb (store_captured_sample wh.id raw s.webhooks).1 0)) [
        | inl b ↦
            rw (a, capture, b)
              (write_error-IsLogged faults works
                (captured_event db packages faults r wh payload raw) _ s (λ h. tt))
        | inr b ↦
            rw (a, capture, b)
              (log-IsLogged faults works wh.id 200 "captured" raw "" "" _
                (record s { webhooks = (store_captured_sample wh.id raw s.webhooks).0 }) _ refl
                (λ h. tt))
      ]
    ]

    active-IsLogged :
        (wh : WebhookRow) (payload : Fields) (raw : String) (s : WebhookState db.State)
        → Logged wh s (handle_active_delivery db packages faults wh payload raw s)
    unfolding handle_active_delivery
    active-IsLogged wh payload raw s =
        find_mapping-IsLogged
          (record {
            webhook = wh;
            payload = payload;
            raw_payload = raw;
            event_type_value = text_at packages.sprint payload wh.event_type_path;
            event_id = "";
          })
          s

    deliver-IsLogged :
        (wh : WebhookRow) (payload : Fields) (s : WebhookState db.State)
        → Logged wh s (deliver db packages faults r wh payload s)
    unfolding deliver
    deliver-IsLogged wh payload s = elim (Option-cases (verification_challenge payload)) [
      | inr (c, a) ↦
          rw (a, deliver)
            (log-IsLogged faults works wh.id 200 "verification_challenge"
              (packages.marshal (obj (field "challenge" (str c) no_fields))) "" "" _ s _ refl
              (λ h. tt))
      | inl a ↦ elim (Bool-cases (wh.status == "capture")) [
        | inl b ↦
            rw (a, deliver, b) (capture-IsLogged wh payload (packages.marshal (obj payload)) s)
        | inr b ↦ rw (a, deliver, b) (active-IsLogged wh payload (packages.marshal (obj payload)) s)
      ]
    ]

    read_payload-IsLogged :
        (wh : WebhookRow) (s : WebhookState db.State)
        → Logged wh s (read_payload db packages faults r wh s)
    unfolding read_payload
    read_payload-IsLogged wh s = elim (Result-cases (parse_webhook_payload packages.unmarshal r)) [
      | inl (text, a) ↦
          rw (a, read_payload)
            (log-IsLogged faults works wh.id 400 "malformed" "" "" "" _ s _ refl (λ h. tt))
      | inr (payload, a) ↦ rw (a, read_payload) (deliver-IsLogged wh payload s)
    ]

    refuse_token-IsLogged :
        (wh : WebhookRow) (s : WebhookState db.State)
        → (charge r.now wh.id s.auth_failure_limiter).1 ≡ true
        → Logged wh s (refuse_token db packages faults r wh s)
    unfolding refuse_token
    refuse_token-IsLogged wh s allowed = rw allowed (
        log-IsLogged faults works wh.id 401 "invalid_token" "" "" "" _
          (record s { auth_failure_limiter = (charge r.now wh.id s.auth_failure_limiter).0 }) _ refl
          (λ h. tt))

    found_webhook-IsAccounted :
        (found : Option WebhookRow) (s : WebhookState db.State)
        → IsAccounted found s.deliveries s.rows s.mappings
            (found_webhook db packages faults r found s)
    unfolding found_webhook refuse_token accept_token
    found_webhook-IsAccounted none s = unlogged refl refl refl (inl refl)
    found_webhook-IsAccounted (some wh) s = elim (Bool-cases (r.method == wh.method)) [
      | inr a ↦ rw a (unlogged refl refl refl (inl refl))
      | inl a ↦ elim (Bool-cases (verify_webhook_token packages.decrypt wh.token_secret r.token)) [
        | inl b ↦ elim (Bool-cases (charge r.now wh.id s.limiter).1) [
          | inl c ↦
              rw (a, b, c)
                (logged wh refl (
                  read_payload-IsLogged wh
                    (record s { limiter = (charge r.now wh.id s.limiter).0 })))
          | inr c ↦ rw (a, b, c) (unlogged refl refl refl (inr refl))
        ]
        | inr b ↦ elim (Bool-cases (charge r.now wh.id s.auth_failure_limiter).1) [
          | inl c ↦ rw (a, b) (logged wh refl (refuse_token-IsLogged wh s c))
          | inr c ↦ rw (a, b, c) (unlogged refl refl refl (inr refl))
        ]
      ]
    ]

    -- Where the log can be written, every request either is answered with 404 or 429 and leaves the
    -- log and the apps' rows, or leaves exactly one entry more. This entry has the id of the
    -- webhook found and the status of the response; and unless it is that of a write, of an event
    -- that was not processed before or has no id, the apps' rows are as they were. The mappings
    -- stay, and where each of them has a known action, and a match key unless it inserts, the entry
    -- is of no branch that the code calls unreachable.
    pub handle_webhook_delivery-IsAccounted :
        (s : WebhookState db.State)
        → IsAccounted
            (found_row faults r s)
            s.deliveries
            s.rows
            s.mappings
            (handle_webhook_delivery db packages faults r s)
    unfolding handle_webhook_delivery
    handle_webhook_delivery-IsAccounted s =
        let gate =
          charge r.now (remote_ip packages.split_host_port r.remote_addr) s.lookup_limiter in
        elim (Bool-cases gate.1) [
          | inl a ↦ rw a (
              found_webhook-IsAccounted (found_row faults r s)
                (record s { lookup_limiter = gate.0 }))
          | inr a ↦ rw a (unlogged refl refl refl (inr refl))
        ]
