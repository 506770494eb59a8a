-- ===== src/Webhooks/Delivery/Handle.antt =====
-- The entry of the route: HandleWebhookDelivery.
use zeep_orbit.Prelude.{String, not, Option, none, some, ok, err, ◌==◌, eqb, if◌then◌else◌}
use zeep_orbit.Database.{Database}
use zeep_orbit.RateLimit.PerApp.Middleware.{remote_ip}
use zeep_orbit.Webhooks.{str, obj, Fields, field, no_fields}
use zeep_orbit.Webhooks.Store.{
  WebhookRow, no_detail, message, get_webhook_by_id, store_captured_sample, charge,
}
use zeep_orbit.Webhooks.Delivery.{
  Packages, WebhookRequest, Faults, WebhookState, Response, respond, error, status_only, challenge,
  Event, log_delivery, write_error, parse_webhook_payload, verification_challenge,
  verify_webhook_token,
}
use zeep_orbit.Webhooks.Delivery.Active.{handle_active_delivery}

abbrev pub too_many_requests : Response
too_many_requests = respond 429 (error "too many requests")

module _ (db : Database) (packages : Packages) (faults : Faults) (r : WebhookRequest) where
  -- The event of a webhook in capture mode, of which nothing but the payload is logged.
  abbrev pub captured_event : WebhookRow → Fields → String → Event
  captured_event wh payload raw = record {
    webhook = wh;
    payload = payload;
    raw_payload = raw;
    event_type_value = "";
    event_id = "";
  }

  -- `wh.Status == "capture"`. StoreCapturedSample fails where it affects no row.
  unfoldable pub capture :
      WebhookRow → Fields → String → WebhookState db.State → WebhookState db.State × Response
  unfolding write_error log_delivery store_captured_sample
  capture wh payload raw s = elim faults.store_sample [
    | some text ↦ write_error faults (captured_event wh payload raw) (message text) s
    | none ↦
        let (webhooks', count) = store_captured_sample wh.id raw s.webhooks in
        if eqb count 0
        then write_error faults (captured_event wh payload raw)
            (message "dashboard: webhook not found") s
        else (
          log_delivery faults wh.id 200 "captured" raw "" "" no_detail
              (record s { webhooks = webhooks' }),
          respond 200 (status_only "captured"),
        )
  ]

  -- After the payload is parsed. Its JSON cannot fail to be written.
  unfoldable pub deliver :
      WebhookRow → Fields → WebhookState db.State → WebhookState db.State × Response
  unfolding verification_challenge log_delivery capture handle_active_delivery
  deliver wh payload s = elim (verification_challenge payload) [
    | some c ↦ (
      log_delivery faults wh.id 200 "verification_challenge"
          (packages.marshal (obj (field "challenge" (str c) no_fields))) "" "" no_detail s,
      respond 200 (challenge c),
    )
    | none ↦
        if wh.status == "capture"
        then capture wh payload (packages.marshal (obj payload)) s
        else handle_active_delivery db packages faults wh payload (packages.marshal (obj payload)) s
  ]

  unfoldable pub read_payload :
      WebhookRow → WebhookState db.State → WebhookState db.State × Response
  unfolding parse_webhook_payload log_delivery deliver
  read_payload wh s = elim (parse_webhook_payload packages.unmarshal r) [
    | err text ↦ (
      log_delivery faults wh.id 400 "malformed" "" "" "" (message text) s,
      respond 400 (error "malformed request body"),
    )
    | ok payload ↦ deliver wh payload s
  ]

  -- The token is wrong.
  unfoldable pub refuse_token :
      WebhookRow → WebhookState db.State → WebhookState db.State × Response
  unfolding charge log_delivery
  refuse_token wh s =
      let (limiter', allowed) = charge r.now wh.id s.auth_failure_limiter in
      let charged = record s { auth_failure_limiter = limiter' } in
      if allowed
      then (
        log_delivery faults wh.id 401 "invalid_token" "" "" "" no_detail charged,
        respond 401 (error "invalid or missing token"),
      )
      else (charged, too_many_requests)

  -- The token is right.
  unfoldable pub accept_token :
      WebhookRow → WebhookState db.State → WebhookState db.State × Response
  unfolding charge read_payload
  accept_token wh s =
      let (limiter', allowed) = charge r.now wh.id s.limiter in
      let charged = record s { limiter = limiter' } in
      if allowed then read_payload wh charged else (charged, too_many_requests)

  -- The row that the lookup found, if any.
  unfoldable pub found_webhook :
      Option WebhookRow → WebhookState db.State → WebhookState db.State × Response
  unfolding verify_webhook_token refuse_token accept_token
  found_webhook none s = (s, respond 404 (error "webhook not found"))
  found_webhook (some wh) s =
      if not (r.method == wh.method)
      then (s, respond 404 (error "webhook not found"))
      else if verify_webhook_token packages.decrypt wh.token_secret r.token
      then accept_token wh s
      else refuse_token wh s

  unfoldable pub handle_webhook_delivery : WebhookState db.State → WebhookState db.State × Response
  unfolding charge found_webhook get_webhook_by_id
  handle_webhook_delivery s =
      let (limiter', allowed) =
        charge r.now (remote_ip packages.split_host_port r.remote_addr) s.lookup_limiter in
      let charged = record s { lookup_limiter = limiter' } in
      if allowed
      then found_webhook
          (if faults.get_webhook then none else get_webhook_by_id r.webhook_id s.webhooks) charged
      else (charged, too_many_requests)
