-- ===== src/Webhooks/Delivery/Token.antt =====
-- Who may write through a webhook.
use zeep_orbit.Prelude.{
  true, Option, none, some, ◌==◌, ◌≡◌, ◌⊎◌, inl, inr, refl, eq_iff, Bool-cases,
}
use zeep_orbit.Database.{Database}
use zeep_orbit.RateLimit.PerApp.Middleware.{remote_ip}
use zeep_orbit.Webhooks.Store.{WebhookRow, charge}
use zeep_orbit.Webhooks.Delivery.{
  Packages, WebhookRequest, Faults, WebhookState, log_delivery, log_delivery_with_target,
  verify_webhook_token,
}
use zeep_orbit.Webhooks.Delivery.Handle.{refuse_token, found_webhook, handle_webhook_delivery}
use zeep_orbit.Webhooks.Delivery.Logged.Handled.{found_row}

-- The request has the method and the token of the webhook that it names.
abbrev pub IsAuthentic : Packages → WebhookRequest → Option WebhookRow → Type 0
IsAuthentic packages r found =
    (wh : WebhookRow) × (found ≡ some wh)
    × (r.method ≡ wh.method)
    × (verify_webhook_token packages.decrypt wh.token_secret r.token ≡ true)

-- The rows of the apps and of the webhooks are as they were.
abbrev pub IsUntouched : {D : Type 0} → WebhookState D → WebhookState D → Type 0
IsUntouched s t = (t.rows ≡ s.rows) × (t.webhooks ≡ s.webhooks)

module _ (db : Database) (packages : Packages) (faults : Faults) (r : WebhookRequest) where
  refuse_token-IsUntouched :
      (wh : WebhookRow) (s : WebhookState db.State)
      → IsUntouched s (refuse_token db packages faults r wh s).0
  unfolding refuse_token log_delivery log_delivery_with_target
  refuse_token-IsUntouched wh s = elim (Bool-cases (charge r.now wh.id s.auth_failure_limiter).1) [
    | inl a ↦ rw a (refl, refl)
    | inr a ↦ rw a (refl, refl)
  ]

  found_webhook-IsAuthentic :
      (found : Option WebhookRow) (s : WebhookState db.State)
      → IsUntouched s (found_webhook db packages faults r found s).0 ⊎ IsAuthentic packages r found
  unfolding found_webhook
  found_webhook-IsAuthentic none s = inl (refl, refl)
  found_webhook-IsAuthentic (some wh) s = elim (Bool-cases (r.method == wh.method)) [
    | inr a ↦ rw a (inl (refl, refl))
    | inl a ↦ elim (Bool-cases (verify_webhook_token packages.decrypt wh.token_secret r.token)) [
      | inl b ↦ inr (wh, refl, (eq_iff r.method wh.method).0 a, b)
      | inr b ↦ rw (a, b) (inl (refuse_token-IsUntouched wh s))
    ]
  ]

  -- A request that changes a row of an app, or a webhook's captured sample, names a webhook that the
  -- lookup finds, and has this webhook's method and a token that is verified against its secret.
  pub handle_webhook_delivery-IsAuthentic :
      (s : WebhookState db.State)
      → IsUntouched s (handle_webhook_delivery db packages faults r s).0
        ⊎ IsAuthentic packages r (found_row faults r s)
  unfolding handle_webhook_delivery
  handle_webhook_delivery-IsAuthentic s =
      let gate = charge r.now (remote_ip packages.split_host_port r.remote_addr) s.lookup_limiter in
      elim (Bool-cases gate.1) [
        | inl a ↦ rw a (
            found_webhook-IsAuthentic (found_row faults r s) (record s { lookup_limiter = gate.0 }))
        | inr a ↦ rw a (inl (refl, refl))
      ]
