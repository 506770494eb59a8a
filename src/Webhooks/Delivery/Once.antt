-- ===== src/Webhooks/Delivery/Once.antt =====
-- No event is written twice. The handler holds an advisory lock on the event's id from the check to
-- the end, so runs on one event come one after another.
use zeep_orbit.Prelude.{
  ℕ, ◌+◌, ◌≤◌, String, Bool, true, false, List, [], ◌∷◌, ◌==◌, ◌&&◌, ◌≡◌, ◌≢◌, inl, inr, refl,
  subst, eq_false, arith, any, contains, eq_iff, Bool-cases, if◌then◌else◌,
}
use zeep_orbit.Database.{Database}
use zeep_orbit.Webhooks.Store.{
  DeliveryEntry, is_processed, has_processed_event_id, processed_outcomes,
}
use zeep_orbit.Webhooks.Delivery.{Packages, WebhookRequest, Faults, WebhookState}
use zeep_orbit.Webhooks.Delivery.Handle.{handle_webhook_delivery}
use zeep_orbit.Webhooks.Delivery.Logged.{applied_outcomes, IsNew, Change, applied, kept}
use zeep_orbit.Webhooks.Delivery.Logged.Handled.{
  unlogged, logged, handle_webhook_delivery-IsAccounted,
}

and-eq_true : (a b : Bool) → (a && b) ≡ true → (a ≡ true) × (b ≡ true)
and-eq_true true b h = (refl, h)
and-eq_true false b h = absurd (cc)

-- The entry tells of a write of this event.
unfoldable pub is_write_of : String → String → DeliveryEntry → Bool
is_write_of id event_id d =
    d.webhook_id == id && (d.event_id == event_id && contains d.outcome applied_outcomes)

unfoldable pub count_writes : String → String → List DeliveryEntry → ℕ
unfolding is_write_of
count_writes id event_id [] = 0
count_writes id event_id (d ∷ ds) =
    (if is_write_of id event_id d then 1 else 0) + count_writes id event_id ds

-- A write counts as processing.
processed-of_applied :
    (outcome : String)
    → contains outcome applied_outcomes ≡ true
    → contains outcome processed_outcomes ≡ true
processed-of_applied outcome h =
    ground (arith, eq_iff "inserted" outcome, eq_iff "updated" outcome, eq_iff "deleted" outcome)

is_processed-of_write :
    (id event_id : String) (d : DeliveryEntry)
    → is_write_of id event_id d ≡ true
    → is_processed id event_id d ≡ true
unfolding is_write_of is_processed
is_processed-of_write id event_id d h = ground (arith, processed-of_applied d.outcome)

count_writes-of_new :
    (id event_id : String) (ds : List DeliveryEntry)
    → any (is_processed id event_id) ds ≡ false
    → count_writes id event_id ds ≡ 0
unfolding count_writes
count_writes-of_new id event_id [] h = refl
count_writes-of_new id event_id (d ∷ ds) h =
    ground (arith, is_processed-of_write id event_id d, count_writes-of_new id event_id ds)

module _ (id event_id : String) (named : event_id ≢ "") where
  abbrev AtMostOnce : List DeliveryEntry → Type 0
  AtMostOnce ds = count_writes id event_id ds ≤ 1

  write_of_parts :
      (d : DeliveryEntry)
      → is_write_of id event_id d ≡ true
      → (d.webhook_id ≡ id) × (d.event_id ≡ event_id) × (contains d.outcome applied_outcomes ≡ true)
  unfolding is_write_of
  write_of_parts d h =
      let (a, rest) = and-eq_true (d.webhook_id == id) _ h in
      let (b, c) = and-eq_true (d.event_id == event_id) _ rest in
      ((eq_iff d.webhook_id id).0 a, (eq_iff d.event_id event_id).0 b, c)

  new-count : (ds : List DeliveryEntry) → IsNew id event_id ds → count_writes id event_id ds ≡ 0
  unfolding has_processed_event_id
  new-count ds (inl nameless) = absurd (named nameless)
  new-count ds (inr unseen) =
      count_writes-of_new id event_id ds (rw (eq_false event_id "" named) at unseen)

  change-first :
      {D : Type 0} (ds : List DeliveryEntry) (before after : D) (d : DeliveryEntry)
      → Change ds before after d
      → (d.webhook_id ≡ id) × (d.event_id ≡ event_id) × (contains d.outcome applied_outcomes ≡ true)
      → count_writes id event_id ds ≡ 0
  change-first ds before after d (kept not_applied same) (a, b, c) = absurd (cc)
  change-first ds before after d (applied done fresh) (a, b, c) =
      new-count ds
        (subst (λ w. IsNew w event_id ds) a (subst (λ v. IsNew d.webhook_id v ds) b fresh))

  change-AtMostOnce :
      {D : Type 0} (ds : List DeliveryEntry) (before after : D) (d : DeliveryEntry)
      → AtMostOnce ds
      → Change ds before after d
      → AtMostOnce (d ∷ ds)
  unfolding count_writes
  change-AtMostOnce ds before after d h change = elim (Bool-cases (is_write_of id event_id d)) [
    | inr other ↦ rw other (omega arith)
    | inl write ↦
        let none_before = change-first ds before after d change (write_of_parts d write) in
        rw write (omega (arith, none_before))
  ]

  module _ (db : Database) (packages : Packages) where
    request-AtMostOnce :
        (faults : Faults) (r : WebhookRequest) (s : WebhookState db.State)
        → faults.log_works ≡ true
        → AtMostOnce s.deliveries
        → AtMostOnce (handle_webhook_delivery db packages faults r s).0.deliveries
    request-AtMostOnce faults r s works h =
        elim (handle_webhook_delivery-IsAccounted db packages faults works r s) [
          | unlogged same rows mappings status ↦ rw same h
          | logged wh found l ↦
              rw l.appended (change-AtMostOnce s.deliveries s.rows _ l.entry h l.change)
        ]

-- Requests one after another, each with what fails during it.
unfoldable pub handle_all :
    (db : Database)
    → Packages
    → List (Faults × WebhookRequest)
    → WebhookState db.State
    → WebhookState db.State
unfolding handle_webhook_delivery
handle_all db packages [] s = s
handle_all db packages ((faults, r) ∷ rs) s =
    handle_all db packages rs (handle_webhook_delivery db packages faults r s).0

abbrev pub AllLogged : List (Faults × WebhookRequest) → Type 0
AllLogged [] = Unit
AllLogged ((faults, r) ∷ rs) = (faults.log_works ≡ true) × AllLogged rs

-- Whatever requests come, in whatever order and with whatever failures but those of the log, an
-- event with an id is written at most once: if the log has at most one entry of a write of the
-- event, it still has at most one after them.
pub handle_all-at_most_once :
    (db : Database) (packages : Packages) (rs : List (Faults × WebhookRequest))
    (s : WebhookState db.State) (id event_id : String)
    → event_id ≢ ""
    → AllLogged rs
    → count_writes id event_id s.deliveries ≤ 1
    → count_writes id event_id (handle_all db packages rs s).deliveries ≤ 1
unfolding handle_all
handle_all-at_most_once db packages [] s id event_id named works h = h
handle_all-at_most_once db packages ((faults, r) ∷ rs) s id event_id named (w, works) h =
    handle_all-at_most_once db packages rs (handle_webhook_delivery db packages faults r s).0 id
      event_id named works (request-AtMostOnce id event_id named db packages faults r s w h)
