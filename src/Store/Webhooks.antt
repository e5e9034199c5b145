-- ===== src/Store/Webhooks.antt =====
-- The subscriptions to the event log and their deliveries (internal/store/webhooks.go), the event
-- log as they read it, and the place in it that is kept in the table meta (internal/store/meta.go).
-- Of the columns created_at of a subscription is left out, of an event the free-form data and who
-- caused it. `none` in the answer of a statement is its error.
use xeron_mx.Prelude.{
  ℕ, ◌+◌, Bool, true, false, not, ◌&&◌, ◌||◌, Option, none, some, List, [], ◌∷◌, ◌++◌, map, ltb,
  leb, ◌==◌, if◌then◌else◌, is_empty, take, select, any, find, sort_by,
}
use xeron_mx.Text.{Bytes, bytes_eq, truncate}
use xeron_mx.Unicode.{Unicode}
use xeron_mx.Store.Time.{Time, text_le}

pub record Webhook : Type 0 where
  pub id : ℕ
  pub name : Bytes
  pub url : Bytes
  pub secret : Bytes
  pub events : List Bytes
  pub enabled : Bool
  pub last_error : Bytes
  pub last_success_at : Option Time

pub data DeliveryStatus : Type 0 where
  pending delivered failed : DeliveryStatus

pub record Delivery : Type 0 where
  pub id : ℕ
  pub webhook_id : ℕ
  pub event_type : Bytes
  pub payload : Bytes
  pub status : DeliveryStatus
  pub attempts : ℕ
  pub next_attempt_at : Time
  pub status_code : ℕ
  pub last_error : Bytes
  pub created_at : Time
  pub delivered_at : Option Time

pub record LogEvent : Type 0 where
  pub id : ℕ
  pub type : Bytes
  pub domain_id : Option ℕ
  pub queue_id : Option ℕ
  pub created_at : Time

-- The tables webhooks, webhook_deliveries and events, the value of the cursor in meta, and the
-- sequences of the ids.
pub record Tables : Type 0 where
  pub webhooks : List Webhook
  pub deliveries : List Delivery
  pub events : List LogEvent
  pub cursor : Option ℕ
  pub next_webhook : ℕ
  pub next_delivery : ℕ

abbrev pub is_waiting : DeliveryStatus → Bool
is_waiting pending = true
is_waiting delivered = false
is_waiting failed = false

unfoldable pub wants : Webhook → Bytes → Bool
unfolding any bytes_eq
wants h event_type =
    if not h.enabled
    then false
    else if is_empty h.events
    then true
    else any (λ e. bytes_eq e event_type) h.events

abbrev pub is_hook : ℕ → Webhook → Bool
is_hook k h = h.id == k

abbrev pub is_delivery : ℕ → Delivery → Bool
is_delivery k d = d.id == k

unfoldable pub create_webhook : Unicode → Webhook → Tables → Tables
create_webhook uc h t = record t {
  webhooks =
      t.webhooks
      ++ record h {
        id = t.next_webhook;
        name = uc.trim_space h.name;
        url = uc.trim_space h.url;
        last_error = [];
        last_success_at = none;
      }
        ∷ [];
  next_webhook = t.next_webhook + 1;
}

update_hook : ℕ → (Webhook → Webhook) → Tables → Option Tables
unfolding any
update_hook k f t =
    if any (is_hook k) t.webhooks
    then some (record t { webhooks = map (λ h. if is_hook k h then f h else h) t.webhooks })
    else none

unfoldable pub update_webhook : Unicode → Webhook → Tables → Option Tables
unfolding update_hook
update_webhook uc w = update_hook w.id λ h. record h {
  name = uc.trim_space w.name;
  url = uc.trim_space w.url;
  events = w.events;
  enabled = w.enabled;
}

unfoldable pub set_webhook_secret : ℕ → Bytes → Tables → Option Tables
unfolding update_hook
set_webhook_secret k secret = update_hook k λ h. record h { secret = secret }

-- The deliveries go with their subscription.
unfoldable pub delete_webhook : ℕ → Tables → Option Tables
unfolding any select
delete_webhook k t =
    if any (is_hook k) t.webhooks
    then some (record t {
      webhooks = select (λ h. not (is_hook k h)) t.webhooks;
      deliveries = select (λ (d : Delivery). not (d.webhook_id == k)) t.deliveries;
    })
    else none

unfoldable pub webhook : ℕ → Tables → Option Webhook
unfolding find
webhook k t = find (is_hook k) t.webhooks

unfoldable pub list_webhooks : Tables → List Webhook
unfolding sort_by
list_webhooks t = sort_by (λ (g h : Webhook). leb g.id h.id) t.webhooks

unfoldable pub events_since : ℕ → ℕ → Tables → List LogEvent
unfolding sort_by select
events_since k limit t =
    take (if limit == 0 then 200 else if ltb 500 limit then 200 else limit)
      (sort_by (λ (d e : LogEvent). leb d.id e.id) (select (λ (e : LogEvent). ltb k e.id) t.events))

max_id : List LogEvent → ℕ
max_id [] = 0
max_id (e ∷ events) = let rest = max_id events in if ltb rest e.id then e.id else rest

unfoldable pub max_event_id : Tables → ℕ
unfolding max_id
max_event_id t = max_id t.events

-- The reference to the subscription is a foreign key.
unfoldable pub enqueue_delivery : ℕ → Bytes → Bytes → Time → Tables → Option Tables
unfolding any
enqueue_delivery k event_type payload now t =
    if any (is_hook k) t.webhooks
    then some (record t {
      deliveries =
          t.deliveries
          ++ record {
            id = t.next_delivery;
            webhook_id = k;
            event_type = event_type;
            payload = payload;
            status = pending;
            attempts = 0;
            next_attempt_at = now;
            status_code = 0;
            last_error = [];
            created_at = now;
            delivered_at = none;
          }
            ∷ [];
      next_delivery = t.next_delivery + 1;
    })
    else none

unfoldable pub due_deliveries : Time → ℕ → Tables → List Delivery
unfolding sort_by select text_le
due_deliveries now limit t = take (if limit == 0 then 20 else limit) (
    sort_by (λ (d e : Delivery). text_le d.next_attempt_at e.next_attempt_at)
      (select (λ (d : Delivery). is_waiting d.status && text_le d.next_attempt_at now)
        t.deliveries))

unfoldable pub update_deliveries : ℕ → (Delivery → Delivery) → List Delivery → List Delivery
update_deliveries k f [] = []
update_deliveries k f (d ∷ rows) = (if is_delivery k d then f d else d) ∷ update_deliveries k f rows

-- The subscription of the delivery k, which a subquery finds.
touch_hook : ℕ → (Webhook → Webhook) → Tables → List Webhook
unfolding find
touch_hook k f t = elim (find (is_delivery k) t.deliveries) [
  | none ↦ t.webhooks
  | some d ↦ map (λ h. if is_hook d.webhook_id h then f h else h) t.webhooks
]

-- The three ends of an attempt. Each is a transaction on both tables.
unfoldable pub mark_delivery_succeeded : ℕ → ℕ → Time → Tables → Tables
unfolding update_deliveries touch_hook
mark_delivery_succeeded k code now t = record t {
  deliveries =
      update_deliveries k
        (λ d. record d {
          status = delivered;
          attempts = d.attempts + 1;
          status_code = code;
          last_error = [];
          delivered_at = some now;
        })
        t.deliveries;
  webhooks = touch_hook k (λ h. record h { last_success_at = some now; last_error = [] }) t;
}

unfoldable pub reschedule_delivery : ℕ → ℕ → Bytes → Time → Tables → Tables
unfolding update_deliveries touch_hook truncate
reschedule_delivery k code reason next t = record t {
  deliveries =
      update_deliveries k
        (λ d. record d {
          attempts = d.attempts + 1;
          status_code = code;
          last_error = truncate reason 500;
          next_attempt_at = next;
        })
        t.deliveries;
  webhooks = touch_hook k (λ h. record h { last_error = truncate reason 500 }) t;
}

unfoldable pub mark_delivery_failed : ℕ → ℕ → Bytes → Tables → Tables
unfolding update_deliveries touch_hook truncate
mark_delivery_failed k code reason t = record t {
  deliveries =
      update_deliveries k
        (λ d. record d {
          status = failed;
          attempts = d.attempts + 1;
          status_code = code;
          last_error = truncate reason 500;
        })
        t.deliveries;
  webhooks = touch_hook k (λ h. record h { last_error = truncate reason 500 }) t;
}

unfoldable pub purge_deliveries : Time → Tables → Tables
unfolding select text_le
purge_deliveries cutoff t = record t {
  deliveries =
      select (λ (d : Delivery). is_waiting d.status || text_le cutoff d.created_at) t.deliveries;
}
