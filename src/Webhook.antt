-- ===== src/Webhook.antt =====
-- internal/webhook: the event log sent to subscribers, with retries. One loop reads the log and
-- files deliveries, another attempts those that are due. What the network answers, the clock, the
-- random draws and which statements fail are inputs.
pub mod Filing
pub mod Draining
pub mod Attempts
pub mod Rows
pub mod Rounds
pub mod Settling
mod Examples
use xeron_mx.Prelude.{
  ℕ, zero, suc, ◌+◌, ◌-◌, ◌*◌, ◌/◌, Bool, true, false, not, ◌&&◌, ◌||◌, Option, none, some, List,
  [], ◌∷◌, ◌++◌, ltb, leb, ◌==◌, if◌then◌else◌, is_empty,
}
use xeron_mx.Text.{Bytes, codes}
use xeron_mx.Store.Time.{Time, second}
use xeron_mx.Store.Webhooks.{
  Webhook, Delivery, LogEvent, Tables, wants, webhook, list_webhooks, events_since, max_event_id,
  enqueue_delivery, mark_delivery_succeeded, reschedule_delivery, mark_delivery_failed,
  due_deliveries,
}

abbrev pub tail_batch : ℕ
tail_batch = 200

-- The statements of the reading loop that fail, the insertion for each subscription and event. An
-- event is rendered for the subscribers, `none` where it cannot be.
pub record DrainInput : Type 0 where
  pub now : Time
  pub events_fails : Bool
  pub hooks_fails : Bool
  pub insert_fails : ℕ → ℕ → Bool
  pub meta_fails : Bool
  pub render : LogEvent → Option Bytes

-- startCursor, where the row of meta is read or missing. `none` is an error.
unfoldable pub start_cursor : Bool → Bool → Tables → Option ℕ × Tables
unfolding max_event_id
start_cursor head_fails meta_fails t = elim t.cursor [
  | some c ↦ (some c, t)
  | none ↦
      if head_fails
      then (none, t)
      else if meta_fails
      then (none, t)
      else (some (max_event_id t), record t { cursor = some (max_event_id t) })
]

-- Whether the loops of drain go on, and the tables.
abbrev pub Step : Type 0
Step = Bool × Tables

module _ (i : DrainInput) where
  abbrev pub insert : Option Tables → Tables → Step
  insert none t = (false, t)
  insert (some t') t = (true, t')

  abbrev pub offer_rendered : LogEvent → Webhook → Option Bytes → Tables → Bool × Tables
  offer_rendered e h none t = (true, t)
  offer_rendered e h (some payload) t =
      insert
        (if i.insert_fails h.id e.id then none else enqueue_delivery h.id e.type payload i.now t) t

  unfoldable pub offer : LogEvent → Webhook → Tables → Bool × Tables
  unfolding wants enqueue_delivery
  offer e h t = if not (wants h e.type) then (true, t) else offer_rendered e h (i.render e) t

  unfoldable pub offer_all : LogEvent → List Webhook → Tables → Bool × Tables
  unfolding offer
  offer_all e [] t = (true, t)
  offer_all e (h ∷ hooks) t =
      let r = offer e h t in let rest = offer_all e hooks r.1 in if r.0 then rest else r

  -- The loop over the events: the cursor behind the last one, `none` where an insertion failed.
  unfoldable pub drain_events : List LogEvent → List Webhook → ℕ → Tables → Option ℕ × Tables
  unfolding offer_all
  drain_events [] hooks cursor t = (some cursor, t)
  drain_events (e ∷ events) hooks cursor t =
      let r = offer_all e hooks t in
      let rest = drain_events events hooks e.id r.1 in if r.0 then rest else (none, r.1)

  abbrev pub keep_cursor : Option ℕ × Tables → Option ℕ × Tables
  keep_cursor (none, t) = (none, t)
  keep_cursor (some c, t) =
      if i.meta_fails then (none, t) else (some c, record t { cursor = some c })

  -- `none` is an error.
  unfoldable pub drain : ℕ → Tables → Option ℕ × Tables
  unfolding drain_events events_since list_webhooks
  drain cursor t =
      if i.events_fails
      then (none, t)
      else if is_empty (events_since cursor tail_batch t)
      then (some cursor, t)
      else if i.hooks_fails
      then (none, t)
      else keep_cursor (drain_events (events_since cursor tail_batch t) (list_webhooks t) cursor t)

-- What tail makes of drain's answer: an error leaves the cursor in memory as it was.
abbrev pub taken : ℕ → Option ℕ × Tables → ℕ × Tables
taken cursor (none, t) = (cursor, t)
taken cursor (some c, t) = (c, t)

-- A round of tail.
unfoldable pub tail_round : DrainInput → ℕ → Tables → ℕ × Tables
unfolding drain
tail_round i cursor t = taken cursor (drain i cursor t)

pub record Config : Type 0 where
  pub max_attempts : ℕ
  pub retry_base : ℕ
  pub retry_max : ℕ

-- What send meets: whether the request can be built and the secret read, and the status that the
-- endpoint answers, `none` where the request fails.
pub record SendInput : Type 0 where
  pub request_fails : Bool
  pub unseal_fails : Bool
  pub response : Option ℕ
  pub error : Bytes

-- The status and the error, if any.
unfoldable pub send : SendInput → Webhook → ℕ × Option Bytes
send i h =
    if i.request_fails
    then (400, some (codes "build request: " ++ i.error))
    else if not (is_empty h.secret) && i.unseal_fails
    then (400, some (codes "the signing secret could not be read: " ++ i.error))
    else elim i.response [
      | none ↦ (0, some i.error)
      | some code ↦ if ltb code 200 || leb 300 code then (code, some i.error) else (code, none)
    ]

unfoldable pub retryable : ℕ → Bool
retryable code =
    if code == 0
    then true
    else if code == 408 || code == 429
    then true
    else not (leb 400 code && ltb code 500)

-- The loop of backoff over the attempts that are left.
unfoldable pub double : ℕ → ℕ → ℕ → ℕ
double zero max delay = delay
double (suc n) max delay = if ltb delay max then double n max (delay * 2) else delay

abbrev pub base_of : Config → ℕ
base_of cfg = if cfg.retry_base == 0 then 30 * second else cfg.retry_base

abbrev pub ceiling_of : Config → ℕ
ceiling_of cfg = if ltb cfg.retry_max (base_of cfg) then base_of cfg else cfg.retry_max

unfoldable pub delay_of : Config → ℕ → ℕ
unfolding double
delay_of cfg attempts =
    let d = double (attempts - 1) (ceiling_of cfg) (base_of cfg) in
    if ltb (ceiling_of cfg) d then ceiling_of cfg else d

-- `draw` is rand.Int63n(delay/10 + 1).
unfoldable pub backoff : Config → ℕ → ℕ → ℕ
unfolding delay_of
backoff cfg attempts draw = delay_of cfg attempts + draw

-- What an attempt meets. `write_fails` is that the statement which records the outcome fails.
pub record AttemptInput : Type 0 where
  pub now : Time
  pub hook_fails : Bool
  pub send : SendInput
  pub draw : ℕ
  pub write_fails : Bool
  pub reason : Bytes

module _ (cfg : Config) (i : AttemptInput) (del : Delivery) where
  abbrev record_outcome : Tables → Tables → Tables
  record_outcome t' t = if i.write_fails then t else t'

  unfoldable pub fail : ℕ → Bytes → Tables → Tables
  unfolding mark_delivery_failed
  fail code reason t = record_outcome (mark_delivery_failed del.id code reason t) t

  unfoldable pub attempt_answered : ℕ × Option Bytes → Tables → Tables
  unfolding fail mark_delivery_succeeded reschedule_delivery retryable backoff
  attempt_answered (code, none) t = record_outcome (mark_delivery_succeeded del.id code i.now t) t
  attempt_answered (code, some error) t =
      if not (retryable code)
      then fail code i.reason t
      else if leb cfg.max_attempts (del.attempts + 1)
      then fail code i.reason t
      else record_outcome
          (reschedule_delivery del.id code error (i.now + backoff cfg (del.attempts + 1) i.draw) t)
          t

  unfoldable pub attempt_on : Option Webhook → Tables → Tables
  unfolding attempt_answered send
  attempt_on none t = fail 0 (codes "the subscription no longer exists") t
  attempt_on (some h) t =
      if not h.enabled
      then fail 0 (codes "the subscription is disabled") t
      else attempt_answered (send i.send h) t

  unfoldable pub attempt : Tables → Tables
  unfolding attempt_on webhook
  attempt t = attempt_on (if i.hook_fails then none else webhook del.webhook_id t) t

-- The rows that deliverDue read, one after the other: its workers write different rows of the
-- deliveries. The inputs are those of the delivery's id.
unfoldable pub attempt_each : Config → (ℕ → AttemptInput) → List Delivery → Tables → Tables
unfolding attempt
attempt_each cfg inputs [] t = t
attempt_each cfg inputs (d ∷ due) t = attempt_each cfg inputs due (attempt cfg (inputs d.id) d t)

abbrev pub deliver_batch : ℕ
deliver_batch = 50

unfoldable pub deliver_due : Config → (ℕ → AttemptInput) → Bool → Time → Tables → Tables
unfolding attempt_each due_deliveries
deliver_due cfg inputs due_fails now t =
    if due_fails then t else attempt_each cfg inputs (due_deliveries now deliver_batch t) t
