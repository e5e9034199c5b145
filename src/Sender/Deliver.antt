-- ===== src/Sender/Deliver.antt =====
-- deliver, settle, bounce and maintain of internal/sender/sender.go: what a worker does with a
-- claimed message, and the housekeeping.
use xeron_mx.Prelude.{
  ℕ, ◌+◌, ◌-◌, ◌*◌, Bool, false, not, ◌&&◌, ◌||◌, Option, none, some, List, [], ◌∷◌, ◌++◌,
  if◌then◌else◌, is_empty, length,
}
use xeron_mx.Text.{Bytes, codes}
use xeron_mx.Store.Time.{Time, second}
use xeron_mx.Store.Types.{
  Message, Db, Domain, Event, EventType, mail_failed, mail_delivered, mail_deferred, mail_expired,
  queued, outbound, is_outbound,
}
use xeron_mx.Store.Queue
use xeron_mx.Store.Domains.{domain_by_id}
use xeron_mx.World.{
  World, PutResult, stored, exceeds, failed, put, get, try_delete, record_event, notify, with_queue,
}
use xeron_mx.Sender.{
  permanent, error_text, RecipientFailure, Recipients, Sent, sent, broke, addresses,
}

pub record Config : Type 0 where
  pub retry_base : ℕ
  pub retry_max : ℕ
  pub delivery_timeout : ℕ
  pub retention : ℕ
  pub bounces : Bool
  pub notifier : Bool

-- What a bounce meets: `report` is the message that internal/dsn builds for the recipients that
-- failed, `none` where it builds none.
pub record Bounce : Type 0 where
  pub id : Option ℕ
  pub now : Time
  pub report : List Bytes → Option Bytes
  pub put_fails : Bool
  pub enqueue_fails : Bool
  pub delete_fails : Bool

-- What a delivery meets. The errors are texts for the row. `attempt` is the outcome of send or
-- sendOutbound on the body; the flags name the calls that fail.
pub record Input : Type 0 where
  pub now : Time
  pub jitter : ℕ
  pub domain_fails : Bool
  pub domain_error : Bytes
  pub get_fails : Bool
  pub get_error : Bytes
  pub attempt : Message → Bytes → Sent
  pub mark_fails : Bool
  pub narrow_fails : Bool
  pub reschedule_fails : Bool
  pub delete_fails : Bool
  pub event_fails : Bool
  pub partial_event_fails : Bool
  pub bounce : Bounce

abbrev pub message_event : Message → EventType → Event
message_event m type = record { type = type; domain_id = some m.domain_id; queue_id = some m.id }

abbrev pub written : World → Option (List Message) → World
written w none = w
written w (some q) = with_queue q w

-- A statement on the queue whose failure is only logged.
abbrev pub attempted : Bool → Option (List Message) → World → World
attempted broken q w = if broken then w else written w q

abbrev pub count_deferred : World → World
count_deferred w = record w {
  count = record w.count { messages_deferred = w.count.messages_deferred + 1 };
}

abbrev pub count_failed : World → World
count_failed w = record w {
  count = record w.count { messages_failed = w.count.messages_failed + 1 };
}

abbrev pub count_delivered : World → World
count_delivered w = record w {
  count = record w.count { messages_delivered = w.count.messages_delivered + 1 };
}

abbrev pub first_error : List RecipientFailure → Bytes
first_error [] = codes "no recipients left to deliver to"
first_error (f ∷ fs) = error_text f.err

module _ (cfg : Config) where
  unfoldable pub should_bounce : Message → Bool
  should_bounce m =
      cfg.bounces
      && (not (is_empty m.envelope_from) && (is_outbound m.direction || m.sender_authenticated))

  abbrev pub record_and_tell : Bool → EventType → Message → World → World
  record_and_tell broken type m w =
      notify cfg.notifier type (record_event broken (message_event m type) w)

  -- The row of a bounce: the null sender, and the sender of the message as the recipient.
  unfoldable pub bounce_row : Message → ℕ → ℕ → Time → Message
  bounce_row m k n now = record {
    id = k;
    domain_id = m.domain_id;
    envelope_from = [];
    envelope_to = m.envelope_from ∷ [];
    subject = codes "Undelivered Mail Returned to Sender";
    size_bytes = n;
    received_at = now;
    expires_at = now + cfg.retention;
    status = queued;
    attempts = 0;
    next_retry_at = now;
    last_error = [];
    delivered_at = none;
    claimed_at = none;
    claimed_by = [];
    remote_addr = [];
    direction = outbound;
    spam_score = none;
    spam_action = [];
    quarantined_at = none;
    quarantine_reason = [];
    auth_results = [];
    sender_authenticated = false;
    malware_scan = [];
  }

  abbrev pub or_undone : Bounce → ℕ → World → Option Db → World
  or_undone b k w none = try_delete b.delete_fails k w
  or_undone b k w (some db) = record w { db = db }

  unfoldable pub queue_bounce : Bounce → Message → ℕ → World → PutResult → World
  unfolding bounce_row Queue.enqueue
  queue_bounce b m k w failed = try_delete b.delete_fails k w
  queue_bounce b m k w exceeds = try_delete b.delete_fails k w
  queue_bounce b m k w (stored n blobs) =
      let w' = record w { blobs = blobs } in
      or_undone b k w'
        (if b.enqueue_fails then none else Queue.enqueue (bounce_row m k n b.now) w'.db)

  abbrev pub spool_bounce : Bounce → Message → World → Option Bytes → Option ℕ → World
  spool_bounce b m w none k = w
  spool_bounce b m w (some raw) none = w
  spool_bounce b m w (some raw) (some k) =
      queue_bounce b m k w (put b.put_fails k raw (length raw + 1) w.blobs)

  unfoldable pub bounce : Bounce → Message → List Bytes → World → World
  unfolding should_bounce queue_bounce put
  bounce b m failures w =
      if is_empty failures || not (should_bounce m)
      then w
      else spool_bounce b m w (b.report failures) b.id

  module _ (i : Input) (m : Message) where
    abbrev pub told_deferred : Option (List Message) → World → World
    told_deferred none w = w
    told_deferred (some q) w = record_and_tell i.event_fails mail_deferred m (with_queue q w)

    unfoldable pub defer_ : Bytes → World → World
    unfolding Queue.reschedule record_event
    defer_ reason w =
        if i.reschedule_fails
        then w
        else told_deferred
            (Queue.reschedule m.id (m.attempts + 1) reason cfg.retry_base cfg.retry_max i.jitter
              i.now w.db.queue)
            w

    abbrev pub mark_failed : Bytes → World → World
    mark_failed reason w = attempted i.mark_fails (Queue.mark_failed m.id reason w.db.queue) w

    -- settle, the part that tells the sender of the recipients that were rejected.
    unfoldable pub tell_rejected : List RecipientFailure → World → World
    unfolding bounce record_event
    tell_rejected rejected w =
        if is_empty rejected
        then w
        else bounce i.bounce m (addresses rejected) (record_and_tell i.event_fails mail_failed m w)

    -- settle, the part for recipients that wait.
    unfoldable pub keep_deferred : Recipients → World → World
    unfolding defer_ Queue.set_recipients record_event
    keep_deferred res w =
        let w1 =
          if is_empty res.accepted
          then w
          else record_and_tell i.partial_event_fails mail_delivered m w in
        let w2 =
          attempted i.narrow_fails (Queue.set_recipients m.id (addresses res.deferred) w1.db.queue)
            w1 in
        defer_ (first_error res.deferred) (count_deferred w2)

    abbrev pub or_recorded : Option (List Message) → World → World
    or_recorded none w = w
    or_recorded (some q) w =
        record_and_tell i.partial_event_fails mail_delivered m
          (count_delivered (try_delete i.delete_fails m.id (with_queue q w)))

    -- settle, the part where every recipient was accepted or rejected.
    unfoldable pub finish : Recipients → World → World
    unfolding Queue.mark_failed Queue.mark_delivered
    finish res w =
        if is_empty res.accepted
        then try_delete i.delete_fails m.id
            (mark_failed (first_error res.rejected) (count_failed w))
        else if i.mark_fails
        then w
        else or_recorded (Queue.mark_delivered m.id i.now w.db.queue) w

    unfoldable pub settle : Recipients → World → World
    unfolding tell_rejected keep_deferred finish
    settle res w =
        let w1 = tell_rejected res.rejected w in
        if is_empty res.deferred then finish res w1 else keep_deferred res w1

    -- deliver behind the attempt.
    unfoldable pub conclude : Sent → World → World
    unfolding settle defer_ bounce
    conclude (sent res) w = settle res w
    conclude (broke e) w =
        if permanent e
        then record_and_tell i.event_fails mail_failed m (
            try_delete i.delete_fails m.id
              (bounce i.bounce m m.envelope_to (mark_failed (error_text e) (count_failed w))))
        else defer_ (error_text e) (count_deferred w)

    abbrev pub with_body : Option Bytes → World → World
    with_body none w = record_and_tell i.event_fails mail_failed m (
        bounce i.bounce m m.envelope_to
          (mark_failed (codes "message body unreadable: " ++ i.get_error) w))
    with_body (some body) w = conclude (i.attempt m body) w

    abbrev pub in_domain : Option Domain → World → World
    in_domain none w = defer_ (codes "domain lookup failed: " ++ i.domain_error) w
    in_domain (some d) w = with_body (if i.get_fails then none else get m.id w.blobs) w

    unfoldable pub deliver : World → World
    unfolding conclude domain_by_id get
    deliver w = in_domain (if i.domain_fails then none else domain_by_id m.domain_id w.db) w

  -- maintain: the loop over the rows that have expired.
  abbrev pub expire_found : Bounce → Bool → ℕ → Option Message → World → World
  expire_found b broken k none w =
      record_event broken (record { type = mail_expired; domain_id = none; queue_id = some k })
        (try_delete b.delete_fails k w)
  expire_found b broken k (some m) w =
      record_event broken
        (record { type = mail_expired; domain_id = some m.domain_id; queue_id = some k })
        (try_delete b.delete_fails k (bounce b m m.envelope_to w))

  abbrev pub count_expired : World → World
  count_expired w = record w {
    count = record w.count { messages_expired = w.count.messages_expired + 1 };
  }

  unfoldable pub expire_each : (ℕ → Bounce) → Bool → List ℕ → World → World
  unfolding bounce Queue.get_message record_event
  expire_each bounces broken [] w = w
  expire_each bounces broken (k ∷ ids) w =
      let w' = count_expired w in
      expire_each bounces broken ids (
        notify cfg.notifier mail_expired
          (expire_found (bounces k) broken k (Queue.get_message k w'.db.queue) w'))

  -- maintain without the purge of events, where its statements run.
  unfoldable pub maintain : (ℕ → Bounce) → Bool → Time → World → World
  unfolding expire_each Queue.expire_overdue Queue.release_orphaned_claims Queue.purge_delivered
  maintain bounces broken now w =
      let (q, expired) = Queue.expire_overdue now w.db.queue in
      let w1 = expire_each bounces broken expired (with_queue q w) in
      let q1 = Queue.release_orphaned_claims (now - 3 * cfg.delivery_timeout) w1.db.queue in
      with_queue (Queue.purge_delivered (now - 30 * 24 * 3600 * second) q1) w1
