-- ===== src/Smtpd.antt =====
-- internal/smtpd: the server that takes mail for the domains. A session is a record, a handler a
-- function of the session and the world; `none` in its answer is a handler that returned nil. What
-- the server asks of the outside, and which of its statements fail, are inputs of the call.
pub mod Data
pub mod Replies
pub mod Accept
pub mod Delivery
mod Examples
use xeron_mx.Prelude.{
  ℕ, ◌+◌, Bool, true, false, not, ◌&&◌, ◌||◌, Option, none, some, List, [], ◌∷◌, ◌++◌, ltb, leb,
  ◌==◌, if◌then◌else◌, is_empty, String,
}
use xeron_mx.Text.{Bytes, after_last}
use xeron_mx.Unicode.{Unicode}
use xeron_mx.Store.Types.{Db, Domain, Event, EventType, mail_rejected, queue_full}
use xeron_mx.Store.Queue.{stats, count_pending_for_domain}
use xeron_mx.Store.Domains.{domain_by_name, recipient_allowed}
use xeron_mx.World.{World, Counters, record_event, notify, reject}
use xeron_mx.Smtp.{SmtpError, smtp_error, temp_error}
use xeron_mx.Spam
use xeron_mx.Filter

pub record Clamav : Type 0 where
  pub enabled : Bool
  pub max_size : ℕ
  pub rejects : Bool

-- The fields of Server that the handlers read. `disk_check` is that there are a path and a check.
-- `filters` is the loaded set. Sizes and counts that are not positive are 0.
pub record Config : Type 0 where
  pub hostname : Bytes
  pub min_disk : ℕ
  pub disk_check : Bool
  pub max_messages : ℕ
  pub max_bytes : ℕ
  pub max_message_bytes : ℕ
  pub retention : ℕ
  pub notifier : Bool
  pub dnsbl : Bool
  pub spam : Option Spam.Config
  pub spam_defer : Bool
  pub filters : Option (List Filter.Rule)
  pub clamav : Option Clamav
  pub auth : Bool

-- What the connection tells: the name of EHLO and whether TLS is on.
pub record Conn : Type 0 where
  pub helo : Bytes
  pub is_tls : Bool

-- `domain_id` is 0 where no recipient was taken yet.
pub record Session : Type 0 where
  pub conn : Option Conn
  pub remote : Bytes
  pub from : Bytes
  pub rcpts : List Bytes
  pub domain_id : ℕ
  pub domain : Bytes

abbrev pub new : Option Conn → Bytes → Session
new conn remote = record {
  conn = conn;
  remote = remote;
  from = [];
  rcpts = [];
  domain_id = 0;
  domain = [];
}

unfoldable pub reset : Session → Session
reset s = record s { from = []; rcpts = []; domain_id = 0; domain = [] }

abbrev pub plain_event : EventType → Event
plain_event type = record { type = type; domain_id = none; queue_id = none }

-- recordEvent: the event is of the session's domain, where there is one.
unfoldable pub session_event : Session → EventType → Option ℕ → Event
session_event s type queue_id = record {
  type = type;
  domain_id = if s.domain_id == 0 then none else some s.domain_id;
  queue_id = queue_id;
}

abbrev pub draining_error : SmtpError
draining_error =
    smtp_error 421 4 3 2 "Service temporarily unavailable, server is draining for maintenance"

-- newSession. `listed` is what the blocklists answer; the reply's text leaves out the host and the
-- zone that the source puts into it.
unfoldable pub new_session :
    Config → Bool → Bool → Bool → Option Conn → Bytes → World → (Option SmtpError × Session) × World
unfolding record_event
new_session cfg draining listed event_fails conn remote w =
    let w' = record w {
      count = record w.count { smtp_connections = w.count.smtp_connections + 1 };
    } in
    if draining
    then ((some draining_error, new conn remote), reject w')
    else if cfg.dnsbl && listed
    then (
      (some (smtp_error 554 5 7 1 "Client host blocked"), new conn remote),
      record_event event_fails (plain_event mail_rejected) (reject w'),
    )
    else ((none, new conn remote), w')

-- What a MAIL command meets: `disk` is the free space, `none` where it cannot be told.
pub record MailInput : Type 0 where
  pub draining : Bool
  pub disk : Option ℕ
  pub event_fails : Bool
  pub stats_fails : Bool

abbrev is_below : Option ℕ → ℕ → Bool
is_below none limit = false
is_below (some n) limit = ltb n limit

abbrev pub disk_is_low : Config → Option ℕ → Bool
disk_is_low cfg disk = ltb 0 cfg.min_disk && (cfg.disk_check && is_below disk cfg.min_disk)

unfoldable pub spool_is_full : Config → World → Bool
unfolding stats
spool_is_full cfg w =
    let st = stats w.db.queue in
    (ltb 0 cfg.max_messages && leb cfg.max_messages st.pending)
    || (ltb 0 cfg.max_bytes && leb cfg.max_bytes st.pending_bytes)

abbrev tell_full : Config → Bool → Event → World → World
tell_full cfg event_fails e w =
    notify cfg.notifier queue_full (record_event event_fails e (reject w))

unfoldable pub mail :
    Config → MailInput → Bytes → Session → World → (Option SmtpError × Session) × World
unfolding session_event spool_is_full
mail cfg i from s w =
    if i.draining
    then ((some draining_error, s), reject w)
    else if disk_is_low cfg i.disk
    then (
      (some (smtp_error 452 4 3 1 "Insufficient system storage, try again later"), s),
      tell_full cfg i.event_fails (session_event s queue_full none) w,
    )
    else if i.stats_fails
    then ((some (temp_error "temporarily unable to accept mail"), s), w)
    else if spool_is_full cfg w
    then (
      (some (smtp_error 452 4 3 1 "Insufficient storage, try again later"), s),
      tell_full cfg i.event_fails (session_event s queue_full none) w,
    )
    else ((none, record s { from = from }), w)

-- The statements of a RCPT command that fail.
pub record RcptInput : Type 0 where
  pub domain_fails : Bool
  pub recipient_fails : Bool
  pub count_fails : Bool
  pub event_fails : Bool

abbrev pub capped : Option ℕ → Bool
capped none = false
capped (some n) = ltb 0 n

abbrev pub reaches : ℕ → Option ℕ → Bool
reaches n none = false
reaches n (some limit) = leb limit n

abbrev refuse : Session → World → SmtpError → (Option SmtpError × Session) × World
refuse s w e = ((some e, s), w)

module _ (u : Unicode) (cfg : Config) (i : RcptInput) (to : Bytes) where
  -- The last step of Rcpt: the cap of the domain, and then the session takes the recipient.
  unfoldable pub take_recipient : Domain → Session → World → (Option SmtpError × Session) × World
  unfolding count_pending_for_domain
  take_recipient d s w =
      let taken : (Option SmtpError × Session) × World =
        ((none, record s { domain_id = d.id; domain = d.name; rcpts = s.rcpts ++ to ∷ [] }), w) in
      if capped d.max_queue_messages
      then if i.count_fails
        then refuse s w (temp_error "temporarily unable to accept mail")
        else if reaches (count_pending_for_domain d.id w.db.queue) d.max_queue_messages
        then refuse s
            (tell_full cfg i.event_fails
              (record { type = queue_full; domain_id = some d.id; queue_id = none }) w)
            (smtp_error 452 4 3 1 "Recipient domain queue is full, try again later")
        else taken
      else taken

  -- Rcpt behind the lookup of the domain.
  unfoldable pub rcpt_in_domain : Domain → Session → World → (Option SmtpError × Session) × World
  unfolding take_recipient
  rcpt_in_domain d s w =
      if not d.enabled
      then refuse s w (smtp_error 550 5 7 1 "Relay access denied")
      else if not (s.domain_id == 0) && not (s.domain_id == d.id)
      then refuse s w (smtp_error 452 4 5 3 "Too many recipient domains in one transaction")
      else if i.recipient_fails
      then refuse s w (temp_error "temporarily unable to verify recipient")
      else if not (recipient_allowed u d.id to w.db)
      then refuse s (reject w) (smtp_error 550 5 1 1 "Recipient address rejected: user unknown")
      else take_recipient d s w

  abbrev rcpt_found : Option Domain → Session → World → (Option SmtpError × Session) × World
  rcpt_found none s w = refuse s (reject w) (smtp_error 550 5 7 1 "Relay access denied")
  rcpt_found (some d) s w = rcpt_in_domain d s w

  abbrev rcpt_of : Option Bytes → Session → World → (Option SmtpError × Session) × World
  rcpt_of none s w = refuse s w (smtp_error 501 5 1 3 "Malformed recipient address")
  rcpt_of (some name) s w =
      if is_empty name
      then refuse s w (smtp_error 501 5 1 3 "Malformed recipient address")
      else if i.domain_fails
      then refuse s w (temp_error "temporarily unable to verify recipient")
      else rcpt_found (domain_by_name u (u.to_lower name) w.db) s w

  unfoldable pub rcpt : Session → World → (Option SmtpError × Session) × World
  unfolding rcpt_in_domain after_last
  rcpt s w = rcpt_of (after_last b'@' to) s w
