-- ===== src/Submission/Data.antt =====
-- The DATA command of internal/submission, stage by stage: the hop count, the spool, the month's
-- account, the queue. Each stage ends the command with a reply or goes on to the next.
use xeron_mx.Prelude.{
  ℕ, ◌+◌, Bool, true, false, not, ◌&&◌, ◌||◌, Option, none, some, [], ◌++◌, ltb, leb, ◌==◌,
  if◌then◌else◌, is_empty, take, length,
}
use xeron_mx.Text.{Bytes}
use xeron_mx.Unicode.{Unicode}
use xeron_mx.Store.Time.{Time}
use xeron_mx.Store.Types.{Message, Db, mail_received, send_limit_reached, queued, outbound}
use xeron_mx.Store.Queue
use xeron_mx.Store.Usage.{reserve_sends, release_sends}
use xeron_mx.Store.SmtpUsers.{SmtpUser}
use xeron_mx.World.{
  World, PutResult, stored, exceeds, failed, put, try_delete, record_event, notify,
}
use xeron_mx.Smtp.{SmtpError, smtp_error, temp_error}
use xeron_mx.Mailutil.{count_received, max_hops, extract_subject, trace_header, protocol}
use xeron_mx.Smtpd.Data.{id_text, helo_of, tls_of, single}
use xeron_mx.Submission.{Config, Outside, Session, send_limit_error}

-- What a DATA command meets: the random id, `none` where it cannot be drawn, the clock with the
-- month that it is in, and which calls fail.
pub record Input : Type 0 where
  pub id : Option ℕ
  pub now : Time
  pub month : ℕ
  pub date : Bytes
  pub body : Bytes
  pub put_fails : Bool
  pub delete_fails : Bool
  pub reserve_fails : Bool
  pub enqueue_fails : Bool
  pub release_fails : Bool
  pub event_fails : Bool
  pub limit_event_fails : Bool

abbrev pub store_error : SmtpError
store_error = temp_error "temporarily unable to store the message"

-- before < limit <= before + n
abbrev pub reaches_limit : Option ℕ → ℕ → ℕ → Bool
reaches_limit none before n = false
reaches_limit (some limit) before n = ltb before limit && leb limit (before + n)

module _ (uc : Unicode) (o : Outside) (cfg : Config) (i : Input) (s : Session) where
  unfoldable pub trace : ℕ → Bytes
  unfolding trace_header protocol id_text
  trace k = trace_header o.split_host o.is_ipv6 i.date (record {
    helo = helo_of s.conn;
    remote = s.remote;
    by = cfg.domain;
    protocol = protocol (tls_of s.conn) true;
    id = id_text k;
    recipient = single s.rcpts;
  })

  abbrev pub peeked : Bytes
  peeked = take 65536 i.body

  -- The text that goes into the spool.
  unfoldable pub spool_text : ℕ → Bytes
  unfolding trace
  spool_text k = trace k ++ i.body

  abbrev pub refuse : ℕ → World → SmtpError → Option SmtpError × World
  refuse k w e = (some e, try_delete i.delete_fails k w)

  -- The message that Data hands to Enqueue.
  unfoldable pub new_message : ℕ → ℕ → Message
  unfolding extract_subject
  new_message k written = record {
    id = k;
    domain_id = s.domain_id;
    envelope_from = s.from;
    envelope_to = s.rcpts;
    subject = extract_subject uc peeked;
    size_bytes = written;
    received_at = i.now;
    expires_at = i.now + cfg.retention;
    status = queued;
    attempts = 0;
    next_retry_at = i.now;
    last_error = [];
    delivered_at = none;
    claimed_at = none;
    claimed_by = [];
    remote_addr = s.remote;
    direction = outbound;
    spam_score = none;
    spam_action = [];
    quarantined_at = none;
    quarantine_reason = [];
    auth_results = [];
    sender_authenticated = false;
    malware_scan = [];
  }

  -- limitReached
  unfoldable pub limit_reached : World → World
  unfolding record_event
  limit_reached w = notify cfg.notifier send_limit_reached (
      record_event i.limit_event_fails
        (record { type = send_limit_reached; domain_id = some s.domain_id; queue_id = none }) w)

  abbrev pub count_received_mail : ℕ → World → World
  count_received_mail n w = record w {
    count = record w.count {
      messages_received = w.count.messages_received + 1;
      bytes_received = w.count.bytes_received + n;
    };
  }

  unfoldable pub announce : ℕ → ℕ → World → World
  unfolding record_event
  announce k written w = notify cfg.notifier mail_received (
      record_event i.event_fails
        (record { type = mail_received; domain_id = some s.domain_id; queue_id = some k })
        (count_received_mail written w))

  unfoldable pub after_enqueue : ℕ → ℕ → ℕ → World → Option SmtpError × World
  unfolding announce limit_reached
  after_enqueue k written before w = (
    none,
    if reaches_limit s.send_limit before (length s.rcpts)
        then limit_reached (announce k written w)
        else announce k written w,
  )

  -- ReleaseSends; its error is only logged.
  abbrev pub with_release : Option Db → World → World
  with_release none w = w
  with_release (some db) w = if i.release_fails then w else record w { db = db }

  unfoldable pub release : World → World
  unfolding release_sends
  release w = with_release (release_sends s.domain_id (length s.rcpts) i.month w.db) w

  abbrev pub enqueued : ℕ → ℕ → ℕ → World → Option Db → Option SmtpError × World
  enqueued k written before w none = (some store_error, release (try_delete i.delete_fails k w))
  enqueued k written before w (some db) = after_enqueue k written before (record w { db = db })

  unfoldable pub file : ℕ → ℕ → ℕ → World → Option SmtpError × World
  unfolding after_enqueue release new_message Queue.enqueue
  file k written before w =
      enqueued k written before w
        (if i.enqueue_fails then none else Queue.enqueue (new_message k written) w.db)

  unfoldable pub reserve : ℕ → ℕ → World → Option SmtpError × World
  unfolding reserve_sends file
  reserve k written w =
      let r = reserve_sends s.domain_id (length s.rcpts) s.send_limit i.month w.db in
      if i.reserve_fails
      then refuse k w store_error
      else if not r.0.0
      then refuse k w send_limit_error
      else file k written r.0.1 (record w { db = r.1 })

  abbrev pub spooled : ℕ → World → PutResult → Option SmtpError × World
  spooled k w failed = refuse k w store_error
  spooled k w exceeds = refuse k w (smtp_error 552 5 3 4 "Message exceeds maximum size")
  spooled k w (stored n blobs) = reserve k n (record w { blobs = blobs })

  unfoldable pub spool : ℕ → World → Option SmtpError × World
  unfolding reserve spool_text put
  spool k w =
      spooled k w
        (put i.put_fails k (spool_text k) (cfg.max_message_bytes + length (trace k)) w.blobs)

  abbrev pub with_id : Option ℕ → World → Option SmtpError × World
  with_id none w = (some (temp_error "temporarily unable to accept the message"), w)
  with_id (some k) w =
      if leb max_hops (count_received peeked)
      then (some (smtp_error 554 5 4 6 "Too many hops, mail loop detected"), w)
      else spool k w

  abbrev pub data_as : Option SmtpUser → World → Option SmtpError × World
  data_as none w = (some o.errors.auth_required, w)
  data_as (some _) w =
      if s.domain_id == 0 || is_empty s.rcpts
      then (some (smtp_error 554 5 5 1 "No valid recipients"), w)
      else with_id i.id w

  unfoldable pub data_command : World → Option SmtpError × World
  unfolding spool count_received
  data_command w = data_as s.user w
