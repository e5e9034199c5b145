-- ===== src/Smtpd/Data.antt =====
-- The DATA command of internal/smtpd, stage by stage: the hop count, the spool, the content
-- filters, the spam check, the malware scan, the queue. Each stage ends the command with a reply
-- or goes on to the next.
use xeron_mx.Prelude.{
  ℕ, zero, suc, ◌+◌, ◌*◌, ◌/◌, ◌%◌, Bool, false, not, ◌&&◌, ◌||◌, Option, none, some, List, [], ◌∷◌,
  ◌++◌, ltb, leb, ◌==◌, if◌then◌else◌, is_empty, take, length,
}
use xeron_mx.Text.{Bytes, codes}
use xeron_mx.Unicode.{Unicode}
use xeron_mx.Store.Time.{Time, second}
use xeron_mx.Store.Types.{
  Message, Db, Domain, mail_rejected, mail_quarantined, mail_received, queued, inbound,
}
use xeron_mx.Store.Queue
use xeron_mx.Store.Domains.{domain_by_id}
use xeron_mx.World.{
  World, PutResult, stored, exceeds, failed, put, get, try_delete, record_event, notify, reject,
  count_filter_match, with_queue,
}
use xeron_mx.Smtp.{SmtpError, smtp_error, temp_error}
use xeron_mx.Mailutil.{
  count_received, max_hops, has_header, extract_subject, trace_header, protocol,
}
use xeron_mx.Authres.{Result, Signature, no_result, header, authenticates}
use xeron_mx.Spam
use xeron_mx.Filter
use xeron_mx.Smtpd.{Config, Clamav, Conn, Session, session_event}

-- What the scanner answers.
pub data Scan : Type 0 where
  scan_error : Bytes → Scan
  clean : Scan
  infected : Bytes → Scan

-- checkMalware's answer.
pub data Malware : Type 0 where
  not_scanned too_large : Malware
  scanned : Scan → Malware

-- What a DATA command meets: the random id, `none` where it cannot be drawn, the clock, the
-- answers of the checkers, and which calls fail. `arc_cv` is the answer of internal/arc.
pub record Input : Type 0 where
  pub id : Option ℕ
  pub now : Time
  pub date : Bytes
  pub body : Bytes
  pub put_fails : Bool
  pub delete_fails : Bool
  pub match_fails : Bool
  pub spam_get_fails : Bool
  pub spam_response : Spam.Response
  pub malware_get_fails : Bool
  pub get_error : Bytes
  pub scan : Scan
  pub spf : Result
  pub dkim_get_fails : Bool
  pub dkim : List Signature
  pub arc_get_fails : Bool
  pub arc_cv : Bytes
  pub domain_fails : Bool
  pub enqueue_fails : Bool
  pub quarantine_fails : Bool
  pub event_fails : Bool
  pub quarantine_event_fails : Bool

abbrev pub hex_digit : ℕ → ℕ
hex_digit d = if ltb d 10 then b'0' + d else 87 + d

hex : ℕ → ℕ → Bytes
hex zero n = []
hex (suc k) n = hex k (n / 16) ++ hex_digit (n % 16) ∷ []

-- hex.EncodeToString of the 16 bytes of an id.
unfoldable pub id_text : ℕ → Bytes
unfolding hex
id_text = hex 32

decimal_digits : ℕ → ℕ → Bytes
decimal_digits zero n = []
decimal_digits (suc fuel) n =
    let front = decimal_digits fuel (n / 10) in
    if ltb n 10 then (b'0' + n) ∷ [] else front ++ (b'0' + n % 10) ∷ []

-- %d of an int64: at most 19 digits.
unfoldable pub decimal : ℕ → Bytes
unfolding decimal_digits
decimal = decimal_digits 19

-- net.SplitHostPort, net.ParseIP and the verb %q, which are not in the repository, and the public
-- suffix list.
pub record Outside : Type 0 where
  pub split_host : Bytes → Option Bytes
  pub is_ipv6 : Bytes → Bool
  pub quote : Bytes → Bytes
  pub org_domain : Bytes → Option Bytes

abbrev pub helo_of : Option Conn → Bytes
helo_of none = []
helo_of (some c) = c.helo

abbrev pub tls_of : Option Conn → Bool
tls_of none = false
tls_of (some c) = c.is_tls

abbrev pub single : List Bytes → Bytes
single (to ∷ []) = to
single _ = []

unfoldable pub trace : Outside → Config → Session → Bytes → ℕ → Bytes
unfolding trace_header protocol id_text
trace o cfg s date k = trace_header o.split_host o.is_ipv6 date (record {
  helo = helo_of s.conn;
  remote = s.remote;
  by = cfg.hostname;
  protocol = protocol (tls_of s.conn) false;
  id = id_text k;
  recipient = single s.rcpts;
})

abbrev pub readable : Bool → Option Bytes → Bool
readable get_fails none = false
readable get_fails (some _) = not get_fails

unfoldable pub check_spam : Config → Input → ℕ → ℕ → World → Spam.Verdict
unfolding get
check_spam cfg i k written w = elim cfg.spam [
  | none ↦ Spam.skipped
  | some c ↦
      if not c.enabled
      then Spam.skipped
      else if not (readable i.spam_get_fails (get k w.blobs))
      then Spam.skipped
      else Spam.check c written i.spam_response
]

unfoldable pub check_malware : Config → Input → ℕ → ℕ → World → Malware
unfolding get
check_malware cfg i k size w = elim cfg.clamav [
  | none ↦ not_scanned
  | some c ↦
      if not c.enabled
      then not_scanned
      else if ltb 0 c.max_size && ltb c.max_size size
      then too_large
      else if not (readable i.malware_get_fails (get k w.blobs))
      then scanned (scan_error (codes "read the spooled body: " ++ i.get_error))
      else scanned i.scan
]

unfoldable pub check_auth : Config → Input → ℕ → Bool → World → Result
unfolding get
check_auth cfg i k has_arc w =
    if not cfg.auth
    then no_result
    else if not (readable i.dkim_get_fails (get k w.blobs))
    then i.spf
    else if not has_arc
    then record i.spf { dkim = i.dkim; arc = codes "none" }
    else if not (readable i.arc_get_fails (get k w.blobs))
    then record i.spf { dkim = i.dkim; arc = [] }
    else record i.spf { dkim = i.dkim; arc = i.arc_cv }

-- What the stages hand on: the id, the size in the spool and the reason for a quarantine, if any.
pub record Spooled : Type 0 where
  pub id : ℕ
  pub written : ℕ
  pub subject : Bytes
  pub has_arc : Bool
  pub quarantine : Bytes

abbrev pub rejects : Option Clamav → Bool
rejects none = false
rejects (some c) = c.rejects

max_scan : Option Clamav → ℕ
max_scan none = 0
max_scan (some c) = c.max_size

unfoldable pub malware_text : Config → Malware → Bytes
unfolding max_scan decimal
malware_text cfg not_scanned = []
malware_text cfg too_large =
    codes "skipped: larger than " ++ (decimal (max_scan cfg.clamav) ++ codes " bytes")
malware_text cfg (scanned (scan_error e)) = codes "failed: " ++ take 200 e
malware_text cfg (scanned clean) = codes "clean"
malware_text cfg (scanned (infected name)) = codes "infected: " ++ name

abbrev pub virus_of : Malware → Option Bytes
virus_of (scanned (infected name)) = some name
virus_of _ = none

abbrev pub hours : ℕ → ℕ
hours n = n * (3600 * second)

abbrev pub retention_of : Config → Option Domain → ℕ
retention_of cfg none = cfg.retention
retention_of cfg (some d) =
    if ltb 0 d.retention_hours then hours d.retention_hours else cfg.retention

abbrev pub score_of : Spam.Verdict → Option ℕ
score_of v = if v.skipped then none else some v.score

module _ (u : Unicode) (re : Filter.Regexp) (o : Outside) (cfg : Config) (i : Input)
    (s : Session) where
  abbrev pub refuse : ℕ → World → SmtpError → Option SmtpError × World
  refuse k w e = (some e, try_delete i.delete_fails k w)

  unfoldable pub retention : World → ℕ
  unfolding domain_by_id
  retention w =
      if i.domain_fails then cfg.retention else retention_of cfg (domain_by_id s.domain_id w.db)

  -- The message that Data hands to Enqueue.
  unfoldable pub new_message : Spooled → Spam.Verdict → Malware → World → Message
  unfolding retention check_auth header authenticates malware_text
  new_message p v m w =
      let auth = check_auth cfg i p.id p.has_arc w in
      record {
        id = p.id;
        domain_id = s.domain_id;
        envelope_from = s.from;
        envelope_to = s.rcpts;
        subject = p.subject;
        size_bytes = p.written;
        received_at = i.now;
        expires_at = i.now + retention w;
        status = queued;
        attempts = 0;
        next_retry_at = i.now;
        last_error = [];
        delivered_at = none;
        claimed_at = none;
        claimed_by = [];
        remote_addr = s.remote;
        direction = inbound;
        spam_score = score_of v;
        spam_action = Spam.action_text v.action;
        quarantined_at = none;
        quarantine_reason = [];
        auth_results = header auth;
        sender_authenticated = authenticates u o.org_domain auth s.from;
        malware_scan = malware_text cfg m;
      }

  abbrev pub quarantined_queue : ℕ → World → Option (List Message) → World
  quarantined_queue k w none = w
  quarantined_queue k w (some q) = notify cfg.notifier mail_quarantined (
      record_event i.quarantine_event_fails (session_event s mail_quarantined (some k))
        (with_queue q w))

  -- The separate statement that quarantines the accepted row.
  unfoldable pub apply_quarantine : Spooled → World → World
  unfolding Queue.quarantine
  apply_quarantine p w =
      if is_empty p.quarantine
      then w
      else if i.quarantine_fails
      then w
      else quarantined_queue p.id w (Queue.quarantine p.id p.quarantine i.now w.db.queue)

  abbrev pub count_received_mail : ℕ → World → World
  count_received_mail n w = record w {
    count = record w.count {
      messages_received = w.count.messages_received + 1;
      bytes_received = w.count.bytes_received + n;
    };
  }

  unfoldable pub after_enqueue : Spooled → World → Option SmtpError × World
  unfolding apply_quarantine record_event
  after_enqueue p w = (
    none,
    notify cfg.notifier mail_received (
        record_event i.event_fails (session_event s mail_received (some p.id))
          (count_received_mail p.written (apply_quarantine p w))),
  )

  abbrev pub enqueued : Spooled → World → Option Db → Option SmtpError × World
  enqueued p w none = refuse p.id w (temp_error "temporarily unable to store message")
  enqueued p w (some db) = after_enqueue p (record w { db = db })

  unfoldable pub accept : Spooled → Spam.Verdict → Malware → World → Option SmtpError × World
  unfolding after_enqueue new_message Queue.enqueue
  accept p v m w =
      enqueued p w (if i.enqueue_fails then none else Queue.enqueue (new_message p v m w) w.db)

  abbrev pub rejected : ℕ → World → SmtpError → Option SmtpError × World
  rejected k w e = (
    some e,
    record_event i.event_fails (session_event s mail_rejected none)
        (reject (try_delete i.delete_fails k w)),
  )

  abbrev pub judge_virus :
      Spooled → Spam.Verdict → Malware → Option Bytes → World → Option SmtpError × World
  judge_virus p v m none w = accept p v m w
  judge_virus p v m (some name) w =
      if rejects cfg.clamav
      then rejected p.id w (smtp_error 554 5 7 1 "Malware detected")
      else accept (record p { quarantine = codes "malware: " ++ name }) v m w

  unfoldable pub scan_malware : Spooled → Spam.Verdict → World → Option SmtpError × World
  unfolding accept check_malware
  scan_malware p v w =
      let m = check_malware cfg i p.id p.written w in judge_virus p v m (virus_of m) w

  unfoldable pub scan_spam : Spooled → World → Option SmtpError × World
  unfolding scan_malware check_spam
  scan_spam p w =
      let v = check_spam cfg i p.id p.written w in
      if Spam.rejects v.action
      then rejected p.id w (smtp_error 550 5 7 1 "Message rejected as spam")
      else if Spam.defers v.action && cfg.spam_defer
      then refuse p.id w (smtp_error 451 4 7 1 "Try again later")
      else scan_malware p v w

  -- The switch on the verdict of the content filters.
  unfoldable pub apply_filter : Spooled → World → Option Filter.Verdict → Option SmtpError × World
  unfolding scan_spam count_filter_match Filter.reason
  apply_filter p w none = scan_spam p w
  apply_filter p w (some v) =
      if Filter.is_reject v.action
      then (
        some (smtp_error 550 5 7 1 "Message rejected by policy"),
        record_event i.event_fails (session_event s mail_rejected none) (
            count_filter_match i.match_fails v.filter_id i.now
              (reject (try_delete i.delete_fails p.id w))),
      )
      else if Filter.is_quarantine v.action
      then scan_spam (record p { quarantine = Filter.reason o.quote v })
          (count_filter_match i.match_fails v.filter_id i.now w)
      else scan_spam p w

  unfoldable pub verdict_of : Bytes → Option (List Filter.Rule) → Option Filter.Verdict
  unfolding Filter.evaluate
  verdict_of subject none = none
  verdict_of subject (some rules) =
      Filter.evaluate u re rules
        (record { sender = s.from; recipients = s.rcpts; subject = subject })

  unfoldable pub spooled : Spooled → World → PutResult → Option SmtpError × World
  unfolding apply_filter verdict_of
  spooled p w failed = refuse p.id w (temp_error "temporarily unable to store message")
  spooled p w exceeds = refuse p.id w (smtp_error 552 5 3 4 "Message exceeds maximum size")
  spooled p w (stored n blobs) =
      apply_filter (record p { written = n }) (record w { blobs = blobs })
        (verdict_of p.subject cfg.filters)

  abbrev pub peeked : Bytes
  peeked = take 65536 i.body

  -- The text that goes into the spool, and the limit on it.
  unfoldable pub spool_text : ℕ → Bytes
  unfolding trace
  spool_text k = trace o cfg s i.date k ++ i.body

  -- What is known of the message before it is spooled.
  abbrev pub peek : ℕ → Spooled
  peek k = record {
    id = k;
    written = 0;
    subject = extract_subject u peeked;
    has_arc = has_header peeked (codes "arc-seal");
    quarantine = [];
  }

  unfoldable pub spool : ℕ → World → Option SmtpError × World
  unfolding spooled spool_text put extract_subject has_header
  spool k w = spooled (peek k) w (
      put i.put_fails k (spool_text k) (cfg.max_message_bytes + length (trace o cfg s i.date k))
        w.blobs)

  abbrev pub with_id : Option ℕ → World → Option SmtpError × World
  with_id none w = (some (temp_error "temporarily unable to accept mail"), w)
  with_id (some k) w =
      if leb max_hops (count_received peeked)
      then (some (smtp_error 554 5 4 6 "Too many hops, mail loop detected"), reject w)
      else spool k w

  unfoldable pub data_command : World → Option SmtpError × World
  unfolding spool count_received
  data_command w =
      if s.domain_id == 0 || is_empty s.rcpts
      then (some (smtp_error 554 5 5 1 "No valid recipients"), w)
      else with_id i.id w
