-- ===== src/Submission.antt =====
-- internal/submission: the server on which accounts hand in mail that goes out. A session is a
-- record, a handler a function of the session and of what it reads; `none` in its answer is a
-- handler that returned nil. What the server asks of the outside, and which of its statements
-- fail, are inputs of the call.
pub mod Data
pub mod Replies
pub mod Delivery
pub mod Sessions
mod Examples
use xeron_mx.Prelude.{
  ℕ, ◌+◌, ◌*◌, Bool, true, false, not, ◌&&◌, ◌||◌, Option, none, some, List, [], ◌∷◌, ◌++◌, ltb,
  leb, ◌==◌, if◌then◌else◌, is_empty, length, String,
}
use xeron_mx.Text.{Bytes, after_last, bytes_eq, codes}
use xeron_mx.Unicode.{Unicode}
use xeron_mx.Store.Time.{Time, second}
use xeron_mx.Store.Types.{Db, Domain}
use xeron_mx.Store.Queue.{stats}
use xeron_mx.Store.Domains.{domain_by_name}
use xeron_mx.Store.Usage.{sent_this_month, over}
use xeron_mx.Store.SmtpUsers.{SmtpUser, may_send, smtp_user_by_name, touch_smtp_user}
use xeron_mx.World.{World}
use xeron_mx.Smtp.{SmtpError, smtp_error, temp_error}
use xeron_mx.Ratelimit.{Limiter}
use xeron_mx.Ratelimit
use xeron_mx.Smtpd.{Conn, draining_error}

-- The limiter lets a host try as often in the window.
abbrev pub auth_window : ℕ
auth_window = 15 * (60 * second)

abbrev pub auth_max_tries : ℕ
auth_max_tries = 8

abbrev pub max_password_bytes : ℕ
max_password_bytes = 1024

-- The error values of go-smtp, which is not in the repository.
pub record GoSmtp : Type 0 where
  pub auth_required : SmtpError
  pub auth_failed : SmtpError
  pub auth_unsupported : SmtpError

-- What the handlers ask of packages that are not in the repository: net.SplitHostPort's host, and
-- argon2 behind internal/auth's VerifyPassword of a password and a hash, `none` where the hash is
-- malformed.
pub record Outside : Type 0 where
  pub split_host : Bytes → Option Bytes
  pub is_ipv6 : Bytes → Bool
  pub verify_password : Bytes → Bytes → Option Bool
  pub errors : GoSmtp

-- The fields of Server that the handlers read. `disk_check` is that there are a path and a check.
-- Sizes and counts that are not positive are 0.
pub record Config : Type 0 where
  pub domain : Bytes
  pub min_disk : ℕ
  pub disk_check : Bool
  pub max_messages : ℕ
  pub max_message_bytes : ℕ
  pub retention : ℕ
  pub notifier : Bool

-- `domain_id` is 0 before MAIL.
pub record Session : Type 0 where
  pub conn : Option Conn
  pub remote : Bytes
  pub user : Option SmtpUser
  pub from : Bytes
  pub rcpts : List Bytes
  pub domain_id : ℕ
  pub send_limit : Option ℕ

abbrev pub new : Option Conn → Bytes → Session
new conn remote = record {
  conn = conn;
  remote = remote;
  user = none;
  from = [];
  rcpts = [];
  domain_id = 0;
  send_limit = none;
}

-- newSession.
unfoldable pub new_session : Bool → Option Conn → Bytes → World → Option SmtpError × Session × World
new_session draining conn remote w = (
  if draining then some draining_error else none,
  new conn remote,
  record w { count = record w.count { smtp_connections = w.count.smtp_connections + 1 } },
)

unfoldable pub reset : Session → Session
reset s = record s { from = []; rcpts = []; domain_id = 0; send_limit = none }

abbrev pub send_limit_error : SmtpError
send_limit_error = smtp_error 550 5 7 1 "This domain has reached its monthly sending limit"

abbrev pub host_only : (Bytes → Option Bytes) → Bytes → Bytes
host_only split_host addr = elim (split_host addr) [ none ↦ addr | some host ↦ host ]

unfoldable pub domain_of : Unicode → Bytes → Bytes
unfolding after_last
domain_of uc addr = elim (after_last b'@' addr) [
  | none ↦ []
  | some name ↦ if is_empty name then [] else uc.to_lower name
]

-- What an AUTH command brings. `lookup_fails` is that the account cannot be read.
pub record AuthInput : Type 0 where
  pub identity : Bytes
  pub username : Bytes
  pub password : Bytes
  pub now : Time
  pub lookup_fails : Bool
  pub touch_fails : Bool

-- What the sessions of the server share for AUTH.
pub record Gate : Type 0 where
  pub limiter : Limiter
  pub users : List SmtpUser

abbrev pub is_true : Option Bool → Bool
is_true (some true) = true
is_true (some false) = false
is_true none = false

-- TouchSMTPUser, whose error is not looked at.
abbrev touched : Bool → Option (List SmtpUser) → List SmtpUser → List SmtpUser
touched touch_fails none users = users
touched touch_fails (some users') users = if touch_fails then users else users'

module _ (uc : Unicode) (o : Outside) (i : AuthInput) (s : Session) where
  abbrev pub failed : Gate → (Option SmtpError × Session) × Gate
  failed g = ((some o.errors.auth_failed, s), g)

  unfoldable pub sign_in : SmtpUser → Gate → (Option SmtpError × Session) × Gate
  unfolding Ratelimit.reset touch_smtp_user
  sign_in u g = (
    (none, record s { user = some u }),
    record {
      limiter = Ratelimit.reset (host_only o.split_host s.remote) g.limiter;
      users = touched i.touch_fails (touch_smtp_user u.id i.now g.users) g.users;
    },
  )

  unfoldable pub check_user : Option SmtpUser → Gate → (Option SmtpError × Session) × Gate
  unfolding sign_in
  check_user none g = failed g
  check_user (some u) g =
      if not (is_true (o.verify_password i.password u.password_hash))
      then failed g
      else if not u.enabled
      then failed g
      else sign_in u g

  unfoldable pub found_user : Gate → Option SmtpUser
  unfolding smtp_user_by_name
  found_user g = if i.lookup_fails then none else smtp_user_by_name uc i.username g.users

  -- The callback that Auth gives to the PLAIN server.
  unfoldable pub authenticate : Gate → (Option SmtpError × Session) × Gate
  unfolding Ratelimit.allow bytes_eq found_user check_user
  authenticate g =
      let r = Ratelimit.allow (host_only o.split_host s.remote) i.now g.limiter in
      let g' = record g { limiter = r.1 } in
      if not r.0
      then (
        (some (smtp_error 454 4 7 0 "Too many authentication attempts, try again later"), s),
        g',
      )
      else if not (is_empty i.identity) && not (bytes_eq i.identity i.username)
      then failed g'
      else if ltb max_password_bytes (length i.password)
      then failed g'
      else check_user (found_user g') g'

  -- Auth, with the exchange of the PLAIN mechanism behind it.
  unfoldable pub auth : Bytes → Gate → (Option SmtpError × Session) × Gate
  unfolding authenticate bytes_eq
  auth mech g =
      if not (bytes_eq mech (codes "PLAIN"))
      then ((some o.errors.auth_unsupported, s), g)
      else authenticate g

-- What a MAIL command meets: `disk` is the free space, `none` where it cannot be told.
pub record MailInput : Type 0 where
  pub draining : Bool
  pub disk : Option ℕ
  pub domain_fails : Bool
  pub stats_fails : Bool

abbrev is_below : Option ℕ → ℕ → Bool
is_below none limit = false
is_below (some n) limit = ltb n limit

abbrev pub disk_is_low : Config → Option ℕ → Bool
disk_is_low cfg disk = ltb 0 cfg.min_disk && (cfg.disk_check && is_below disk cfg.min_disk)

unfoldable pub queue_is_full : Config → World → Bool
unfolding stats
queue_is_full cfg w = ltb 0 cfg.max_messages && leb cfg.max_messages (stats w.db.queue).pending

abbrev pub refuse : Session → SmtpError → Option SmtpError × Session
refuse s e = (some e, s)

abbrev pub not_configured : SmtpError
not_configured = smtp_error 550 5 7 1 "That sender domain is not configured here"

module _ (uc : Unicode) (o : Outside) (cfg : Config) (i : MailInput) (from : Bytes) (s : Session)
    (w : World) where
  -- Mail behind the lookup of the domain.
  unfoldable pub mail_in_domain : Domain → Option SmtpError × Session
  unfolding queue_is_full
  mail_in_domain d =
      if not d.enabled
      then refuse s not_configured
      else if i.stats_fails
      then refuse s (temp_error "temporarily unable to accept submissions")
      else if i.draining
      then refuse s draining_error
      else if disk_is_low cfg i.disk
      then refuse s (smtp_error 452 4 3 1 "Insufficient system storage, try again later")
      else if queue_is_full cfg w
      then refuse s (smtp_error 452 4 3 1 "Insufficient storage, try again later")
      else (none, record s { from = from; domain_id = d.id; send_limit = d.monthly_send_limit })

  abbrev pub mail_found : Option Domain → Option SmtpError × Session
  mail_found none = refuse s not_configured
  mail_found (some d) = mail_in_domain d

  unfoldable pub mail_as : Option SmtpUser → Option SmtpError × Session
  unfolding may_send domain_of domain_by_name mail_in_domain
  mail_as none = refuse s o.errors.auth_required
  mail_as (some u) =
      if not (may_send uc u from)
      then refuse s (smtp_error 550 5 7 1 "You are not allowed to send as that address")
      else if is_empty (domain_of uc from)
      then refuse s (smtp_error 550 5 7 1 "A null return path cannot be used for submission")
      else if i.domain_fails
      then refuse s (temp_error "temporarily unable to accept submissions")
      else mail_found (domain_by_name uc (domain_of uc from) w.db)

  unfoldable pub mail : Option SmtpError × Session
  unfolding mail_as
  mail = mail_as s.user

-- What a RCPT command meets.
pub record RcptInput : Type 0 where
  pub month : ℕ
  pub usage_fails : Bool

abbrev pub limited : Option ℕ → Bool
limited none = false
limited (some _) = true

module _ (uc : Unicode) (o : Outside) (i : RcptInput) (to : Bytes) (s : Session) (w : World) where
  unfoldable pub rcpt_as : Option SmtpUser → Option SmtpError × Session
  unfolding domain_of sent_this_month
  rcpt_as none = refuse s o.errors.auth_required
  rcpt_as (some _) =
      if s.domain_id == 0
      then refuse s (smtp_error 503 5 5 1 "Send MAIL FROM first")
      else if is_empty (domain_of uc to)
      then refuse s (smtp_error 501 5 1 3 "Malformed recipient address")
      else if limited s.send_limit && i.usage_fails
      then refuse s (temp_error "temporarily unable to accept submissions")
      else if over (sent_this_month s.domain_id i.month w.db + length s.rcpts + 1) s.send_limit
      then refuse s send_limit_error
      else (none, record s { rcpts = s.rcpts ++ to ∷ [] })

  unfoldable pub rcpt : Option SmtpError × Session
  unfolding rcpt_as
  rcpt = rcpt_as s.user
