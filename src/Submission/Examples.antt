-- ===== src/Submission/Examples.antt =====
-- A session with the server of internal/submission: tests, and the theorems on its commands at it.
use xeron_mx.Prelude.{◌*◌, ◌≡◌, refl, true, false, none, some, [], ◌∷◌, ◌++◌, is_some, any}
use xeron_mx.Text.{Bytes, codes}
use xeron_mx.Unicode.{ascii}
use xeron_mx.Store.Time.{second}
use xeron_mx.Store.Fixtures.{empty, example_org}
use xeron_mx.Store.Usage.{sent_this_month}
use xeron_mx.Store.SmtpUsers.{SmtpUser}
use xeron_mx.World.{World}
use xeron_mx.Smtp.{smtp_error}
use xeron_mx.Ratelimit
use xeron_mx.Submission.{
  Config, Outside, Session, AuthInput, Gate, MailInput, RcptInput, auth_max_tries, auth_window, new,
  authenticate, mail, rcpt,
}
use xeron_mx.Submission.Data.{Input, data_command}
use xeron_mx.Submission.Delivery.{IsAccounted, data_command-IsAccounted}
use xeron_mx.Submission.Replies.{
  IsAnswer, IsTaken, IsListed, authenticate_lem, mail-IsTaken, rcpt-IsListed,
}
use xeron_mx.Submission.Sessions.{Step, Reachable, IsAuthorised, accepted-IsAuthorised}

abbrev world : World
world = record {
  db = record empty { domains = record example_org { monthly_send_limit = some 2 } ∷ [] };
  blobs = [];
  filters = [];
  notified = [];
  count = record {
    smtp_connections = 0;
    messages_received = 0;
    bytes_received = 0;
    messages_rejected = 0;
    messages_delivered = 0;
    messages_deferred = 0;
    messages_failed = 0;
    messages_expired = 0;
  };
}

abbrev config : Config
config = record {
  domain = codes "mx.example.net";
  min_disk = 0;
  disk_check = false;
  max_messages = 10;
  max_message_bytes = 5000;
  retention = 3600 * second;
  notifier = true;
}

-- The hash of a password is the password.
abbrev outside : Outside
outside = record {
  split_host = λ s. none;
  is_ipv6 = λ s. false;
  verify_password = λ password hash. some (xeron_mx.Text.bytes_eq password hash);
  errors = record {
    auth_required = smtp_error 502 5 7 0 "Please authenticate first";
    auth_failed = smtp_error 535 5 7 8 "Authentication failed";
    auth_unsupported = smtp_error 504 5 7 4 "Unsupported authentication mechanism";
  };
}

abbrev anna : SmtpUser
anna = record {
  id = 1;
  username = codes "anna";
  password_hash = codes "secret";
  allowed_domains = codes "example.org" ∷ [];
  enabled = true;
  last_used_at = none;
}

abbrev gate : Gate
gate = record { limiter = Ratelimit.new auth_max_tries auth_window; users = anna ∷ [] }

abbrev auth_input : AuthInput
auth_input = record {
  identity = [];
  username = codes "anna";
  password = codes "secret";
  now = 5 * second;
  lookup_fails = false;
  touch_fails = false;
}

abbrev mail_input : MailInput
mail_input = record { draining = false; disk = none; domain_fails = false; stats_fails = false }

abbrev rcpt_input : RcptInput
rcpt_input = record { month = 1; usage_fails = false }

abbrev input : Input
input = record {
  id = some 7;
  now = 5 * second;
  month = 1;
  date = codes "now";
  body = codes "Subject: hi" ++ 13 ∷ 10 ∷ [];
  put_fails = false;
  delete_fails = false;
  reserve_fails = false;
  enqueue_fails = false;
  release_fails = false;
  event_fails = false;
  limit_event_fails = false;
}

abbrev fresh : Session
fresh = new none (codes "192.0.2.1")

abbrev sender : Bytes
sender = codes "anna@example.org"

abbrev recipient : Bytes
recipient = codes "bob@example.com"

abbrev signed : Session
signed = record fresh { user = some anna }

abbrev named : Session
named = record signed { from = sender; domain_id = 1; send_limit = some 2 }

abbrev ready : Session
ready = record named { rcpts = recipient ∷ [] }

signed_test : (authenticate ascii outside auth_input fresh gate).0.1 ≡ signed
unfolding authenticate ascii
signed_test = refl

wrong_test :
    is_some (authenticate ascii outside (record auth_input { password = [] }) fresh gate).0.0 ≡ true
unfolding authenticate ascii
wrong_test = refl

named_test : (mail ascii outside config mail_input sender signed world).1 ≡ named
unfolding mail ascii
named_test = refl

ready_test : (rcpt ascii outside rcpt_input recipient named world).1 ≡ ready
unfolding rcpt ascii
ready_test = refl

accepted_test : (data_command ascii outside config input ready world).0 ≡ none
unfolding data_command ascii
accepted_test = refl

counted_test : sent_this_month 1 1 (data_command ascii outside config input ready world).1.db ≡ 1
unfolding data_command ascii sent_this_month
counted_test = refl

failed_test :
    sent_this_month 1 1
      (data_command ascii outside config (record input { enqueue_fails = true }) ready world).1.db
    ≡ 0
unfolding data_command ascii sent_this_month xeron_mx.World.try_delete
failed_test = refl

authenticate_lem_example :
    IsAnswer ascii outside auth_input fresh gate (authenticate ascii outside auth_input fresh gate)
authenticate_lem_example = authenticate_lem ascii outside auth_input fresh gate

mail-IsTaken_example :
    IsTaken ascii outside config mail_input sender signed world
      (mail ascii outside config mail_input sender signed world)
mail-IsTaken_example = mail-IsTaken ascii outside config mail_input sender signed world

rcpt-IsListed_example :
    IsListed ascii outside rcpt_input recipient named world
      (rcpt ascii outside rcpt_input recipient named world)
rcpt-IsListed_example = rcpt-IsListed ascii outside rcpt_input recipient named world

data_command-IsAccounted_example :
    IsAccounted ascii outside config input ready refl refl 7 world
      (data_command ascii outside config input ready world)
unfolding any
data_command-IsAccounted_example =
    data_command-IsAccounted ascii outside config input ready refl refl 7 world refl refl tt

signed_session : Reachable ascii outside config signed
unfolding authenticate ascii
signed_session =
    Reachable.stepped fresh signed (Reachable.opened none (codes "192.0.2.1"))
      (Step.signing_in auth_input gate fresh refl)

named_session : Reachable ascii outside config named
unfolding mail ascii
named_session =
    Reachable.stepped signed named signed_session (Step.from_sender mail_input sender world signed)

ready_session : Reachable ascii outside config ready
unfolding rcpt ascii
ready_session =
    Reachable.stepped named ready named_session (Step.to_recipient rcpt_input recipient world named)

accepted-IsAuthorised_example :
    IsAuthorised ascii outside config input ready world
      (data_command ascii outside config input ready world).1
unfolding any data_command ascii
accepted-IsAuthorised_example =
    accepted-IsAuthorised ascii outside config input ready world 7 ready_session refl refl refl refl
      tt refl
