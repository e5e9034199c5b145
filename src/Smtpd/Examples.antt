-- ===== src/Smtpd/Examples.antt =====
-- Sessions with the server of internal/smtpd: tests, and the theorems on its commands at them.
use xeron_mx.Prelude.{
  ◌*◌, ◌≡◌, refl, ◌⊎◌, true, false, not, ◌&&◌, none, some, [], ◌∷◌, ◌++◌, map, is_some, any,
}
use xeron_mx.Text.{Bytes, codes}
use xeron_mx.Unicode.{ascii}
use xeron_mx.Store.Time.{second}
use xeron_mx.Store.Types.{Message, inbound}
use xeron_mx.Store.Fixtures.{empty, message}
use xeron_mx.World.{World, delete}
use xeron_mx.Smtp.{SmtpError, IsTemporary}
use xeron_mx.Authres.{no_result}
use xeron_mx.Spam
use xeron_mx.Filter
use xeron_mx.Smtpd.{
  Config, Session, MailInput, RcptInput, new, mail, rcpt, disk_is_low, spool_is_full,
}
use xeron_mx.Smtpd.Data.{
  Input, Outside, Spooled, Scan, clean, infected, scanned, accept, data_command, new_message,
}
use xeron_mx.Smtpd.Replies.{IsKept, IsReply, mail_lem, rcpt_lem}
use xeron_mx.Smtpd.Accept.{filed, accept_lem}
use xeron_mx.Smtpd.Delivery.{IsAtomic, data_command-IsAtomic}

abbrev world : World
world = record {
  db = empty;
  blobs = [];
  filters = [];
  notified = [];
  count = record {
    smtp_connections = 0;
    messages_received = 0;
    bytes_received = 0;
    messages_rejected = 0;
    messages_delivered = 0;
    messages_deferred = 0;
    messages_failed = 0;
    messages_expired = 0;
  };
}

abbrev config : Config
config = record {
  hostname = codes "mx.example.net";
  min_disk = 0;
  disk_check = false;
  max_messages = 1;
  max_bytes = 0;
  max_message_bytes = 5000;
  retention = 3600 * second;
  notifier = true;
  dnsbl = false;
  spam = none;
  spam_defer = false;
  filters = none;
  clamav = some (record { enabled = true; max_size = 0; rejects = false });
  auth = false;
}

abbrev outside : Outside
outside = record {
  split_host = λ s. none;
  is_ipv6 = λ s. false;
  quote = λ s. s;
  org_domain = λ s. none;
}

abbrev no_regexp : Filter.Regexp
no_regexp = record { compile = λ s. false; matches = λ p s. false }

abbrev mail_input : MailInput
mail_input = record { draining = false; disk = none; event_fails = false; stats_fails = false }

abbrev rcpt_input : RcptInput
rcpt_input = record {
  domain_fails = false;
  recipient_fails = false;
  count_fails = false;
  event_fails = false;
}

abbrev input : Scan → Input
input answer = record {
  id = some 7;
  now = 5 * second;
  date = codes "now";
  body = codes "Subject: hi" ++ 13 ∷ 10 ∷ [];
  put_fails = false;
  delete_fails = false;
  match_fails = false;
  spam_get_fails = false;
  spam_response = Spam.unreachable;
  malware_get_fails = false;
  get_error = [];
  scan = answer;
  spf = no_result;
  dkim_get_fails = false;
  dkim = [];
  arc_get_fails = false;
  arc_cv = [];
  domain_fails = false;
  enqueue_fails = false;
  quarantine_fails = false;
  event_fails = false;
  quarantine_event_fails = false;
}

abbrev fresh : Session
fresh = new none (codes "192.0.2.1:4000")

abbrev address : Bytes
address = codes "Anna@Example.Org"

abbrev session : Session
session = record fresh {
  from = codes "bob@example.com";
  rcpts = address ∷ [];
  domain_id = 1;
  domain = codes "example.org";
}

abbrev busy : World
busy = record world { db = record empty { queue = message 1 inbound 0 ∷ [] } }

mail_test : (mail config mail_input [] fresh world).0.0 ≡ none
unfolding mail
mail_test = refl

full_test : is_some (mail config mail_input [] fresh busy).0.0 ≡ true
unfolding mail
full_test = refl

rcpt_test : (rcpt ascii config rcpt_input address fresh world).0.1.domain_id ≡ 1
unfolding rcpt xeron_mx.Store.Domains.domain_by_name ascii xeron_mx.Store.Domains.recipient_allowed
rcpt_test = refl

relay_test : is_some (rcpt ascii config rcpt_input (codes "x@elsewhere.net") fresh world).0.0 ≡ true
unfolding rcpt xeron_mx.Store.Domains.domain_by_name ascii
relay_test = refl

data_test :
    map
      (λ (m : Message). m.subject)
      (data_command ascii no_regexp outside config (input clean) session world).1.db.queue
    ≡ codes "hi" ∷ []
unfolding data_command ascii
data_test = refl

virus_test :
    map
      (λ (m : Message). is_some m.quarantined_at)
      (data_command ascii no_regexp outside config
        (input (infected (codes "eicar")))
        session
        world).1.db.queue
    ≡ true ∷ []
unfolding data_command ascii
virus_test = refl

mail_lem_test :
    let ((reply, s'), w') = mail config mail_input [] fresh busy in
    let room =
      not false
      && (not (disk_is_low config none) && (not false && not (spool_is_full config busy))) in
    IsKept busy w'
    × (((room ≡ true) × (reply ≡ none) × (s' ≡ record fresh { from = [] }))
        ⊎ ((room ≡ false) × (s' ≡ fresh) × ((e : SmtpError) × (reply ≡ some e) × IsTemporary e)))
mail_lem_test = mail_lem config mail_input [] fresh busy

rcpt_lem_example :
    IsReply ascii config rcpt_input address fresh world
      (rcpt ascii config rcpt_input address fresh world)
rcpt_lem_example = rcpt_lem ascii config rcpt_input address fresh world

data_command-IsAtomic_example :
    IsAtomic ascii no_regexp outside config
      (input clean)
      session
      refl
      7
      world
      (data_command ascii no_regexp outside config (input clean) session world)
unfolding any
data_command-IsAtomic_example =
    data_command-IsAtomic ascii no_regexp outside config (input clean) session refl 7 world refl
      refl

abbrev suspect : Spooled
suspect = record {
  id = 7;
  written = 20;
  subject = codes "hi";
  has_arc = false;
  quarantine = codes "malware: eicar";
}

accept_lem_example :
    let p =
      accept ascii no_regexp outside config
        (input clean)
        session
        suspect
        Spam.skipped
        (scanned clean)
        world in
    ((is_some p.0 ≡ true) × (p.1.db.queue ≡ []) × (p.1.blobs ≡ delete 7 []))
    ⊎ ((p.0 ≡ none)
        × (p.1.db.queue
            ≡ filed ascii no_regexp outside config (input clean) session refl suspect (
                new_message ascii no_regexp outside config
                  (input clean)
                  session
                  suspect
                  Spam.skipped
                  (scanned clean)
                  world)
              ∷ [])
        × (p.1.blobs ≡ []))
accept_lem_example =
    accept_lem ascii no_regexp outside config (input clean) session refl suspect Spam.skipped
      (scanned clean) world
