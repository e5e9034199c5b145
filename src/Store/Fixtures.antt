-- ===== src/Store/Fixtures.antt =====
-- Rows for the tests of the other modules: a message, a domain whose primary is up, and a database
-- that holds this domain and an empty queue. No Go source is modelled here.
use xeron_mx.Prelude.{ℕ, ◌*◌, true, false, none, some, [], ◌∷◌}
use xeron_mx.Text.{codes}
use xeron_mx.Store.Time.{second}
use xeron_mx.Store.Types.{Message, Domain, PrimaryStatus, Db, Direction, queued}

abbrev pub message : ℕ → Direction → ℕ → Message
message k way due = record {
  id = k;
  domain_id = 1;
  envelope_from = [];
  envelope_to = codes "a@example.org" ∷ [];
  subject = codes "hello";
  size_bytes = 100;
  received_at = 0;
  expires_at = 1000 * second;
  status = queued;
  attempts = 0;
  next_retry_at = due;
  last_error = [];
  delivered_at = none;
  claimed_at = none;
  claimed_by = [];
  remote_addr = [];
  direction = way;
  spam_score = none;
  spam_action = [];
  quarantined_at = none;
  quarantine_reason = [];
  auth_results = [];
  sender_authenticated = false;
  malware_scan = [];
}

abbrev pub example_org : Domain
example_org = record {
  id = 1;
  name = codes "example.org";
  primary_host = codes "mail.example.org";
  primary_port = 25;
  primary_tls = codes "opportunistic";
  max_queue_messages = none;
  monthly_send_limit = none;
  retention_hours = 0;
  enabled = true;
}

abbrev pub up : PrimaryStatus
up = record {
  domain_id = 1;
  is_up = true;
  last_check = some 0;
  last_up = some 0;
  last_down = none;
  consecutive_failures = 0;
  consecutive_success = 1;
  last_error = [];
}

abbrev pub empty : Db
empty = record {
  queue = [];
  domains = example_org ∷ [];
  primaries = up ∷ [];
  recipients = [];
  usage = [];
  events = [];
}
