-- ===== src/Health/Examples.antt =====
-- Probes of internal/health at work: tests, and the theorems on them at two domains.
use xeron_mx.Prelude.{◌*◌, ◌≡◌, refl, true, false, none, List, [], ◌∷◌, map, not, ◌||◌, All, length}
use xeron_mx.Text.{codes}
use xeron_mx.Unicode.{ascii}
use xeron_mx.Store.Time.{Time, second}
use xeron_mx.Store.Types.{Message, Domain, PrimaryStatus, inbound, primary_up}
use xeron_mx.Store.Fixtures.{empty, example_org, message, up}
use xeron_mx.Store.Queue.{deliverable}
use xeron_mx.World.{World}
use xeron_mx.Health.{Config, Input, Group, apply, check_all, group}
use xeron_mx.Health.Recovery.{awaits, apply-IsReady}
use xeron_mx.Health.Grouping.{IsPartition, group-IsPartition}

abbrev config : Config
config = record { failure_threshold = 3; success_threshold = 1; notifier = true }

abbrev input : Input
input = record {
  now = 5 * second;
  later = 6 * second;
  record_fails = false;
  event_fails = false;
  retry_fails = false;
}

abbrev down : PrimaryStatus
down = record up { is_up = false; consecutive_failures = 3; consecutive_success = 0 }

abbrev world : World
world = record {
  db = record empty { queue = message 1 inbound (900 * second) ∷ []; primaries = down ∷ [] };
  blobs = [];
  filters = [];
  notified = [];
  count = record {
    smtp_connections = 0;
    messages_received = 0;
    bytes_received = 0;
    messages_rejected = 0;
    messages_delivered = 0;
    messages_deferred = 0;
    messages_failed = 0;
    messages_expired = 0;
  };
}

abbrev other : Domain
other = record example_org {
  id = 2;
  name = codes "example.net";
  primary_host = codes "MAIL.example.org.";
}

abbrev domains : List Domain
domains = example_org ∷ record other { id = 3; enabled = false } ∷ other ∷ []

recovered_test :
    map
      (λ (m : Message). m.next_retry_at)
      (check_all ascii config (λ k. input) (λ d. none) false world).db.queue
    ≡ 6 * second ∷ []
unfolding check_all ascii xeron_mx.Store.Time.text_le
recovered_test = refl

notified_test : (apply config input example_org none world).notified ≡ primary_up ∷ []
unfolding apply
notified_test = refl

group_test : map (λ (g : Group). length g.sharing) (group ascii domains []) ≡ 2 ∷ []
unfolding group ascii
group_test = refl

apply-IsReady_example :
    All
      (λ (m : Message).
        (not (awaits 1 m)
          || deliverable (apply config input example_org none world).db (6 * second) m)
        ≡ true)
      (apply config input example_org none world).db.queue
unfolding xeron_mx.Store.Queue.domain_enabled xeron_mx.Store.Domains.record_probe
apply-IsReady_example =
    apply-IsReady config input example_org none world _ _ refl refl refl refl refl refl

group-IsPartition_test : IsPartition ascii (λ d. d.enabled) domains 0 (group ascii domains [])
group-IsPartition_test = group-IsPartition ascii (λ d. d.enabled) domains
