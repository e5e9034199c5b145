-- ===== src/Sender/Examples.antt =====
-- Deliveries by the worker of internal/sender: tests, and the theorems on them.
use xeron_mx.Prelude.{
  ℕ, ◌+◌, ◌*◌, ◌≡◌, refl, ◌⊎◌, Bool, true, false, Option, none, some, List, [], ◌∷◌, ◌++◌, ◌==◌,
  if◌then◌else◌, map, is_some, find,
}
use xeron_mx.Text.{Bytes, codes}
use xeron_mx.Unicode.{ascii}
use xeron_mx.Store.Time.{second}
use xeron_mx.Store.Types.{Message, Status, inbound, delivering, queued, failed}
use xeron_mx.Store.Fixtures.{empty, message}
use xeron_mx.World.{World, Blob, Counters, get}
use xeron_mx.Sender.{
  SendError, reply, other, Recipients, Sent, sent, broke, wrap, Client, transmit, failure, nobody,
}
use xeron_mx.Sender.Direct.{Network, Mx, found, absent, down, up, send_direct, visit, Group}
use xeron_mx.Sender.Deliver.{Config, Bounce, Input, conclude, deliver, settle, bounce, bounce_row}
use xeron_mx.Sender.Tally.{mentions, tally, transmit_lem}
use xeron_mx.Sender.Partition.{send_direct_lem, visit-forgets}
use xeron_mx.Sender.Bodies.{conclude-body}
use xeron_mx.Sender.Bounces.{IsBounced, bounce_lem, bounce-bounce_row}
use xeron_mx.Sender.Settled.{IsSettled, settle_lem}
use xeron_mx.Sender.Released.{IsReleased, deliver-IsReleased}

abbrev ann : Bytes
ann = codes "ann@a.org"

abbrev ben : Bytes
ben = codes "ben@b.org"

-- Takes the first recipient and puts the second off.
abbrev client : Client
client = record {
  mail = none;
  rcpt = λ n. if n == 0 then none else some (reply 450 (codes "later"));
  data_start = none;
  headers = none;
  body = none;
  finish = none;
}

abbrev network : Network
network = record {
  mx = λ d. found (record { host = codes "mx."; pref = 10 } ∷ []);
  address = λ d. absent;
  dial = λ h. up client;
}

abbrev dead : Network
dead = record network { dial = λ h. down (other (codes "timeout")) }

abbrev letter : Message
letter = record (message 1 inbound 0) {
  envelope_from = codes "eve@c.org";
  envelope_to = ann ∷ ben ∷ [];
  status = delivering;
  sender_authenticated = true;
}

abbrev world : World
world = record {
  db = record empty { queue = letter ∷ [] };
  blobs = record { id = 1; body = codes "text" } ∷ [];
  filters = [];
  notified = [];
  count = record {
    smtp_connections = 0;
    messages_received = 0;
    bytes_received = 0;
    messages_rejected = 0;
    messages_delivered = 0;
    messages_deferred = 0;
    messages_failed = 0;
    messages_expired = 0;
  };
}

abbrev config : Config
config = record {
  retry_base = 60 * second;
  retry_max = 3600 * second;
  delivery_timeout = 300 * second;
  retention = 3600 * second;
  bounces = true;
  notifier = true;
}

abbrev no_bounce : Bounce
no_bounce = record {
  id = some 9;
  now = 5 * second;
  report = λ failures. some (codes "report");
  put_fails = false;
  enqueue_fails = false;
  delete_fails = false;
}

abbrev input : Sent → Input
input s = record {
  now = 5 * second;
  jitter = 0;
  domain_fails = false;
  domain_error = [];
  get_fails = false;
  get_error = [];
  attempt = λ m body. s;
  mark_fails = false;
  narrow_fails = false;
  reschedule_fails = false;
  delete_fails = false;
  event_fails = false;
  partial_event_fails = false;
  bounce = no_bounce;
}

abbrev half : Recipients
half = record {
  accepted = ann ∷ [];
  deferred = failure ben (reply 450 (codes "later")) ∷ [];
  rejected = [];
}

abbrev refused : Sent
refused = broke (reply 550 (codes "no"))

-- What a test looks at in a queue.
abbrev glance : World → List (ℕ × (Status × List Bytes))
glance w = map (λ (m : Message). (m.id, (m.status, m.envelope_to))) w.db.queue

half_test : glance (deliver config (input (sent half)) letter world) ≡ (1, (queued, ben ∷ [])) ∷ []
unfolding deliver
half_test = refl

refused_test :
    glance (deliver config (input refused) letter world)
    ≡ (1, (failed, ann ∷ ben ∷ [])) ∷ (9, (queued, codes "eve@c.org" ∷ [])) ∷ []
unfolding deliver xeron_mx.World.try_delete
refused_test = refl

abbrev told : Sent → ℕ
told (sent res) = tally ben res
told (broke e) = 9

late_test : told (send_direct ascii dead (λ n. true) none (ann ∷ ben ∷ [])) ≡ 0
unfolding send_direct xeron_mx.Prelude.count ascii
late_test = refl

transmit_lem_example :
    ((e : SendError) × (transmit client (ann ∷ ben ∷ []) ≡ broke e))
    ⊎ ((res : Recipients) × (transmit client (ann ∷ ben ∷ []) ≡ sent res)
        × (tally ann res ≡ mentions ann (ann ∷ ben ∷ [])))
transmit_lem_example = transmit_lem ann client (ann ∷ ben ∷ [])

send_direct_lem_example :
    let body : Option SendError = none in
    let r = send_direct ascii network (λ n. false) body (ann ∷ ben ∷ []) in
    ((e : SendError) × (body ≡ some e) × (r ≡ broke (wrap (codes "read message: ") e)))
    ⊎ ((body ≡ none)
        × ((res : Recipients) × (r ≡ sent res) × (tally ben res ≡ mentions ben (ann ∷ ben ∷ []))))
send_direct_lem_example =
    send_direct_lem ben ascii network (λ n. false) none (ann ∷ ben ∷ []) (λ k. refl)

abbrev group_of : Bytes → Bytes → Group
group_of d to = record { domain = d; rcpts = to ∷ [] }

visit-forgets_example :
    tally ben (
      visit dead
        (λ n. true)
        0
        (group_of (codes "a.org") ann ∷ group_of (codes "b.org") ben ∷ [])
        nobody)
    ≡ tally ben nobody
unfolding xeron_mx.Sender.Direct.direct_to xeron_mx.Prelude.count xeron_mx.Text.bytes_eq
visit-forgets_example =
    visit-forgets ben dead (λ n. true) 0 (group_of (codes "a.org") ann)
      (group_of (codes "b.org") ben ∷ []) nobody refl refl refl

bounce_lem_example : IsBounced config letter world (bounce config no_bounce letter (ann ∷ []) world)
unfolding xeron_mx.Prelude.any
bounce_lem_example = bounce_lem config no_bounce letter refl (ann ∷ []) world refl

bounce-bounce_row_example :
    bounce config no_bounce (bounce_row config letter 9 6 (5 * second)) (ann ∷ []) world ≡ world
bounce-bounce_row_example =
    bounce-bounce_row config config no_bounce letter 9 6 (5 * second) (ann ∷ []) world

settle_lem_example :
    IsSettled config
      (input (sent half))
      letter
      half
      (settle config (input (sent half)) letter half world)
unfolding xeron_mx.Prelude.any find
settle_lem_example = settle_lem config (input (sent half)) letter half world letter refl refl refl

deliver-IsReleased_example : IsReleased 1 (deliver config (input refused) letter world)
unfolding xeron_mx.Prelude.any find
deliver-IsReleased_example =
    deliver-IsReleased config (input refused) letter refl world letter refl refl

conclude-body_example :
    get 1 (conclude config (input (sent half)) letter (sent half) world).blobs ≡ some (codes "text")
unfolding get xeron_mx.Prelude.any
conclude-body_example =
    conclude-body config (input (sent half)) letter (sent half) world (codes "text") refl refl refl
      refl
