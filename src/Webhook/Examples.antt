-- ===== src/Webhook/Examples.antt =====
-- The event stream of internal/webhook at work: tests, and the theorems on it at one subscription.
use xeron_mx.Prelude.{
  ℕ, ◌+◌, ◌-◌, ◌*◌, ◌/◌, ◌^◌, ◌≤◌, ◌≡◌, refl, true, false, none, some, List, [], ◌∷◌, map, min,
  length, arith,
}
use xeron_mx.Text.{Bytes, codes}
use xeron_mx.Store.Time.{Time, second}
use xeron_mx.Store.Webhooks.{Webhook, Delivery, LogEvent, Tables, failed, pending}
use xeron_mx.Webhook.{Config, DrainInput, AttemptInput, tail_round, attempt, backoff, delay_of}
use xeron_mx.Webhook.Draining.{IsAscending, IsRound, tail_round-IsRound}
use xeron_mx.Webhook.Attempts.{backoff-le}
use xeron_mx.Webhook.Rounds.{Round, rounds, turns}
use xeron_mx.Webhook.Settling.{IsSettled, rounds-IsSettled}

abbrev hook : Webhook
hook = record {
  id = 1;
  name = codes "ops";
  url = codes "https://example.org";
  secret = [];
  events = codes "mail_failed" ∷ [];
  enabled = true;
  last_error = [];
  last_success_at = none;
}

abbrev event : ℕ → Bytes → LogEvent
event k type = record { id = k; type = type; domain_id = none; queue_id = none; created_at = 0 }

abbrev tables : Tables
tables = record {
  webhooks = hook ∷ [];
  deliveries = [];
  events =
      event 1 (codes "mail_failed")
      ∷ event 2 (codes "mail_received")
      ∷ event 3 (codes "mail_failed")
      ∷ [];
  cursor = some 1;
  next_webhook = 2;
  next_delivery = 1;
}

abbrev drain_input : DrainInput
drain_input = record {
  now = 10 * second;
  events_fails = false;
  hooks_fails = false;
  insert_fails = λ h e. false;
  meta_fails = false;
  render = λ e. some (codes "{}");
}

abbrev config : Config
config = record { max_attempts = 2; retry_base = 0; retry_max = 60 * second }

abbrev attempt_input : ℕ → AttemptInput
attempt_input code = record {
  now = 20 * second;
  hook_fails = false;
  send = record {
    request_fails = false;
    unseal_fails = false;
    response = some code;
    error = codes "the endpoint answered";
  };
  draw = 0;
  write_fails = false;
  reason = codes "gave up";
}

abbrev filed : Delivery
filed = record {
  id = 1;
  webhook_id = 1;
  event_type = codes "mail_failed";
  payload = codes "{}";
  status = pending;
  attempts = 0;
  next_attempt_at = 10 * second;
  status_code = 0;
  last_error = [];
  created_at = 10 * second;
  delivered_at = none;
}

abbrev with_delivery : Tables
with_delivery = record tables { deliveries = filed ∷ []; cursor = some 3; next_delivery = 2 }

round_test : (tail_round drain_input 1 tables).0 ≡ 3
unfolding tail_round
round_test = refl

filed_test : (tail_round drain_input 1 tables).1 ≡ with_delivery
unfolding tail_round
filed_test = refl

failed_round_test : (tail_round (record drain_input { insert_fails = λ h e. true }) 1 tables).0 ≡ 1
unfolding tail_round
failed_round_test = refl

refused_test :
    map
      (λ (d : Delivery). d.status)
      (attempt config (attempt_input 404) filed with_delivery).deliveries
    ≡ failed ∷ []
unfolding attempt
refused_test = refl

busy_test :
    map
      (λ (d : Delivery). d.next_attempt_at)
      (attempt config (attempt_input 503) filed with_delivery).deliveries
    ≡ 50 * second ∷ []
unfolding attempt
busy_test = refl

ascending : IsAscending tables.events
ascending = ((omega arith, (omega arith, tt)), ((omega arith, tt), (tt, tt)))

tail_round-IsRound_example :
    IsRound drain_input 1 tables ascending (tail_round drain_input 1 tables)
tail_round-IsRound_example = tail_round-IsRound drain_input 1 tables ascending

backoff-le_example :
    (min (60 * second) (30 * second * 2 ^ (3 - 1)) ≤ backoff config 3 5)
    × (backoff config 3 5
        ≤ min (60 * second) (30 * second * 2 ^ (3 - 1))
          + min (60 * second) (30 * second * 2 ^ (3 - 1)) / 10)
unfolding delay_of
backoff-le_example = backoff-le config 3 5 (omega arith)

abbrev round_at : Time → ℕ → Round
round_at now code = record { inputs = λ k. attempt_input code; due_fails = false; now = now }

-- The second round comes before the delivery is due again.
abbrev three_rounds : List Round
three_rounds =
    round_at (20 * second) 503 ∷ round_at (30 * second) 503 ∷ round_at (60 * second) 500 ∷ []

turns_test : turns config 1 three_rounds with_delivery ≡ 2
unfolding turns
turns_test = refl

rounds_test :
    map (λ (d : Delivery). d.status) (rounds config three_rounds with_delivery).deliveries
    ≡ failed ∷ []
unfolding rounds
rounds_test = refl

rounds-IsSettled_example : IsSettled config 1 (rounds config three_rounds with_delivery)
unfolding xeron_mx.Prelude.find xeron_mx.Prelude.count
rounds-IsSettled_example =
    rounds-IsSettled config 1 three_rounds with_delivery filed refl refl refl (omega arith)
      (omega (arith, turns_test)) (refl, (refl, (refl, tt)))
