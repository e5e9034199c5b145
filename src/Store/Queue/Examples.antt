-- ===== src/Store/Queue/Examples.antt =====
-- Runs of the statements of internal/store/queue.go on a queue of three messages: tests, and
-- the theorems on the queue applied to them.
use xeron_mx.Prelude.{
  ℕ, ◌+◌, ◌-◌, ◌*◌, ◌/◌, ◌^◌, ◌≤◌, ◌≡◌, refl, Bool, true, false, not, ◌&&◌, ◌||◌, none, some, List,
  [], ◌∷◌, map, min, length, All, is_empty, arith,
}
use xeron_mx.Text.{Bytes, codes}
use xeron_mx.Store.Time.{second}
use xeron_mx.Store.Types.{Message, Db, inbound, outbound}
use xeron_mx.Store.Fixtures.{message, empty}
use xeron_mx.Store.Queue.{
  claim_batch, claim_outbound, is_among, domain_enabled, primary_is_up, backoff, get_message, stats,
  count_pending_for_domain, expire_overdue, purge_delivered,
}
use xeron_mx.Store.Queue.Ops.{
  Op, enqueues, claims, releases_claims, deletes, quarantines, step, history,
}
use xeron_mx.Store.Queue.Lifecycle.{IsValid, history-IsValid}
use xeron_mx.Store.Queue.Retention.{Holds, step-Holds}
use xeron_mx.Store.Queue.Claims.{
  IsClaim, claim_batch-IsClaim, claim_outbound-IsClaim, claim_batch-disjoint,
}
use xeron_mx.Store.Queue.Bounds.{backoff_bounds}

abbrev now : ℕ
now = 10 * second

abbrev three : Db
three = record empty {
  queue =
      message 1 inbound (2 * second)
      ∷ message 2 outbound (3 * second)
      ∷ message 3 inbound (20 * second)
      ∷ [];
}

abbrev worker : Bytes
worker = codes "w1"

ids : List Message → List ℕ
ids = map λ (m : Message). m.id

claim_batch_test : ids (claim_batch worker 5 now three).1 ≡ 1 ∷ []
unfolding ids claim_batch xeron_mx.Store.Time.text_le domain_enabled primary_is_up
claim_batch_test = refl

claim_outbound_test : ids (claim_outbound worker 5 now true three).1 ≡ 2 ∷ []
unfolding ids claim_outbound xeron_mx.Store.Time.text_le domain_enabled
claim_outbound_test = refl

quarantine_test : ids (claim_batch worker 5 now (step (quarantines 1 worker now) three)).1 ≡ []
unfolding ids claim_batch step xeron_mx.Store.Queue.quarantine xeron_mx.Store.Time.text_le
quarantine_test = refl

requeue_test :
    ids
      (claim_batch worker 5 now (history (claims worker 5 now ∷ releases_claims now ∷ []) three)).1
    ≡ 1 ∷ []
unfolding ids claim_batch history step xeron_mx.Store.Queue.release_orphaned_claims
    xeron_mx.Store.Time.text_le domain_enabled primary_is_up
requeue_test = refl

stats_test : stats three.queue ≡ record { pending = 3; pending_bytes = 300; total = 3 }
unfolding stats
stats_test = refl

count_pending_test : count_pending_for_domain 1 three.queue ≡ 3
unfolding count_pending_for_domain
count_pending_test = refl

expire_overdue_test : (expire_overdue (2000 * second) three.queue).1 ≡ 1 ∷ 2 ∷ 3 ∷ []
unfolding expire_overdue xeron_mx.Store.Time.text_le
expire_overdue_test = refl

purge_delivered_test : purge_delivered now three.queue ≡ three.queue
unfolding purge_delivered
purge_delivered_test = refl

abbrev life : List Op
life = enqueues (message 1 inbound 0) ∷ claims worker 5 now ∷ releases_claims now ∷ []

history-IsValid_example : IsValid (history life empty).queue
history-IsValid_example = history-IsValid life empty (record { unique = tt; rows = tt })

step-Holds_example : Holds 1 (message 1 inbound (2 * second)) (step (deletes 2) three).queue
step-Holds_example =
    step-Holds 1 (message 1 inbound (2 * second)) (deletes 2) three (unfold get_message in refl)
      refl refl

claim_batch-IsClaim_example :
    All
      (λ m. IsClaim three worker now inbound m × (primary_is_up three m.domain_id ≡ true))
      (claim_batch worker 5 now three).1
    × (length (claim_batch worker 5 now three).1 ≤ 5)
unfolding xeron_mx.Prelude.any
claim_batch-IsClaim_example = claim_batch-IsClaim three worker 5 now (refl, (refl, (refl, tt)))

claim_outbound-IsClaim_example :
    All
      (λ m. IsClaim three worker now outbound m × ((not true || is_empty m.envelope_from) ≡ true))
      (claim_outbound worker 5 now true three).1
    × (length (claim_outbound worker 5 now true three).1 ≤ 5)
unfolding xeron_mx.Prelude.any
claim_outbound-IsClaim_example =
    claim_outbound-IsClaim three worker 5 now true (refl, (refl, (refl, tt)))

claim_batch-disjoint_example :
    let (db', batch) = claim_batch worker 5 now three in
    All (λ m. is_among batch m ≡ false) (claim_batch (codes "w2") 5 (30 * second) db').1
unfolding xeron_mx.Prelude.any
claim_batch-disjoint_example =
    claim_batch-disjoint three worker (codes "w2") 5 5 now (30 * second) (refl, (refl, (refl, tt)))

backoff_bounds_example :
    let d = min 3600 (60 * 2 ^ min 32 (4 - 1)) in
    (d / 2 ≤ backoff 4 60 3600 12345) × (backoff 4 60 3600 12345 ≤ d)
backoff_bounds_example = backoff_bounds 4 60 3600 12345 (omega arith)
