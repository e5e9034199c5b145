-- ===== src/Store/Queue.antt =====
-- The queue table (internal/store/queue.go, and the quarantine statements of
-- internal/store/filters.go). Each function is one SQL statement: it maps over the rows that its
-- WHERE clause picks. `none` is ErrNotFound, or for `enqueue` the constraint that refuses the row.
-- Rows with equal sort keys keep their row order, where SQLite leaves it open. The recipients are
-- JSON there, which replaces what is not UTF-8; here they are kept as they are, so they stand for
-- addresses in UTF-8.
pub mod Rows
pub mod Ops
pub mod Lifecycle
pub mod Retention
mod Returning
pub mod Claims
pub mod Bounds
mod Examples
use xeron_mx.Prelude.{
  ℕ, ◌+◌, ◌-◌, ◌*◌, ◌/◌, ◌^◌, Bool, true, not, ◌&&◌, ◌||◌, Option, none, some, List, [], ◌∷◌, ◌++◌,
  map, ltb, ◌==◌, if◌then◌else◌, is_some, is_none, is_empty, length, take, select, any, count, find,
  sort_by,
}
use xeron_mx.Text.{Bytes, codes, truncate}
use xeron_mx.Store.Time.{Time, text_le}
use xeron_mx.Store.Types.{
  queued, delivering, delivered, failed, expired, Message, Domain, PrimaryStatus, Db, is_queued,
  is_delivering, is_pending, is_finished, is_retryable, is_inbound, is_outbound,
}

abbrev pub has_id : ℕ → Message → Bool
has_id k m = m.id == k

-- UPDATE queue SET … WHERE …
unfoldable pub update_where : (Message → Bool) → (Message → Message) → List Message → List Message
update_where p f [] = []
update_where p f (m ∷ q) = (if p m then f m else m) ∷ update_where p f q

-- DB.exec: an UPDATE or DELETE that touches no row is ErrNotFound.
unfoldable pub exec_update :
    (Message → Bool) → (Message → Message) → List Message → Option (List Message)
unfolding update_where
exec_update p f q = if any p q then some (update_where p f q) else none

-- The row that Enqueue inserts. The table refuses a second row of one id, and a domain that does
-- not exist.
abbrev pub new_row : Message → Message
new_row m = record m {
  status = queued;
  attempts = 0;
  last_error = [];
  delivered_at = none;
  claimed_at = none;
  claimed_by = [];
  quarantined_at = none;
  quarantine_reason = [];
}

unfoldable pub enqueue : Message → Db → Option Db
unfolding any
enqueue m db =
    if any (has_id m.id) db.queue || not (any (λ (d : Domain). d.id == m.domain_id) db.domains)
    then none
    else some (record db { queue = db.queue ++ new_row m ∷ [] })

pub record QueueStats : Type 0 where
  pub pending : ℕ
  pub pending_bytes : ℕ
  pub total : ℕ

pending_size : List Message → ℕ
pending_size [] = 0
pending_size (m ∷ q) = (if is_pending m.status then m.size_bytes else 0) + pending_size q

unfoldable pub stats : List Message → QueueStats
unfolding pending_size count
stats q = record {
  pending = count (λ m. is_pending m.status) q;
  pending_bytes = pending_size q;
  total = length q;
}

unfoldable pub count_pending_for_domain : ℕ → List Message → ℕ
unfolding count
count_pending_for_domain k = count (λ m. m.domain_id == k && is_pending m.status)

-- The joins with domains and primary_status.
unfoldable pub domain_enabled : Db → ℕ → Bool
unfolding any
domain_enabled db k = any (λ (d : Domain). d.id == k && d.enabled) db.domains

unfoldable pub primary_is_up : Db → ℕ → Bool
unfolding any
primary_is_up db k = any (λ (p : PrimaryStatus). p.domain_id == k && p.is_up) db.primaries

-- The WHERE clause of ClaimBatch.
unfoldable pub deliverable : Db → Time → Message → Bool
deliverable db now m =
    is_queued m.status
    && (is_none m.quarantined_at
        && (is_inbound m.direction
            && (text_le m.next_retry_at now
                && (domain_enabled db m.domain_id && primary_is_up db m.domain_id))))

-- The WHERE clause of claimOutbound.
unfoldable pub deliverable_outbound : Db → Time → Bool → Message → Bool
deliverable_outbound db now bounces_only m =
    is_queued m.status
    && (is_none m.quarantined_at
        && (is_outbound m.direction
            && ((not bounces_only || is_empty m.envelope_from)
                && (text_le m.next_retry_at now && domain_enabled db m.domain_id))))

abbrev pub claimed : Bytes → Time → Message → Message
claimed worker now m = record m { status = delivering; claimed_at = some now; claimed_by = worker }

-- ORDER BY next_retry_at LIMIT limit
unfoldable pub earliest : ℕ → (Message → Bool) → List Message → List Message
unfolding select sort_by
earliest limit p q =
    take limit (sort_by (λ (m n : Message). text_le m.next_retry_at n.next_retry_at) (select p q))

unfoldable pub is_among : List Message → Message → Bool
unfolding any
is_among rows m = any (has_id m.id) rows

-- UPDATE … WHERE id IN (SELECT …) RETURNING …
unfoldable pub claim :
    (Message → Bool) → Bytes → ℕ → Time → List Message → List Message × List Message
unfolding earliest is_among update_where
claim p worker limit now q =
    let q' = update_where (is_among (earliest limit p q)) (claimed worker now) q in
    (q', select (is_among (earliest limit p q)) q')

unfoldable pub claim_batch : Bytes → ℕ → Time → Db → Db × List Message
unfolding claim deliverable
claim_batch worker limit now db =
    let (q, batch) = claim (deliverable db now) worker limit now db.queue in
    (record db { queue = q }, batch)

unfoldable pub claim_outbound : Bytes → ℕ → Time → Bool → Db → Db × List Message
unfolding claim deliverable_outbound
claim_outbound worker limit now bounces_only db =
    let (q, batch) = claim (deliverable_outbound db now bounces_only) worker limit now db.queue in
    (record db { queue = q }, batch)

unfoldable pub mark_delivered : ℕ → Time → List Message → Option (List Message)
unfolding exec_update
mark_delivered k at = exec_update (has_id k) λ m. record m {
  status = delivered;
  delivered_at = some at;
  last_error = [];
  claimed_at = none;
  claimed_by = [];
}

unfoldable pub mark_failed : ℕ → Bytes → List Message → Option (List Message)
unfolding exec_update
mark_failed k reason = exec_update (has_id k) λ m. record m {
  status = failed;
  last_error = truncate reason 1000;
  attempts = m.attempts + 1;
  claimed_at = none;
  claimed_by = [];
}

-- The delay of Backoff before the jitter.
unfoldable pub full_delay : ℕ → ℕ → ℕ → ℕ
full_delay attempts base max =
    let tries = if ltb attempts 1 then 1 else attempts in
    let exp = if ltb 32 (tries - 1) then 32 else tries - 1 in
    if ltb max (base * 2 ^ exp) then max else base * 2 ^ exp

-- Backoff in nanoseconds. `jitter` is what rand.Float64 draws, in units of 2^-53; the float64
-- arithmetic is taken as exact, which it is for delays below 2^53 ns up to its last rounding.
unfoldable pub backoff : ℕ → ℕ → ℕ → ℕ → ℕ
unfolding full_delay
backoff attempts base max jitter = full_delay attempts base max * (2 ^ 53 + jitter) / 2 ^ 54

unfoldable pub reschedule : ℕ → ℕ → Bytes → ℕ → ℕ → ℕ → Time → List Message → Option (List Message)
unfolding exec_update backoff
reschedule k attempts reason base max jitter now = exec_update (has_id k) λ m. record m {
  status = queued;
  attempts = attempts;
  last_error = truncate reason 1000;
  next_retry_at = now + backoff attempts base max jitter;
  claimed_at = none;
  claimed_by = [];
}

unfoldable pub set_recipients : ℕ → List Bytes → List Message → Option (List Message)
unfolding exec_update
set_recipients k rcpts = exec_update (has_id k) λ m. record m { envelope_to = rcpts }

abbrev pub overdue : Time → Message → Bool
overdue now m = is_queued m.status && (is_none m.quarantined_at && text_le m.expires_at now)

-- The rows come back with the statement's RETURNING clause.
unfoldable pub expire_overdue : Time → List Message → List Message × List ℕ
unfolding update_where select
expire_overdue now q = (
  update_where (overdue now)
      (λ m. record m {
        status = expired;
        last_error = codes "retention exceeded before the primary accepted it";
      })
      q,
  map (λ (m : Message). m.id) (select (overdue now) q),
)

abbrev older_claim : Time → Option Time → Bool
older_claim older_than none = true
older_claim older_than (some at) = text_le at older_than

abbrev pub orphaned : Time → Message → Bool
orphaned older_than m = is_delivering m.status && older_claim older_than m.claimed_at

unfoldable pub release_orphaned_claims : Time → List Message → List Message
unfolding update_where
release_orphaned_claims older_than = update_where (orphaned older_than) λ m. record m {
  status = queued;
  claimed_at = none;
  claimed_by = [];
  last_error = codes "delivery interrupted, requeued";
}

unfoldable pub get_message : ℕ → List Message → Option Message
unfolding find
get_message k = find (has_id k)

unfoldable pub retry_now : ℕ → Time → List Message → Option (List Message)
unfolding exec_update
retry_now k now =
    exec_update (λ m. m.id == k && is_retryable m.status)
      λ m. record m { status = queued; next_retry_at = now }

unfoldable pub retry_domain_now : ℕ → Time → List Message → List Message
unfolding update_where
retry_domain_now k now =
    update_where
      (λ m. m.domain_id == k && (is_queued m.status && not (text_le m.next_retry_at now)))
      λ m. record m { next_retry_at = now }

-- DELETE FROM queue WHERE id = ?
unfoldable pub delete_message : ℕ → List Message → Option (List Message)
unfolding any select
delete_message k q = if any (has_id k) q then some (select (λ m. not (has_id k m)) q) else none

abbrev pub purgeable : Time → Message → Bool
purgeable cutoff m = is_finished m.status && text_le m.received_at cutoff

unfoldable pub purge_delivered : Time → List Message → List Message
unfolding select
purge_delivered cutoff = select λ m. not (purgeable cutoff m)

unfoldable pub quarantine : ℕ → Bytes → Time → List Message → Option (List Message)
unfolding exec_update
quarantine k reason now =
    exec_update (λ m. m.id == k && is_none m.quarantined_at)
      λ m. record m { quarantined_at = some now; quarantine_reason = truncate reason 500 }

unfoldable pub release : ℕ → Time → List Message → Option (List Message)
unfolding exec_update
release k now =
    exec_update (λ m. m.id == k && is_some m.quarantined_at)
      λ m. record m {
        quarantined_at = none;
        quarantine_reason = [];
        status = queued;
        next_retry_at = now;
      }
