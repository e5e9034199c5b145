-- ===== src/Store/Queue/Claims.antt =====
-- Proofs about ClaimBatch and claimOutbound (internal/store/queue.go).
use xeron_mx.Prelude.{
  ℕ, ◌/◌, ◌≤◌, ◌≡◌, refl, Bool, true, false, ◌||◌, Option, none, some, List, arith, not, Bool-cases,
  inl, inr, select, find, length, All, All-take, All-sort_by, All-select, is_empty, length-take-le,
  length-map, sort_by,
}
use xeron_mx.Text.{Bytes}
use xeron_mx.Store.Time.{Time, text_le, text_le→seconds, second}
use xeron_mx.Store.Types.{Message, Db, Direction, inbound, outbound, delivering, queued}
use xeron_mx.Store.Queue.{
  has_id, earliest, is_among, claim, domain_enabled, primary_is_up, claimed, claim_batch,
  claim_outbound, deliverable, deliverable_outbound,
}
use xeron_mx.Store.Queue.Rows.{
  IsUnique, IsUnique-update_where, All-IsFound, IsFound, All-is_among, All-select_of,
}
use xeron_mx.Store.Queue.Returning.{
  All-zip, All-map, All-select_where, All-of_map, select-update_where, length-select,
  count-is_among,
}

module _ (p : Message → Bool) (limit : ℕ) (q : List Message) (u : IsUnique q) where
  -- The rows that the inner SELECT picks pass its test, and are the rows of their ids.
  abbrev Picked : Message → Type 0
  Picked m = (p m ≡ true) × IsFound q m

  All-earliest : All Picked (earliest limit p q)
  unfolding earliest
  All-earliest = All-take Picked limit _ (
      All-sort_by Picked _ _ (
        All-zip (λ m. p m ≡ true) (IsFound q) _ (All-select (λ m. p m ≡ true) p q (λ m e. e))
          (All-select_of p (IsFound q) q (All-IsFound q u))))

  -- A row that the outer UPDATE touches passes the test.
  touched-Picked : (m : Message) → IsFound q m → is_among (earliest limit p q) m ≡ true → Picked m
  touched-Picked m f e =
      let (n, same, (pn, fn)) = All-is_among Picked (earliest limit p q) m All-earliest e in
      let found : find (has_id m.id) q ≡ some n = rw (← same) fn in (cc (f, found, pn), f)

  -- Each returned row is a picked row with the claim written into it, and is the row of its id
  -- after the update.
  module _ (worker : Bytes) (now : Time) where
    pub All-claim {κ} :
        (P : Message → Type κ)
        → ((m : Message) → Picked m → P (claimed worker now m))
        → All P (claim p worker limit now q).1
    unfolding claim
    All-claim P f =
        rw (select-update_where (is_among (earliest limit p q)) (claimed worker now) (λ m. refl) q)
          (All-of_map P (claimed worker now) _ (
            All-select_where (λ m. P (claimed worker now m)) (IsFound q)
              (is_among (earliest limit p q)) q (λ m r e. f m (touched-Picked m r e))
              (All-IsFound q u)))

    pub All-claim-IsFound :
        All (IsFound (claim p worker limit now q).0) (claim p worker limit now q).1
    unfolding claim
    All-claim-IsFound =
        All-select_of _ (IsFound _) _ (All-IsFound _ (IsUnique-update_where _ _ (λ m. refl) q u))

    pub claim-IsUnique : IsUnique (claim p worker limit now q).0
    unfolding claim
    claim-IsUnique = IsUnique-update_where _ _ (λ m. refl) q u

    pub length-claim-le : length (claim p worker limit now q).1 ≤ limit
    unfolding claim earliest
    length-claim-le =
        rw (select-update_where (is_among (earliest limit p q)) (claimed worker now) (λ m. refl) q)
          (omega (
            arith,
            length-map (select (is_among (earliest limit p q)) q) (claimed worker now),
            length-select (is_among (earliest limit p q)) q,
            count-is_among (earliest limit p q) q u,
            length-take-le limit
                (sort_by (λ (m n : Message). text_le m.next_retry_at n.next_retry_at) (select p q)),
          ))

-- What a row that comes back from a claim tells: who claimed it and when, and that the row of its
-- id was queued, due to the second, not quarantined and of an enabled domain.
pub record IsClaim (db : Db) (worker : Bytes) (now : Time) (way : Direction) (m : Message)
    : Type 0 where
  pub held : m.status ≡ delivering
  pub by_worker : m.claimed_by ≡ worker
  pub at_now : m.claimed_at ≡ some now
  pub direction_of : m.direction ≡ way
  pub not_quarantined : m.quarantined_at ≡ none
  pub due : m.next_retry_at / second ≤ now / second
  pub domain_is_enabled : domain_enabled db m.domain_id ≡ true
  pub queued_before : (n : Message) × (find (has_id m.id) db.queue ≡ some n) × (n.status ≡ queued)

deliverable-IsClaim :
    (db : Db) (worker : Bytes) (now : Time) (m : Message)
    → deliverable db now m ≡ true
    → IsFound db.queue m
    → IsClaim db worker now inbound (claimed worker now m) × (primary_is_up db m.domain_id ≡ true)
unfolding deliverable
deliverable-IsClaim db worker now m e f = (
  record {
    held = refl;
    by_worker = refl;
    at_now = refl;
    direction_of = ground arith;
    not_quarantined = ground arith;
    due = text_le→seconds _ _ (ground arith);
    domain_is_enabled = ground arith;
    queued_before = (m, f, ground arith);
  },
  ground arith,
)

deliverable_outbound-IsClaim :
    (db : Db) (worker : Bytes) (now : Time) (b : Bool) (m : Message)
    → deliverable_outbound db now b m ≡ true
    → IsFound db.queue m
    → IsClaim db worker now outbound (claimed worker now m)
      × ((not b || is_empty m.envelope_from) ≡ true)
unfolding deliverable_outbound
deliverable_outbound-IsClaim db worker now b m e f = (
  record {
    held = refl;
    by_worker = refl;
    at_now = refl;
    direction_of = ground arith;
    not_quarantined = ground arith;
    due = text_le→seconds _ _ (ground arith);
    domain_is_enabled = ground arith;
    queued_before = (m, f, ground arith);
  },
  ground arith,
)

-- A batch holds at most `limit` messages. Each of them was queued, inbound, not quarantined and due
-- to the second, its domain enabled and its primary up, and is now marked as the worker's.
pub claim_batch-IsClaim :
    (db : Db) (worker : Bytes) (limit : ℕ) (now : Time)
    → IsUnique db.queue
    → All
        (λ m. IsClaim db worker now inbound m × (primary_is_up db m.domain_id ≡ true))
        (claim_batch worker limit now db).1
      × (length (claim_batch worker limit now db).1 ≤ limit)
unfolding claim_batch
claim_batch-IsClaim db worker limit now u = (
  All-claim (deliverable db now) limit db.queue u worker now _
      (λ m (e, f). deliverable-IsClaim db worker now m e f),
  length-claim-le (deliverable db now) limit db.queue u worker now,
)

-- The same of an outbound batch, and where only bounces are asked for the messages of the batch
-- have the null sender.
pub claim_outbound-IsClaim :
    (db : Db) (worker : Bytes) (limit : ℕ) (now : Time) (bounces_only : Bool)
    → IsUnique db.queue
    → All
        (λ m.
          IsClaim db worker now outbound m
          × ((not bounces_only || is_empty m.envelope_from) ≡ true))
        (claim_outbound worker limit now bounces_only db).1
      × (length (claim_outbound worker limit now bounces_only db).1 ≤ limit)
unfolding claim_outbound
claim_outbound-IsClaim db worker limit now b u = (
  All-claim (deliverable_outbound db now b) limit db.queue u worker now _
      (λ m (e, f). deliverable_outbound-IsClaim db worker now b m e f),
  length-claim-le (deliverable_outbound db now b) limit db.queue u worker now,
)

clash :
    (o : Option Message) (n c : Message)
    → o ≡ some n
    → o ≡ some c
    → n.status ≡ queued
    → c.status ≡ delivering
    → ⊥
clash o n c found found' free busy = cc

not_among :
    (q batch : List Message) (m : Message)
    → All (λ c. IsFound q c × (c.status ≡ delivering)) batch
    → (n : Message) × (find (has_id m.id) q ≡ some n) × (n.status ≡ queued)
    → is_among batch m ≡ false
not_among q batch m held (n, found, free) = elim (Bool-cases (is_among batch m)) [
  | inr e ↦ e
  | inl e ↦
      let (c, same, (own, busy)) =
        All-is_among (λ c. IsFound q c × (c.status ≡ delivering)) batch m held e in
      let found' : find (has_id m.id) q ≡ some c = rw (← same) own in
      absurd (clash _ n c found found' free busy)
]

-- Two claims in a row, by any workers at any times, never hand out the same message.
pub claim_batch-disjoint :
    (db : Db) (first second : Bytes) (limit limit' : ℕ) (now later : Time)
    → IsUnique db.queue
    → let (db', batch) = claim_batch first limit now db in
      All (λ m. is_among batch m ≡ false) (claim_batch second limit' later db').1
unfolding claim_batch
claim_batch-disjoint db first second limit limit' now later u =
    let (q', batch) = claim (deliverable db now) first limit now db.queue in
    let u' : IsUnique q' = claim-IsUnique (deliverable db now) limit db.queue u first now in
    let held : All (λ c. IsFound q' c × (c.status ≡ delivering)) batch =
      All-zip (IsFound q') _ batch
        (All-claim-IsFound (deliverable db now) limit db.queue u first now)
        (All-claim (deliverable db now) limit db.queue u first now (λ c. c.status ≡ delivering)
          (λ m e. refl)) in
    All-map _ _ _ (λ m h. not_among q' batch m held h.0.queued_before)
      (claim_batch-IsClaim (record db { queue = q' }) second limit' later u').0
