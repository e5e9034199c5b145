-- ===== src/Store/Queue/Retention.antt =====
-- Proofs about one message under the queue's statements (internal/store/queue.go).
use xeron_mx.Prelude.{
  ℕ, ◌≡◌, refl, Bool, true, false, some, List, arith, not, ◌==◌, Bool-cases, inl, inr, any, select,
}
use xeron_mx.Text.{Bytes}
use xeron_mx.Store.Time.{Time}
use xeron_mx.Store.Types.{Message, Db, Domain, Direction, is_finished}
use xeron_mx.Store.Queue.{
  has_id, update_where, exec_update, enqueue, claim_batch, claim_outbound, mark_delivered,
  mark_failed, reschedule, set_recipients, expire_overdue, release_orphaned_claims, get_message,
  retry_now, retry_domain_now, delete_message, purge_delivered, quarantine, release,
}
use xeron_mx.Store.Queue.Ops.{
  Op, enqueues, claims, claims_outbound, marks_delivered, marks_failed, reschedules,
  sets_recipients, expires, releases_claims, retries, retries_domain, deletes, purges, quarantines,
  releases, deletes_domain, configures, step, or_keep, or_same,
}
use xeron_mx.Store.Queue.Rows.{KeepsId, find-update_where, find-select, find-append, find-id}

-- What the sender gave, and the time limit that the message was accepted with.
pub record Letter : Type 0 where
  pub id : ℕ
  pub domain_id : ℕ
  pub envelope_from : Bytes
  pub subject : Bytes
  pub size_bytes : ℕ
  pub received_at : Time
  pub expires_at : Time
  pub direction : Direction

abbrev pub letter : Message → Letter
letter m = record {
  id = m.id;
  domain_id = m.domain_id;
  envelope_from = m.envelope_from;
  subject = m.subject;
  size_bytes = m.size_bytes;
  received_at = m.received_at;
  expires_at = m.expires_at;
  direction = m.direction;
}

-- The row of `k` is still there, with the letter of `m`.
abbrev pub Holds : ℕ → Message → List Message → Type 0
Holds k m q = (n : Message) × (get_message k q ≡ some n) × (letter n ≡ letter m)

-- The operations that delete a row at an operator's word.
abbrev pub spares : ℕ → Message → Op → Bool
spares k m (deletes j) = not (j == k)
spares k m (deletes_domain j) = not (m.domain_id == j)
spares k m _ = true

module _ (k : ℕ) (m : Message) where
  update_where-Holds :
      (p : Message → Bool) (f : Message → Message) (q : List Message)
      → KeepsId f
      → ((n : Message) → letter (f n) ≡ letter n)
      → get_message k q ≡ some m
      → Holds k m (update_where p f q)
  unfolding get_message
  update_where-Holds p f q same says h = elim (Bool-cases (p m)) [
    | inl e ↦ (f m, rw (find-update_where p f same k q, h) (ground arith), says m)
    | inr e ↦ (m, rw (find-update_where p f same k q, h) (ground arith), refl)
  ]

  exec_update-Holds :
      (p : Message → Bool) (f : Message → Message) (db : Db)
      → KeepsId f
      → ((n : Message) → letter (f n) ≡ letter n)
      → get_message k db.queue ≡ some m
      → Holds k m (or_keep (exec_update p f db.queue) db).queue
  unfolding exec_update
  exec_update-Holds p f db same says h = elim (Bool-cases (any p db.queue)) [
    | inl e ↦ rw e (update_where-Holds p f db.queue same says h)
    | inr e ↦ rw e (m, h, refl)
  ]

  select-Holds :
      (p : Message → Bool) (q : List Message)
      → get_message k q ≡ some m
      → p m ≡ true
      → Holds k m (select p q)
  unfolding get_message
  select-Holds p q h e = (m, find-select p k q m h e, refl)

  enqueue-Holds :
      (n : Message) (db : Db)
      → get_message k db.queue ≡ some m
      → Holds k m (or_same (enqueue n db) db).queue
  unfolding enqueue get_message
  enqueue-Holds n db h = elim (Bool-cases (any (has_id n.id) db.queue)) [
    | inl e ↦ rw e (m, h, refl)
    | inr e ↦ rw e (elim (Bool-cases (any (λ (d : Domain). d.id == n.domain_id) db.domains)) [
      | inl f ↦ rw f (m, find-append k db.queue _ m h, refl)
      | inr f ↦ rw f (m, h, refl)
    ])
  ]

  delete-Holds :
      (j : ℕ) (db : Db)
      → not (j == k) ≡ true
      → get_message k db.queue ≡ some m
      → Holds k m (or_keep (delete_message j db.queue) db).queue
  unfolding delete_message get_message
  delete-Holds j db e h = elim (Bool-cases (any (has_id j) db.queue)) [
    | inl f ↦ rw f (select-Holds _ db.queue h (ground (arith, find-id k db.queue m h)))
    | inr f ↦ rw f (m, h, refl)
  ]

  -- Whatever statement runs, a message that is not finished keeps its row, and the row keeps the
  -- sender, the subject, the size, the times of receipt and expiry and the direction that it had.
  -- The exceptions are the deletion of this message, or of its domain.
  pub step-Holds :
      (op : Op) (db : Db)
      → get_message k db.queue ≡ some m
      → is_finished m.status ≡ false
      → spares k m op ≡ true
      → Holds k m (step op db).queue
  unfolding step claim_batch claim_outbound mark_delivered mark_failed reschedule set_recipients
      expire_overdue release_orphaned_claims retry_now retry_domain_now quarantine release
      purge_delivered
  step-Holds (enqueues n) db h u s = enqueue-Holds n db h
  step-Holds (claims worker limit now) db h u s =
      update_where-Holds _ _ db.queue (λ n. refl) (λ n. refl) h
  step-Holds (claims_outbound worker limit now bounces_only) db h u s =
      update_where-Holds _ _ db.queue (λ n. refl) (λ n. refl) h
  step-Holds (expires now) db h u s = update_where-Holds _ _ db.queue (λ n. refl) (λ n. refl) h
  step-Holds (releases_claims older) db h u s =
      update_where-Holds _ _ db.queue (λ n. refl) (λ n. refl) h
  step-Holds (retries_domain j now) db h u s =
      update_where-Holds _ _ db.queue (λ n. refl) (λ n. refl) h
  step-Holds (deletes j) db h u s = delete-Holds j db s h
  step-Holds (purges cutoff) db h u s = select-Holds _ db.queue h (ground arith)
  step-Holds (deletes_domain j) db h u s = select-Holds _ db.queue h s
  step-Holds (configures domains primaries) db h u s = (m, h, refl)
  step-Holds (marks_delivered j at) db h u s = exec_update-Holds _ _ db (λ n. refl) (λ n. refl) h
  step-Holds (marks_failed j reason) db h u s = exec_update-Holds _ _ db (λ n. refl) (λ n. refl) h
  step-Holds (reschedules j attempts reason base max jitter now) db h u s =
      exec_update-Holds _ _ db (λ n. refl) (λ n. refl) h
  step-Holds (sets_recipients j rcpts) db h u s = exec_update-Holds _ _ db (λ n. refl) (λ n. refl) h
  step-Holds (retries j now) db h u s = exec_update-Holds _ _ db (λ n. refl) (λ n. refl) h
  step-Holds (quarantines j reason now) db h u s =
      exec_update-Holds _ _ db (λ n. refl) (λ n. refl) h
  step-Holds (releases j now) db h u s = exec_update-Holds _ _ db (λ n. refl) (λ n. refl) h
