-- ===== src/Store/Queue/Lifecycle.antt =====
-- Proofs about histories of the queue's statements (internal/store/queue.go): its rows.
use xeron_mx.Prelude.{
  ℕ, ◌≡◌, refl, Bool, true, not, ◌||◌, List, [], ◌∷◌, arith, ◌==◌, Bool-cases, inl, inr, is_some,
  any, select, All, All-append,
}
use xeron_mx.Store.Types.{Message, Db, Domain, is_delivering, is_delivered}
use xeron_mx.Store.Queue.{
  has_id, update_where, exec_update, enqueue, claim_batch, claim_outbound, mark_delivered,
  mark_failed, reschedule, set_recipients, expire_overdue, release_orphaned_claims, retry_now,
  retry_domain_now, delete_message, purge_delivered, quarantine, release,
}
use xeron_mx.Store.Queue.Ops.{
  Op, enqueues, claims, claims_outbound, marks_delivered, marks_failed, reschedules,
  sets_recipients, expires, releases_claims, retries, retries_domain, deletes, purges, quarantines,
  releases, deletes_domain, configures, step, history, or_keep, or_same,
}
use xeron_mx.Store.Queue.Rows.{
  IsUnique, KeepsId, All-update_where, IsUnique-update_where, IsUnique-select, All-select_of,
  IsUnique-append,
}

-- A row that a worker holds names its claim, and a delivered row its time of delivery.
pub record IsValidRow (m : Message) : Type 0 where
  pub claimed : (not (is_delivering m.status) || is_some m.claimed_at) ≡ true
  pub dated : (not (is_delivered m.status) || is_some m.delivered_at) ≡ true

pub record IsValid (q : List Message) : Type 0 where
  pub unique : IsUnique q
  pub rows : All IsValidRow q

update_where-IsValid :
    (p : Message → Bool) (f : Message → Message)
    → KeepsId f
    → ((m : Message) → p m ≡ true → IsValidRow m → IsValidRow (f m))
    → (q : List Message) → IsValid q
    → IsValid (update_where p f q)
update_where-IsValid p f same keep q v = record {
  unique = IsUnique-update_where p f same q v.unique;
  rows = All-update_where p f IsValidRow keep q v.rows;
}

select-IsValid : (p : Message → Bool) (q : List Message) → IsValid q → IsValid (select p q)
select-IsValid p q v = record {
  unique = IsUnique-select p q v.unique;
  rows = All-select_of p IsValidRow q v.rows;
}

exec_update-IsValid :
    (p : Message → Bool) (f : Message → Message)
    → KeepsId f
    → ((m : Message) → p m ≡ true → IsValidRow m → IsValidRow (f m))
    → (db : Db) → IsValid db.queue
    → IsValid (or_keep (exec_update p f db.queue) db).queue
unfolding exec_update
exec_update-IsValid p f same keep db v = elim (Bool-cases (any p db.queue)) [
  | inl e ↦ rw e (update_where-IsValid p f same keep db.queue v)
  | inr e ↦ rw e v
]

enqueue-IsValid :
    (m : Message) (db : Db) → IsValid db.queue → IsValid (or_same (enqueue m db) db).queue
unfolding enqueue
enqueue-IsValid m db v = elim (Bool-cases (any (has_id m.id) db.queue)) [
  | inl e ↦ rw e v
  | inr e ↦ rw e (elim (Bool-cases (any (λ (d : Domain). d.id == m.domain_id) db.domains)) [
    | inl f ↦ rw f (record {
      unique = IsUnique-append db.queue _ v.unique e;
      rows = All-append IsValidRow db.queue _ v.rows (record { claimed = refl; dated = refl }, tt);
    })
    | inr f ↦ rw f v
  ])
]

delete-IsValid :
    (k : ℕ) (db : Db) → IsValid db.queue → IsValid (or_keep (delete_message k db.queue) db).queue
unfolding delete_message
delete-IsValid k db v = elim (Bool-cases (any (has_id k) db.queue)) [
  | inl e ↦ rw e (select-IsValid _ db.queue v)
  | inr e ↦ rw e v
]

step-IsValid : (op : Op) (db : Db) → IsValid db.queue → IsValid (step op db).queue
unfolding step claim_batch claim_outbound mark_delivered mark_failed reschedule set_recipients
    expire_overdue release_orphaned_claims retry_now retry_domain_now quarantine release
    purge_delivered
step-IsValid (enqueues m) db v = enqueue-IsValid m db v
step-IsValid (claims worker limit now) db v =
    update_where-IsValid _ _ (λ m. refl) (λ m e r. ground arith) db.queue v
step-IsValid (claims_outbound worker limit now bounces_only) db v =
    update_where-IsValid _ _ (λ m. refl) (λ m e r. ground arith) db.queue v
step-IsValid (marks_delivered k at) db v =
    exec_update-IsValid _ _ (λ m. refl) (λ m e r. ground arith) db v
step-IsValid (marks_failed k reason) db v =
    exec_update-IsValid _ _ (λ m. refl) (λ m e r. ground arith) db v
step-IsValid (reschedules k attempts reason base max jitter now) db v =
    exec_update-IsValid _ _ (λ m. refl) (λ m e r. ground arith) db v
step-IsValid (sets_recipients k rcpts) db v =
    exec_update-IsValid _ _ (λ m. refl) (λ m e r. ground arith) db v
step-IsValid (expires now) db v =
    update_where-IsValid _ _ (λ m. refl) (λ m e r. ground arith) db.queue v
step-IsValid (releases_claims older) db v =
    update_where-IsValid _ _ (λ m. refl) (λ m e r. ground arith) db.queue v
step-IsValid (retries k now) db v = exec_update-IsValid _ _ (λ m. refl) (λ m e r. ground arith) db v
step-IsValid (retries_domain k now) db v =
    update_where-IsValid _ _ (λ m. refl) (λ m e r. ground arith) db.queue v
step-IsValid (deletes k) db v = delete-IsValid k db v
step-IsValid (purges cutoff) db v = select-IsValid _ db.queue v
step-IsValid (quarantines k reason now) db v =
    exec_update-IsValid _ _ (λ m. refl) (λ m e r. ground arith) db v
step-IsValid (releases k now) db v =
    exec_update-IsValid _ _ (λ m. refl) (λ m e r. ground arith) db v
step-IsValid (deletes_domain k) db v = select-IsValid _ db.queue v
step-IsValid (configures domains primaries) db v = v

-- After any history of the statements, from an empty queue or any valid one, no two rows share an
-- id, each row that is being delivered names the time of its claim, and each delivered row its time
-- of delivery.
pub history-IsValid : (ops : List Op) (db : Db) → IsValid db.queue → IsValid (history ops db).queue
unfolding history
history-IsValid [] db v = v
history-IsValid (op ∷ ops) db v = history-IsValid ops (step op db) (step-IsValid op db v)
