-- ===== src/Store/Queue/Ops.antt =====
-- The statements of internal/store on the queue as the steps of one table: any component may run
-- any of them at any time, so a history is a list of them. A statement that is refused, or finds no
-- row, leaves the table as it was.
use xeron_mx.Prelude.{ℕ, Bool, Option, none, some, List, [], ◌∷◌, not, ◌==◌, select}
use xeron_mx.Text.{Bytes}
use xeron_mx.Store.Time.{Time}
use xeron_mx.Store.Types.{Message, Domain, PrimaryStatus, Db}
use xeron_mx.Store.Queue

pub data Op : Type 0 where
  enqueues : Message → Op
  claims : Bytes → ℕ → Time → Op
  claims_outbound : Bytes → ℕ → Time → Bool → Op
  marks_delivered : ℕ → Time → Op
  marks_failed : ℕ → Bytes → Op
  reschedules : ℕ → ℕ → Bytes → ℕ → ℕ → ℕ → Time → Op
  sets_recipients : ℕ → List Bytes → Op
  expires : Time → Op
  releases_claims : Time → Op
  retries : ℕ → Time → Op
  retries_domain : ℕ → Time → Op
  deletes : ℕ → Op
  purges : Time → Op
  quarantines : ℕ → Bytes → Time → Op
  releases : ℕ → Time → Op
  -- DeleteDomain; the queue's rows of the domain go with it, by ON DELETE CASCADE.
  deletes_domain : ℕ → Op
  -- What the operator and the health checks write to the other tables.
  configures : List Domain → List PrimaryStatus → Op

abbrev pub or_keep : Option (List Message) → Db → Db
or_keep none db = db
or_keep (some q) db = record db { queue = q }

abbrev pub or_same : Option Db → Db → Db
or_same none db = db
or_same (some db') db = db'

unfoldable pub delete_domain : ℕ → Db → Db
unfolding select
delete_domain k db = record db {
  domains = select (λ (d : Domain). not (d.id == k)) db.domains;
  primaries = select (λ (p : PrimaryStatus). not (p.domain_id == k)) db.primaries;
  queue = select (λ (m : Message). not (m.domain_id == k)) db.queue;
}

unfoldable pub step : Op → Db → Db
unfolding delete_domain
step (enqueues m) db = or_same (Queue.enqueue m db) db
step (claims worker limit now) db = (Queue.claim_batch worker limit now db).0
step (claims_outbound worker limit now bounces_only) db =
    (Queue.claim_outbound worker limit now bounces_only db).0
step (marks_delivered k at) db = or_keep (Queue.mark_delivered k at db.queue) db
step (marks_failed k reason) db = or_keep (Queue.mark_failed k reason db.queue) db
step (reschedules k attempts reason base max jitter now) db =
    or_keep (Queue.reschedule k attempts reason base max jitter now db.queue) db
step (sets_recipients k rcpts) db = or_keep (Queue.set_recipients k rcpts db.queue) db
step (expires now) db = record db { queue = (Queue.expire_overdue now db.queue).0 }
step (releases_claims older) db = record db { queue = Queue.release_orphaned_claims older db.queue }
step (retries k now) db = or_keep (Queue.retry_now k now db.queue) db
step (retries_domain k now) db = record db { queue = Queue.retry_domain_now k now db.queue }
step (deletes k) db = or_keep (Queue.delete_message k db.queue) db
step (purges cutoff) db = record db { queue = Queue.purge_delivered cutoff db.queue }
step (quarantines k reason now) db = or_keep (Queue.quarantine k reason now db.queue) db
step (releases k now) db = or_keep (Queue.release k now db.queue) db
step (deletes_domain k) db = delete_domain k db
step (configures domains primaries) db = record db { domains = domains; primaries = primaries }

unfoldable pub history : List Op → Db → Db
history [] db = db
history (op ∷ ops) db = history ops (step op db)
