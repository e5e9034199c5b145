-- ===== src/World.antt =====
-- What the daemons share: the database, the spool of message bodies (internal/blob), the events
-- that were sent to the notifiers, the table of filters and the counters of internal/metrics. A body
-- is kept under the id of its message; the encryption of the spool is not seen here.
pub mod Keeps
use xeron_mx.Prelude.{
  ℕ, ◌+◌, Bool, not, ◌&&◌, Option, none, some, List, [], ◌∷◌, ◌++◌, ltb, ◌==◌, if◌then◌else◌,
  length, find, any, select,
}
use xeron_mx.Text.{Bytes}
use xeron_mx.Store.Time.{Time}
use xeron_mx.Filter.{Rule, record_filter_match}
use xeron_mx.Store.Types.{Db, Event, EventType, Message}

pub record Blob : Type 0 where
  pub id : ℕ
  pub body : Bytes

pub record Counters : Type 0 where
  pub smtp_connections : ℕ
  pub messages_received : ℕ
  pub bytes_received : ℕ
  pub messages_rejected : ℕ
  pub messages_delivered : ℕ
  pub messages_deferred : ℕ
  pub messages_failed : ℕ
  pub messages_expired : ℕ

pub record World : Type 0 where
  pub db : Db
  pub blobs : List Blob
  pub filters : List Rule
  pub notified : List EventType
  pub count : Counters

pub data PutResult : Type 0 where
  stored : ℕ → List Blob → PutResult
  exceeds failed : PutResult

-- Put: the file system may fail it, an id is used once, and a source longer than the limit, where
-- there is one, is refused. A write that fails leaves no file.
unfoldable pub put : Bool → ℕ → Bytes → ℕ → List Blob → PutResult
unfolding any
put broken k body max_bytes blobs =
    if broken
    then failed
    else if any (λ (b : Blob). b.id == k) blobs
    then failed
    else if ltb 0 max_bytes && ltb max_bytes (length body)
    then exceeds
    else stored (length body) (blobs ++ record { id = k; body = body } ∷ [])

unfoldable pub get : ℕ → List Blob → Option Bytes
unfolding find
get k blobs = elim (find (λ (b : Blob). b.id == k) blobs) [ none ↦ none | some b ↦ some b.body ]

-- Delete: a file that is not there is no error.
unfoldable pub delete : ℕ → List Blob → List Blob
unfolding select
delete k = select λ (b : Blob). not (b.id == k)

-- Delete where the file system may refuse it; no caller undoes anything then.
unfoldable pub try_delete : Bool → ℕ → World → World
unfolding delete
try_delete broken k w = if broken then w else record w { blobs = delete k w.blobs }

-- RecordEvent; its callers go on whether or not the row was written.
unfoldable pub record_event : Bool → Event → World → World
record_event broken e w =
    if broken then w else record w { db = record w.db { events = w.db.events ++ e ∷ [] } }

-- The notifier may be absent.
abbrev pub notify : Bool → EventType → World → World
notify set e w = if set then record w { notified = w.notified ++ e ∷ [] } else w

unfoldable pub count_filter_match : Bool → ℕ → Time → World → World
unfolding record_filter_match
count_filter_match broken k now w =
    if broken then w else record w { filters = record_filter_match k now w.filters }

abbrev pub reject : World → World
reject w = record w { count = record w.count { messages_rejected = w.count.messages_rejected + 1 } }

abbrev pub with_queue : List Message → World → World
with_queue q w = record w { db = record w.db { queue = q } }
