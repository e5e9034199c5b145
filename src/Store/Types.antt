-- ===== src/Store/Types.antt =====
-- The rows of the tables (internal/store/store.go, domains.go, outbound.go, the schema files).
-- An id of a message is the number that its 32 hexadecimal digits write, a row id is a number.
-- `Message` holds the columns claimed_at and claimed_by too, which the Go struct leaves out. A
-- spam score is carried as the bits of its float64 and never computed with. Of an event the type,
-- the domain and the message are kept, and not the free-form data.
use xeron_mx.Prelude.{ℕ, Bool, true, false, Option, List}
use xeron_mx.Text.{Bytes}
use xeron_mx.Store.Time.{Time}

pub data Status : Type 0 where
  queued delivering delivered failed expired : Status

pub data Direction : Type 0 where
  inbound outbound : Direction

pub record Message : Type 0 where
  pub id : ℕ
  pub domain_id : ℕ
  pub envelope_from : Bytes
  pub envelope_to : List Bytes
  pub subject : Bytes
  pub size_bytes : ℕ
  pub received_at : Time
  pub expires_at : Time
  pub status : Status
  pub attempts : ℕ
  pub next_retry_at : Time
  pub last_error : Bytes
  pub delivered_at : Option Time
  pub claimed_at : Option Time
  pub claimed_by : Bytes
  pub remote_addr : Bytes
  pub direction : Direction
  pub spam_score : Option ℕ
  pub spam_action : Bytes
  pub quarantined_at : Option Time
  pub quarantine_reason : Bytes
  pub auth_results : Bytes
  pub sender_authenticated : Bool
  pub malware_scan : Bytes

pub record Domain : Type 0 where
  pub id : ℕ
  pub name : Bytes
  pub primary_host : Bytes
  pub primary_port : ℕ
  pub primary_tls : Bytes
  pub max_queue_messages : Option ℕ
  pub monthly_send_limit : Option ℕ
  pub retention_hours : ℕ
  pub enabled : Bool

pub record PrimaryStatus : Type 0 where
  pub domain_id : ℕ
  pub is_up : Bool
  pub last_check : Option Time
  pub last_up : Option Time
  pub last_down : Option Time
  pub consecutive_failures : ℕ
  pub consecutive_success : ℕ
  pub last_error : Bytes

pub record Usage : Type 0 where
  pub domain_id : ℕ
  pub month : ℕ
  pub recipients : ℕ

pub record Recipient : Type 0 where
  pub domain_id : ℕ
  pub address : Bytes

pub data EventType : Type 0 where
  mail_received mail_delivered mail_deferred mail_failed mail_expired mail_rejected : EventType
  mail_quarantined primary_up primary_down queue_full send_limit_reached : EventType

pub record Event : Type 0 where
  pub type : EventType
  pub domain_id : Option ℕ
  pub queue_id : Option ℕ

pub record Db : Type 0 where
  pub queue : List Message
  pub domains : List Domain
  pub primaries : List PrimaryStatus
  pub recipients : List Recipient
  pub usage : List Usage
  pub events : List Event

abbrev pub is_queued : Status → Bool
is_queued queued = true
is_queued _ = false

abbrev pub is_delivering : Status → Bool
is_delivering delivering = true
is_delivering _ = false

abbrev pub is_delivered : Status → Bool
is_delivered delivered = true
is_delivered _ = false

-- status IN ('queued','delivering')
abbrev pub is_pending : Status → Bool
is_pending queued = true
is_pending delivering = true
is_pending _ = false

-- status IN ('delivered','failed','expired')
abbrev pub is_finished : Status → Bool
is_finished delivered = true
is_finished failed = true
is_finished expired = true
is_finished _ = false

-- status IN ('queued','failed','expired')
abbrev pub is_retryable : Status → Bool
is_retryable queued = true
is_retryable failed = true
is_retryable expired = true
is_retryable _ = false

abbrev pub is_inbound : Direction → Bool
is_inbound inbound = true
is_inbound outbound = false

abbrev pub is_outbound : Direction → Bool
is_outbound inbound = false
is_outbound outbound = true
