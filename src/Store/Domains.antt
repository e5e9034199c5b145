-- ===== src/Store/Domains.antt =====
-- Domains, their known recipients and the state of their primaries (internal/store/domains.go,
-- internal/store/recipients.go).
pub mod Probing
use xeron_mx.Prelude.{
  ℕ, suc, Bool, not, ◌&&◌, ◌||◌, Option, none, some, map, leb, ◌==◌, if◌then◌else◌, is_none, find,
  any, select, is_empty,
}
use xeron_mx.Text.{Bytes, bytes_eq, trim_suffix, truncate}
use xeron_mx.Unicode.{Unicode}
use xeron_mx.Store.Time.{Time}
use xeron_mx.Store.Types.{Domain, PrimaryStatus, Recipient, Db}

module _ (u : Unicode) where
  unfoldable pub normalize_domain : Bytes → Bytes
  unfolding trim_suffix
  normalize_domain s = u.to_lower (u.trim_space (trim_suffix b'.' s))

  unfoldable pub domain_by_name : Bytes → Db → Option Domain
  unfolding normalize_domain find bytes_eq
  domain_by_name name db = find (λ (d : Domain). bytes_eq d.name (normalize_domain name)) db.domains

  unfoldable pub normalize_recipient : Bytes → Bytes
  normalize_recipient addr = u.to_lower (u.trim_space addr)

  -- A domain that lists no recipient takes any; otherwise the address must be listed.
  unfoldable pub recipient_allowed : ℕ → Bytes → Db → Bool
  unfolding normalize_recipient any select bytes_eq
  recipient_allowed k addr db =
      let listed = select (λ (r : Recipient). r.domain_id == k) db.recipients in
      is_empty listed
      || any (λ (r : Recipient). bytes_eq r.address (normalize_recipient addr)) listed

unfoldable pub domain_by_id : ℕ → Db → Option Domain
unfolding find
domain_by_id k db = find (λ (d : Domain). d.id == k) db.domains

-- What RecordProbe answers: whether the state is to be announced, and the state.
pub record Probe : Type 0 where
  pub flipped : Bool
  pub is_up : Bool
  pub failures : ℕ
  pub success : ℕ

-- The decision of RecordProbe on the columns that it reads.
unfoldable pub probe : Bool → ℕ → ℕ → PrimaryStatus → Probe
probe good failure_threshold success_threshold s =
    if good
    then (let rises = not s.is_up && leb success_threshold (suc s.consecutive_success) in
        record {
          flipped = rises;
          is_up = s.is_up || rises;
          failures = 0;
          success = suc s.consecutive_success;
        })
    else (let falls = s.is_up && leb failure_threshold (suc s.consecutive_failures) in
        record {
          flipped = falls || is_none s.last_check;
          is_up = s.is_up && not falls;
          failures = suc s.consecutive_failures;
          success = 0;
        })

-- The row that RecordProbe writes.
unfoldable pub probed : Bool → Bytes → ℕ → ℕ → Time → PrimaryStatus → PrimaryStatus
unfolding probe truncate
probed good error failure_threshold success_threshold now s =
    let p = probe good failure_threshold success_threshold s in
    record s {
      is_up = p.is_up;
      last_check = some now;
      consecutive_failures = p.failures;
      consecutive_success = p.success;
      last_error = truncate error 500;
      last_up = if p.flipped && p.is_up then some now else s.last_up;
      last_down = if p.flipped && not p.is_up then some now else s.last_down;
    }

-- `none` is ErrNotFound.
unfoldable pub record_probe : ℕ → Bool → Bytes → ℕ → ℕ → Time → Db → Option (Db × Probe)
unfolding probed find
record_probe k good error failure_threshold success_threshold now db =
    elim (find (λ (s : PrimaryStatus). s.domain_id == k) db.primaries) [
      | none ↦ none
      | some s ↦ some (
        record db {
          primaries =
              map
                (λ (r : PrimaryStatus).
                  if r.domain_id == k
                  then probed good error failure_threshold success_threshold now s
                  else r)
                db.primaries;
        },
        probe good failure_threshold success_threshold s,
      )
    ]
