-- ===== src/Health.antt =====
-- internal/health: the probes of the primaries. Domains that share a primary share its probe, and
-- each of them takes the result. What a probe finds, the clock and which statements fail are inputs.
-- The groups are probed side by side and write rows of different domains; the model takes them in
-- order. The channel that wakes the workers and the counters of probes are left out.
pub mod Grouping
pub mod Recovery
pub mod Rows
pub mod Rounds
mod Examples
use xeron_mx.Prelude.{
  ℕ, Bool, true, false, not, Option, none, some, List, [], ◌∷◌, ◌++◌, if◌then◌else◌, is_none,
  sort_by, select,
}
use xeron_mx.Text.{Bytes, bytes_eq, bytes_le, codes, trim_suffix}
use xeron_mx.Unicode.{Unicode}
use xeron_mx.Store.Time.{Time}
use xeron_mx.Store.Types.{Db, Domain, EventType, primary_up, primary_down}
use xeron_mx.Store.Queue.{retry_domain_now}
use xeron_mx.Store.Domains.{Probe, record_probe}
use xeron_mx.World.{World, record_event, notify, with_queue}
use xeron_mx.Smtpd.Data.{decimal}

pub record Config : Type 0 where
  pub failure_threshold : ℕ
  pub success_threshold : ℕ
  pub notifier : Bool

-- What the handling of a result meets. `now` is the time of the probe, `later` that of the retry.
pub record Input : Type 0 where
  pub now : Time
  pub later : Time
  pub record_fails : Bool
  pub event_fails : Bool
  pub retry_fails : Bool

unfoldable pub primary_key : Unicode → Domain → Bytes
unfolding trim_suffix decimal
primary_key uc d =
    uc.to_lower (trim_suffix b'.' d.primary_host)
    ++ (codes "|" ++ (decimal d.primary_port ++ (codes "|" ++ d.primary_tls)))

pub record Group : Type 0 where
  pub key : Bytes
  pub sharing : List Domain

-- groups[key] = append(groups[key], d), the keys in the order in which they first occur.
unfoldable pub add_to : Bytes → Domain → List Group → List Group
unfolding bytes_eq
add_to key d [] = record { key = key; sharing = d ∷ [] } ∷ []
add_to key d (g ∷ groups) =
    let rest = add_to key d groups in
    if bytes_eq g.key key then record g { sharing = g.sharing ++ d ∷ [] } ∷ groups else g ∷ rest

unfoldable pub group : Unicode → List Domain → List Group → List Group
unfolding add_to primary_key
group uc [] groups = groups
group uc (d ∷ domains) groups =
    if d.enabled
    then group uc domains (add_to (primary_key uc d) d groups)
    else group uc domains groups

unfoldable pub list_domains : Db → List Domain
unfolding sort_by bytes_le
list_domains db = sort_by (λ (d e : Domain). bytes_le d.name e.name) db.domains

abbrev pub text_of : Option Bytes → Bytes
text_of none = []
text_of (some e) = e

abbrev pub event_of : Bool → EventType
event_of true = primary_up
event_of false = primary_down

module _ (cfg : Config) (i : Input) (d : Domain) where
  unfoldable pub announce : Bool → World → World
  unfolding record_event
  announce is_up w = notify cfg.notifier (event_of is_up) (
      record_event i.event_fails
        (record { type = event_of is_up; domain_id = some d.id; queue_id = none }) w)

  unfoldable pub pull_forward : World → World
  unfolding retry_domain_now
  pull_forward w =
      if i.retry_fails then w else with_queue (retry_domain_now d.id i.later w.db.queue) w

  unfoldable pub applied : Option (Db × Probe) → World → World
  unfolding announce pull_forward
  applied none w = w
  applied (some (db, p)) w =
      if not p.flipped
      then record w { db = db }
      else if p.is_up
      then pull_forward (announce p.is_up (record w { db = db }))
      else announce p.is_up (record w { db = db })

  -- The error of the probe, `none` where it succeeded.
  unfoldable pub apply : Option Bytes → World → World
  unfolding applied record_probe
  apply error w =
      applied
        (if i.record_fails
          then none
          else record_probe d.id (is_none error) (text_of error) cfg.failure_threshold
              cfg.success_threshold i.now w.db)
        w

module _ (uc : Unicode) (cfg : Config) (inputs : ℕ → Input) (probe : Domain → Option Bytes) where
  unfoldable pub apply_all : List Domain → Option Bytes → World → World
  unfolding apply
  apply_all [] error w = w
  apply_all (d ∷ sharing) error w = apply_all sharing error (apply cfg (inputs d.id) d error w)

  abbrev pub check_group : List Domain → World → World
  unfolding apply_all
  check_group [] w = w
  check_group (d ∷ sharing) w = apply_all (d ∷ sharing) (probe d) w

  unfoldable pub check_groups : List Group → World → World
  unfolding check_group
  check_groups [] w = w
  check_groups (g ∷ groups) w = check_groups groups (check_group g.sharing w)

  unfoldable pub check_all : Bool → World → World
  unfolding check_groups group list_domains
  check_all list_fails w =
      if list_fails then w else check_groups (group uc (list_domains w.db) []) w
