-- ===== src/Alert.antt =====
-- internal/alert/alert.go: which alerts the Alerter queues. An outage is announced when it has
-- lasted for a while, its end if it was announced, and an alert with the same key not again for an
-- interval. The clock is read once in a call. The texts of an alert are left out, and the posting of
-- the webhook and the mail.
pub mod Log
pub mod Spacing
pub mod Outages
mod Examples
use xeron_mx.Prelude.{
  ℕ, ◌+◌, Bool, true, false, not, ◌&&◌, ◌||◌, Option, none, some, List, [], ◌∷◌, ◌++◌, ltb, leb,
  ◌==◌, if◌then◌else◌, is_empty, length, any, select,
}
use xeron_mx.Text.{Bytes, bytes_eq, codes}
use xeron_mx.Store.Time.{Time}
use xeron_mx.Store.Types.{Domain, PrimaryStatus}

pub data Severity : Type 0 where
  info : Severity
  warning : Severity
  critical : Severity

pub record Alert : Type 0 where
  pub key : Bytes
  pub severity : Severity
  pub at : Time

-- config.AlertConfig, with whether there is a URL and whether there is an address.
pub record Config : Type 0 where
  pub switched_on : Bool
  pub has_url : Bool
  pub has_address : Bool
  pub primary_down_after : ℕ
  pub min_interval : ℕ

-- The maps grace, by timers, fired and lastSent; the timers that run; the calls of fire that were
-- started and have not got the lock; the channel; and what was taken from it.
pub record Alerter : Type 0 where
  pub grace : List (Bytes × ℕ)
  pub next_timer : ℕ
  pub timers : List (ℕ × Bytes)
  pub starting : List Bytes
  pub fired : List Bytes
  pub last_sent : List (Bytes × Time)
  pub queue : List Alert
  pub delivered : List Alert

abbrev pub queue_depth : ℕ
queue_depth = 64

-- The payload of Notify by its event.
pub data Notice : Type 0 where
  primary_is_down : Bytes → Notice
  primary_is_up : Bytes → Notice
  queue_full : Bytes → Bytes → Notice
  mail_expired : Notice
  mail_failed : Bytes → Notice
  another : Notice

unfoldable pub has : Bytes → List Bytes → Bool
unfolding any
has d = any (bytes_eq d)

unfoldable pub without : Bytes → List Bytes → List Bytes
unfolding select
without d = select (λ k. not (bytes_eq d k))

unfoldable pub remove_one : Bytes → List Bytes → List Bytes
remove_one d [] = []
remove_one d (x ∷ xs) = let rest = remove_one d xs in if bytes_eq d x then xs else x ∷ rest

unfoldable pub look_up : Bytes → List (Bytes × ℕ) → Option ℕ
look_up k [] = none
look_up k (e ∷ es) = let rest = look_up k es in if bytes_eq k e.0 then some e.1 else rest

unfoldable pub forget : Bytes → List (Bytes × ℕ) → List (Bytes × ℕ)
forget k [] = []
forget k (e ∷ es) = let rest = forget k es in if bytes_eq k e.0 then rest else e ∷ rest

unfoldable pub timer_of : ℕ → List (ℕ × Bytes) → Option Bytes
timer_of n [] = none
timer_of n (t ∷ ts) = let rest = timer_of n ts in if n == t.0 then some t.1 else rest

unfoldable pub stop : ℕ → List (ℕ × Bytes) → List (ℕ × Bytes)
unfolding select
stop n = select (λ t. not (n == t.0))

unfoldable pub stop_all : List (Bytes × ℕ) → List (ℕ × Bytes) → List (ℕ × Bytes)
unfolding stop
stop_all [] ts = ts
stop_all (g ∷ gs) ts = stop g.1 (stop_all gs ts)

abbrev pub is_waiting : Option ℕ → Bool
is_waiting none = false
is_waiting (some n) = true

abbrev pub stop_waiting : Option ℕ → List (ℕ × Bytes) → List (ℕ × Bytes)
stop_waiting none ts = ts
stop_waiting (some n) ts = stop n ts

abbrev pub down_key : Bytes → Bytes
down_key d = codes "primary_down:" ++ d

unfoldable pub enabled : Config → Bool
enabled c = c.switched_on && (c.has_url || c.has_address)

abbrev pub is_recent : ℕ → Time → Option Time → Bool
is_recent interval now none = false
is_recent interval now (some t) = ltb now (t + interval)

module _ (c : Config) where
  unfoldable pub should_send : Bytes → Time → Alerter → Bool × Alerter
  unfolding look_up forget
  should_send key now a =
      if leb c.min_interval 0
      then (true, a)
      else if is_recent c.min_interval now (look_up key a.last_sent)
      then (false, a)
      else (true, record a { last_sent = (key, now) ∷ forget key a.last_sent })

  unfoldable pub post : Alert → Alerter → Alerter
  post al a =
      if ltb (length a.queue) queue_depth then record a { queue = a.queue ++ al ∷ [] } else a

  unfoldable pub emit : Bytes → Severity → Time → Alerter → Alerter
  unfolding should_send post
  emit key severity now a =
      let r = should_send key now a in
      if r.0 then post (record { key = key; severity = severity; at = now }) r.1 else r.1

  -- fire, once it has the lock.
  unfoldable pub fire : Time → Bytes → Alerter → Alerter
  unfolding emit forget remove_one
  fire now d a = emit (down_key d) warning now (record a {
    grace = forget d a.grace;
    starting = remove_one d a.starting;
    fired = d ∷ a.fired;
  })

  unfoldable pub primary_down_since : Time → Time → Bytes → Alerter → Alerter
  unfolding look_up
  primary_down_since now since d a =
      if is_empty d
      then a
      else if is_waiting (look_up d a.grace)
      then a
      else if leb (since + c.primary_down_after) now
      then record a { starting = d ∷ a.starting }
      else record a {
        grace = (d, a.next_timer) ∷ a.grace;
        next_timer = a.next_timer + 1;
        timers = (a.next_timer, d) ∷ a.timers;
      }

  unfoldable pub primary_up : Time → Bytes → Alerter → Alerter
  unfolding has without look_up forget emit
  primary_up now d a =
      if is_empty d
      then a
      else let b = record a {
        grace = forget d a.grace;
        timers = stop_waiting (look_up d a.grace) a.timers;
        fired = without d a.fired;
        last_sent = forget (down_key d) a.last_sent;
      } in
        if not (has d a.fired) then b else emit (codes "primary_up:" ++ d) info now b

  unfoldable pub notify : Time → Notice → Alerter → Alerter
  unfolding enabled primary_down_since primary_up emit bytes_eq
  notify now (primary_is_down d) a = if not (enabled c) then a else primary_down_since now now d a
  notify now (primary_is_up d) a = if not (enabled c) then a else primary_up now d a
  notify now (queue_full reason d) a =
      if not (enabled c)
      then a
      else if bytes_eq reason (codes "domain_cap")
      then emit (codes "queue_full:" ++ d) warning now a
      else emit (codes "queue_full") critical now a
  notify now mail_expired a =
      if not (enabled c) then a else emit (codes "mail_expired") critical now a
  notify now (mail_failed reason) a =
      if not (enabled c)
      then a
      else if bytes_eq reason (codes "body unreadable")
      then emit (codes "mail_lost") critical now a
      else emit (codes "mail_failed") warning now a
  notify now another a = a

-- Since when a primary is down, as Resume finds it at the start.
abbrev pub later_of : Option Time → Time → Time
later_of none check = check
later_of (some t) check = t

abbrev pub checked_down : Option Time → PrimaryStatus → Option Time
checked_down none st = none
checked_down (some t) st = some (later_of st.last_down t)

abbrev pub down_since : Option PrimaryStatus → Option Time
down_since none = none
down_since (some st) = if st.is_up then none else checked_down st.last_check st

abbrev pub resume_since : Config → Time → Domain → Option Time → Alerter → Alerter
resume_since c now d none a = a
resume_since c now d (some since) a = primary_down_since c now since d.name a

-- PrimaryStatusFor is a function of the domain's id, `none` where it fails.
unfoldable pub resume_each :
    Config → Time → (ℕ → Option PrimaryStatus) → List Domain → Alerter → Alerter
resume_each c now status [] a = a
resume_each c now status (d ∷ ds) a =
    resume_each c now status ds
      (if not d.enabled then a else resume_since c now d (down_since (status d.id)) a)

-- The domains are `none` where ListDomains fails.
unfoldable pub resume :
    Config → Time → (ℕ → Option PrimaryStatus) → Option (List Domain) → Alerter → Alerter
unfolding enabled resume_each
resume c now status none a = a
resume c now status (some ds) a = if not (enabled c) then a else resume_each c now status ds a

-- A timer goes off; a call of fire gets the lock; Run takes an alert from the channel;
-- Run stops.
abbrev pub gone_off : ℕ → Option Bytes → Alerter → Alerter
gone_off n none a = a
gone_off n (some d) a = record a { timers = stop n a.timers; starting = d ∷ a.starting }

unfoldable pub go_off : ℕ → Alerter → Alerter
unfolding timer_of stop
go_off n a = gone_off n (timer_of n a.timers) a

unfoldable pub get_lock : Config → Time → Bytes → Alerter → Alerter
unfolding has fire
get_lock c now d a = if has d a.starting then fire c now d a else a

abbrev pub taken : List Alert → Alerter → Alerter
taken [] a = a
taken (al ∷ rest) a = record a { queue = rest; delivered = a.delivered ++ al ∷ [] }

abbrev pub take_one : Alerter → Alerter
take_one a = taken a.queue a

unfoldable pub stop_timers : Alerter → Alerter
unfolding stop_all
stop_timers a = record a { grace = []; timers = stop_all a.grace a.timers }

pub data Step : Type 0 where
  resumes : Time → (ℕ → Option PrimaryStatus) → Option (List Domain) → Step
  notified : Time → Notice → Step
  goes_off : ℕ → Step
  gets_lock : Time → Bytes → Step
  takes : Step
  stops : Step

unfoldable pub step : Config → Step → Alerter → Alerter
unfolding resume notify go_off get_lock stop_timers
step c (resumes now status ds) a = resume c now status ds a
step c (notified now n) a = notify c now n a
step c (goes_off n) a = go_off n a
step c (gets_lock now d) a = get_lock c now d a
step c takes a = take_one a
step c stops a = stop_timers a

unfoldable pub run : Config → List Step → Alerter → Alerter
unfolding step
run c [] a = a
run c (s ∷ rest) a = run c rest (step c s a)

abbrev pub fresh : Alerter
fresh = record {
  grace = [];
  next_timer = 0;
  timers = [];
  starting = [];
  fired = [];
  last_sent = [];
  queue = [];
  delivered = [];
}
