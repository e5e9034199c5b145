-- ===== src/Alert/Examples.antt =====
-- Alerts of internal/alert: tests, and the theorems at two domains.
use xeron_mx.Prelude.{arith, ◌*◌, ◌≡◌, refl, true, false, none, some, List, [], ◌∷◌, map}
use xeron_mx.Text.{Bytes, codes}
use xeron_mx.Store.Time.{second}
use xeron_mx.Store.Types.{PrimaryStatus}
use xeron_mx.Store.Fixtures.{example_org, up}
use xeron_mx.Alert.{
  Alert, Alerter, Config, Step, resumes, notified, goes_off, gets_lock, takes, primary_is_down,
  primary_is_up, mail_failed, timer_of, notify, run, fresh,
}
use xeron_mx.Alert.Log.{Spaced, log}
use xeron_mx.Alert.Spacing.{run-Spaced}
use xeron_mx.Alert.Outages.{brief_outage_lem}

abbrev config : Config
config = record {
  switched_on = true;
  has_url = true;
  has_address = false;
  primary_down_after = 300 * second;
  min_interval = 900 * second;
}

abbrev org : Bytes
org = codes "example.org"

abbrev keys : Alerter → List Bytes
keys a = map (λ (al : Alert). al.key) (log a)

abbrev refusals : List Step
refusals =
    notified (1 * second) (mail_failed [])
    ∷ notified (2 * second) (mail_failed [])
    ∷ takes
    ∷ notified (1000 * second) (mail_failed [])
    ∷ []

refusals_test : keys (run config refusals fresh) ≡ codes "mail_failed" ∷ codes "mail_failed" ∷ []
unfolding run
refusals_test = refl

outage_test :
    keys (
      run config
        (notified (1 * second) (primary_is_down org)
          ∷ goes_off 0
          ∷ gets_lock (301 * second) org
          ∷ notified (400 * second) (primary_is_up org)
          ∷ [])
        fresh)
    ≡ codes "primary_down:example.org" ∷ codes "primary_up:example.org" ∷ []
unfolding run
outage_test = refl

-- The timer goes off when the primary is just up again: the outage is announced behind its end.
late_test :
    keys (
      run config
        (notified (1 * second) (primary_is_down org)
          ∷ goes_off 0
          ∷ notified (301 * second) (primary_is_up org)
          ∷ gets_lock (301 * second) org
          ∷ [])
        fresh)
    ≡ codes "primary_down:example.org" ∷ []
unfolding run
late_test = refl

abbrev down : PrimaryStatus
down = record up { is_up = false; last_down = some 0 }

resumed_test :
    (run config
      (resumes (400 * second) (λ k. some down) (some (example_org ∷ [])) ∷ [])
      fresh).starting
    ≡ org ∷ []
unfolding run
resumed_test = refl

run-Spaced_example : Spaced (900 * second) (codes "mail_failed") (log (run config refusals fresh))
unfolding xeron_mx.Text.bytes_eq
run-Spaced_example = run-Spaced config (codes "mail_failed") (omega arith) (λ d. refl) refusals

brief_outage_lem_example :
    let b =
      notify config
        (200 * second)
        (primary_is_up org)
        (notify config (1 * second) (primary_is_down org) fresh) in
    (b.queue ≡ []) × (b.starting ≡ []) × (timer_of 0 b.timers ≡ none)
unfolding xeron_mx.Alert.enabled xeron_mx.Alert.look_up xeron_mx.Alert.has
brief_outage_lem_example =
    brief_outage_lem config (1 * second) (200 * second) org fresh refl refl (omega arith) refl refl
