-- ===== src/Alert/Spacing.antt =====
-- Proofs about internal/alert: alerts with the same key are an interval apart.
use mathlib.Core.List.{append_assoc}
use xeron_mx.Prelude.{
  ℕ, ◌+◌, ◌<◌, ◌≡◌, refl, sym, Bool, false, not, Option, none, some, List, [], ◌∷◌, ◌++◌, ltb, leb,
  if◌then◌else◌, is_empty, length, on_if, arith,
}
use xeron_mx.Text.{Bytes, bytes_eq, codes}
use xeron_mx.Store.Time.{Time}
use xeron_mx.Store.Types.{Domain, PrimaryStatus}
use xeron_mx.Alert.{
  Alert, Alerter, Config, Severity, Notice, Step, down_key, look_up, forget, is_recent, should_send,
  post, emit, fire, enabled, notify, primary_is_down, primary_is_up, queue_full, mail_expired,
  mail_failed, another, info, warning, critical, resumes, resume, resume_each, resume_since,
  down_since, notified, goes_off, gets_lock, takes, stops, timer_of, has, is_waiting,
  primary_down_since, primary_up, gone_off, go_off, get_lock, taken, stop_timers, step, run, fresh,
  queue_depth,
}
use xeron_mx.Alert.Log.{log, Spaced, Inv, All-still, All-forgotten, emitted-Inv}

module _ (c : Config) (k : Bytes) where
  abbrev IsSpaced : Alerter → Type 0
  IsSpaced a = Inv c.min_interval k a.last_sent (log a)

  emit-IsSpaced :
      (key : Bytes) (severity : Severity) (now : Time) (a : Alerter)
      → 0 < c.min_interval
      → IsSpaced a
      → IsSpaced (emit c key severity now a)
  unfolding emit should_send post
  emit-IsSpaced key severity now a pos h =
      let al : Alert = record { key = key; severity = severity; at = now } in
      let es = (key, now) ∷ forget key a.last_sent in
      on_if (λ (r : Bool × Alerter). IsSpaced (if r.0 then post c al r.1 else r.1))
        (leb c.min_interval 0) (λ e. absurd (ground (arith, pos)))
        (λ e.
          on_if (λ (r : Bool × Alerter). IsSpaced (if r.0 then post c al r.1 else r.1))
            (is_recent c.min_interval now (look_up key a.last_sent)) (λ e2. h)
            (λ e2.
              on_if IsSpaced (ltb (length a.queue) queue_depth)
                (λ e3.
                  rw (sym (append_assoc a.delivered a.queue (al ∷ [])))
                    (emitted-Inv c.min_interval k a.last_sent al (log a) e2 h))
                (λ e3. (All-still c.min_interval k a.last_sent key now (log a) e2 h.0, h.1))))

  module _ (pos : 0 < c.min_interval) (other : (d : Bytes) → bytes_eq (down_key d) k ≡ false) where
    primary_up-IsSpaced :
        (now : Time) (d : Bytes) (a : Alerter) → IsSpaced a → IsSpaced (primary_up c now d a)
    unfolding primary_up
    primary_up-IsSpaced now d a h =
        on_if IsSpaced (is_empty d) (λ e. h)
          (λ e.
            on_if IsSpaced (not (has d a.fired))
              (λ e2. (
                All-forgotten c.min_interval k a.last_sent (down_key d) (log a) (other d) h.0,
                h.1,
              ))
              (λ e2. emit-IsSpaced (codes "primary_up:" ++ d) info now _ pos (
                All-forgotten c.min_interval k a.last_sent (down_key d) (log a) (other d) h.0,
                h.1,
              )))

    primary_down_since-IsSpaced :
        (now since : Time) (d : Bytes) (a : Alerter)
        → IsSpaced a
        → IsSpaced (primary_down_since c now since d a)
    unfolding primary_down_since
    primary_down_since-IsSpaced now since d a h =
        on_if IsSpaced (is_empty d) (λ e. h)
          (λ e.
            on_if IsSpaced (is_waiting (look_up d a.grace)) (λ e2. h)
              (λ e2. on_if IsSpaced (leb (since + c.primary_down_after) now) (λ e3. h) (λ e3. h)))

    notify-IsSpaced :
        (now : Time) (n : Notice) (a : Alerter) → IsSpaced a → IsSpaced (notify c now n a)
    unfolding notify
    notify-IsSpaced now (primary_is_down d) a h =
        on_if IsSpaced (not (enabled c)) (λ e. h) (λ e. primary_down_since-IsSpaced now now d a h)
    notify-IsSpaced now (primary_is_up d) a h =
        on_if IsSpaced (not (enabled c)) (λ e. h) (λ e. primary_up-IsSpaced now d a h)
    notify-IsSpaced now (queue_full reason d) a h =
        on_if IsSpaced (not (enabled c)) (λ e. h)
          (λ e.
            on_if IsSpaced (bytes_eq reason (codes "domain_cap"))
              (λ e2. emit-IsSpaced (codes "queue_full:" ++ d) warning now a pos h)
              (λ e2. emit-IsSpaced (codes "queue_full") critical now a pos h))
    notify-IsSpaced now mail_expired a h =
        on_if IsSpaced (not (enabled c)) (λ e. h)
          (λ e. emit-IsSpaced (codes "mail_expired") critical now a pos h)
    notify-IsSpaced now (mail_failed reason) a h =
        on_if IsSpaced (not (enabled c)) (λ e. h)
          (λ e.
            on_if IsSpaced (bytes_eq reason (codes "body unreadable"))
              (λ e2. emit-IsSpaced (codes "mail_lost") critical now a pos h)
              (λ e2. emit-IsSpaced (codes "mail_failed") warning now a pos h))
    notify-IsSpaced now another a h = h

    resume_since-IsSpaced :
        (now : Time) (d : Domain) (o : Option Time) (a : Alerter)
        → IsSpaced a
        → IsSpaced (resume_since c now d o a)
    resume_since-IsSpaced now d none a h = h
    resume_since-IsSpaced now d (some since) a h = primary_down_since-IsSpaced now since d.name a h

    resume_each-IsSpaced :
        (now : Time) (status : ℕ → Option PrimaryStatus) (ds : List Domain) (a : Alerter)
        → IsSpaced a
        → IsSpaced (resume_each c now status ds a)
    unfolding resume_each
    resume_each-IsSpaced now status [] a h = h
    resume_each-IsSpaced now status (d ∷ ds) a h = resume_each-IsSpaced now status ds _ (
        on_if IsSpaced (not d.enabled) (λ e. h)
          (λ e. resume_since-IsSpaced now d (down_since (status d.id)) a h))

    resume-IsSpaced :
        (now : Time) (status : ℕ → Option PrimaryStatus) (ds : Option (List Domain)) (a : Alerter)
        → IsSpaced a
        → IsSpaced (resume c now status ds a)
    unfolding resume
    resume-IsSpaced now status none a h = h
    resume-IsSpaced now status (some ds) a h =
        on_if IsSpaced (not (enabled c)) (λ e. h) (λ e. resume_each-IsSpaced now status ds a h)

    gone_off-IsSpaced :
        (n : ℕ) (o : Option Bytes) (a : Alerter) → IsSpaced a → IsSpaced (gone_off n o a)
    gone_off-IsSpaced n none a h = h
    gone_off-IsSpaced n (some d) a h = h

    taken-IsSpaced :
        (als : List Alert) (a : Alerter)
        → Inv c.min_interval k a.last_sent (a.delivered ++ als)
        → a.queue ≡ als
        → IsSpaced (taken als a)
    taken-IsSpaced [] a h e = rw e h
    taken-IsSpaced (al ∷ als) a h e = rw (append_assoc a.delivered (al ∷ []) als) h

    step-IsSpaced : (s : Step) (a : Alerter) → IsSpaced a → IsSpaced (step c s a)
    unfolding step go_off get_lock fire stop_timers
    step-IsSpaced (resumes now status ds) a h = resume-IsSpaced now status ds a h
    step-IsSpaced (notified now n) a h = notify-IsSpaced now n a h
    step-IsSpaced (goes_off n) a h = gone_off-IsSpaced n (timer_of n a.timers) a h
    step-IsSpaced (gets_lock now d) a h =
        on_if IsSpaced (has d a.starting) (λ e. emit-IsSpaced (down_key d) warning now _ pos h)
          (λ e. h)
    step-IsSpaced takes a h = taken-IsSpaced a.queue a h refl
    step-IsSpaced stops a h = h

    run-IsSpaced : (steps : List Step) (a : Alerter) → IsSpaced a → IsSpaced (run c steps a)
    unfolding run
    run-IsSpaced [] a h = h
    run-IsSpaced (s ∷ steps) a h = run-IsSpaced steps (step c s a) (step-IsSpaced s a h)

    -- Whatever happens in whatever order: of the alerts that are queued, two with the same key are at
    -- least min_interval apart, where that is not 0 and the key is not that of an outage, which the end
    -- of the outage forgets.
    pub run-Spaced : (steps : List Step) → Spaced c.min_interval k (log (run c steps fresh))
    run-Spaced steps = (run-IsSpaced steps fresh (tt, tt)).1
