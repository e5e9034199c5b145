-- ===== src/Alert/Outages.antt =====
-- Proofs about internal/alert: an outage that ends early.
use xeron_mx.Prelude.{
  ℕ, ◌+◌, ◌<◌, ◌≡◌, refl, true, false, not, none, List, [], ◌∷◌, leb, ◌==◌, is_empty, select, on_if,
  arith,
}
use xeron_mx.Text.{Bytes}
use xeron_mx.Text.Equality.{bytes_eq_refl}
use xeron_mx.Store.Time.{Time}
use xeron_mx.Alert.{
  Alerter, Config, primary_is_down, primary_is_up, timer_of, stop, has, look_up, enabled, notify,
  primary_down_since, primary_up,
}

timer_of-stop : (n : ℕ) (ts : List (ℕ × Bytes)) → timer_of n (stop n ts) ≡ none
unfolding timer_of stop select
timer_of-stop n [] = refl
timer_of-stop n (t ∷ ts) =
    on_if (λ rest. timer_of n rest ≡ none) (not (n == t.0))
      (λ e.
        on_if (λ o. o ≡ none) (n == t.0) (λ e2. absurd (ground (arith, e, e2)))
          (λ e2. timer_of-stop n ts))
      (λ e. timer_of-stop n ts)

-- A primary that is up again before it was down for primary_down_after leaves no alert in the channel,
-- no call that would make one, and no timer; where alerts are on, the outage has a domain, and no
-- earlier one of the domain is waiting or announced.
pub brief_outage_lem :
    (c : Config) (now later : Time) (d : Bytes) (a : Alerter)
    → enabled c ≡ true
    → is_empty d ≡ false
    → 0 < c.primary_down_after
    → look_up d a.grace ≡ none
    → has d a.fired ≡ false
    → let b = notify c later (primary_is_up d) (notify c now (primary_is_down d) a) in
      (b.queue ≡ a.queue) × (b.starting ≡ a.starting) × (timer_of a.next_timer b.timers ≡ none)
unfolding notify primary_down_since primary_up look_up
brief_outage_lem c now later d a on named after calm quiet =
    let early : leb (now + c.primary_down_after) now ≡ false = ground (arith, after) in
    rw (on, named, calm, early, quiet, bytes_eq_refl d)
      (refl, refl, timer_of-stop a.next_timer ((a.next_timer, d) ∷ a.timers))
