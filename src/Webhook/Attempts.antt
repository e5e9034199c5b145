-- ===== src/Webhook/Attempts.antt =====
-- Proofs about the attempts of a delivery (internal/webhook) and the delay between them.
use native.Mathlib.Numerals.{unary_clauses}
use xeron_mx.Prelude.{
  ℕ, zero, suc, ◌+◌, ◌-◌, ◌*◌, ◌/◌, ◌^◌, ◌≤◌, ◌<◌, ◌≡◌, refl, ◌⊎◌, inl, inr, false, not, Option,
  none, some, List, [], ◌∷◌, ltb, leb, if◌then◌else◌, find, min, Bool-cases, on_if, arith,
}
use xeron_mx.Text.{Bytes, codes}
use xeron_mx.Store.Webhooks.{
  Webhook, Delivery, delivered, failed, Tables, is_delivery, webhook, update_deliveries,
  mark_delivery_succeeded, reschedule_delivery, mark_delivery_failed,
}
use xeron_mx.Webhook.{
  Config, AttemptInput, send, retryable, double, base_of, ceiling_of, delay_of, backoff, fail,
  attempt_answered, attempt_on, attempt,
}

le-double : (n d : ℕ) → d ≤ d * 2 ^ n
le-double zero d = omega arith
le-double (suc n) d =
    let more : d * 2 ^ suc n ≡ d * 2 ^ n + d * 2 ^ n = simp unary_clauses (grind arith) in
    omega (arith, more, le-double n d)

double_lem :
    (n max d : ℕ) → (if ltb max (double n max d) then max else double n max d) ≡ min max (d * 2 ^ n)
unfolding double
double_lem zero max d = ground arith
double_lem (suc n) max d =
    let more : d * 2 ^ suc n ≡ d * 2 * 2 ^ n = simp unary_clauses (grind arith) in
    let big : d ≤ d * 2 ^ suc n = le-double (suc n) d in ground (arith, double_lem n max (d * 2))

delay_of_lem :
    (cfg : Config) (attempts : ℕ)
    → delay_of cfg attempts ≡ min (ceiling_of cfg) (base_of cfg * 2 ^ (attempts - 1))
unfolding delay_of
delay_of_lem cfg attempts = double_lem (attempts - 1) (ceiling_of cfg) (base_of cfg)

-- The delay before the next attempt is the base doubled once for each attempt after the first, and
-- at most the ceiling; what is drawn on top is at most a tenth of it.
pub backoff-le :
    (cfg : Config) (attempts draw : ℕ)
    → draw ≤ delay_of cfg attempts / 10
    → let d = min (ceiling_of cfg) (base_of cfg * 2 ^ (attempts - 1)) in
      (d ≤ backoff cfg attempts draw) × (backoff cfg attempts draw ≤ d + d / 10)
unfolding backoff
backoff-le cfg attempts draw h = rw (← delay_of_lem cfg attempts) (omega arith)

find-update :
    (k : ℕ) (f : Delivery → Delivery) (rows : List Delivery) (d : Delivery)
    → find (is_delivery k) rows ≡ some d
    → ((x : Delivery) → (f x).id ≡ x.id)
    → find (is_delivery k) (update_deliveries k f rows) ≡ some (f d)
unfolding find update_deliveries
find-update k f [] d h same = cc
find-update k f (x ∷ rows) d h same = elim (Bool-cases (is_delivery k x)) [
  | inl e ↦ ground (arith, same x)
  | inr e ↦ rw (e, e) (find-update k f rows d (rw e at h) same)
]

-- The row of a delivery behind an attempt: one attempt more, and it is settled, or waits for the
-- next one, which it may still have.
abbrev pub IsAttempted : Config → AttemptInput → Delivery → Delivery → Type 0
IsAttempted cfg i old d =
    (d.id ≡ old.id)
    × (d.attempts ≡ old.attempts + 1)
    × ((d.status ≡ delivered)
        ⊎ ((d.status ≡ failed)
            ⊎ ((d.status ≡ old.status)
                × (d.attempts < cfg.max_attempts)
                × (d.next_attempt_at ≡ i.now + backoff cfg d.attempts i.draw))))

abbrev pub row_of : ℕ → Tables → Option Delivery
row_of k t = find (is_delivery k) t.deliveries

module _ (cfg : Config) (i : AttemptInput) (del : Delivery) (t : Tables)
    (works : i.write_fails ≡ false) (at : row_of del.id t ≡ some del) where
  abbrev pub Attempted : Tables → Type 0
  Attempted t' = (d : Delivery) × (row_of del.id t' ≡ some d) × IsAttempted cfg i del d

  fail-Attempted : (code : ℕ) (reason : Bytes) → Attempted (fail cfg i del code reason t)
  unfolding fail mark_delivery_failed
  fail-Attempted code reason =
      on_if Attempted i.write_fails (λ e. absurd cc)
        λ e. (_, find-update del.id _ t.deliveries del at (λ x. refl), (refl, refl, inr (inl refl)))

  answered-Attempted : (answer : ℕ × Option Bytes) → Attempted (attempt_answered cfg i del answer t)
  unfolding attempt_answered mark_delivery_succeeded reschedule_delivery
  answered-Attempted (code, none) =
      on_if Attempted i.write_fails (λ e. absurd cc)
        λ e. (_, find-update del.id _ t.deliveries del at (λ x. refl), (refl, refl, inl refl))
  answered-Attempted (code, some error) =
      on_if Attempted (not (retryable code)) (λ e. fail-Attempted code i.reason)
        λ e.
          on_if Attempted (leb cfg.max_attempts (del.attempts + 1))
            (λ f. fail-Attempted code i.reason)
            λ f.
              on_if Attempted i.write_fails (λ g. absurd cc)
                λ g. (
                  _,
                  find-update del.id _ t.deliveries del at (λ x. refl),
                  (refl, refl, inr (inr (refl, ground arith, refl))),
                )

  on-Attempted : (h : Option Webhook) → Attempted (attempt_on cfg i del h t)
  unfolding attempt_on
  on-Attempted none = fail-Attempted 0 (codes "the subscription no longer exists")
  on-Attempted (some h) =
      on_if Attempted (not h.enabled) (λ e. fail-Attempted 0 (codes "the subscription is disabled"))
        λ e. answered-Attempted (send i.send h)

  pub attempt-Attempted : Attempted (attempt cfg i del t)
  unfolding attempt
  attempt-Attempted = on-Attempted (if i.hook_fails then none else webhook del.webhook_id t)
