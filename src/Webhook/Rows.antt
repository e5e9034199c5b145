-- ===== src/Webhook/Rows.antt =====
-- Proofs about the rows of deliveries (internal/webhook, internal/store/webhooks.go) behind an attempt.
use xeron_mx.Prelude.{
  ℕ, ◌+◌, ◌≡◌, refl, ap, ◌⊎◌, inl, inr, true, false, not, Option, none, some, List, [], ◌∷◌, ◌==◌,
  leb, if◌then◌else◌, find, count, All, Bool-cases, on_if, arith,
}
use xeron_mx.Text.{Bytes, codes}
use xeron_mx.Store.Webhooks.{
  Webhook, Delivery, Tables, is_delivery, webhook, update_deliveries, mark_delivery_succeeded,
  reschedule_delivery, mark_delivery_failed,
}
use xeron_mx.Webhook.{
  Config, AttemptInput, send, retryable, fail, attempt_answered, attempt_on, attempt,
}

-- An attempt writes no delivery, or its own.
abbrev pub IsUpdated : Delivery → Tables → Tables → Type 0
IsUpdated x t t' =
    (t'.deliveries ≡ t.deliveries)
    ⊎ ((f : Delivery → Delivery) × ((y : Delivery) → (f y).id ≡ y.id)
        × (t'.deliveries ≡ update_deliveries x.id f t.deliveries))

module _ (cfg : Config) (i : AttemptInput) (x : Delivery) (t : Tables) where
  fail-IsUpdated : (code : ℕ) (reason : Bytes) → IsUpdated x t (fail cfg i x code reason t)
  unfolding fail mark_delivery_failed
  fail-IsUpdated code reason =
      on_if (IsUpdated x t) i.write_fails (λ e. inl refl) λ e. inr (_, (λ y. refl), refl)

  answered-IsUpdated :
      (answer : ℕ × Option Bytes) → IsUpdated x t (attempt_answered cfg i x answer t)
  unfolding attempt_answered mark_delivery_succeeded reschedule_delivery
  answered-IsUpdated (code, none) =
      on_if (IsUpdated x t) i.write_fails (λ e. inl refl) λ e. inr (_, (λ y. refl), refl)
  answered-IsUpdated (code, some error) =
      on_if (IsUpdated x t) (not (retryable code)) (λ e. fail-IsUpdated code i.reason)
        λ e.
          on_if (IsUpdated x t) (leb cfg.max_attempts (x.attempts + 1))
            (λ f. fail-IsUpdated code i.reason)
            λ f. on_if (IsUpdated x t) i.write_fails (λ g. inl refl) λ g. inr (_, (λ y. refl), refl)

  on-IsUpdated : (h : Option Webhook) → IsUpdated x t (attempt_on cfg i x h t)
  unfolding attempt_on
  on-IsUpdated none = fail-IsUpdated 0 (codes "the subscription no longer exists")
  on-IsUpdated (some h) =
      on_if (IsUpdated x t) (not h.enabled)
        (λ e. fail-IsUpdated 0 (codes "the subscription is disabled"))
        λ e. answered-IsUpdated (send i.send h)

  pub attempt-IsUpdated : IsUpdated x t (attempt cfg i x t)
  unfolding attempt
  attempt-IsUpdated = on-IsUpdated (if i.hook_fails then none else webhook x.webhook_id t)

module _ (k : ℕ) where
  pub find-other :
      (j : ℕ) (f : Delivery → Delivery) (rows : List Delivery)
      → (j == k) ≡ false
      → ((y : Delivery) → (f y).id ≡ y.id)
      → find (is_delivery k) (update_deliveries j f rows) ≡ find (is_delivery k) rows
  unfolding find update_deliveries
  find-other j f [] other same = refl
  find-other j f (y ∷ rows) other same = elim (Bool-cases (is_delivery j y)) [
    | inl e ↦
        let before : is_delivery k y ≡ false = ground (arith, e, other) in
        let behind : is_delivery k (f y) ≡ false = ground (arith, e, other, same y) in
        rw (e, before, behind) (find-other j f rows other same)
    | inr e ↦
        rw e
          (ap (λ rest. if is_delivery k y then some y else rest) (find-other j f rows other same))
  ]

  pub count-update :
      (j : ℕ) (f : Delivery → Delivery) (rows : List Delivery)
      → ((y : Delivery) → (f y).id ≡ y.id)
      → count (is_delivery k) (update_deliveries j f rows) ≡ count (is_delivery k) rows
  unfolding count update_deliveries
  count-update j f [] same = refl
  count-update j f (y ∷ rows) same =
      let rest = count-update j f rows same in
      on_if
        (λ (z : Delivery).
          (if is_delivery k z then 1 else 0) + count (is_delivery k) (update_deliveries j f rows)
          ≡ (if is_delivery k y then 1 else 0) + count (is_delivery k) rows)
        (is_delivery j y) (λ e. ground (arith, same y, rest)) (λ e. omega (arith, rest))

  -- The rows with the id k are this one.
  abbrev pub IsOnly : Delivery → List Delivery → Type 0
  IsOnly d = All (λ x. is_delivery k x ≡ true → x ≡ d)

  none-IsOnly :
      (d : Delivery) (rows : List Delivery) → count (is_delivery k) rows ≡ 0 → IsOnly d rows
  unfolding count
  none-IsOnly d [] h = tt
  none-IsOnly d (x ∷ rows) h =
      (λ e. absurd (ground (arith, h, e)), none-IsOnly d rows (ground (arith, h)))

  pub one-IsOnly :
      (d : Delivery) (rows : List Delivery)
      → find (is_delivery k) rows ≡ some d
      → count (is_delivery k) rows ≡ 1
      → IsOnly d rows
  unfolding count find
  one-IsOnly d [] at h = tt
  one-IsOnly d (x ∷ rows) at h = elim (Bool-cases (is_delivery k x)) [
    | inl e ↦
        let same : x ≡ d = ground arith in (λ own. same, none-IsOnly d rows (ground (arith, h, e)))
    | inr e ↦ (
      λ own. absurd (ground (arith, own, e)),
      one-IsOnly d rows (rw e at at) (ground (arith, h, e)),
    )
  ]
