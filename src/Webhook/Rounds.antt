-- ===== src/Webhook/Rounds.antt =====
-- Proofs about rounds of deliverDue (internal/webhook): what becomes of one delivery.
use mathlib.Core.Path.{subst}
use xeron_mx.Prelude.{
  ℕ, ◌+◌, ◌≤◌, ◌≡◌, refl, sym, ◌∙◌, ap, inl, inr, Bool, true, false, not, ◌&&◌, some, List, [], ◌∷◌,
  ◌==◌, if◌then◌else◌, find, any, count, select, sort_by, All, All-take, All-sort_by, All-sub,
  All-select, count-take-le, count-select-le, count-sort_by, Bool-cases, on_if, arith,
}
use xeron_mx.Store.Time.{Time, text_le}
use xeron_mx.Store.Webhooks.{Delivery, Tables, is_waiting, is_delivery, due_deliveries}
use xeron_mx.Webhook.{Config, AttemptInput, attempt, attempt_each, deliver_batch, deliver_due}
use xeron_mx.Webhook.Attempts.{IsAttempted, attempt-Attempted, row_of}
use xeron_mx.Webhook.Rows.{attempt-IsUpdated, find-other, count-update, IsOnly, one-IsOnly}

-- What a round of deliverDue meets, the attempts by the ids of their deliveries.
pub record Round : Type 0 where
  pub inputs : ℕ → AttemptInput
  pub due_fails : Bool
  pub now : Time

unfoldable pub rounds : Config → List Round → Tables → Tables
unfolding deliver_due
rounds cfg [] t = t
rounds cfg (r ∷ more) t = rounds cfg more (deliver_due cfg r.inputs r.due_fails r.now t)

-- The round takes the delivery k: it is due, and in the batch.
unfoldable pub is_taken : ℕ → Round → Tables → Bool
unfolding any due_deliveries
is_taken k r t = not r.due_fails && any (is_delivery k) (due_deliveries r.now deliver_batch t)

-- The rounds that take the delivery k.
unfoldable pub turns : Config → ℕ → List Round → Tables → ℕ
unfolding deliver_due is_taken
turns cfg k [] t = 0
turns cfg k (r ∷ more) t =
    (if is_taken k r t then 1 else 0)
    + turns cfg k more (deliver_due cfg r.inputs r.due_fails r.now t)

any-count :
    (k : ℕ) (rows : List Delivery)
    → any (is_delivery k) rows ≡ false
    → count (is_delivery k) rows ≡ 0
unfolding any count
any-count k [] h = refl
any-count k (x ∷ rows) h = ground (arith, any-count k rows (ground arith))

module _ (cfg : Config) (k : ℕ) where
  -- How many rows have the id k.
  abbrev pub owners : Tables → ℕ
  owners t = count (is_delivery k) t.deliveries

  attempt-owners :
      (i : AttemptInput) (x : Delivery) (t : Tables) → owners (attempt cfg i x t) ≡ owners t
  attempt-owners i x t = elim (attempt-IsUpdated cfg i x t) [
    | inl e ↦ ap (count (is_delivery k)) e
    | inr (f, same, e) ↦ ap (count (is_delivery k)) e ∙ count-update k x.id f t.deliveries same
  ]

  attempt-other :
      (i : AttemptInput) (x : Delivery) (t : Tables)
      → (x.id == k) ≡ false
      → row_of k (attempt cfg i x t) ≡ row_of k t
  attempt-other i x t other = elim (attempt-IsUpdated cfg i x t) [
    | inl e ↦ ap (find (is_delivery k)) e
    | inr (f, same, e) ↦ ap (find (is_delivery k)) e ∙ find-other k x.id f t.deliveries other same
  ]

  module _ (inputs : ℕ → AttemptInput) where
    each-owners :
        (due : List Delivery) (t : Tables) → owners (attempt_each cfg inputs due t) ≡ owners t
    unfolding attempt_each
    each-owners [] t = refl
    each-owners (x ∷ due) t =
        each-owners due (attempt cfg (inputs x.id) x t) ∙ attempt-owners (inputs x.id) x t

    each-other :
        (due : List Delivery) (t : Tables)
        → count (is_delivery k) due ≡ 0
        → row_of k (attempt_each cfg inputs due t) ≡ row_of k t
    unfolding attempt_each count
    each-other [] t h = refl
    each-other (x ∷ due) t h =
        each-other due (attempt cfg (inputs x.id) x t) (ground (arith, h))
        ∙ attempt-other (inputs x.id) x t (ground (arith, h))

    -- The attempts of a round that takes the delivery.
    each-own :
        (due : List Delivery) (t : Tables) (d : Delivery)
        → row_of k t ≡ some d
        → d.id ≡ k
        → IsOnly k d due
        → any (is_delivery k) due ≡ true
        → count (is_delivery k) due ≤ 1
        → (inputs k).write_fails ≡ false
        → (d' : Delivery) × (row_of k (attempt_each cfg inputs due t) ≡ some d')
          × IsAttempted cfg (inputs k) d d'
    unfolding attempt_each any count
    each-own [] t d at own only taken one works = absurd cc
    each-own (x ∷ due) t d at own (is_d, only) taken one works =
        elim (Bool-cases (is_delivery k x)) [
          | inl e ↦
              let same : x ≡ d = is_d e in
              let none_left : count (is_delivery k) due ≡ 0 = ground (arith, one, e) in
              let (d', at', out) =
                attempt-Attempted cfg (inputs d.id) d t
                  (subst (λ j. (inputs j).write_fails ≡ false) (sym own) works)
                  (subst (λ j. row_of j t ≡ some d) (sym own) at) in
              rw same (
                d',
                each-other due (attempt cfg (inputs d.id) d t) none_left
                    ∙ subst (λ j. row_of j (attempt cfg (inputs d.id) d t) ≡ some d') own at',
                subst (λ j. IsAttempted cfg (inputs j) d d') own out,
              )
          | inr e ↦
              each-own due (attempt cfg (inputs x.id) x t) d
                (attempt-other (inputs x.id) x t e ∙ at) own only (ground (arith, taken, e))
                (ground (arith, one, e)) works
        ]

  due-IsOnly :
      (now : Time) (d : Delivery) (t : Tables)
      → IsOnly k d t.deliveries
      → IsOnly k d (due_deliveries now deliver_batch t)
  unfolding due_deliveries
  due-IsOnly now d t h =
      let own = λ (x : Delivery). is_delivery k x ≡ true → x ≡ d in
      All-take own deliver_batch _ (All-sort_by own _ _ (All-sub own _ t.deliveries h))

  due-one :
      (now : Time) (t : Tables)
      → owners t ≡ 1
      → count (is_delivery k) (due_deliveries now deliver_batch t) ≤ 1
  unfolding due_deliveries
  due-one now t h =
      let p = λ (d : Delivery). is_waiting d.status && text_le d.next_attempt_at now in
      let le = λ (d e : Delivery). text_le d.next_attempt_at e.next_attempt_at in
      omega (
        arith,
        h,
        count-take-le (is_delivery k) deliver_batch (sort_by le (select p t.deliveries)),
        ap (λ n. n + 0) (count-sort_by (is_delivery k) le (select p t.deliveries)),
        count-select-le (is_delivery k) p t.deliveries,
      )

  due-waiting :
      (now : Time) (t : Tables)
      → All (λ (x : Delivery). is_waiting x.status ≡ true) (due_deliveries now deliver_batch t)
  unfolding due_deliveries
  due-waiting now t =
      let waits = λ (x : Delivery). is_waiting x.status ≡ true in
      All-take waits deliver_batch _
        (All-sort_by waits _ _ (All-select waits _ t.deliveries (λ x h. ground arith)))

  any-waiting :
      (d : Delivery) (rows : List Delivery)
      → any (is_delivery k) rows ≡ true
      → IsOnly k d rows
      → All (λ (x : Delivery). is_waiting x.status ≡ true) rows
      → is_waiting d.status ≡ true
  unfolding any
  any-waiting d [] h only waits = absurd cc
  any-waiting d (x ∷ rows) h (is_d, only) (w, waits) = elim (Bool-cases (is_delivery k x)) [
    | inl e ↦ let same : x ≡ d = is_d e in rw (← same) w
    | inr e ↦ any-waiting d rows (ground (arith, h, e)) only waits
  ]

  find-id : (rows : List Delivery) (d : Delivery) → find (is_delivery k) rows ≡ some d → d.id ≡ k
  unfolding find
  find-id [] d h = cc
  find-id (x ∷ rows) d h = elim (Bool-cases (is_delivery k x)) [
    | inl e ↦ let same : x ≡ d = ground arith in rw (← same) (ground arith)
    | inr e ↦ find-id rows d (rw e at h)
  ]

  -- The tables behind a round.
  abbrev pub next : Round → Tables → Tables
  next r t = deliver_due cfg r.inputs r.due_fails r.now t

  pub next-owners : (r : Round) (t : Tables) → owners (next r t) ≡ owners t
  unfolding deliver_due
  next-owners r t =
      on_if (λ t'. owners t' ≡ owners t) r.due_fails (λ e. refl)
        (λ e. each-owners r.inputs (due_deliveries r.now deliver_batch t) t)

  pub next-other :
      (r : Round) (t : Tables) → is_taken k r t ≡ false → row_of k (next r t) ≡ row_of k t
  unfolding deliver_due is_taken
  next-other r t h =
      on_if (λ t'. row_of k t' ≡ row_of k t) r.due_fails (λ e. refl)
        (λ e.
          each-other r.inputs (due_deliveries r.now deliver_batch t) t
            (any-count k (due_deliveries r.now deliver_batch t) (ground (arith, h, e))))

  pub next-own :
      (r : Round) (t : Tables) (d : Delivery)
      → row_of k t ≡ some d
      → owners t ≡ 1
      → is_taken k r t ≡ true
      → (r.inputs k).write_fails ≡ false
      → (is_waiting d.status ≡ true)
        × ((d' : Delivery) × (row_of k (next r t) ≡ some d') × IsAttempted cfg (r.inputs k) d d')
  unfolding deliver_due is_taken
  next-own r t d at one taken works =
      let due = due_deliveries r.now deliver_batch t in
      let any_due : any (is_delivery k) due ≡ true = ground (arith, taken) in
      let reads : r.due_fails ≡ false = ground (arith, taken) in
      let only = due-IsOnly r.now d t (one-IsOnly k d t.deliveries at one) in
      (
        any-waiting d due any_due only (due-waiting r.now t),
        rw reads (
            each-own r.inputs due t d at (find-id t.deliveries d at) only any_due
              (due-one r.now t one) works),
      )
