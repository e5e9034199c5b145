-- ===== src/Webhook/Settling.antt =====
-- Proofs about the end of a delivery (internal/webhook) behind rounds of deliverDue.
use xeron_mx.Prelude.{
  ℕ, ◌+◌, ◌≤◌, ◌<◌, ◌≡◌, refl, sym, ◌∙◌, inl, inr, true, false, some, List, [], ◌∷◌, All,
  Bool-cases, arith,
}
use xeron_mx.Store.Webhooks.{Delivery, Tables, is_waiting}
use xeron_mx.Webhook.{Config}
use xeron_mx.Webhook.Attempts.{row_of}
use xeron_mx.Webhook.Rounds.{
  Round, rounds, is_taken, turns, owners, next, next-owners, next-other, next-own,
}

-- A delivery that is settled within the attempts that it may have.
abbrev pub IsSettled : Config → ℕ → Tables → Type 0
IsSettled cfg k t =
    (d : Delivery) × (row_of k t ≡ some d)
    × (is_waiting d.status ≡ false)
    × (d.attempts ≤ cfg.max_attempts)

module _ (cfg : Config) (k : ℕ) where
  IsSettled-next :
      (r : Round) (t : Tables)
      → IsSettled cfg k t
      → owners cfg k t ≡ 1
      → (r.inputs k).write_fails ≡ false
      → IsSettled cfg k (next cfg k r t)
  IsSettled-next r t (d, at, done, few) one works = elim (Bool-cases (is_taken k r t)) [
    | inl e ↦
        let (waits, _) = next-own cfg k r t d at one e works in
        let wrong : true ≡ false = sym waits ∙ done in absurd cc
    | inr e ↦ (d, next-other cfg k r t e ∙ at, done, few)
  ]

  IsSettled-rounds :
      (rs : List Round) (t : Tables)
      → IsSettled cfg k t
      → owners cfg k t ≡ 1
      → All (λ (r : Round). (r.inputs k).write_fails ≡ false) rs
      → IsSettled cfg k (rounds cfg rs t)
  unfolding rounds
  IsSettled-rounds [] t h one works = h
  IsSettled-rounds (r ∷ rs) t h one (w, works) =
      IsSettled-rounds rs (next cfg k r t) (IsSettled-next r t h one w)
        (next-owners cfg k r t ∙ one) works

  -- Whatever the endpoint answers and whatever else the rounds of deliverDue attempt, a delivery that
  -- waits with attempts left is settled once as many of the rounds have taken it as it may have
  -- attempts, and was attempted no more often than that. This holds where one delivery has the id
  -- and the outcomes of its attempts can be recorded.
  pub rounds-IsSettled :
      (rs : List Round) (t : Tables) (d : Delivery)
      → row_of k t ≡ some d
      → owners cfg k t ≡ 1
      → is_waiting d.status ≡ true
      → d.attempts < cfg.max_attempts
      → cfg.max_attempts ≤ d.attempts + turns cfg k rs t
      → All (λ (r : Round). (r.inputs k).write_fails ≡ false) rs
      → IsSettled cfg k (rounds cfg rs t)
  unfolding rounds turns
  rounds-IsSettled [] t d at one waits few enough works = absurd (omega arith)
  rounds-IsSettled (r ∷ rs) t d at one waits few enough (w, works) =
      let one' = next-owners cfg k r t ∙ one in
      elim (Bool-cases (is_taken k r t)) [
        | inr e ↦
            rounds-IsSettled rs (next cfg k r t) d (next-other cfg k r t e ∙ at) one' waits few
              (ground (arith, e, enough)) works
        | inl e ↦
            let (_, (d', at', (id, tries, out))) = next-own cfg k r t d at one e w in
            let left : cfg.max_attempts ≤ d'.attempts + turns cfg k rs (next cfg k r t) =
              ground (arith, e, enough, tries) in
            elim out [
              | inl f ↦
                  IsSettled-rounds rs (next cfg k r t) (d', at', rw f refl, omega (arith, tries))
                    one' works
              | inr (inl f) ↦
                  IsSettled-rounds rs (next cfg k r t) (d', at', rw f refl, omega (arith, tries))
                    one' works
              | inr (inr (same, more, due)) ↦
                  rounds-IsSettled rs (next cfg k r t) d' at' one' (rw same waits) more left works
            ]
      ]
