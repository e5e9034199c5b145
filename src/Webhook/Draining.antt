-- ===== src/Webhook/Draining.antt =====
-- Proofs about a round of the loop of internal/webhook that reads the event log.
use xeron_mx.Prelude.{
  All-sub, ℕ, zero, suc, ◌≤◌, ◌<◌, ◌≡◌, refl, sym, ap, ◌⊎◌, inl, inr, Bool, true, Option, none,
  some, List, [], ◌∷◌, ◌++◌, ltb, leb, is_empty, take, select, sort_by, insert_by, All, All-select,
  All-take, Bool-cases, on_if, arith,
}
use mathlib.Core.Path.{subst}
use xeron_mx.Store.Webhooks.{Delivery, LogEvent, Tables, list_webhooks, events_since}
use xeron_mx.Webhook.{DrainInput, tail_batch, drain_events, keep_cursor, drain, taken, tail_round}
use xeron_mx.Webhook.Filing.{Covers, Grows, Grows-refl, last_id, Drained, drain_events-Drained}

abbrev pub IsAscending : List LogEvent → Type 0
IsAscending [] = Unit
IsAscending (e ∷ events) = All (λ (d : LogEvent). e.id < d.id) events × IsAscending events

abbrev id_le : LogEvent → LogEvent → Bool
id_le d e = leb d.id e.id

insert-first :
    (e : LogEvent) (events : List LogEvent)
    → All (λ (d : LogEvent). e.id < d.id) events
    → insert_by id_le e events ≡ e ∷ events
unfolding insert_by
insert-first e [] h = refl
insert-first e (d ∷ events) (b, h) = let le : leb e.id d.id ≡ true = ground arith in rw le refl

-- The log is in the order of its ids already.
sort-ascending : (events : List LogEvent) → IsAscending events → sort_by id_le events ≡ events
unfolding sort_by
sort-ascending [] h = refl
sort-ascending (e ∷ events) (b, h) = rw (sort-ascending events h) (insert-first e events b)

IsAscending-select :
    (p : LogEvent → Bool) (events : List LogEvent)
    → IsAscending events
    → IsAscending (select p events)
unfolding select
IsAscending-select p [] h = tt
IsAscending-select p (e ∷ events) (b, h) = elim (Bool-cases (p e)) [
  | inl f ↦ rw f (All-sub (λ d. e.id < d.id) p events b, IsAscending-select p events h)
  | inr f ↦ rw f (IsAscending-select p events h)
]

module _ (P : LogEvent → Type 0) where
  -- What holds of a batch from the front of the log holds of all that is not behind its last id.
  All-batch :
      (n k : ℕ) (events : List LogEvent)
      → IsAscending events
      → All (λ (e : LogEvent). k < e.id) events
      → All P (take n events)
      → All (λ (e : LogEvent). (last_id k (take n events) < e.id) ⊎ P e) events
  All-batch zero k [] h b p = tt
  All-batch (suc n) k [] h b p = tt
  All-batch zero k (e ∷ events) (a, h) (c, b) p = (inl c, All-batch zero k events h b tt)
  All-batch (suc n) k (e ∷ events) (a, h) (c, b) (q, p) = (inr q, All-batch n e.id events h a p)

  All-unselect :
      (k c : ℕ) (events : List LogEvent)
      → All (λ (e : LogEvent). (c < e.id) ⊎ P e) (select (λ (e : LogEvent). ltb k e.id) events)
      → All (λ (e : LogEvent). (e.id ≤ k) ⊎ ((c < e.id) ⊎ P e)) events
  unfolding select
  All-unselect k c [] h = tt
  All-unselect k c (e ∷ events) h = elim (Bool-cases (ltb k e.id)) [
    | inl f ↦ let (q, h') = rw f at h in (inr q, All-unselect k c events h')
    | inr f ↦ (inl (ground arith), All-unselect k c events (rw f at h))
  ]

last_id-ge :
    (k : ℕ) (events : List LogEvent)
    → IsAscending events
    → All (λ (e : LogEvent). k < e.id) events
    → k ≤ last_id k events
last_id-ge k [] h b = omega arith
last_id-ge k (e ∷ events) (a, h) (c, b) = omega (arith, last_id-ge e.id events h a)

IsAscending-take :
    (n : ℕ) (events : List LogEvent) → IsAscending events → IsAscending (take n events)
IsAscending-take zero events h = tt
IsAscending-take (suc n) [] h = tt
IsAscending-take (suc n) (e ∷ events) (a, h) =
    (All-take (λ (d : LogEvent). e.id < d.id) n events a, IsAscending-take n events h)

module _ (i : DrainInput) (k : ℕ) (t : Tables) (ascending : IsAscending t.events) where
  batch : List LogEvent
  batch = events_since k tail_batch t

  front : List LogEvent
  unfolding select
  front = select (λ (e : LogEvent). ltb k e.id) t.events

  front-above : All (λ (e : LogEvent). k < e.id) front
  unfolding front
  front-above =
      All-select (λ (e : LogEvent). k < e.id) (λ e. ltb k e.id) t.events (λ e h. ground arith)

  front-ascending : IsAscending front
  unfolding front
  front-ascending = IsAscending-select _ t.events ascending

  batch-eq : batch ≡ take tail_batch front
  unfolding batch events_since front
  batch-eq = ap (take tail_batch) (sort-ascending _ (IsAscending-select _ t.events ascending))

  -- What a round says of the cursor in memory and of the tables: the cursor does not go back, the
  -- deliveries stay and more may follow them, the kept cursor is as it was or is the new one, and
  -- each subscription has every event that the cursor has passed.
  abbrev pub IsRound : ℕ × Tables → Type 0
  IsRound r =
      (k ≤ r.0)
      × ((more : List Delivery) × (r.1.deliveries ≡ t.deliveries ++ more))
      × ((r.1.cursor ≡ t.cursor) ⊎ (r.1.cursor ≡ some r.0))
      × All
          (λ (e : LogEvent).
            (e.id ≤ k) ⊎ ((r.0 < e.id) ⊎ Covers i (list_webhooks t) r.1.deliveries e))
          t.events

  nothing-passed :
      (P : LogEvent → Type 0) (events : List LogEvent)
      → All (λ (e : LogEvent). (e.id ≤ k) ⊎ ((k < e.id) ⊎ P e)) events
  nothing-passed P [] = tt
  nothing-passed P (e ∷ events) = (
    elim (Bool-cases (ltb k e.id)) [
      | inl h ↦ inr (inl (ground arith))
      | inr h ↦ inl (ground arith)
    ],
    nothing-passed P events,
  )

  stays-IsRound : (u : Tables) → Grows t u → IsRound (k, u)
  stays-IsRound u (grown, c) = (omega arith, grown, inl c, nothing-passed _ t.events)

  passed :
      (u : Tables)
      → All (Covers i (list_webhooks t) u.deliveries) batch
      → All
          (λ (e : LogEvent). (last_id k batch < e.id) ⊎ Covers i (list_webhooks t) u.deliveries e)
          (select (λ (e : LogEvent). ltb k e.id) t.events)
  unfolding front
  passed u cs =
      subst
        (λ b.
          All (λ (e : LogEvent). (last_id k b < e.id) ⊎ Covers i (list_webhooks t) u.deliveries e)
            front)
        (sym batch-eq)
        (All-batch (Covers i (list_webhooks t) u.deliveries) tail_batch k front front-ascending
          front-above (subst (All (Covers i (list_webhooks t) u.deliveries)) batch-eq cs))

  passed-IsRound :
      (u : Tables)
      → Grows t u
      → All (Covers i (list_webhooks t) u.deliveries) batch
      → (cursor : Option ℕ) → (cursor ≡ t.cursor) ⊎ (cursor ≡ some (last_id k batch))
      → IsRound (last_id k batch, record u { cursor = cursor })
  passed-IsRound u (grown, _) cs cursor c = (
    subst (λ b. k ≤ last_id k b) (sym batch-eq)
        (last_id-ge k (take tail_batch front) (IsAscending-take tail_batch front front-ascending)
          (All-take (λ (e : LogEvent). k < e.id) tail_batch front front-above)),
    grown,
    c,
    All-unselect (Covers i (list_webhooks t) u.deliveries) k (last_id k batch) t.events
        (passed u cs),
  )

  -- The command of the round, behind the guards of drain.
  filed-IsRound :
      (r : Option ℕ × Tables)
      → Drained i batch (list_webhooks t) k t r
      → IsRound (taken k (keep_cursor i r))
  filed-IsRound (none, u) (g, _) = stays-IsRound u g
  filed-IsRound (some c, u) (g, inl wrong) = absurd cc
  filed-IsRound (some c, u) (g, inr (at, cs)) =
      on_if (λ r. IsRound (taken k r)) i.meta_fails (λ e. stays-IsRound u g)
        λ e.
          let same : c ≡ last_id k batch = cc in
          subst (λ (c : ℕ). IsRound (c, record u { cursor = some c })) (sym same)
            (passed-IsRound u g cs (some (last_id k batch)) (inr refl))

  -- A round of the loop that reads the log, whichever statements fail in it: the cursor does not go
  -- back, no delivery is lost, the kept cursor is as it was or is the new one, and every event that
  -- the cursor has passed is filed for each subscription that wants it, where the event can be
  -- rendered. This holds where the log is in the order of its ids.
  pub tail_round-IsRound : IsRound (tail_round i k t)
  unfolding tail_round drain batch
  tail_round-IsRound =
      on_if (λ r. IsRound (taken k r)) i.events_fails (λ e. stays-IsRound t (Grows-refl t))
        λ e.
          on_if (λ r. IsRound (taken k r)) (is_empty batch) (λ e. stays-IsRound t (Grows-refl t))
            λ e.
              on_if (λ r. IsRound (taken k r)) i.hooks_fails (λ e. stays-IsRound t (Grows-refl t))
                λ e.
                  filed-IsRound (drain_events i batch (list_webhooks t) k t)
                    (drain_events-Drained i batch (list_webhooks t) k t)
