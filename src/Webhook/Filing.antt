-- ===== src/Webhook/Filing.antt =====
-- Lemmas on the loops of drain in internal/webhook: what they file, and that they lose nothing.
use mathlib.Core.List.{append_assoc, append-nil}
use xeron_mx.Prelude.{
  ℕ, ◌≡◌, refl, sym, ◌∙◌, ap, ◌⊎◌, inl, inr, Bool, true, false, not, ◌&&◌, ◌||◌, Option, none, some,
  List, [], ◌∷◌, ◌++◌, ◌==◌, any, All, Bool-cases, Option-cases, on_if, arith,
}
use xeron_mx.Text.{Bytes, bytes_eq}
use xeron_mx.Text.Equality.{bytes_eq_refl}
use xeron_mx.Store.Webhooks.{
  Webhook, Delivery, LogEvent, Tables, is_waiting, is_hook, wants, enqueue_delivery,
}
use xeron_mx.Webhook.{DrainInput, insert, offer_rendered, offer, offer_all, drain_events}

-- A delivery of the payload to the subscription that is still to be attempted.
abbrev pub is_filed : LogEvent → Webhook → Bytes → Delivery → Bool
is_filed e h payload d =
    d.webhook_id == h.id
    && (bytes_eq d.event_type e.type && (bytes_eq d.payload payload && is_waiting d.status))

-- Whether the subscription has the event: where it wants it, and the event can be rendered.
abbrev pub covers : DrainInput → LogEvent → List Delivery → Webhook → Bool
covers i e deliveries h =
    not (wants h e.type)
    || elim (i.render e) [ none ↦ true | some payload ↦ any (is_filed e h payload) deliveries ]

abbrev pub Covers : DrainInput → List Webhook → List Delivery → LogEvent → Type 0
Covers i hooks deliveries e = All (λ h. covers i e deliveries h ≡ true) hooks

-- Nothing that was filed is lost, and the place in the log is as it was.
abbrev pub Grows : Tables → Tables → Type 0
Grows t t' =
    ((more : List Delivery) × (t'.deliveries ≡ t.deliveries ++ more)) × (t'.cursor ≡ t.cursor)

pub Grows-refl : (t : Tables) → Grows t t
Grows-refl t = (([], sym (append-nil t.deliveries)), refl)

pub Grows-trans : (t u v : Tables) → Grows t u → Grows u v → Grows t v
Grows-trans t u v ((m, e), c) ((n, f), d) =
    ((m ++ n, f ∙ ap (λ rows. rows ++ n) e ∙ append_assoc t.deliveries m n), d ∙ c)

any-append :
    (p : Delivery → Bool) (xs ys : List Delivery) → any p xs ≡ true → any p (xs ++ ys) ≡ true
unfolding any
any-append p [] ys h = cc
any-append p (x ∷ xs) ys h = ground (arith, any-append p xs ys)

any-last :
    (p : Delivery → Bool) (xs : List Delivery) (d : Delivery)
    → p d ≡ true
    → any p (xs ++ d ∷ []) ≡ true
unfolding any
any-last p [] d h = rw h refl
any-last p (x ∷ xs) d h = ground (arith, any-last p xs d h)

module _ (i : DrainInput) where
  covers-append :
      (e : LogEvent) (h : Webhook) (xs ys : List Delivery)
      → covers i e xs h ≡ true
      → covers i e (xs ++ ys) h ≡ true
  covers-append e h xs ys c = elim (Bool-cases (wants h e.type)) [
    | inr f ↦ rw f refl
    | inl f ↦ elim (Option-cases (i.render e)) [
      | inl g ↦ rw (f, g) refl
      | inr (p, g) ↦ rw (f, g) (any-append (is_filed e h p) xs ys (rw (f, g) at c))
    ]
  ]

  pub Covers-Grows :
      (hooks : List Webhook) (e : LogEvent) (t u : Tables)
      → Grows t u
      → Covers i hooks t.deliveries e
      → Covers i hooks u.deliveries e
  Covers-Grows [] e t u g c = tt
  Covers-Grows (h ∷ hooks) e t u g (c, cs) = (
    ap (λ rows. covers i e rows h) g.0.1 ∙ covers-append e h t.deliveries g.0.0 c,
    Covers-Grows hooks e t u g cs,
  )

  -- What a step of the loops does: the tables grow, and if it goes on the event is filed.
  abbrev Offered : LogEvent → List Webhook → Tables → Bool × Tables → Type 0
  Offered e hooks t r = Grows t r.1 × ((r.0 ≡ false) ⊎ Covers i hooks r.1.deliveries e)

  covered :
      (e : LogEvent) (h : Webhook) (payload : Bytes) (rows : List Delivery)
      → i.render e ≡ some payload
      → any (is_filed e h payload) rows ≡ true
      → covers i e rows h ≡ true
  covered e h payload rows g filed = rw g (ground arith)

  -- What an insertion makes of the tables.
  abbrev IsFiling : LogEvent → Webhook → Bytes → Tables → Option Tables → Type 0
  IsFiling e h payload t none = Unit
  IsFiling e h payload t (some u) =
      ((d : Delivery) × (is_filed e h payload d ≡ true) × (u.deliveries ≡ t.deliveries ++ d ∷ []))
      × (u.cursor ≡ t.cursor)

  enqueue-IsFiling :
      (e : LogEvent) (h : Webhook) (payload : Bytes) (t : Tables)
      → IsFiling e h payload t (enqueue_delivery h.id e.type payload i.now t)
  unfolding enqueue_delivery
  enqueue-IsFiling e h payload t =
      on_if (IsFiling e h payload t) (any (is_hook h.id) t.webhooks)
        (λ k. ((_, ground (arith, bytes_eq_refl e.type, bytes_eq_refl payload), refl), refl))
        (λ k. tt)

  insert-Offered :
      (e : LogEvent) (h : Webhook) (payload : Bytes) (t : Tables) (row : Option Tables)
      → i.render e ≡ some payload
      → IsFiling e h payload t row
      → Offered e (h ∷ []) t (insert i row t)
  insert-Offered e h payload t none g f = (Grows-refl t, inl refl)
  insert-Offered e h payload t (some u) g ((d, filed, at), c) = (
    ((d ∷ [], at), c),
    inr (
      covered e h payload u.deliveries g (
          ap (any (is_filed e h payload)) at
          ∙ any-last (is_filed e h payload) t.deliveries d filed),
      tt,
    ),
  )

  covers-unrendered :
      (e : LogEvent) (h : Webhook) (rows : List Delivery)
      → i.render e ≡ none
      → covers i e rows h ≡ true
  covers-unrendered e h rows g = rw g (ground arith)

  rendered-Offered :
      (e : LogEvent) (h : Webhook) (t : Tables) (payload : Option Bytes)
      → i.render e ≡ payload
      → Offered e (h ∷ []) t (offer_rendered i e h payload t)
  rendered-Offered e h t none g = (Grows-refl t, inr (covers-unrendered e h t.deliveries g, tt))
  rendered-Offered e h t (some p) g =
      insert-Offered e h p t _ g (
        on_if (IsFiling e h p t) (i.insert_fails h.id e.id) (λ k. tt) λ k. enqueue-IsFiling e h p t)

  offer-Offered : (e : LogEvent) (h : Webhook) (t : Tables) → Offered e (h ∷ []) t (offer i e h t)
  unfolding offer
  offer-Offered e h t =
      on_if (Offered e (h ∷ []) t) (not (wants h e.type)) (λ f. (Grows-refl t, inr (rw f refl, tt)))
        λ f. rendered-Offered e h t (i.render e) refl

  offer_all-Offered :
      (e : LogEvent) (hooks : List Webhook) (t : Tables) → Offered e hooks t (offer_all i e hooks t)
  unfolding offer_all
  offer_all-Offered e [] t = (Grows-refl t, inr tt)
  offer_all-Offered e (h ∷ hooks) t =
      let t' = (offer i e h t).1 in
      let (g, c) = offer-Offered e h t in
      let (g', cs) = offer_all-Offered e hooks t' in
      let u = (offer_all i e hooks t').1 in
      on_if (Offered e (h ∷ hooks) t) (offer i e h t).0
        (λ go. (
          Grows-trans t t' u g g',
          elim cs [
            | inl stop ↦ inl stop
            | inr cs ↦ elim c [
              | inl stop ↦ absurd (ground arith)
              | inr (c, _) ↦ inr ((Covers-Grows (h ∷ []) e t' u g' (c, tt)).0, cs)
            ]
          ],
        ))
        λ stop. (g, inl stop)

  Covers-Grows_each :
      (hooks : List Webhook) (events : List LogEvent) (t u : Tables)
      → Grows t u
      → All (Covers i hooks t.deliveries) events
      → All (Covers i hooks u.deliveries) events
  Covers-Grows_each hooks [] t u g c = tt
  Covers-Grows_each hooks (e ∷ events) t u g (c, cs) =
      (Covers-Grows hooks e t u g c, Covers-Grows_each hooks events t u g cs)

-- The id behind a batch.
abbrev pub last_id : ℕ → List LogEvent → ℕ
last_id k [] = k
last_id k (e ∷ events) = last_id e.id events

module _ (i : DrainInput) where
  abbrev pub Drained : List LogEvent → List Webhook → ℕ → Tables → Option ℕ × Tables → Type 0
  Drained events hooks k t r =
      Grows t r.1
      × ((r.0 ≡ none)
          ⊎ ((r.0 ≡ some (last_id k events)) × All (Covers i hooks r.1.deliveries) events))

  pub drain_events-Drained :
      (events : List LogEvent) (hooks : List Webhook) (k : ℕ) (t : Tables)
      → Drained events hooks k t (drain_events i events hooks k t)
  unfolding drain_events
  drain_events-Drained [] hooks k t = (Grows-refl t, inr (refl, tt))
  drain_events-Drained (e ∷ events) hooks k t =
      let t' = (offer_all i e hooks t).1 in
      let (g, c) = offer_all-Offered i e hooks t in
      let (g', out) = drain_events-Drained events hooks e.id t' in
      let u = (drain_events i events hooks e.id t').1 in
      on_if (Drained (e ∷ events) hooks k t) (offer_all i e hooks t).0
        (λ go. (
          Grows-trans t t' u g g',
          elim out [
            | inl stop ↦ inl stop
            | inr (done, cs) ↦ elim c [
              | inl stop ↦ absurd (ground arith)
              | inr c ↦ inr (done, (Covers-Grows i hooks e t' u g' c, cs))
            ]
          ],
        ))
        λ stop. (g, inl refl)
