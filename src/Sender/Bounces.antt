-- ===== src/Sender/Bounces.antt =====
-- Proofs about the bounces of internal/sender/sender.go.
use xeron_mx.Prelude.{
  ℕ, ◌+◌, ◌≡◌, refl, ◌∙◌, ap, ◌⊎◌, inl, inr, Bool, true, false, not, ◌||◌, Option, none, some, List,
  [], ◌∷◌, ◌++◌, ◌==◌, is_empty, any, length, Bool-cases, Option-cases, arith,
}
use xeron_mx.Text.{Bytes}
use xeron_mx.Store.Time.{Time}
use xeron_mx.Store.Types.{Message, Domain, queued, outbound}
use xeron_mx.Store.Queue
use xeron_mx.Store.Queue.{has_id}
use xeron_mx.World.{World, Blob, try_delete, stored, exceeds, failed, PutResult, delete}
use xeron_mx.World.Keeps.{delete-stored, delete-absent, IsPut, put-IsPut}
use xeron_mx.Sender.Deliver.{
  Config, Bounce, should_bounce, bounce_row, queue_bounce, bounce, spool_bounce,
}

-- The row of a bounce to the sender of m, as Enqueue files it.
pub record IsBounce (cfg : Config) (m row : Message) : Type 0 where
  pub owed : should_bounce cfg m ≡ true
  pub null_sender : row.envelope_from ≡ []
  pub to_sender : row.envelope_to ≡ m.envelope_from ∷ []
  pub waits : row.status ≡ queued
  pub way : row.direction ≡ outbound

abbrev pub is_fresh : Option ℕ → List Blob → Bool
is_fresh none blobs = true
is_fresh (some k) blobs = not (any (λ (b : Blob). b.id == k) blobs)

-- Nothing is left of a bounce that could not be queued; one that was queued is one row and one body.
abbrev pub IsBounced : Config → Message → World → World → Type 0
IsBounced cfg m w w' =
    ((w'.db.queue ≡ w.db.queue) × (w'.blobs ≡ w.blobs))
    ⊎ ((row : Message) × (blob : Blob) × IsBounce cfg m row
        × (w'.db.queue ≡ w.db.queue ++ row ∷ [])
        × (w'.blobs ≡ w.blobs ++ blob ∷ []))

module _ (cfg : Config) (b : Bounce) (m : Message) (works : b.delete_fails ≡ false) where
  undone :
      (k : ℕ) (w : World)
      → any (λ (c : Blob). c.id == k) w.blobs ≡ false
      → IsBounced cfg m w (try_delete b.delete_fails k w)
  unfolding try_delete
  undone k w fresh = rw works (inl (refl, delete-absent k w.blobs fresh))

  queue_bounce-IsBounced :
      (k : ℕ) (raw : Bytes) (w : World) (r : PutResult)
      → should_bounce cfg m ≡ true
      → any (λ (c : Blob). c.id == k) w.blobs ≡ false
      → IsPut k raw w.blobs r
      → IsBounced cfg m w (queue_bounce cfg b m k w r)
  unfolding queue_bounce Queue.enqueue try_delete bounce_row
  queue_bounce-IsBounced k raw w failed owed fresh h = undone k w fresh
  queue_bounce-IsBounced k raw w exceeds owed fresh h = undone k w fresh
  queue_bounce-IsBounced k raw w (stored n blobs) owed fresh (size, bodies) =
      let gone : delete k blobs ≡ w.blobs =
        ap (delete k) bodies ∙ delete-stored k raw w.blobs fresh in
      elim (Bool-cases b.enqueue_fails) [
        | inl e ↦ rw (e, works) (inl (refl, gone))
        | inr e ↦ rw e (elim (Bool-cases (any (has_id k) w.db.queue)) [
          | inl f ↦ rw (f, works) (inl (refl, gone))
          | inr f ↦
              rw f (elim (Bool-cases (any (λ (d : Domain). d.id == m.domain_id) w.db.domains)) [
                | inr g ↦ rw (g, works) (inl (refl, gone))
                | inl g ↦ rw g (
                    inr (
                      _,
                      record { id = k; body = raw },
                      record {
                        owed = owed;
                        null_sender = refl;
                        to_sender = refl;
                        waits = refl;
                        way = refl;
                      },
                      refl,
                      bodies,
                    ))
              ])
        ])
      ]

  -- A bounce is one row, with the null sender and for the sender of the message, and one body, and it
  -- is queued only where the message has a sender and the sender is known; otherwise nothing is left
  -- of it. This holds for an id that the spool does not have and where bodies can be deleted.
  pub bounce_lem :
      (failures : List Bytes) (w : World)
      → is_fresh b.id w.blobs ≡ true
      → IsBounced cfg m w (bounce cfg b m failures w)
  unfolding bounce
  bounce_lem failures w fresh = elim (Bool-cases (is_empty failures || not (should_bounce cfg m))) [
    | inl e ↦ rw e (inl (refl, refl))
    | inr e ↦ rw e (elim (Option-cases (b.report failures)) [
      | inl f ↦ rw f (inl (refl, refl))
      | inr (raw, f) ↦ rw f (spooled_with b.id fresh raw (ground arith))
    ])
  ]
    where
      spooled_with :
          (o : Option ℕ)
          → is_fresh o w.blobs ≡ true
          → (raw : Bytes) → should_bounce cfg m ≡ true
          → IsBounced cfg m w (spool_bounce cfg b m w (some raw) o)
      spooled_with none fresh raw owed = inl (refl, refl)
      spooled_with (some k) fresh raw owed =
          queue_bounce-IsBounced k raw w _ owed (ground arith)
            (put-IsPut b.put_fails k raw (length raw + 1) w.blobs)

-- A bounce that cannot be delivered is not answered by another one.
pub bounce-bounce_row :
    (cfg cfg' : Config) (b : Bounce) (m : Message) (k n : ℕ) (now : Time) (failures : List Bytes)
    (w : World)
    → bounce cfg' b (bounce_row cfg m k n now) failures w ≡ w
unfolding bounce should_bounce bounce_row
bounce-bounce_row cfg cfg' b m k n now failures w = ground arith
