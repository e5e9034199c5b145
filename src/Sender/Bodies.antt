-- ===== src/Sender/Bodies.antt =====
-- Proofs about the bodies of the messages that internal/sender/sender.go delivers.
use xeron_mx.Prelude.{
  ℕ, ◌≡◌, refl, ◌∙◌, ap, inl, inr, Bool, true, false, not, Option, none, some, List, [], ◌∷◌,
  if◌then◌else◌, is_empty, Bool-cases, arith,
}
use xeron_mx.Text.{Bytes}
use xeron_mx.Store.Types.{Message, mail_failed, mail_delivered, mail_deferred}
use xeron_mx.Store.Queue
use xeron_mx.World.{World, with_queue, get}
use xeron_mx.World.Keeps.{told-IsSame, get-append}
use xeron_mx.Sender.{
  Sent, sent, broke, Recipients, RecipientFailure, permanent, addresses, error_text,
}
use xeron_mx.Sender.Deliver.{
  Config, Input, settle, tell_rejected, keep_deferred, defer_, conclude, count_deferred,
  first_error, attempted, record_and_tell, told_deferred, message_event,
}
use xeron_mx.Sender.Bounces.{is_fresh, bounce_lem}

-- Somebody is still to be tried.
abbrev pub waits : Sent → Bool
waits (sent res) = not (is_empty res.deferred)
waits (broke e) = not (permanent e)

module _ (cfg : Config) (i : Input) (m : Message) where
  told_deferred-blobs :
      (o : Option (List Message)) (w : World) → (told_deferred cfg i m o w).blobs ≡ w.blobs
  told_deferred-blobs none w = refl
  told_deferred-blobs (some q) w =
      (told-IsSame cfg.notifier i.event_fails mail_deferred (message_event m mail_deferred)
        (with_queue q w)).1

  defer-blobs : (reason : Bytes) (w : World) → (defer_ cfg i m reason w).blobs ≡ w.blobs
  unfolding defer_
  defer-blobs reason w = elim (Bool-cases i.reschedule_fails) [
    | inl e ↦ rw e refl
    | inr e ↦ rw e (told_deferred-blobs _ w)
  ]

  attempted-blobs :
      (broken : Bool) (o : Option (List Message)) (w : World)
      → (attempted broken o w).blobs ≡ w.blobs
  attempted-blobs false none w = refl
  attempted-blobs false (some q) w = refl
  attempted-blobs true o w = refl

  tell_rejected-body :
      (rejected : List RecipientFailure) (w : World) (k : ℕ) (body : Bytes)
      → i.bounce.delete_fails ≡ false
      → is_fresh i.bounce.id w.blobs ≡ true
      → get k w.blobs ≡ some body
      → get k (tell_rejected cfg i m rejected w).blobs ≡ some body
  unfolding tell_rejected
  tell_rejected-body rejected w k body works fresh h = elim (Bool-cases (is_empty rejected)) [
    | inl e ↦ rw e h
    | inr e ↦
        let w1 = record_and_tell cfg i.event_fails mail_failed m w in
        let same : w1.blobs ≡ w.blobs =
          (told-IsSame cfg.notifier i.event_fails mail_failed (message_event m mail_failed) w).1 in
        rw e
          (elim (bounce_lem cfg i.bounce m works (addresses rejected) w1
            (ap (is_fresh i.bounce.id) same ∙ fresh)) [
              | inl (rows, bodies) ↦ ap (get k) (bodies ∙ same) ∙ h
              | inr (row, blob, owed, rows, bodies) ↦
                  ap (get k) bodies ∙ get-append k w1.blobs (blob ∷ []) body (ap (get k) same ∙ h)
            ])
  ]

  partial-blobs :
      (res : Recipients) (w : World)
      → (if is_empty res.accepted
          then w
          else record_and_tell cfg i.partial_event_fails mail_delivered m w).blobs
        ≡ w.blobs
  partial-blobs res w = elim (Bool-cases (is_empty res.accepted)) [
    | inl e ↦ rw e refl
    | inr e ↦
        rw e
          (told-IsSame cfg.notifier i.partial_event_fails mail_delivered
            (message_event m mail_delivered) w).1
  ]

  keep_deferred-blobs :
      (res : Recipients) (w : World) → (keep_deferred cfg i m res w).blobs ≡ w.blobs
  unfolding keep_deferred
  keep_deferred-blobs res w =
      let w1 : World =
        if is_empty res.accepted
        then w
        else record_and_tell cfg i.partial_event_fails mail_delivered m w in
      let o = Queue.set_recipients m.id (addresses res.deferred) w1.db.queue in
      defer-blobs (first_error res.deferred) (count_deferred (attempted i.narrow_fails o w1))
      ∙ attempted-blobs i.narrow_fails o w1
      ∙ partial-blobs res w

  -- The body of a message outlives every attempt after which somebody is still to be tried, whichever
  -- statements fail. This holds where bodies can be deleted and the id of the bounce is one that the
  -- spool does not have.
  pub conclude-body :
      (s : Sent) (w : World) (body : Bytes)
      → i.bounce.delete_fails ≡ false
      → is_fresh i.bounce.id w.blobs ≡ true
      → waits s ≡ true
      → get m.id w.blobs ≡ some body
      → get m.id (conclude cfg i m s w).blobs ≡ some body
  unfolding conclude settle
  conclude-body (sent res) w body works fresh wait h =
      let some_wait : is_empty res.deferred ≡ false = ground arith in
      rw some_wait (
        ap (get m.id) (keep_deferred-blobs res (tell_rejected cfg i m res.rejected w))
        ∙ tell_rejected-body res.rejected w m.id body works fresh h)
  conclude-body (broke e) w body works fresh wait h =
      let temporary : permanent e ≡ false = ground arith in
      rw temporary (ap (get m.id) (defer-blobs (error_text e) (count_deferred w)) ∙ h)
