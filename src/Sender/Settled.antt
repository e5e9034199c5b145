-- ===== src/Sender/Settled.antt =====
-- Proofs about the row of a message after settle (internal/sender/sender.go).
use mathlib.Core.Path.{subst}
use xeron_mx.Prelude.{
  ℕ, ◌+◌, ◌≡◌, refl, sym, ◌∙◌, ap, ◌⊎◌, inl, inr, Bool, true, false, not, ◌&&◌, ◌||◌, none, some,
  List, [], ◌∷◌, if◌then◌else◌, is_empty, Bool-cases, arith, find,
}
use xeron_mx.Text.{Bytes, truncate}
use xeron_mx.Store.Types.{
  mail_deferred, mail_delivered, mail_failed, Message, EventType, queued, failed, delivered,
}
use xeron_mx.Store.Queue
use xeron_mx.Store.Queue.{has_id}
use xeron_mx.Store.Queue.Rows.{exec_update-found, find-append}
use xeron_mx.World.{World, try_delete, with_queue}
use xeron_mx.World.Keeps.{told-IsSame}
use xeron_mx.Sender.{Recipients, RecipientFailure, addresses}
use xeron_mx.Sender.Deliver.{
  message_event, Config, Input, bounce, tell_rejected, keep_deferred, finish, settle, defer_,
  record_and_tell, first_error, count_deferred, count_failed,
}
use xeron_mx.Sender.Bounces.{is_fresh, bounce_lem}

abbrev pub Row : ℕ → World → Message → Type 0
Row k w n = find (has_id k) w.db.queue ≡ some n

pub delete-Row :
    (broken : Bool) (j k : ℕ) (w : World) (n : Message)
    → Row k w n
    → Row k (try_delete broken j w) n
unfolding try_delete
delete-Row false j k w n h = h
delete-Row true j k w n h = h

module _ (cfg : Config) (i : Input) (m : Message) where
  pub tell-Row :
      (broken : Bool) (t : EventType) (k : ℕ) (w : World) (n : Message)
      → Row k w n
      → Row k (record_and_tell cfg broken t m w) n
  tell-Row broken t k w n h =
      ap (find (has_id k)) (told-IsSame cfg.notifier broken t (message_event m t) w).0 ∙ h

  pub bounce-Row :
      (failures : List Bytes) (k : ℕ) (w : World) (n : Message)
      → i.bounce.delete_fails ≡ false
      → is_fresh i.bounce.id w.blobs ≡ true
      → Row k w n
      → Row k (bounce cfg i.bounce m failures w) n
  bounce-Row failures k w n works fresh h =
      elim (bounce_lem cfg i.bounce m works failures w fresh) [
        | inl (same, bodies) ↦ rw same h
        | inr (row, blob, owed, grown, bodies) ↦ rw grown (find-append k w.db.queue (row ∷ []) n h)
      ]

  -- A message that is put off.
  pub defer-Row :
      (reason : Bytes) (w : World) (n : Message)
      → i.reschedule_fails ≡ false
      → Row m.id w n
      → (n' : Message) × Row m.id (defer_ cfg i m reason w) n'
        × (n'.status ≡ queued)
        × (n'.envelope_to ≡ n.envelope_to)
        × (n'.attempts ≡ m.attempts + 1)
  unfolding defer_ Queue.reschedule
  defer-Row reason w n runs h =
      let put_off : Message → Message = λ r. record r {
        status = queued;
        attempts = m.attempts + 1;
        last_error = truncate reason 1000;
        next_retry_at =
            i.now + Queue.backoff (m.attempts + 1) cfg.retry_base cfg.retry_max i.jitter;
        claimed_at = none;
        claimed_by = [];
      } in
      let (q, done, found) = exec_update-found m.id put_off w.db.queue n (λ r. refl) h in
      (
        put_off n,
        rw (runs, done)
            (tell-Row i.event_fails mail_deferred m.id (with_queue q w) (put_off n) found),
        refl,
        refl,
        refl,
      )

  tell_rejected-Row :
      (rejected : List RecipientFailure) (w : World) (n : Message)
      → i.bounce.delete_fails ≡ false
      → is_fresh i.bounce.id w.blobs ≡ true
      → Row m.id w n
      → Row m.id (tell_rejected cfg i m rejected w) n
  unfolding tell_rejected
  tell_rejected-Row rejected w n works fresh h = elim (Bool-cases (is_empty rejected)) [
    | inl e ↦ rw e h
    | inr e ↦ rw e (
        bounce-Row (addresses rejected) m.id (record_and_tell cfg i.event_fails mail_failed m w) n
          works
          (ap (is_fresh i.bounce.id)
              (told-IsSame cfg.notifier i.event_fails mail_failed (message_event m mail_failed) w).1
            ∙ fresh)
          (tell-Row i.event_fails mail_failed m.id w n h))
  ]

  -- What settle makes of the row.
  abbrev pub IsSettled : Recipients → World → Type 0
  IsSettled res w =
      (n : Message) × Row m.id w n
      × (((is_empty res.deferred ≡ false)
            × (n.status ≡ queued)
            × (n.envelope_to ≡ addresses res.deferred)
            × (n.attempts ≡ m.attempts + 1))
          ⊎ (((is_empty res.deferred && is_empty res.accepted) ≡ true) × (n.status ≡ failed))
          ⊎ (((is_empty res.deferred && not (is_empty res.accepted)) ≡ true)
              × (n.status ≡ delivered)))

  told_partial-Row :
      (res : Recipients) (w : World) (n : Message)
      → Row m.id w n
      → Row m.id
          (if is_empty res.accepted
            then w
            else record_and_tell cfg i.partial_event_fails mail_delivered m w)
          n
  told_partial-Row res w n h = elim (Bool-cases (is_empty res.accepted)) [
    | inl e ↦ rw e h
    | inr e ↦ rw e (tell-Row i.partial_event_fails mail_delivered m.id w n h)
  ]

  keep_deferred-IsSettled :
      (res : Recipients) (w : World) (n : Message)
      → i.narrow_fails ≡ false
      → i.reschedule_fails ≡ false
      → is_empty res.deferred ≡ false
      → Row m.id w n
      → IsSettled res (keep_deferred cfg i m res w)
  unfolding keep_deferred Queue.set_recipients
  keep_deferred-IsSettled res w n narrows runs some_wait h =
      let w1 : World =
        if is_empty res.accepted
        then w
        else record_and_tell cfg i.partial_event_fails mail_delivered m w in
      let narrowed : Message → Message = λ r. record r { envelope_to = addresses res.deferred } in
      let (q, done, found) =
        exec_update-found m.id narrowed w1.db.queue n (λ r. refl) (told_partial-Row res w n h) in
      let (n', row, state, rcpts, tries) =
        defer-Row (first_error res.deferred) (count_deferred (with_queue q w1)) (narrowed n) runs
          found in
      rw (narrows, done) (n', row, inl (some_wait, state, rcpts, tries))

  finish-IsSettled :
      (res : Recipients) (w : World) (n : Message)
      → i.mark_fails ≡ false
      → is_empty res.deferred ≡ true
      → Row m.id w n
      → IsSettled res (finish cfg i m res w)
  unfolding finish Queue.mark_failed Queue.mark_delivered
  finish-IsSettled res w n marks none_wait h = elim (Bool-cases (is_empty res.accepted)) [
    | inl e ↦
        let given_up : Message → Message = λ r. record r {
          status = failed;
          last_error = truncate (first_error res.rejected) 1000;
          attempts = r.attempts + 1;
          claimed_at = none;
          claimed_by = [];
        } in
        let (q, done, found) = exec_update-found m.id given_up w.db.queue n (λ r. refl) h in
        rw (e, marks, done)
          (
            given_up n,
            delete-Row i.delete_fails m.id m.id (with_queue q (count_failed w)) (given_up n) found,
            inr (inl (rw none_wait refl, refl)),
          )
    | inr e ↦
        let done_with : Message → Message = λ r. record r {
          status = delivered;
          delivered_at = some i.now;
          last_error = [];
          claimed_at = none;
          claimed_by = [];
        } in
        let (q, done, found) = exec_update-found m.id done_with w.db.queue n (λ r. refl) h in
        rw (e, marks, done)
          (
            done_with n,
            tell-Row i.partial_event_fails mail_delivered m.id _ (done_with n)
                (delete-Row i.delete_fails m.id m.id (with_queue q w) (done_with n) found),
            inr (inr (rw none_wait refl, refl)),
          )
  ]

  -- After an attempt that told of every recipient: if some wait, the message is queued again for
  -- exactly those and for one attempt more; if none waits and none was accepted it has failed; and
  -- otherwise it is delivered. This holds where the statements on its row run, bodies can be deleted
  -- and the id of the bounce is one that the spool does not have.
  pub settle_lem :
      (res : Recipients) (w : World) (n : Message)
      → (i.mark_fails || (i.narrow_fails || (i.reschedule_fails || i.bounce.delete_fails))) ≡ false
      → is_fresh i.bounce.id w.blobs ≡ true
      → Row m.id w n
      → IsSettled res (settle cfg i m res w)
  unfolding settle
  settle_lem res w n works fresh h =
      let told = tell_rejected-Row res.rejected w n (ground arith) fresh h in
      let w1 = tell_rejected cfg i m res.rejected w in
      elim (Bool-cases (is_empty res.deferred)) [
        | inl e ↦
            subst
              (λ none_wait.
                IsSettled res
                  (if none_wait then finish cfg i m res w1 else keep_deferred cfg i m res w1))
              (sym e) (finish-IsSettled res w1 n (ground arith) e told)
        | inr e ↦
            subst
              (λ none_wait.
                IsSettled res
                  (if none_wait then finish cfg i m res w1 else keep_deferred cfg i m res w1))
              (sym e) (keep_deferred-IsSettled res w1 n (ground arith) (ground arith) e told)
      ]
