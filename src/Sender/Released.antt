-- ===== src/Sender/Released.antt =====
-- Proofs about the row of a message after deliver (internal/sender/sender.go).
use xeron_mx.Prelude.{
  ℕ, ◌+◌, ◌≡◌, refl, ◌∙◌, ap, inl, inr, true, false, ◌||◌, Option, none, some, List, [], Bool-cases,
  arith,
}
use xeron_mx.Text.{Bytes, truncate}
use xeron_mx.Store.Types.{Message, Domain, mail_failed, failed, is_delivering}
use xeron_mx.Store.Queue
use xeron_mx.Store.Queue.{has_id}
use xeron_mx.Store.Queue.Rows.{exec_update-found}
use xeron_mx.World.{World}
use xeron_mx.Sender.{Sent, sent, broke, permanent, error_text}
use xeron_mx.Sender.Deliver.{
  Config, Input, bounce, defer_, conclude, deliver, mark_failed, count_deferred, count_failed,
  with_body, in_domain,
}
use xeron_mx.Sender.Bounces.{is_fresh}
use xeron_mx.Sender.Settled.{Row, delete-Row, tell-Row, bounce-Row, defer-Row, settle_lem}

-- The row of k is there and no worker holds it.
abbrev pub IsReleased : ℕ → World → Type 0
IsReleased k w = (n : Message) × Row k w n × (is_delivering n.status ≡ false)

module _ (cfg : Config) (i : Input) (m : Message) where
  defer-IsReleased :
      (reason : Bytes) (w : World) (n : Message)
      → i.reschedule_fails ≡ false
      → Row m.id w n
      → IsReleased m.id (defer_ cfg i m reason w)
  defer-IsReleased reason w n runs h =
      let (n', row, state, rcpts, tries) = defer-Row cfg i m reason w n runs h in
      (n', row, rw state refl)

  mark_failed-Row :
      (reason : Bytes) (w : World) (n : Message)
      → i.mark_fails ≡ false
      → Row m.id w n
      → ((n' : Message) × Row m.id (mark_failed cfg i m reason w) n' × (n'.status ≡ failed))
        × ((mark_failed cfg i m reason w).blobs ≡ w.blobs)
  unfolding Queue.mark_failed
  mark_failed-Row reason w n runs h =
      let given_up : Message → Message = λ r. record r {
        status = failed;
        last_error = truncate reason 1000;
        attempts = r.attempts + 1;
        claimed_at = none;
        claimed_by = [];
      } in
      let (q, done, found) = exec_update-found m.id given_up w.db.queue n (λ r. refl) h in
      rw (runs, done) ((given_up n, found, refl), refl)

  module _
      (runs : (i.mark_fails || (i.narrow_fails || (i.reschedule_fails || i.bounce.delete_fails)))
        ≡ false) where
    bounced-IsReleased :
        (failures : List Bytes) (reason : Bytes) (w : World) (n : Message)
        → is_fresh i.bounce.id w.blobs ≡ true
        → Row m.id w n
        → IsReleased m.id (bounce cfg i.bounce m failures (mark_failed cfg i m reason w))
    bounced-IsReleased failures reason w n fresh h =
        let ((n', row, state), bodies) = mark_failed-Row reason w n (ground arith) h in
        (
          n',
          bounce-Row cfg i m failures m.id (mark_failed cfg i m reason w) n' (ground arith)
              (ap (is_fresh i.bounce.id) bodies ∙ fresh) row,
          rw state refl,
        )

    conclude-IsReleased :
        (s : Sent) (w : World) (n : Message)
        → is_fresh i.bounce.id w.blobs ≡ true
        → Row m.id w n
        → IsReleased m.id (conclude cfg i m s w)
    unfolding conclude
    conclude-IsReleased (sent res) w n fresh h =
        let (n', row, out) = settle_lem cfg i m res w n runs fresh h in
        (
          n',
          row,
          elim out [
            | inl (wait, state, rcpts, tries) ↦ rw state refl
            | inr (inl (none_left, state)) ↦ rw state refl
            | inr (inr (done, state)) ↦ rw state refl
          ],
        )
    conclude-IsReleased (broke e) w n fresh h = elim (Bool-cases (permanent e)) [
      | inl f ↦ rw f (
          let (n', row, state) =
            bounced-IsReleased m.envelope_to (error_text e) (count_failed w) n fresh h in
          (
            n',
            tell-Row cfg i m i.event_fails mail_failed m.id _ n'
                (delete-Row i.delete_fails m.id m.id _ n' row),
            state,
          ))
      | inr f ↦ rw f (defer-IsReleased (error_text e) (count_deferred w) n (ground arith) h)
    ]

    with_body-IsReleased :
        (body : Option Bytes) (w : World) (n : Message)
        → is_fresh i.bounce.id w.blobs ≡ true
        → Row m.id w n
        → IsReleased m.id (with_body cfg i m body w)
    with_body-IsReleased none w n fresh h =
        let (n', row, state) = bounced-IsReleased m.envelope_to _ w n fresh h in
        (n', tell-Row cfg i m i.event_fails mail_failed m.id _ n' row, state)
    with_body-IsReleased (some body) w n fresh h =
        conclude-IsReleased (i.attempt m body) w n fresh h

    in_domain-IsReleased :
        (d : Option Domain) (w : World) (n : Message)
        → is_fresh i.bounce.id w.blobs ≡ true
        → Row m.id w n
        → IsReleased m.id (in_domain cfg i m d w)
    in_domain-IsReleased none w n fresh h = defer-IsReleased _ w n (ground arith) h
    in_domain-IsReleased (some d) w n fresh h = with_body-IsReleased _ w n fresh h

    -- Whatever an attempt brings, and whether or not the domain and the body can be read, a delivery
    -- leaves the row of the message in the table, and not claimed. This holds where the statements on
    -- the row run, bodies can be deleted and the id of the bounce is one that the spool does not have.
    pub deliver-IsReleased :
        (w : World) (n : Message)
        → is_fresh i.bounce.id w.blobs ≡ true
        → Row m.id w n
        → IsReleased m.id (deliver cfg i m w)
    unfolding deliver
    deliver-IsReleased w n fresh h = in_domain-IsReleased _ w n fresh h
