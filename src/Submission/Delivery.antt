-- ===== src/Submission/Delivery.antt =====
-- Proofs about a whole DATA command (internal/submission/submission.go).
use mathlib.Core.Path.{subst}
use xeron_mx.Prelude.{
  ℕ, ◌+◌, ◌≡◌, refl, sym, ◌∙◌, ap, ◌⊎◌, inl, inr, Bool, true, false, not, ◌||◌, Option, none, some,
  List, [], ◌∷◌, ◌++◌, ◌==◌, if◌then◌else◌, leb, is_empty, is_some, any, length, Bool-cases, on_if,
  arith,
}
use xeron_mx.Unicode.{Unicode}
use xeron_mx.Store.Types.{
  Message, Db, Domain, Event, EventType, queued, outbound, mail_received, send_limit_reached,
}
use xeron_mx.Store.Queue
use xeron_mx.Store.Queue.{has_id}
use xeron_mx.Store.Usage.{sum_sent, sent_this_month, over, reserve_sends, release_sends, is_row}
use xeron_mx.Store.Usage.Accounting
use xeron_mx.Store.Usage.Accounting.{reserve_sends_lem, release_sends-reserve_sends}
use xeron_mx.Store.SmtpUsers.{SmtpUser}
use xeron_mx.World.{
  World, Blob, PutResult, stored, exceeds, failed, delete, try_delete, record_event, notify,
}
use xeron_mx.World.Keeps.{delete-absent, delete-stored, IsPut, put-IsPut}
use xeron_mx.Mailutil.{count_received, max_hops}
use xeron_mx.Smtp.{SmtpError}
use xeron_mx.Submission.{Config, Outside, Session}
use xeron_mx.Submission.Data.{
  Input, spool_text, refuse, new_message, limit_reached, enqueued, count_received_mail, announce,
  after_enqueue, release, file, reserve, spooled, spool, with_id, data_as, data_command, peeked,
  reaches_limit,
}

-- A row of the message that the session gave, waiting for its first delivery.
pub record IsRow (i : Input) (s : Session) (k written : ℕ) (m : Message) : Type 0 where
  pub id_of : m.id ≡ k
  pub domain_id_of : m.domain_id ≡ s.domain_id
  pub sender_of : m.envelope_from ≡ s.from
  pub recipients_of : m.envelope_to ≡ s.rcpts
  pub size_of : m.size_bytes ≡ written
  pub state : m.status ≡ queued
  pub way : m.direction ≡ outbound
  pub due : m.next_retry_at ≡ i.now

-- The recipients that the month's account of the session's domain counts.
abbrev pub account : Input → Session → Db → ℕ
account i s db = sent_this_month s.domain_id i.month db

-- The queue, the bodies and the accounts.
abbrev IsSame : World → World → Type 0
IsSame w w' = (w'.db.queue ≡ w.db.queue) × (w'.blobs ≡ w.blobs) × (w'.db.usage ≡ w.db.usage)

told-IsSame :
    (set broken : Bool) (t : EventType) (e : Event) (w : World)
    → IsSame w (notify set t (record_event broken e w))
unfolding record_event
told-IsSame false false t e w = (refl, refl, refl)
told-IsSame false true t e w = (refl, refl, refl)
told-IsSame true false t e w = (refl, refl, refl)
told-IsSame true true t e w = (refl, refl, refl)

-- Behind the spool, which holds the body under k: either the command fails, and the body is gone
-- and the queue and the account are as they were; or it succeeds, the queue has one row more, and
-- the account counts the recipients and stays within the limit.
abbrev pub Outcome : Input → Session → ℕ → ℕ → World → Option SmtpError × World → Type 0
Outcome i s k written w r =
    ((is_some r.0 ≡ true)
      × (r.1.db.queue ≡ w.db.queue)
      × (r.1.blobs ≡ delete k w.blobs)
      × (account i s r.1.db ≡ account i s w.db))
    ⊎ ((r.0 ≡ none)
        × ((m : Message) × IsRow i s k written m × (r.1.db.queue ≡ w.db.queue ++ m ∷ []))
        × (r.1.blobs ≡ w.blobs)
        × (account i s r.1.db ≡ account i s w.db + length s.rcpts)
        × (over (account i s w.db + length s.rcpts) s.send_limit ≡ false))

reserve_sends-queue :
    (k n month : ℕ) (limit : Option ℕ) (db : Db)
    → ((reserve_sends k n limit month db).1.queue ≡ db.queue)
      × ((reserve_sends k n limit month db).1.domains ≡ db.domains)
unfolding reserve_sends
reserve_sends-queue k n month limit db =
    elim (Bool-cases (over (sent_this_month k month db + n) limit)) [
      | inl e ↦ rw e (refl, refl)
      | inr e ↦ rw e (refl, refl)
    ]

release_sends-queue :
    (k n month : ℕ) (db db' : Db) → release_sends k n month db ≡ some db' → db'.queue ≡ db.queue
unfolding release_sends
release_sends-queue k n month db db' h = elim (Bool-cases (any (is_row k month) db.usage)) [
  | inl e ↦ let h' = rw e at h in ground arith
  | inr e ↦ let h' : none ≡ some db' = rw e at h in cc
]

module _ (uc : Unicode) (o : Outside) (cfg : Config) (i : Input) (s : Session)
    (works : i.delete_fails ≡ false) (frees : i.release_fails ≡ false) where
  refused-Outcome :
      (k written : ℕ) (w : World) (e : SmtpError)
      → Outcome i s k written w (refuse uc o cfg i s k w e)
  unfolding try_delete
  refused-Outcome k written w e = rw works (inl (refl, refl, refl, refl))

  announce-IsSame : (k written : ℕ) (w : World) → IsSame w (announce uc o cfg i s k written w)
  unfolding announce
  announce-IsSame k written w =
      told-IsSame cfg.notifier i.event_fails mail_received _
        (count_received_mail uc o cfg i s written w)

  after_enqueue_lem :
      (k written before : ℕ) (w : World)
      → ((after_enqueue uc o cfg i s k written before w).0 ≡ none)
        × IsSame w (after_enqueue uc o cfg i s k written before w).1
  unfolding after_enqueue limit_reached
  after_enqueue_lem k written before w =
      let (q, b, u) = announce-IsSame k written w in
      elim (Bool-cases (reaches_limit s.send_limit before (length s.rcpts))) [
        | inl e ↦
            let (q', b', u') =
              told-IsSame cfg.notifier i.limit_event_fails send_limit_reached _
                (announce uc o cfg i s k written w) in
            rw e (refl, (q' ∙ q, b' ∙ b, u' ∙ u))
        | inr e ↦ rw e (refl, (q, b, u))
      ]

  new_message-IsRow :
      (k written : ℕ) → IsRow i s k written (Queue.new_row (new_message uc o cfg i s k written))
  unfolding new_message
  new_message-IsRow k written = record {
    id_of = refl;
    domain_id_of = refl;
    sender_of = refl;
    recipients_of = refl;
    size_of = refl;
    state = refl;
    way = refl;
    due = refl;
  }

  account-of_usage : (db db' : Db) → db.usage ≡ db'.usage → account i s db ≡ account i s db'
  unfolding sent_this_month
  account-of_usage db db' h = ap (sum_sent s.domain_id i.month) h

  tried_cases :
      (fails : Bool) (m : Message) (db : Db)
      → let row = if fails then none else Queue.enqueue m db in
        (row ≡ none) ⊎ (row ≡ some (record db { queue = db.queue ++ Queue.new_row m ∷ [] }))
  unfolding Queue.enqueue
  tried_cases true m db = inl refl
  tried_cases false m db =
      elim (Bool-cases (
        any (has_id m.id) db.queue || not (any (λ (d : Domain). d.id == m.domain_id) db.domains))) [
          | inl e ↦ rw e (inl refl)
          | inr e ↦ rw e (inr refl)
        ]

  module _ (k written : ℕ) (w : World) (key : Accounting.IsKeyed w.db.usage)
      (fits : over (account i s w.db + length s.rcpts) s.send_limit ≡ false) where
    abbrev booked : Db
    booked = (reserve_sends s.domain_id (length s.rcpts) s.send_limit i.month w.db).1

    reserved_lem : account i s booked ≡ account i s w.db + length s.rcpts
    reserved_lem =
        elim (reserve_sends_lem s.domain_id i.month (length s.rcpts) s.send_limit w.db key).1 [
          | inl (_, _, sent) ↦ sent
          | inr (wrong, _, _) ↦ absurd cc
        ]

    -- The queue refuses the row: the body is deleted and the sends are released.
    unqueued-Outcome :
        (before : ℕ)
        → Outcome i s k written w
            (enqueued uc o cfg i s k written before (record w { db = booked }) none)
    unfolding try_delete release
    unqueued-Outcome before =
        let (db', e, same) =
          release_sends-reserve_sends s.domain_id i.month (length s.rcpts) s.send_limit w.db key
            fits in
        rw (works, e, frees)
          (inl (
            refl,
            release_sends-queue s.domain_id (length s.rcpts) i.month booked db' e
                ∙ (reserve_sends-queue s.domain_id (length s.rcpts) i.month s.send_limit w.db).0,
            refl,
            same,
          ))

    -- The queue takes the row.
    queued-Outcome :
        (before : ℕ)
        → let m = new_message uc o cfg i s k written in
          Outcome i s k written w (
            enqueued uc o cfg i s k written before
              (record w { db = booked })
              (some (record booked { queue = booked.queue ++ Queue.new_row m ∷ [] })))
    queued-Outcome before =
        let m = new_message uc o cfg i s k written in
        let (done, (q, b, u)) =
          after_enqueue_lem k written before
            (record w { db = record booked { queue = booked.queue ++ Queue.new_row m ∷ [] } }) in
        let (rows, _) =
          reserve_sends-queue s.domain_id (length s.rcpts) i.month s.send_limit w.db in
        inr (
          done,
          (
            Queue.new_row m,
            new_message-IsRow k written,
            q ∙ ap (λ old. old ++ Queue.new_row m ∷ []) rows,
          ),
          b,
          account-of_usage _ booked u ∙ reserved_lem,
          fits,
        )

    file-Outcome :
        (before : ℕ)
        → Outcome i s k written w (file uc o cfg i s k written before (record w { db = booked }))
    unfolding file
    file-Outcome before =
        elim (tried_cases i.enqueue_fails (new_message uc o cfg i s k written) booked) [
          | inl e ↦
              subst
                (λ row.
                  Outcome i s k written w
                    (enqueued uc o cfg i s k written before (record w { db = booked }) row))
                (sym e) (unqueued-Outcome before)
          | inr e ↦
              subst
                (λ row.
                  Outcome i s k written w
                    (enqueued uc o cfg i s k written before (record w { db = booked }) row))
                (sym e) (queued-Outcome before)
        ]

  reserve-Outcome :
      (k written : ℕ) (w : World)
      → Accounting.IsKeyed w.db.usage
      → Outcome i s k written w (reserve uc o cfg i s k written w)
  unfolding reserve
  reserve-Outcome k written w key =
      let n = length s.rcpts in
      let (told, out) = reserve_sends_lem s.domain_id i.month n s.send_limit w.db key in
      on_if (Outcome i s k written w) i.reserve_fails (λ e. refused-Outcome k written w _)
        λ e.
          on_if (Outcome i s k written w)
            (not (reserve_sends s.domain_id n s.send_limit i.month w.db).0.0)
            (λ f. refused-Outcome k written w _)
            λ f. elim out [
              | inl (fits, _, _) ↦ file-Outcome k written w key fits _
              | inr (_, full, _) ↦ absurd (ground arith)
            ]

  -- The outcome of a whole command, where `text` is the trace header and the message.
  abbrev pub IsAccounted : ℕ → World → Option SmtpError × World → Type 0
  IsAccounted k w r =
      let text = spool_text uc o cfg i s k in
      ((is_some r.0 ≡ true)
        × (r.1.db.queue ≡ w.db.queue)
        × (r.1.blobs ≡ w.blobs)
        × (account i s r.1.db ≡ account i s w.db))
      ⊎ ((r.0 ≡ none)
          × ((m : Message) × IsRow i s k (length text) m × (r.1.db.queue ≡ w.db.queue ++ m ∷ []))
          × (r.1.blobs ≡ w.blobs ++ record { id = k; body = text } ∷ [])
          × (account i s r.1.db ≡ account i s w.db + length s.rcpts)
          × (over (account i s w.db + length s.rcpts) s.send_limit ≡ false))

  stored-IsAccounted :
      (k n : ℕ) (w : World) (blobs : List Blob) (r : Option SmtpError × World)
      → any (λ (b : Blob). b.id == k) w.blobs ≡ false
      → n ≡ length (spool_text uc o cfg i s k)
      → blobs ≡ w.blobs ++ record { id = k; body = spool_text uc o cfg i s k } ∷ []
      → Outcome i s k n (record w { blobs = blobs }) r
      → IsAccounted k w r
  stored-IsAccounted k n w blobs r fresh size bodies (inl (e, q, b, a)) = inl (
    e,
    q,
    b ∙ ap (delete k) bodies ∙ delete-stored k (spool_text uc o cfg i s k) w.blobs fresh,
    a,
  )
  stored-IsAccounted k n w blobs r fresh size bodies (inr (e, (m, row, q), b, a, within)) =
      inr (e, (m, subst (λ size_of. IsRow i s k size_of m) size row, q), b ∙ bodies, a, within)

  spooled-IsAccounted :
      (k : ℕ) (w : World) (p : PutResult)
      → any (λ (b : Blob). b.id == k) w.blobs ≡ false
      → Accounting.IsKeyed w.db.usage
      → IsPut k (spool_text uc o cfg i s k) w.blobs p
      → IsAccounted k w (spooled uc o cfg i s k w p)
  unfolding try_delete
  spooled-IsAccounted k w failed fresh key h =
      rw works (inl (refl, refl, delete-absent k w.blobs fresh, refl))
  spooled-IsAccounted k w exceeds fresh key h =
      rw works (inl (refl, refl, delete-absent k w.blobs fresh, refl))
  spooled-IsAccounted k w (stored n blobs) fresh key (size, bodies) =
      stored-IsAccounted k n w blobs (reserve uc o cfg i s k n (record w { blobs = blobs })) fresh
        size bodies (reserve-Outcome k n (record w { blobs = blobs }) key)

  as-IsAccounted :
      (k : ℕ) (w : World) (user : Option SmtpUser)
      → i.id ≡ some k
      → any (λ (b : Blob). b.id == k) w.blobs ≡ false
      → Accounting.IsKeyed w.db.usage
      → IsAccounted k w (data_as uc o cfg i s user w)
  unfolding spool
  as-IsAccounted k w none drawn fresh key = inl (refl, refl, refl, refl)
  as-IsAccounted k w (some u) drawn fresh key =
      on_if (IsAccounted k w) (s.domain_id == 0 || is_empty s.rcpts)
        (λ e. inl (refl, refl, refl, refl))
        λ e.
          subst (λ id. IsAccounted k w (with_id uc o cfg i s id w)) (sym drawn)
            (on_if (IsAccounted k w) (leb max_hops (count_received (peeked uc o cfg i s)))
              (λ f. inl (refl, refl, refl, refl))
              λ f.
                spooled-IsAccounted k w _ fresh key
                  (put-IsPut i.put_fails k (spool_text uc o cfg i s k) _ w.blobs))

  -- DATA takes a message as a whole or leaves nothing of it: either it replies with an error, and
  -- the queue, the bodies and the month's account of the domain are as they were; or it succeeds,
  -- the queue has one row more with the session's sender and recipients, the spool has its body,
  -- which is the trace header and the message, and the account counts its recipients and is still
  -- within the limit. This holds for an id that the spool does not have, where bodies can be deleted
  -- and sends released, and each domain has one account a month.
  pub data_command-IsAccounted :
      (k : ℕ) (w : World)
      → i.id ≡ some k
      → any (λ (b : Blob). b.id == k) w.blobs ≡ false
      → Accounting.IsKeyed w.db.usage
      → IsAccounted k w (data_command uc o cfg i s w)
  unfolding data_command
  data_command-IsAccounted k w drawn fresh key = as-IsAccounted k w s.user drawn fresh key
