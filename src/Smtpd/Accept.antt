-- ===== src/Smtpd/Accept.antt =====
-- Proofs about the end of a DATA command (internal/smtpd/smtpd.go): accepting and refusing.
use xeron_mx.Prelude.{
  ℕ, ◌≡◌, refl, ◌∙◌, ◌⊎◌, inl, inr, true, false, ◌&&◌, ◌||◌, Option, none, some, List, [], ◌∷◌,
  ◌++◌, ◌==◌, if◌then◌else◌, is_empty, is_some, is_none, any, Bool-cases, arith,
}
use xeron_mx.Text.{Bytes, truncate}
use xeron_mx.Unicode.{Unicode}
use xeron_mx.Store.Types.{mail_rejected, mail_received, Message, Domain, queued, inbound}
use xeron_mx.Store.Queue
use xeron_mx.Store.Queue.{has_id, update_where}
use xeron_mx.Store.Queue.Rows.{update_where-absent, update_where-append, any-snoc}
use xeron_mx.World.{try_delete, reject, World, delete}
use xeron_mx.World.Keeps.{told-IsSame, record_event-IsSame}
use xeron_mx.Smtp.{SmtpError}
use xeron_mx.Spam
use xeron_mx.Filter
use xeron_mx.Smtpd.{Config, Session, session_event}
use xeron_mx.Smtpd.Data.{
  refuse, rejected, count_received_mail, Input, Outside, Spooled, Malware, accept, after_enqueue,
  apply_quarantine, new_message,
}

-- A row of the message that the session gave, waiting for its first delivery.
pub record IsRow (i : Input) (s : Session) (k written : ℕ) (m : Message) : Type 0 where
  pub id_of : m.id ≡ k
  pub domain_of : m.domain_id ≡ s.domain_id
  pub sender_of : m.envelope_from ≡ s.from
  pub recipients_of : m.envelope_to ≡ s.rcpts
  pub size_of : m.size_bytes ≡ written
  pub state : m.status ≡ queued
  pub way : m.direction ≡ inbound
  pub received : m.received_at ≡ i.now
  pub due : m.next_retry_at ≡ i.now

-- Either the command fails, and the queue is as it was and the body of the message gone; or it
-- succeeds, and the queue has one row more and the bodies stay.
abbrev pub Outcome : Input → Session → ℕ → ℕ → World → Option SmtpError × World → Type 0
Outcome i s k written w (reply, w') =
    ((is_some reply ≡ true) × (w'.db.queue ≡ w.db.queue) × (w'.blobs ≡ delete k w.blobs))
    ⊎ ((reply ≡ none)
        × ((m : Message) × IsRow i s k written m × (w'.db.queue ≡ w.db.queue ++ m ∷ []))
        × (w'.blobs ≡ w.blobs))

module _ (u : Unicode) (re : Filter.Regexp) (o : Outside) (cfg : Config) (i : Input) (s : Session)
    (works : i.delete_fails ≡ false) where
  -- The row after its quarantine, if it was called for and the statement ran.
  abbrev pub filed : Spooled → Message → Message
  filed p m =
      if is_empty p.quarantine || i.quarantine_fails
      then m
      else record m { quarantined_at = some i.now; quarantine_reason = truncate p.quarantine 500 }

  quarantine-snoc :
      (k : ℕ) (reason : Bytes) (q : List Message) (m : Message)
      → m.id ≡ k
      → m.quarantined_at ≡ none
      → any (has_id k) q ≡ false
      → Queue.quarantine k reason i.now (q ++ m ∷ [])
        ≡ some (
            q
            ++ record m { quarantined_at = some i.now; quarantine_reason = truncate reason 500 }
              ∷ [])
  unfolding Queue.quarantine Queue.exec_update
  quarantine-snoc k reason q m same free fresh =
      let picked : ((m.id == k) && is_none m.quarantined_at) ≡ true = ground arith in
      rw
        (
          any-snoc _ q m picked,
          update_where-append _ _ q (m ∷ []),
          update_where-absent (λ n. n.id == k && is_none n.quarantined_at) _ k q
              (λ n e. ground arith) fresh,
        )
        (unfold update_where in rw picked refl)

  -- A command that ends with a reply deletes the body first.
  pub refused-Outcome :
      (k written : ℕ) (w : World) (e : SmtpError)
      → Outcome i s k written w (refuse u re o cfg i s k w e)
  unfolding try_delete
  refused-Outcome k written w e = rw works (inl (refl, refl, refl))

  pub rejected-Outcome :
      (k written : ℕ) (w : World) (e : SmtpError)
      → Outcome i s k written w (rejected u re o cfg i s k w e)
  unfolding try_delete
  rejected-Outcome k written w e = rw works (
      let (q, b) =
        record_event-IsSame i.event_fails (session_event s mail_rejected none)
          (reject (try_delete false k w)) in
      inl (refl, q, b))

  apply_quarantine_lem :
      (p : Spooled) (w : World) (q : List Message) (m : Message)
      → m.id ≡ p.id
      → m.quarantined_at ≡ none
      → any (has_id p.id) q ≡ false
      → w.db.queue ≡ q ++ m ∷ []
      → let w' = apply_quarantine u re o cfg i s p w in
        (w'.db.queue ≡ q ++ filed p m ∷ []) × (w'.blobs ≡ w.blobs)
  unfolding apply_quarantine
  apply_quarantine_lem p w q m same free fresh at = elim (Bool-cases (is_empty p.quarantine)) [
    | inl e ↦ rw e (at, refl)
    | inr e ↦ rw e (elim (Bool-cases i.quarantine_fails) [
      | inl f ↦ rw f (at, refl)
      | inr f ↦
          rw (f, at, quarantine-snoc p.id p.quarantine q m same free fresh) (told-IsSame _ _ _ _ _)
    ])
  ]

  after_enqueue_lem :
      (p : Spooled) (w : World) (q : List Message) (m : Message)
      → m.id ≡ p.id
      → m.quarantined_at ≡ none
      → any (has_id p.id) q ≡ false
      → w.db.queue ≡ q ++ m ∷ []
      → let (reply, w') = after_enqueue u re o cfg i s p w in
        (reply ≡ none) × (w'.db.queue ≡ q ++ filed p m ∷ []) × (w'.blobs ≡ w.blobs)
  unfolding after_enqueue
  after_enqueue_lem p w q m same free fresh at =
      let (rows, bodies) = apply_quarantine_lem p w q m same free fresh at in
      let (rows', bodies') =
        told-IsSame cfg.notifier i.event_fails mail_received
          (session_event s mail_received (some p.id))
          (count_received_mail u re o cfg i s p.written (apply_quarantine u re o cfg i s p w)) in
      (refl, rows' ∙ rows, bodies' ∙ bodies)

  -- An accepted message is in the queue, quarantined where a filter or the scanner asked for it.
  pub accept_lem :
      (p : Spooled) (v : Spam.Verdict) (m : Malware) (w : World)
      → let (reply, w') = accept u re o cfg i s p v m w in
        ((is_some reply ≡ true) × (w'.db.queue ≡ w.db.queue) × (w'.blobs ≡ delete p.id w.blobs))
        ⊎ ((reply ≡ none)
            × (w'.db.queue ≡ w.db.queue ++ filed p (new_message u re o cfg i s p v m w) ∷ [])
            × (w'.blobs ≡ w.blobs))
  unfolding accept Queue.enqueue try_delete new_message
  accept_lem p v m w = elim (Bool-cases i.enqueue_fails) [
    | inl e ↦ rw (e, works) (inl (refl, refl, refl))
    | inr e ↦ rw e (elim (Bool-cases (any (has_id p.id) w.db.queue)) [
      | inl f ↦ rw (f, works) (inl (refl, refl, refl))
      | inr f ↦ rw f (elim (Bool-cases (any (λ (d : Domain). d.id == s.domain_id) w.db.domains)) [
        | inl g ↦ rw g (inr (after_enqueue_lem p _ w.db.queue _ refl refl f refl))
        | inr g ↦ rw (g, works) (inl (refl, refl, refl))
      ])
    ])
  ]

  filed-IsRow :
      (p : Spooled) (v : Spam.Verdict) (m : Malware) (w : World)
      → IsRow i s p.id p.written (filed p (new_message u re o cfg i s p v m w))
  unfolding new_message
  filed-IsRow p v m w = elim (Bool-cases (is_empty p.quarantine || i.quarantine_fails)) [
    | inl e ↦ rw e (record {
      id_of = refl;
      domain_of = refl;
      sender_of = refl;
      recipients_of = refl;
      size_of = refl;
      state = refl;
      way = refl;
      received = refl;
      due = refl;
    })
    | inr e ↦ rw e (record {
      id_of = refl;
      domain_of = refl;
      sender_of = refl;
      recipients_of = refl;
      size_of = refl;
      state = refl;
      way = refl;
      received = refl;
      due = refl;
    })
  ]

  pub accept-Outcome :
      (p : Spooled) (v : Spam.Verdict) (m : Malware) (w : World)
      → Outcome i s p.id p.written w (accept u re o cfg i s p v m w)
  accept-Outcome p v m w = elim (accept_lem p v m w) [
    | inl refused ↦ inl refused
    | inr done ↦ inr (
      done.0,
      (filed p (new_message u re o cfg i s p v m w), filed-IsRow p v m w, done.1),
      done.2,
    )
  ]
