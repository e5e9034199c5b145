-- ===== src/Smtpd/Delivery.antt =====
-- Proofs about a whole DATA command (internal/smtpd/smtpd.go).
use xeron_mx.Prelude.{
  ℕ, ◌≡◌, refl, sym, ◌∙◌, ap, ◌⊎◌, inl, inr, true, false, ◌&&◌, ◌||◌, Option, none, some, List, [],
  ◌∷◌, ◌++◌, ◌==◌, leb, is_empty, is_some, any, length, Bool-cases,
}
use mathlib.Core.Path.{subst}
use xeron_mx.Text.{Bytes, codes}
use xeron_mx.Unicode.{Unicode}
use xeron_mx.Store.Types.{mail_rejected, Message}
use xeron_mx.World.{
  count_filter_match, try_delete, reject, World, Blob, delete, stored, exceeds, failed, PutResult,
}
use xeron_mx.World.Keeps.{
  delete-absent, IsPut, put-IsPut, record_event-IsSame, count_filter_match-IsSame, delete-stored,
  IsSame,
}
use xeron_mx.Mailutil.{count_received, max_hops}
use xeron_mx.Smtp.{SmtpError}
use xeron_mx.Spam
use xeron_mx.Filter
use xeron_mx.Smtpd.{Config, Session, session_event}
use xeron_mx.Smtpd.Data.{
  with_id, peek, peeked, refuse, judge_virus, Input, Outside, Spooled, Malware, scan_malware,
  scan_spam, apply_filter, spooled, spool, data_command, spool_text, rejects, verdict_of,
  check_spam,
}
use xeron_mx.Smtpd.Accept.{IsRow, Outcome, refused-Outcome, rejected-Outcome, accept-Outcome}

module _ (u : Unicode) (re : Filter.Regexp) (o : Outside) (cfg : Config) (i : Input) (s : Session)
    (works : i.delete_fails ≡ false) where
  judge_virus-Outcome :
      (p : Spooled) (v : Spam.Verdict) (m : Malware) (virus : Option Bytes) (w : World)
      → Outcome i s p.id p.written w (judge_virus u re o cfg i s p v m virus w)
  judge_virus-Outcome p v m none w = accept-Outcome u re o cfg i s works p v m w
  judge_virus-Outcome p v m (some name) w = elim (Bool-cases (rejects cfg.clamav)) [
    | inl e ↦ rw e (rejected-Outcome u re o cfg i s works p.id p.written w _)
    | inr e ↦ rw e (
        accept-Outcome u re o cfg i s works (record p { quarantine = codes "malware: " ++ name }) v
          m w)
  ]

  scan_spam-Outcome :
      (p : Spooled) (w : World) → Outcome i s p.id p.written w (scan_spam u re o cfg i s p w)
  unfolding scan_spam scan_malware
  scan_spam-Outcome p w =
      let v = check_spam cfg i p.id p.written w in
      elim (Bool-cases (Spam.rejects v.action)) [
        | inl e ↦ rw e (rejected-Outcome u re o cfg i s works p.id p.written w _)
        | inr e ↦ rw e (elim (Bool-cases (Spam.defers v.action && cfg.spam_defer)) [
          | inl f ↦ rw f (refused-Outcome u re o cfg i s works p.id p.written w _)
          | inr f ↦ rw f (judge_virus-Outcome p v _ _ w)
        ])
      ]

  Outcome-of_same :
      (k written : ℕ) (w w1 : World) (r : Option SmtpError × World)
      → IsSame w w1
      → Outcome i s k written w1 r
      → Outcome i s k written w r
  Outcome-of_same k written w w1 r (rows, bodies) (inl (e, q, b)) =
      inl (e, q ∙ rows, b ∙ ap (delete k) bodies)
  Outcome-of_same k written w w1 r (rows, bodies) (inr (e, (m, row, q), b)) =
      inr (e, (m, row, q ∙ ap (λ old. old ++ m ∷ []) rows), b ∙ bodies)

  deleted :
      (k : ℕ) (w : World)
      → let w' = reject (try_delete i.delete_fails k w) in
        (w'.db.queue ≡ w.db.queue) × (w'.blobs ≡ delete k w.blobs)
  unfolding try_delete
  deleted k w = rw works (refl, refl)

  apply_filter-Outcome :
      (p : Spooled) (w : World) (v : Option Filter.Verdict)
      → Outcome i s p.id p.written w (apply_filter u re o cfg i s p w v)
  unfolding apply_filter
  apply_filter-Outcome p w none = scan_spam-Outcome p w
  apply_filter-Outcome p w (some v) = elim (Bool-cases (Filter.is_reject v.action)) [
    | inl e ↦ rw e (
        let w1 = reject (try_delete i.delete_fails p.id w) in
        let w2 = count_filter_match i.match_fails v.filter_id i.now w1 in
        let (q, b) = record_event-IsSame i.event_fails (session_event s mail_rejected none) w2 in
        let (q', b') = count_filter_match-IsSame i.match_fails v.filter_id i.now w1 in
        let (q'', b'') = deleted p.id w in inl (refl, q ∙ q' ∙ q'', b ∙ b' ∙ b''))
    | inr e ↦ rw e (elim (Bool-cases (Filter.is_quarantine v.action)) [
      | inl f ↦ rw f (
          Outcome-of_same p.id p.written w (count_filter_match i.match_fails v.filter_id i.now w)
            (scan_spam u re o cfg i s (record p { quarantine = Filter.reason o.quote v })
              (count_filter_match i.match_fails v.filter_id i.now w))
            (count_filter_match-IsSame i.match_fails v.filter_id i.now w)
            (scan_spam-Outcome (record p { quarantine = Filter.reason o.quote v })
              (count_filter_match i.match_fails v.filter_id i.now w)))
      | inr f ↦ rw f (scan_spam-Outcome p w)
    ])
  ]

  -- What the spool holds for the message.
  abbrev pub text : ℕ → Bytes
  text k = spool_text u re o cfg i s k

  -- The outcome of a whole command: nothing is left of a refused message, and an accepted one is one
  -- row and one body, which is the trace header and the message as it was received.
  abbrev pub IsAtomic : ℕ → World → Option SmtpError × World → Type 0
  IsAtomic k w r =
      ((is_some r.0 ≡ true) × (r.1.db.queue ≡ w.db.queue) × (r.1.blobs ≡ w.blobs))
      ⊎ ((r.0 ≡ none)
          × ((m : Message) × IsRow i s k (length (text k)) m
              × (r.1.db.queue ≡ w.db.queue ++ m ∷ []))
          × (r.1.blobs ≡ w.blobs ++ record { id = k; body = text k } ∷ []))

  stored-IsAtomic :
      (k n : ℕ) (w : World) (blobs : List Blob) (r : Option SmtpError × World)
      → any (λ (b : Blob). b.id == k) w.blobs ≡ false
      → n ≡ length (text k)
      → blobs ≡ w.blobs ++ record { id = k; body = text k } ∷ []
      → Outcome i s k n (record w { blobs = blobs }) r
      → IsAtomic k w r
  stored-IsAtomic k n w blobs r fresh size bodies (inl (e, q, b)) =
      inl (e, q, b ∙ ap (delete k) bodies ∙ delete-stored k (text k) w.blobs fresh)
  stored-IsAtomic k n w blobs r fresh size bodies (inr (e, (m, row, q), b)) =
      inr (e, (m, subst (λ size_of. IsRow i s k size_of m) size row, q), b ∙ bodies)

  unspooled :
      (k : ℕ) (w : World) (e : SmtpError)
      → any (λ (b : Blob). b.id == k) w.blobs ≡ false
      → IsAtomic k w (refuse u re o cfg i s k w e)
  unfolding try_delete
  unspooled k w e fresh = rw works (inl (refl, refl, delete-absent k w.blobs fresh))

  spooled-IsAtomic :
      (p : Spooled) (w : World) (r : PutResult)
      → any (λ (b : Blob). b.id == p.id) w.blobs ≡ false
      → IsPut p.id (text p.id) w.blobs r
      → IsAtomic p.id w (spooled u re o cfg i s p w r)
  unfolding spooled
  spooled-IsAtomic p w failed fresh h = unspooled p.id w _ fresh
  spooled-IsAtomic p w exceeds fresh h = unspooled p.id w _ fresh
  spooled-IsAtomic p w (stored n blobs) fresh (size, bodies) =
      stored-IsAtomic p.id n w blobs
        (apply_filter u re o cfg i s (record p { written = n }) (record w { blobs = blobs })
          (verdict_of u re o cfg i s p.subject cfg.filters))
        fresh size bodies
        (apply_filter-Outcome (record p { written = n }) (record w { blobs = blobs }) _)

  spool-IsAtomic :
      (k : ℕ) (w : World)
      → any (λ (b : Blob). b.id == k) w.blobs ≡ false
      → IsAtomic k w (spool u re o cfg i s k w)
  unfolding spool
  spool-IsAtomic k w fresh =
      spooled-IsAtomic (peek u re o cfg i s k) w _ fresh
        (put-IsPut i.put_fails k (text k) _ w.blobs)

  with_id-IsAtomic :
      (k : ℕ) (w : World)
      → any (λ (b : Blob). b.id == k) w.blobs ≡ false
      → IsAtomic k w (with_id u re o cfg i s (some k) w)
  with_id-IsAtomic k w fresh =
      elim (Bool-cases (leb max_hops (count_received (peeked u re o cfg i s)))) [
        | inl f ↦ rw f (inl (refl, refl, refl))
        | inr f ↦ rw f (spool-IsAtomic k w fresh)
      ]

  -- A DATA command, whatever the checkers answer and whichever statements fail, leaves nothing of a
  -- message that it refuses, and of one that it accepts exactly one queued row and the body, with the
  -- sender, the recipients and the domain of the session. This holds for an id that the spool does
  -- not have and where bodies can be deleted.
  pub data_command-IsAtomic :
      (k : ℕ) (w : World)
      → i.id ≡ some k
      → any (λ (b : Blob). b.id == k) w.blobs ≡ false
      → IsAtomic k w (data_command u re o cfg i s w)
  unfolding data_command
  data_command-IsAtomic k w drawn fresh = elim (Bool-cases (s.domain_id == 0 || is_empty s.rcpts)) [
    | inl e ↦ rw e (inl (refl, refl, refl))
    | inr e ↦ rw e (
        subst (λ drawn_id. IsAtomic k w (with_id u re o cfg i s drawn_id w)) (sym drawn)
          (with_id-IsAtomic k w fresh))
  ]
