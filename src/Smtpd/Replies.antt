-- ===== src/Smtpd/Replies.antt =====
-- Proofs about MAIL and RCPT (internal/smtpd/smtpd.go).
use xeron_mx.Prelude.{
  ℕ, ◌≡◌, refl, ◌⊎◌, inl, inr, Bool, true, false, not, ◌&&◌, ◌||◌, Option, none, some, [], ◌∷◌,
  ◌++◌, ◌==◌, is_empty, is_some, Bool-cases, Option-cases, arith,
}
use xeron_mx.Text.{Bytes, after_last}
use xeron_mx.Unicode.{Unicode}
use xeron_mx.Store.Types.{Db, Domain, Event, EventType}
use xeron_mx.Store.Queue.{count_pending_for_domain}
use xeron_mx.Store.Domains.{domain_by_name, recipient_allowed}
use xeron_mx.World.{World, record_event, notify, reject}
use xeron_mx.Smtp.{SmtpError, IsTemporary}
use xeron_mx.Smtpd.{
  Config, Session, MailInput, RcptInput, mail, rcpt, rcpt_in_domain, take_recipient, spool_is_full,
  disk_is_low, capped, reaches,
}

-- The tables and the bodies that a handler which takes no message leaves alone.
abbrev pub IsKept : World → World → Type 0
IsKept w w' =
    (w'.db.queue ≡ w.db.queue)
    × (w'.db.domains ≡ w.db.domains)
    × (w'.db.recipients ≡ w.db.recipients)
    × (w'.blobs ≡ w.blobs)

told-IsKept :
    (set broken : Bool) (t : EventType) (e : Event) (w : World)
    → IsKept w (notify set t (record_event broken e (reject w)))
unfolding record_event
told-IsKept false false t e w = (refl, refl, refl, refl)
told-IsKept false true t e w = (refl, refl, refl, refl)
told-IsKept true false t e w = (refl, refl, refl, refl)
told-IsKept true true t e w = (refl, refl, refl, refl)

-- MAIL is taken exactly if the server is not draining, the disk and the spool have room and the
-- queue can be counted; otherwise the reply is a temporary one and the session stays as it was.
-- Neither touches the queue, the domains or the bodies.
pub mail_lem :
    (cfg : Config) (i : MailInput) (from : Bytes) (s : Session) (w : World)
    → let ((reply, s'), w') = mail cfg i from s w in
      let room =
        not i.draining
        && (not (disk_is_low cfg i.disk) && (not i.stats_fails && not (spool_is_full cfg w))) in
      IsKept w w'
      × (((room ≡ true) × (reply ≡ none) × (s' ≡ record s { from = from }))
          ⊎ ((room ≡ false) × (s' ≡ s) × ((e : SmtpError) × (reply ≡ some e) × IsTemporary e)))
unfolding mail
mail_lem cfg i from s w = elim (Bool-cases i.draining) [
  | inl e ↦ rw e ((refl, refl, refl, refl), inr (refl, refl, (_, refl, (omega arith, omega arith))))
  | inr e ↦ rw e (elim (Bool-cases (disk_is_low cfg i.disk)) [
    | inl f ↦ rw f (told-IsKept _ _ _ _ w, inr (refl, refl, (_, refl, (omega arith, omega arith))))
    | inr f ↦ rw f (elim (Bool-cases i.stats_fails) [
      | inl g ↦
          rw g ((refl, refl, refl, refl), inr (refl, refl, (_, refl, (omega arith, omega arith))))
      | inr g ↦ rw g (elim (Bool-cases (spool_is_full cfg w)) [
        | inl h ↦
            rw h (told-IsKept _ _ _ _ w, inr (refl, refl, (_, refl, (omega arith, omega arith))))
        | inr h ↦ rw h ((refl, refl, refl, refl), inl (refl, refl, refl))
      ])
    ])
  ])
]

-- What the server must know of an address to take it: its domain is configured and enabled under
-- the id k, and lists the address if it lists any.
pub record IsServed (u : Unicode) (db : Db) (k : ℕ) (to : Bytes) : Type 0 where
  pub name : Bytes
  pub after_at : after_last b'@' to ≡ some name
  pub served : Domain
  pub found : domain_by_name u (u.to_lower name) db ≡ some served
  pub has_key : served.id ≡ k
  pub is_enabled : served.enabled ≡ true
  pub allowed : recipient_allowed u k to db ≡ true

module _ (u : Unicode) (cfg : Config) (i : RcptInput) (to : Bytes) (s : Session) (w : World) where
  -- The outcome of a RCPT command that stands after the lookup of the domain.
  abbrev Took : (Option SmtpError × Session) × World → Domain → Type 0
  Took r d =
      IsKept w r.1
      × (((r.0.0 ≡ none)
            × (r.0.1 ≡ record s { domain_id = d.id; domain = d.name; rcpts = s.rcpts ++ to ∷ [] }))
          ⊎ ((is_some r.0.0 ≡ true) × (r.0.1 ≡ s)))

  take_recipient-Took : (d : Domain) → Took (take_recipient u cfg i to d s w) d
  unfolding take_recipient
  take_recipient-Took d = elim (Bool-cases (capped d.max_queue_messages)) [
    | inr e ↦ rw e ((refl, refl, refl, refl), inl (refl, refl))
    | inl e ↦ rw e (elim (Bool-cases i.count_fails) [
      | inl f ↦ rw f ((refl, refl, refl, refl), inr (refl, refl))
      | inr f ↦
          rw f
            (elim (Bool-cases
              (reaches (count_pending_for_domain d.id w.db.queue) d.max_queue_messages)) [
                | inl g ↦ rw g (told-IsKept _ _ _ _ w, inr (refl, refl))
                | inr g ↦ rw g ((refl, refl, refl, refl), inl (refl, refl))
              ])
    ])
  ]

  -- What rcpt_lem says of an outcome.
  abbrev pub IsReply : (Option SmtpError × Session) × World → Type 0
  IsReply r =
      IsKept w r.1
      × (((r.0.0 ≡ none)
            × IsServed u w.db r.0.1.domain_id to
            × ((s.domain_id == 0 || s.domain_id == r.0.1.domain_id) ≡ true)
            × (r.0.1.rcpts ≡ s.rcpts ++ to ∷ [])
            × (r.0.1.from ≡ s.from))
          ⊎ ((is_some r.0.0 ≡ true) × (r.0.1 ≡ s)))

  served :
      (name : Bytes) (d : Domain)
      → after_last b'@' to ≡ some name
      → domain_by_name u (u.to_lower name) w.db ≡ some d
      → d.enabled ≡ true
      → recipient_allowed u d.id to w.db ≡ true
      → (not (s.domain_id == 0) && not (s.domain_id == d.id)) ≡ false
      → IsReply (take_recipient u cfg i to d s w)
  served name d at found on allowed one =
      let (kept, out) = take_recipient-Took d in
      (
        kept,
        elim out [
          | inr same ↦ inr same
          | inl (done, taken) ↦ inl (
            done,
            rw taken (record {
              name = name;
              after_at = at;
              served = d;
              found = found;
              has_key = refl;
              is_enabled = on;
              allowed = allowed;
            }),
            rw taken (ground arith),
            rw taken refl,
            rw taken refl,
          )
        ],
      )

  in_domain :
      (name : Bytes) (d : Domain)
      → after_last b'@' to ≡ some name
      → domain_by_name u (u.to_lower name) w.db ≡ some d
      → IsReply (rcpt_in_domain u cfg i to d s w)
  unfolding rcpt_in_domain
  in_domain name d at found = elim (Bool-cases d.enabled) [
    | inr e ↦ rw e ((refl, refl, refl, refl), inr (refl, refl))
    | inl e ↦ rw e (elim (Bool-cases (not (s.domain_id == 0) && not (s.domain_id == d.id))) [
      | inl f ↦ rw f ((refl, refl, refl, refl), inr (refl, refl))
      | inr f ↦ rw f (elim (Bool-cases i.recipient_fails) [
        | inl g ↦ rw g ((refl, refl, refl, refl), inr (refl, refl))
        | inr g ↦ rw g (elim (Bool-cases (recipient_allowed u d.id to w.db)) [
          | inr h ↦ rw h ((refl, refl, refl, refl), inr (refl, refl))
          | inl h ↦ rw h (served name d at found e h f)
        ])
      ])
    ])
  ]

  -- RCPT takes a recipient only of an enabled domain that is configured, only where the domain lists
  -- the address or lists none, and only of the domain that the session began with. Otherwise it
  -- replies with an error and the session is as it was. It never touches the queue, the domains or
  -- the bodies.
  pub rcpt_lem : IsReply (rcpt u cfg i to s w)
  unfolding rcpt
  rcpt_lem = elim (Option-cases (after_last b'@' to)) [
    | inl e ↦ rw e ((refl, refl, refl, refl), inr (refl, refl))
    | inr (name, e) ↦ rw e (elim (Bool-cases (is_empty name)) [
      | inl f ↦ rw f ((refl, refl, refl, refl), inr (refl, refl))
      | inr f ↦ rw f (elim (Bool-cases i.domain_fails) [
        | inl g ↦ rw g ((refl, refl, refl, refl), inr (refl, refl))
        | inr g ↦ rw g (elim (Option-cases (domain_by_name u (u.to_lower name) w.db)) [
          | inl h ↦ rw h ((refl, refl, refl, refl), inr (refl, refl))
          | inr (d, h) ↦ rw h (in_domain name d e h)
        ])
      ])
    ])
  ]
