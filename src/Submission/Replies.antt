-- ===== src/Submission/Replies.antt =====
-- Proofs about AUTH, MAIL and RCPT (internal/submission/submission.go).
use xeron_mx.Prelude.{
  ◌+◌, ◌≡◌, refl, ap, ◌⊎◌, inl, inr, true, false, not, ◌&&◌, ◌||◌, Option, none, some, [], ◌∷◌,
  ◌++◌, ◌==◌, ltb, is_empty, is_some, length, on_if, arith,
}
use xeron_mx.Text.{Bytes, bytes_eq}
use xeron_mx.Unicode.{Unicode}
use xeron_mx.Store.Types.{Domain}
use xeron_mx.Store.Domains.{domain_by_name}
use xeron_mx.Store.Usage.{sent_this_month, over}
use xeron_mx.Store.SmtpUsers.{SmtpUser, may_send}
use xeron_mx.World.{World}
use xeron_mx.Smtp.{SmtpError}
use xeron_mx.Ratelimit
use xeron_mx.Submission.{
  Config, Outside, Session, AuthInput, Gate, MailInput, RcptInput, host_only, is_true, found_user,
  check_user, authenticate, max_password_bytes, disk_is_low, queue_is_full, domain_of, limited,
  mail, mail_as, mail_found, mail_in_domain, rcpt, rcpt_as,
}

-- What an AUTH command must bring for the user to be signed in.
pub record IsCredential (uc : Unicode) (o : Outside) (i : AuthInput) (s : Session) (g : Gate)
    (u : SmtpUser) : Type 0 where
  pub let_in : (Ratelimit.allow (host_only o.split_host s.remote) i.now g.limiter).0 ≡ true
  pub own_identity : (is_empty i.identity || bytes_eq i.identity i.username) ≡ true
  pub short : ltb max_password_bytes (length i.password) ≡ false
  pub known : found_user uc o i s g ≡ some u
  pub verified : is_true (o.verify_password i.password u.password_hash) ≡ true
  pub is_enabled : u.enabled ≡ true

module _ (uc : Unicode) (o : Outside) (i : AuthInput) (s : Session) (g : Gate) where
  -- The host of the client, and the limiter behind the attempt.
  abbrev host : Bytes
  host = host_only o.split_host s.remote

  abbrev tried : Gate
  tried = record g { limiter = (Ratelimit.allow host i.now g.limiter).1 }

  abbrev pub IsAnswer : (Option SmtpError × Session) × Gate → Type 0
  IsAnswer r =
      ((r.0.0 ≡ none)
        × ((u : SmtpUser) × IsCredential uc o i s g u × (r.0.1 ≡ record s { user = some u }))
        × (r.1.limiter ≡ Ratelimit.reset host tried.limiter))
      ⊎ ((is_some r.0.0 ≡ true) × (r.0.1 ≡ s) × (r.1 ≡ tried))

  check_user-IsAnswer :
      (user : Option SmtpUser)
      → (Ratelimit.allow host i.now g.limiter).0 ≡ true
      → (is_empty i.identity || bytes_eq i.identity i.username) ≡ true
      → ltb max_password_bytes (length i.password) ≡ false
      → found_user uc o i s g ≡ user
      → IsAnswer (check_user uc o i s user tried)
  unfolding check_user
  check_user-IsAnswer none pass own short known = inr (refl, refl, refl)
  check_user-IsAnswer (some u) pass own short known =
      on_if IsAnswer (not (is_true (o.verify_password i.password u.password_hash)))
        (λ e. inr (refl, refl, refl))
        λ e.
          on_if IsAnswer (not u.enabled) (λ f. inr (refl, refl, refl))
            λ f. inl (
              refl,
              (
                u,
                record {
                  let_in = pass;
                  own_identity = own;
                  short = short;
                  known = known;
                  verified = ground arith;
                  is_enabled = ground arith;
                },
                refl,
              ),
              refl,
            )

  -- AUTH signs a user in only if the limiter lets the host try, the client acts for itself, the
  -- password is at most 1024 bytes long and is the one of the account, and the account is enabled;
  -- then the host's attempts are forgotten. Otherwise it replies with an error, the session is as it
  -- was, and nothing changes but what the limiter notes when it is asked for the host.
  pub authenticate_lem : IsAnswer (authenticate uc o i s g)
  unfolding authenticate found_user
  authenticate_lem =
      on_if IsAnswer (not (Ratelimit.allow host i.now g.limiter).0) (λ e. inr (refl, refl, refl))
        λ e.
          on_if IsAnswer (not (is_empty i.identity) && not (bytes_eq i.identity i.username))
            (λ f. inr (refl, refl, refl))
            λ f.
              on_if IsAnswer (ltb max_password_bytes (length i.password))
                (λ h. inr (refl, refl, refl))
                λ h.
                  check_user-IsAnswer (found_user uc o i s g) (ground arith) (ground arith) h refl

-- What the server must know of a sender to take MAIL from it.
pub record IsSender (uc : Unicode) (cfg : Config) (i : MailInput) (from : Bytes) (w : World)
    (u : SmtpUser) (d : Domain) : Type 0 where
  pub allowed : may_send uc u from ≡ true
  pub named : is_empty (domain_of uc from) ≡ false
  pub found : domain_by_name uc (domain_of uc from) w.db ≡ some d
  pub is_enabled : d.enabled ≡ true
  pub up : i.draining ≡ false
  pub disk : disk_is_low cfg i.disk ≡ false
  pub queue : queue_is_full cfg w ≡ false

module _ (uc : Unicode) (o : Outside) (cfg : Config) (i : MailInput) (from : Bytes) (s : Session)
    (w : World) where
  abbrev pub IsTaken : Option SmtpError × Session → Type 0
  IsTaken r =
      ((r.0 ≡ none)
        × ((u : SmtpUser) × (d : Domain) × (s.user ≡ some u)
            × IsSender uc cfg i from w u d
            × (r.1
                ≡ record s { from = from; domain_id = d.id; send_limit = d.monthly_send_limit })))
      ⊎ ((is_some r.0 ≡ true) × (r.1 ≡ s))

  found-IsTaken :
      (u : SmtpUser) (found : Option Domain)
      → s.user ≡ some u
      → may_send uc u from ≡ true
      → is_empty (domain_of uc from) ≡ false
      → domain_by_name uc (domain_of uc from) w.db ≡ found
      → IsTaken (mail_found uc o cfg i from s w found)
  unfolding mail_in_domain
  found-IsTaken u none who may named at = inr (refl, refl)
  found-IsTaken u (some d) who may named at =
      on_if IsTaken (not d.enabled) (λ e. inr (refl, refl))
        λ e.
          on_if IsTaken i.stats_fails (λ f. inr (refl, refl))
            λ f.
              on_if IsTaken i.draining (λ up. inr (refl, refl))
                λ up.
                  on_if IsTaken (disk_is_low cfg i.disk) (λ disk. inr (refl, refl))
                    λ disk.
                      on_if IsTaken (queue_is_full cfg w) (λ queue. inr (refl, refl))
                        λ queue. inl (
                          refl,
                          (
                            u,
                            d,
                            who,
                            record {
                              allowed = may;
                              named = named;
                              found = at;
                              is_enabled = ground arith;
                              up = up;
                              disk = disk;
                              queue = queue;
                            },
                            refl,
                          ),
                        )

  as-IsTaken : (user : Option SmtpUser) → s.user ≡ user → IsTaken (mail_as uc o cfg i from s w user)
  unfolding mail_as
  as-IsTaken none who = inr (refl, refl)
  as-IsTaken (some u) who =
      on_if IsTaken (not (may_send uc u from)) (λ e. inr (refl, refl))
        λ e.
          on_if IsTaken (is_empty (domain_of uc from)) (λ f. inr (refl, refl))
            λ f.
              on_if IsTaken i.domain_fails (λ h. inr (refl, refl))
                λ h.
                  found-IsTaken u (domain_by_name uc (domain_of uc from) w.db) who (ground arith) f
                    refl

  -- MAIL is taken only from a signed-in user who may send as the address, of a domain that is
  -- configured and enabled, while the server is not draining and the disk and the queue have room; the
  -- session then has the sender and the domain with its limit. Otherwise the reply is an error and
  -- the session is as it was.
  pub mail-IsTaken : IsTaken (mail uc o cfg i from s w)
  unfolding mail
  mail-IsTaken = as-IsTaken s.user refl

module _ (uc : Unicode) (o : Outside) (i : RcptInput) (to : Bytes) (s : Session) (w : World) where
  -- What rcpt-IsListed says of an outcome.
  abbrev pub IsListed : Option SmtpError × Session → Type 0
  IsListed r =
      ((r.0 ≡ none)
        × (is_some s.user ≡ true)
        × ((s.domain_id == 0) ≡ false)
        × (is_empty (domain_of uc to) ≡ false)
        × (over (sent_this_month s.domain_id i.month w.db + length s.rcpts + 1) s.send_limit
            ≡ false)
        × (r.1 ≡ record s { rcpts = s.rcpts ++ to ∷ [] }))
      ⊎ ((is_some r.0 ≡ true) × (r.1 ≡ s))

  as-IsListed : (user : Option SmtpUser) → s.user ≡ user → IsListed (rcpt_as uc o i to s w user)
  unfolding rcpt_as
  as-IsListed none who = inr (refl, refl)
  as-IsListed (some u) who =
      on_if IsListed (s.domain_id == 0) (λ e. inr (refl, refl))
        λ e.
          on_if IsListed (is_empty (domain_of uc to)) (λ f. inr (refl, refl))
            λ f.
              on_if IsListed (limited s.send_limit && i.usage_fails) (λ h. inr (refl, refl))
                λ h.
                  on_if IsListed
                    (over (sent_this_month s.domain_id i.month w.db + length s.rcpts + 1)
                      s.send_limit)
                    (λ full. inr (refl, refl)) λ room. inl (refl, ap is_some who, e, f, room, refl)

  -- RCPT is taken only from a signed-in user behind a MAIL command, for an address with a domain, and
  -- only where the month's account of the sender's domain has room for one recipient more than the
  -- session already has; the session then has the recipient. Otherwise the reply is an error and
  -- the session is as it was.
  pub rcpt-IsListed : IsListed (rcpt uc o i to s w)
  unfolding rcpt
  rcpt-IsListed = as-IsListed s.user refl
