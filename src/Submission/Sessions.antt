-- ===== src/Submission/Sessions.antt =====
-- Proofs about a whole session of internal/submission: the commands as steps, and what every
-- session that they lead to has.
use mathlib.Core.Path.{subst}
use xeron_mx.Prelude.{
  ℕ, ◌≡◌, refl, sym, ◌∙◌, ap, ◌⊎◌, inl, inr, true, false, ◌||◌, Option, none, some, [], ◌∷◌, ◌++◌,
  ◌==◌, is_empty, any, All, All-append, on_if, arith,
}
use xeron_mx.Text.{Bytes}
use xeron_mx.Unicode.{Unicode}
use xeron_mx.Store.Types.{Message}
use xeron_mx.Store.Usage.Accounting
use xeron_mx.Store.SmtpUsers.{SmtpUser, may_send}
use xeron_mx.World.{World, Blob}
use xeron_mx.Smtp.{SmtpError}
use xeron_mx.Smtpd.{Conn}
use xeron_mx.Submission.{
  Config, Outside, Session, AuthInput, Gate, MailInput, RcptInput, new, reset, authenticate, mail,
  rcpt, is_true, domain_of,
}
use xeron_mx.Submission.Replies.{authenticate_lem, mail-IsTaken, rcpt-IsListed}
use xeron_mx.Submission.Data
use xeron_mx.Submission.Data.{data_as, data_command, with_id}
use xeron_mx.Submission.Delivery.{IsRow, data_command-IsAccounted}

-- The commands of a client, in any tables and with any failures. go-smtp takes no AUTH from a client
-- that is signed in.
pub data Step (uc : Unicode) (o : Outside) (cfg : Config) : Session → Session → Type 0 where
  signing_in :
      (i : AuthInput) (g : Gate) (s : Session)
      → s.user ≡ none
      → Step uc o cfg s (authenticate uc o i s g).0.1
  from_sender :
      (i : MailInput) (from : Bytes) (w : World) (s : Session)
      → Step uc o cfg s (mail uc o cfg i from s w).1
  to_recipient :
      (i : RcptInput) (to : Bytes) (w : World) (s : Session)
      → Step uc o cfg s (rcpt uc o i to s w).1
  resetting : (s : Session) → Step uc o cfg s (reset s)

pub data Reachable (uc : Unicode) (o : Outside) (cfg : Config) : Session → Type 0 where
  opened : (conn : Option Conn) (remote : Bytes) → Reachable uc o cfg (new conn remote)
  stepped : (s t : Session) → Reachable uc o cfg s → Step uc o cfg s t → Reachable uc o cfg t

-- A user who is signed in, by the password of the account.
pub record IsSigned (o : Outside) (s : Session) (u : SmtpUser) : Type 0 where
  pub who : s.user ≡ some u
  pub password : Bytes
  pub verified : is_true (o.verify_password password u.password_hash) ≡ true
  pub is_enabled : u.enabled ≡ true

abbrev HasDomain : Unicode → Bytes → Type 0
HasDomain uc to = is_empty (domain_of uc to) ≡ false

-- Who is signed in, and whether the sender is one that this user may send as.
pub record IsEntitled (uc : Unicode) (o : Outside) (s : Session) : Type 0 where
  pub signed : (s.user ≡ none) ⊎ ((u : SmtpUser) × IsSigned o s u)
  pub sender :
      (s.domain_id ≡ 0)
      ⊎ ((u : SmtpUser) × (s.user ≡ some u) × (may_send uc u s.from ≡ true) × HasDomain uc s.from)
  pub listed : All (HasDomain uc) s.rcpts

module _ (uc : Unicode) (o : Outside) (cfg : Config) where
  IsSigned-same :
      (s t : Session) → t.user ≡ s.user → (u : SmtpUser) → IsSigned o s u → IsSigned o t u
  IsSigned-same s t h u p = record {
    who = h ∙ p.who;
    password = p.password;
    verified = p.verified;
    is_enabled = p.is_enabled;
  }

  signed-same :
      (s t : Session)
      → t.user ≡ s.user
      → (s.user ≡ none) ⊎ ((u : SmtpUser) × IsSigned o s u)
      → (t.user ≡ none) ⊎ ((u : SmtpUser) × IsSigned o t u)
  signed-same s t h (inl e) = inl (h ∙ e)
  signed-same s t h (inr (u, p)) = inr (u, IsSigned-same s t h u p)

  IsEntitled-of_eq : (s t : Session) → t ≡ s → IsEntitled uc o s → IsEntitled uc o t
  IsEntitled-of_eq s t h p = subst (IsEntitled uc o) (sym h) p

  sender-unsigned :
      (s : Session)
      → s.user ≡ none
      → (s.domain_id ≡ 0)
        ⊎ ((u : SmtpUser) × (s.user ≡ some u) × (may_send uc u s.from ≡ true) × HasDomain uc s.from)
      → s.domain_id ≡ 0
  sender-unsigned s h (inl e) = e
  sender-unsigned s h (inr (u, who, _, _)) = absurd cc

  Step-IsEntitled : (s t : Session) → Step uc o cfg s t → IsEntitled uc o s → IsEntitled uc o t
  unfolding reset
  Step-IsEntitled _ _ (signing_in i g s free) h = elim (authenticate_lem uc o i s g) [
    | inr (_, same, _) ↦ IsEntitled-of_eq s _ same h
    | inl (_, (u, c, same), _) ↦
        IsEntitled-of_eq (record s { user = some u }) _ same
          (record {
            signed = inr (
              u,
              record {
                who = refl;
                password = i.password;
                verified = c.verified;
                is_enabled = c.is_enabled;
              },
            );
            sender = inl (sender-unsigned s free h.sender);
            listed = h.listed;
          })
  ]
  Step-IsEntitled _ _ (from_sender i from w s) h = elim (mail-IsTaken uc o cfg i from s w) [
    | inr (_, same) ↦ IsEntitled-of_eq s _ same h
    | inl (_, (u, d, who, p, same)) ↦ IsEntitled-of_eq _ _ same (record {
      signed = signed-same s _ refl h.signed;
      sender = inr (u, who, p.allowed, p.named);
      listed = h.listed;
    })
  ]
  Step-IsEntitled _ _ (to_recipient i to w s) h = elim (rcpt-IsListed uc o i to s w) [
    | inr (_, same) ↦ IsEntitled-of_eq s _ same h
    | inl (_, _, _, good, _, same) ↦ IsEntitled-of_eq _ _ same (record {
      signed = signed-same s _ refl h.signed;
      sender = h.sender;
      listed = All-append (HasDomain uc) s.rcpts (to ∷ []) h.listed (good, tt);
    })
  ]
  Step-IsEntitled _ _ (resetting s) h = record {
    signed = signed-same s _ refl h.signed;
    sender = inl refl;
    listed = tt;
  }

  Reachable-IsEntitled : (s : Session) → Reachable uc o cfg s → IsEntitled uc o s
  Reachable-IsEntitled _ (opened conn remote) = record {
    signed = inl refl;
    sender = inl refl;
    listed = tt;
  }
  Reachable-IsEntitled _ (stepped s t r p) = Step-IsEntitled s t p (Reachable-IsEntitled s r)

  -- What an accepted message has.
  pub record IsAuthorised (i : Data.Input) (s : Session) (w w' : World) : Type 0 where
    pub user : SmtpUser
    pub row : Message
    pub signed : IsSigned o s user
    pub filed : w'.db.queue ≡ w.db.queue ++ row ∷ []
    pub may : may_send uc user row.envelope_from ≡ true
    pub sender_has_domain : is_empty (domain_of uc row.envelope_from) ≡ false
    pub recipients_have_domains : All (λ to. is_empty (domain_of uc to) ≡ false) row.envelope_to

  taken-domain :
      (i : Data.Input) (s : Session) (user : Option SmtpUser) (w : World)
      → (data_as uc o cfg i s user w).0 ≡ none
      → (s.domain_id == 0) ≡ false
  taken-domain i s none w h = cc
  taken-domain i s (some u) w h =
      on_if (λ (r : Option SmtpError × World). r.0 ≡ none → (s.domain_id == 0) ≡ false)
        (s.domain_id == 0 || is_empty s.rcpts) (λ e h. cc) (λ e h. ground arith) h

  row-IsAuthorised :
      (i : Data.Input) (s : Session) (w w' : World) (k written : ℕ) (u : SmtpUser) (m : Message)
      → IsRow i s k written m
      → w'.db.queue ≡ w.db.queue ++ m ∷ []
      → IsSigned o s u
      → may_send uc u s.from ≡ true
      → HasDomain uc s.from
      → All (HasDomain uc) s.rcpts
      → IsAuthorised i s w w'
  row-IsAuthorised i s w w' k written u m row at signed may named listed = record {
    user = u;
    row = m;
    signed = signed;
    filed = at;
    may = ap (may_send uc u) row.sender_of ∙ may;
    sender_has_domain = ap (λ from. is_empty (domain_of uc from)) row.sender_of ∙ named;
    recipients_have_domains = subst (All (HasDomain uc)) (sym row.recipients_of) listed;
  }

  -- Whatever commands a client sends, in whatever state of the tables: a message that DATA accepts is
  -- one row, whose sender is one that the signed-in user may send as, with a domain, and whose
  -- recipients have domains; the user's password was verified and the account was enabled. This
  -- holds for an id that the spool does not have, where bodies can be deleted and sends released,
  -- and each domain has one account a month.
  pub accepted-IsAuthorised :
      (i : Data.Input) (s : Session) (w : World) (k : ℕ)
      → Reachable uc o cfg s
      → i.delete_fails ≡ false
      → i.release_fails ≡ false
      → i.id ≡ some k
      → any (λ (b : Blob). b.id == k) w.blobs ≡ false
      → Accounting.IsKeyed w.db.usage
      → (data_command uc o cfg i s w).0 ≡ none
      → IsAuthorised i s w (data_command uc o cfg i s w).1
  unfolding data_command
  accepted-IsAuthorised i s w k reached works frees drawn fresh key done =
      let h = Reachable-IsEntitled s reached in
      let there = taken-domain i s s.user w done in
      elim (data_command-IsAccounted uc o cfg i s works frees k w drawn fresh key) [
        | inl (e, _, _, _) ↦ absurd cc
        | inr (_, (m, row, at), _, _, _) ↦ elim h.sender [
          | inl e ↦ absurd (ground arith)
          | inr (u, who, may, named) ↦ elim h.signed [
            | inl e ↦ absurd cc
            | inr (v, signed) ↦
                let same : v ≡ u = ground (arith, signed.who) in
                row-IsAuthorised i s w _ k _ u m row at (subst (IsSigned o s) same signed) may named
                  h.listed
          ]
        ]
      ]
