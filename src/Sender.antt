-- ===== src/Sender.antt =====
-- internal/sender: the SMTP conversation that hands a message over (transmit in outbound.go), and
-- what it says of each recipient. The answers of the other server are inputs; `none` is a good reply.
pub mod Direct
pub mod Deliver
pub mod Tally
pub mod Partition
pub mod Bounces
pub mod Settled
pub mod Released
pub mod Bodies
mod Examples
use xeron_mx.Prelude.{
  ℕ, suc, Bool, Option, none, some, List, [], ◌∷◌, ◌++◌, map, if◌then◌else◌, is_empty,
}
use xeron_mx.Text.{Bytes, codes}
use xeron_mx.Smtp.{is_permanent}

-- An error that wraps an SMTP reply with this code, or one that does not.
pub data SendError : Type 0 where
  reply : ℕ → Bytes → SendError
  other : Bytes → SendError

-- errors.As(err, &reply) && reply.Code >= 500 && reply.Code < 600
abbrev pub permanent : SendError → Bool
permanent (reply code text) = is_permanent code
permanent (other text) = Bool.false

abbrev pub error_text : SendError → Bytes
error_text (reply code text) = text
error_text (other text) = text

-- fmt.Errorf("…: %w", err)
abbrev pub wrap : Bytes → SendError → SendError
wrap prefix (reply code text) = reply code (prefix ++ text)
wrap prefix (other text) = other (prefix ++ text)

pub record RecipientFailure : Type 0 where
  pub rcpt : Bytes
  pub err : SendError

pub record Recipients : Type 0 where
  pub accepted : List Bytes
  pub deferred : List RecipientFailure
  pub rejected : List RecipientFailure

abbrev pub nobody : Recipients
nobody = record { accepted = []; deferred = []; rejected = [] }

pub data Sent : Type 0 where
  sent : Recipients → Sent
  broke : SendError → Sent

abbrev pub addresses : List RecipientFailure → List Bytes
addresses = map λ (f : RecipientFailure). f.rcpt

-- The other server's side: its answer to MAIL, to the n-th RCPT, to DATA, whether the headers and
-- the body could be written, and its answer to the end of the message.
pub record Client : Type 0 where
  pub mail : Option SendError
  pub rcpt : ℕ → Option SendError
  pub data_start : Option SendError
  pub headers : Option SendError
  pub body : Option SendError
  pub finish : Option SendError

abbrev pub accept_one : Bytes → Recipients → Recipients
accept_one to res = record res { accepted = res.accepted ++ to ∷ [] }

abbrev pub failure : Bytes → SendError → RecipientFailure
failure to e = record { rcpt = to; err = e }

abbrev pub reject_one : Bytes → SendError → Recipients → Recipients
reject_one to e res = record res { rejected = res.rejected ++ failure to e ∷ [] }

abbrev pub defer_one : Bytes → SendError → Recipients → Recipients
defer_one to e res = record res { deferred = res.deferred ++ failure to e ∷ [] }

unfoldable pub rcpt_error : Bytes → SendError → SendError
rcpt_error to e = wrap (codes "RCPT TO " ++ (to ++ codes ": ")) e

-- The loop over the recipients.
unfoldable pub offer : (ℕ → Option SendError) → ℕ → List Bytes → Recipients → Sent
unfolding rcpt_error
offer answers n [] res = sent res
offer answers n (to ∷ more) res = elim (answers n) [
  | none ↦ offer answers (suc n) more (accept_one to res)
  | some (reply code text) ↦
      if is_permanent code
      then offer answers (suc n) more (reject_one to (rcpt_error to (reply code text)) res)
      else offer answers (suc n) more (defer_one to (rcpt_error to (reply code text)) res)
  | some (other text) ↦ broke (rcpt_error to (other text))
]

abbrev pub or_broken : Option SendError → Bytes → Sent → Sent
or_broken none prefix next = next
or_broken (some e) prefix next = broke (wrap prefix e)

-- DATA and what follows it.
unfoldable pub hand_over : Client → Recipients → Sent
hand_over c res = or_broken c.data_start (codes "DATA: ") (
    or_broken c.headers (codes "write headers: ") (
      or_broken c.body (codes "write body: ")
        (or_broken c.finish (codes "finish DATA: ") (sent res))))

abbrev pub transmit_to : Client → Sent → Sent
transmit_to c (broke e) = broke e
transmit_to c (sent res) = if is_empty res.accepted then sent res else hand_over c res

unfoldable pub transmit : Client → List Bytes → Sent
unfolding offer hand_over
transmit c rcpts =
    or_broken c.mail (codes "MAIL FROM: ") (transmit_to c (offer c.rcpt 0 rcpts nobody))
