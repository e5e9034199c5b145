-- ===== src/Sender/Tally.antt =====
-- How often an address stands in an outcome: proofs about transmit (internal/sender/outbound.go).
use xeron_mx.Prelude.{
  ℕ, suc, ◌+◌, ◌≡◌, refl, ap, ◌⊎◌, inl, inr, Option, none, some, List, [], ◌∷◌, ◌++◌, is_empty,
  Bool-cases, Option-cases, arith, count,
}
use mathlib.Core.Path.{subst}
use xeron_mx.Text.{Bytes, bytes_eq}
use xeron_mx.Smtp.{is_permanent}
use xeron_mx.Sender.{
  SendError, reply, other, RecipientFailure, Recipients, nobody, Sent, sent, broke, Client,
  addresses, rcpt_error, failure, accept_one, reject_one, defer_one, offer, hand_over, transmit,
  transmit_to, or_broken,
}
use xeron_mx.Sender.Direct.{fail_all}

-- How often an address stands in a list.
abbrev pub mentions : Bytes → List Bytes → ℕ
mentions a = count (bytes_eq a)

-- How often an address stands in an outcome.
abbrev pub tally : Bytes → Recipients → ℕ
tally a res =
    mentions a res.accepted
    + (mentions a (addresses res.deferred) + mentions a (addresses res.rejected))

pub mentions-append :
    (a : Bytes) (xs ys : List Bytes) → mentions a (xs ++ ys) ≡ mentions a xs + mentions a ys
unfolding count
mentions-append a [] ys = omega arith
mentions-append a (x ∷ xs) ys = omega (arith, mentions-append a xs ys)

addresses-append :
    (fs gs : List RecipientFailure) → addresses (fs ++ gs) ≡ addresses fs ++ addresses gs
addresses-append [] gs = refl
addresses-append (f ∷ fs) gs = ap (λ rest. f.rcpt ∷ rest) (addresses-append fs gs)

pub addresses-fail_all : (e : SendError) (rcpts : List Bytes) → addresses (fail_all e rcpts) ≡ rcpts
addresses-fail_all e [] = refl
addresses-fail_all e (to ∷ rcpts) = ap (λ rest. to ∷ rest) (addresses-fail_all e rcpts)

pub mentions-failures :
    (a : Bytes) (fs gs : List RecipientFailure)
    → mentions a (addresses (fs ++ gs)) ≡ mentions a (addresses fs) + mentions a (addresses gs)
mentions-failures a fs gs =
    rw (addresses-append fs gs) (mentions-append a (addresses fs) (addresses gs))

-- The outcome mentions an address n times.
abbrev pub IsTally : Bytes → ℕ → Sent → Type 0
IsTally a n (sent res) = tally a res ≡ n
IsTally a n (broke e) = Unit

tally-accept_one :
    (a to : Bytes) (res : Recipients) (more : List Bytes)
    → tally a (accept_one to res) + mentions a more ≡ tally a res + mentions a (to ∷ more)
unfolding count
tally-accept_one a to res more = omega (arith, mentions-append a res.accepted (to ∷ []))

pub tally-reject_one :
    (a to : Bytes) (e : SendError) (res : Recipients) (more : List Bytes)
    → tally a (reject_one to e res) + mentions a more ≡ tally a res + mentions a (to ∷ more)
unfolding count
tally-reject_one a to e res more =
    omega (arith, mentions-failures a res.rejected (failure to e ∷ []))

tally-defer_one :
    (a to : Bytes) (e : SendError) (res : Recipients) (more : List Bytes)
    → tally a (defer_one to e res) + mentions a more ≡ tally a res + mentions a (to ∷ more)
unfolding count
tally-defer_one a to e res more =
    omega (arith, mentions-failures a res.deferred (failure to e ∷ []))

pub offer-IsTally :
    (a : Bytes) (answers : ℕ → Option SendError) (n : ℕ) (rcpts : List Bytes) (res : Recipients)
    → IsTally a (tally a res + mentions a rcpts) (offer answers n rcpts res)
unfolding offer
offer-IsTally a answers n [] res = unfold count in omega arith
offer-IsTally a answers n (to ∷ more) res = elim (Option-cases (answers n)) [
  | inl h ↦
      rw (h, offer)
        (subst (λ k. IsTally a k (offer answers (suc n) more (accept_one to res)))
          (tally-accept_one a to res more)
          (offer-IsTally a answers (suc n) more (accept_one to res)))
  | inr (reply code text, h) ↦
      rw (h, offer)
        (elim (Bool-cases (is_permanent code)) [
          | inl f ↦ rw f (
              subst
                (λ k. IsTally a k (
                  offer answers (suc n) more (reject_one to (rcpt_error to (reply code text)) res)))
                (tally-reject_one a to _ res more)
                (offer-IsTally a answers (suc n) more
                  (reject_one to (rcpt_error to (reply code text)) res)))
          | inr f ↦ rw f (
              subst
                (λ k.
                  IsTally a k (
                    offer answers (suc n) more
                      (defer_one to (rcpt_error to (reply code text)) res)))
                (tally-defer_one a to _ res more)
                (offer-IsTally a answers (suc n) more
                  (defer_one to (rcpt_error to (reply code text)) res)))
        ])
  | inr (other text, h) ↦ rw (h, offer) tt
]

or_broken-IsTally :
    (a : Bytes) (n : ℕ) (o : Option SendError) (prefix : Bytes) (next : Sent)
    → IsTally a n next
    → IsTally a n (or_broken o prefix next)
or_broken-IsTally a n none prefix next h = h
or_broken-IsTally a n (some e) prefix next h = tt

hand_over-IsTally :
    (a : Bytes) (n : ℕ) (c : Client) (res : Recipients)
    → tally a res ≡ n
    → IsTally a n (hand_over c res)
unfolding hand_over
hand_over-IsTally a n c res h = or_broken-IsTally a n c.data_start _ _ (
    or_broken-IsTally a n c.headers _ _
      (or_broken-IsTally a n c.body _ _ (or_broken-IsTally a n c.finish _ (sent res) h)))

transmit_to-IsTally :
    (a : Bytes) (n : ℕ) (c : Client) (s : Sent) → IsTally a n s → IsTally a n (transmit_to c s)
transmit_to-IsTally a n c (broke e) h = tt
transmit_to-IsTally a n c (sent res) h = elim (Bool-cases (is_empty res.accepted)) [
  | inl e ↦ rw e h
  | inr e ↦ rw e (hand_over-IsTally a n c res h)
]

pub tally-nobody :
    (a : Bytes) (rcpts : List Bytes) → tally a nobody + mentions a rcpts ≡ mentions a rcpts
unfolding count
tally-nobody a rcpts = omega arith

pub transmit-IsTally :
    (a : Bytes) (c : Client) (rcpts : List Bytes) → IsTally a (mentions a rcpts) (transmit c rcpts)
unfolding transmit
transmit-IsTally a c rcpts = or_broken-IsTally a _ c.mail _ _ (
    transmit_to-IsTally a _ c _ (
      subst (λ n. IsTally a n (offer c.rcpt 0 rcpts nobody)) (tally-nobody a rcpts)
        (offer-IsTally a c.rcpt 0 rcpts nobody)))

IsTally-cases :
    (a : Bytes) (n : ℕ) (s : Sent)
    → IsTally a n s
    → ((e : SendError) × (s ≡ broke e)) ⊎ ((res : Recipients) × (s ≡ sent res) × (tally a res ≡ n))
IsTally-cases a n (broke e) h = inl (e, refl)
IsTally-cases a n (sent res) h = inr (res, refl, h)

-- A conversation either breaks off as a whole, or it accounts for every recipient: each address of
-- the envelope is accepted, deferred or rejected as often as the envelope names it.
pub transmit_lem :
    (a : Bytes) (c : Client) (rcpts : List Bytes)
    → ((e : SendError) × (transmit c rcpts ≡ broke e))
      ⊎ ((res : Recipients) × (transmit c rcpts ≡ sent res) × (tally a res ≡ mentions a rcpts))
transmit_lem a c rcpts = IsTally-cases a _ _ (transmit-IsTally a c rcpts)
