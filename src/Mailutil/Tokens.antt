-- ===== src/Mailutil/Tokens.antt =====
-- Proofs about traceToken of internal/mailutil/received.go.
use xeron_mx.Prelude.{
  ℕ, ◌≤◌, ◌<◌, ◌≡◌, Bool, true, [], ◌∷◌, length, take, length-take-le, select, All, All-select,
  Bool-cases, inl, inr, arith,
}
use xeron_mx.Text.{Bytes}
use xeron_mx.Mailutil.{is_token_byte, trace_token}

length-select-le : (p : ℕ → Bool) (s : Bytes) → length (select p s) ≤ length s
unfolding select
length-select-le p [] = omega arith
length-select-le p (c ∷ s) = elim (Bool-cases (p c)) [
  | inl e ↦ rw e (omega (arith, length-select-le p s))
  | inr e ↦ rw e (omega (arith, length-select-le p s))
]

pub token-printable : (c : ℕ) → is_token_byte c ≡ true → (32 < c) × (c < 127)
unfolding is_token_byte
token-printable c h = (ground arith, ground arith)

-- What traceToken keeps is short and printable: at most 255 bytes, none
-- of them a space, a line break or another control byte, or beyond ASCII.
pub trace_token_lem :
    (s : Bytes) → All (λ c. (32 < c) × (c < 127)) (trace_token s) × (length (trace_token s) ≤ 255)
unfolding trace_token
trace_token_lem s = (
  All-select (λ c. (32 < c) × (c < 127)) is_token_byte (take 255 s) token-printable,
  omega (arith, length-select-le is_token_byte (take 255 s), length-take-le 255 s),
)
