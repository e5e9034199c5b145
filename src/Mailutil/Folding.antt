-- ===== src/Mailutil/Folding.antt =====
-- Proofs about the trace header (Header of internal/mailutil/received.go) as lines.
use xeron_mx.Prelude.{
  ℕ, ◌≡◌, refl, ap, Bool, true, false, select, take, All, ◌||◌, Option, List, [], ◌∷◌, ◌++◌, ◌==◌,
  if◌then◌else◌, is_empty, any, on_if, arith,
}
use xeron_mx.Text.{Bytes, codes}
use xeron_mx.Mailutil.Tokens.{token-printable}
use xeron_mx.Mailutil.{
  Trace, concat, header_lines, plain_newlines, split, starts_with_byte, cons_first, is_token_byte,
  ip_of, literal_of, trace_header, trace_token, or_else,
}

abbrev is_break : ℕ → Bool
is_break c = c == 13 || c == 10

-- A text without a carriage return or a line feed.
abbrev pub IsLine : Bytes → Type 0
IsLine s = any is_break s ≡ false

IsLine-append : (s t : Bytes) → IsLine s → IsLine t → IsLine (s ++ t)
unfolding any
IsLine-append [] t hs ht = ht
IsLine-append (c ∷ s) t hs ht = ground (arith, IsLine-append s t)

-- A text without a line break goes in front of the first line of what follows.
push :
    (s t l : Bytes) (ls : List Bytes)
    → IsLine s
    → header_lines t ≡ l ∷ ls
    → header_lines (s ++ t) ≡ (s ++ l) ∷ ls
unfolding header_lines plain_newlines split starts_with_byte any
push [] t l ls h e = e
push (c ∷ s) t l ls h e =
    let no_return : (c == 13) ≡ false = ground arith in
    let no_feed : (c == 10) ≡ false = ground arith in
    rw (no_return, no_feed) (ap (cons_first c) (push s t l ls (ground arith) e))

fold :
    (t l : Bytes) (ls : List Bytes)
    → header_lines t ≡ l ∷ ls
    → header_lines (13 ∷ 10 ∷ t) ≡ [] ∷ (l ∷ ls)
unfolding header_lines plain_newlines split starts_with_byte
fold t l ls e = ap (λ rest. [] ∷ rest) e

ends : header_lines (13 ∷ 10 ∷ []) ≡ [] ∷ ([] ∷ [])
unfolding header_lines plain_newlines split starts_with_byte
ends = refl

IsLine-select : (s : Bytes) → IsLine (select is_token_byte s)
unfolding any select
IsLine-select [] = refl
IsLine-select (c ∷ s) =
    on_if IsLine (is_token_byte c) (λ e. ground (arith, token-printable c e, IsLine-select s))
      (λ e. IsLine-select s)

IsLine-trace_token : (s : Bytes) → IsLine (trace_token s)
unfolding trace_token
IsLine-trace_token s = IsLine-select (take 255 s)

IsLine-literal_of : (v6 : Bytes → Bool) (ip : Bytes) → IsLine ip → IsLine (literal_of v6 ip)
unfolding any
IsLine-literal_of v6 ip h =
    on_if IsLine (v6 ip)
      (λ e.
        IsLine-append (codes "[IPv6:") (ip ++ codes "]") refl (IsLine-append ip (codes "]") h refl))
      (λ e. IsLine-append (codes "[") (ip ++ codes "]") refl (IsLine-append ip (codes "]") h refl))

-- One header field: a line that names it, and lines that go on with it, up to the end.
abbrev pub IsFolded : List Bytes → Type 0
IsFolded lines =
    (a b : Bytes) × (goes_on : List Bytes) × (lines
      ≡ (codes "Received: from " ++ a) ∷ (9 ∷ b) ∷ (goes_on ++ [] ∷ []))
    × All (λ l. starts_with_byte 9 l ≡ true) goes_on

-- The recipient has a line of its own, or none.
recipient-lines :
    (rcpt t l : Bytes)
    → IsLine rcpt
    → header_lines t ≡ l ∷ ([] ∷ [])
    → (m : Bytes) × (goes_on : List Bytes) × (header_lines
          ((if is_empty rcpt then [] else 13 ∷ 10 ∷ 9 ∷ codes "for <" ++ (rcpt ++ codes ">")) ++ t)
        ≡ m ∷ (goes_on ++ [] ∷ []))
      × All (λ k. starts_with_byte 9 k ≡ true) goes_on
unfolding any starts_with_byte
recipient-lines rcpt t l h e =
    let own : Bytes = 9 ∷ codes "for <" ++ (rcpt ++ codes ">") in
    on_if
      (λ piece.
        (m : Bytes) × (goes_on : List Bytes) × (header_lines (piece ++ t)
          ≡ m ∷ (goes_on ++ [] ∷ []))
        × All (λ k. starts_with_byte 9 k ≡ true) goes_on)
      (is_empty rcpt) (λ empty. (l, [], e, tt))
      (λ some. (
        [],
        (own ++ l) ∷ [],
        fold (own ++ t) (own ++ l) ([] ∷ []) (
            push own t l ([] ∷ [])
              (IsLine-append (9 ∷ codes "for <") (rcpt ++ codes ">") refl
                (IsLine-append rcpt (codes ">") h refl))
              e),
        (refl, tt),
      ))

-- Whatever name the client gives in EHLO and whatever recipient it names, the trace header is one
-- header field: the line "Received: from ..." and lines that begin with a tab, up to the end. This
-- holds where the client's network address, the protocol, the id and the date have no line break.
pub trace_header_lem :
    (split_host : Bytes → Option Bytes) (is_ipv6 : Bytes → Bool) (date : Bytes) (t : Trace)
    → IsLine (ip_of split_host t.remote)
    → IsLine t.protocol
    → IsLine t.id
    → IsLine date
    → IsFolded (header_lines (trace_header split_host is_ipv6 date t))
unfolding trace_header concat any
trace_header_lem split_host is_ipv6 date t ip protocol id at =
    let rcpt : Bytes = trace_token t.recipient in
    let helo : IsLine (or_else (trace_token t.helo) (codes "unknown")) =
      on_if IsLine (is_empty (trace_token t.helo)) (λ e. refl) (λ e. IsLine-trace_token t.helo) in
    let (m, goes_on, lines, tabs) =
      recipient-lines rcpt _ _ (IsLine-trace_token t.recipient)
        (push (codes "; ") _ _ _ refl (push date (13 ∷ 10 ∷ []) [] ([] ∷ []) at ends)) in
    (
      _,
      _,
      goes_on,
      push (codes "Received: from ") _ _ _ refl (
          push (or_else (trace_token t.helo) (codes "unknown")) _ _ _ helo (
            push (codes " (") _ _ _ refl (
              push (literal_of is_ipv6 (ip_of split_host t.remote)) _ _ _
                (IsLine-literal_of is_ipv6 (ip_of split_host t.remote) ip)
                (push (codes ")") _ _ _ refl (
                  fold _ _ _ (
                    push (9 ∷ codes "by ") _ _ _ refl (
                      push (trace_token t.by) _ _ _ (IsLine-trace_token t.by) (
                        push (codes " (XeronMX) with ") _ _ _ refl (
                          push t.protocol _ _ _ protocol
                            (push (codes " id ") _ _ _ refl (push t.id _ _ _ id lines))))))))))),
      tabs,
    )
