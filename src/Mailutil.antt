-- ===== src/Mailutil.antt =====
-- internal/mailutil: the header of a message as lines, the subject, the count of trace headers and
-- the trace header itself. A text is bytes. net.SplitHostPort, net.ParseIP and the date are inputs.
pub mod Tokens
pub mod Folding
mod Examples
use xeron_mx.Prelude.{
  ℕ, suc, Bool, false, not, ◌&&◌, ◌||◌, Option, none, some, List, [], ◌∷◌, ◌++◌, ltb, leb, ◌==◌,
  if◌then◌else◌, length, take, drop, is_empty, select, any,
}
use xeron_mx.Text.{Bytes, codes}
use xeron_mx.Unicode.{Unicode, equal_fold}

unfoldable pub starts_with_byte : ℕ → Bytes → Bool
starts_with_byte c [] = false
starts_with_byte c (x ∷ s) = x == c

-- strings.ReplaceAll(s, "\r\n", "\n")
unfoldable pub plain_newlines : Bytes → Bytes
unfolding starts_with_byte
plain_newlines [] = []
plain_newlines (x ∷ s) =
    let rest = plain_newlines s in if x == 13 && starts_with_byte 10 s then rest else x ∷ rest

abbrev pub cons_first : ℕ → List Bytes → List Bytes
cons_first x [] = (x ∷ []) ∷ []
cons_first x (line ∷ lines) = (x ∷ line) ∷ lines

-- strings.Split(s, c) for one byte
unfoldable pub split : ℕ → Bytes → List Bytes
split c [] = [] ∷ []
split c (x ∷ s) = let rest = split c s in if x == c then [] ∷ rest else cons_first x rest

unfoldable pub header_lines : Bytes → List Bytes
unfolding plain_newlines split
header_lines head = split 10 (plain_newlines head)

starts_with_name : Bytes → Bytes → Bool
unfolding equal_fold
starts_with_name prefix line =
    leb (length prefix) (length line) && equal_fold (take (length prefix) line) prefix

-- The loop of countHeader: it ends at the empty line behind the header.
unfoldable pub count_lines : Bytes → List Bytes → ℕ
unfolding starts_with_name
count_lines prefix [] = 0
count_lines prefix (line ∷ lines) =
    let rest = count_lines prefix lines in
    if is_empty line then 0 else if starts_with_name prefix line then suc rest else rest

unfoldable pub count_header : Bytes → Bytes → ℕ
unfolding header_lines count_lines
count_header head name = count_lines (name ++ b':' ∷ []) (header_lines head)

unfoldable pub count_received : Bytes → ℕ
unfolding count_header
count_received head = count_header head (codes "received")

unfoldable pub has_header : Bytes → Bytes → Bool
unfolding count_header
has_header head name = ltb 0 (count_header head name)

abbrev pub max_hops : ℕ
max_hops = 50

is_continuation : Bytes → Bool
unfolding starts_with_byte
is_continuation line = starts_with_byte 32 line || starts_with_byte 9 line

module _ (u : Unicode) where
  unfold_subject : Bytes → List Bytes → Bytes
  unfolding is_continuation
  unfold_subject subject [] = subject
  unfold_subject subject (line ∷ lines) =
      let rest = unfold_subject (subject ++ 32 ∷ u.trim_space line) lines in
      if is_continuation line then rest else subject

  unfoldable pub subject_of : List Bytes → Bytes
  unfolding starts_with_name unfold_subject
  subject_of [] = []
  subject_of (line ∷ lines) =
      let rest = subject_of lines in
      if is_empty line
      then []
      else if starts_with_name (codes "subject:") line
      then u.to_valid_utf8 (take 500 (unfold_subject (u.trim_space (drop 8 line)) lines))
      else rest

  unfoldable pub extract_subject : Bytes → Bytes
  unfolding subject_of header_lines
  extract_subject head = subject_of (header_lines head)

unfoldable pub protocol : Bool → Bool → Bytes
protocol tls authenticated =
    codes "ESMTP" ++ ((if tls then codes "S" else []) ++ (if authenticated then codes "A" else []))

-- A byte that traceToken keeps: no control byte, no space, nothing beyond ASCII, none of ()[]<>;\"
unfoldable pub is_token_byte : ℕ → Bool
unfolding any
is_token_byte c =
    not (leb c 32 || (leb 127 c || any (λ x. x == c) (codes "()[]<>;" ++ 92 ∷ 34 ∷ [])))

unfoldable pub trace_token : Bytes → Bytes
unfolding is_token_byte select
trace_token s = select is_token_byte (take 255 s)

pub record Trace : Type 0 where
  pub helo : Bytes
  pub remote : Bytes
  pub by : Bytes
  pub protocol : Bytes
  pub id : Bytes
  pub recipient : Bytes

unfoldable pub concat : List Bytes → Bytes
concat [] = []
concat (s ∷ parts) = s ++ concat parts

abbrev pub or_else : Bytes → Bytes → Bytes
or_else s d = if is_empty s then d else s

-- The address behind which the client stands.
abbrev pub ip_of : (Bytes → Option Bytes) → Bytes → Bytes
ip_of split_host remote = elim (split_host remote) [ some host ↦ host | none ↦ remote ]

abbrev pub literal_of : (Bytes → Bool) → Bytes → Bytes
literal_of is_ipv6 ip =
    if is_ipv6 ip then codes "[IPv6:" ++ (ip ++ codes "]") else codes "[" ++ (ip ++ codes "]")

-- Header. `split_host` is net.SplitHostPort's host, `is_ipv6` that the address parses and is no
-- IPv4 address, `date` the time in RFC 1123 form.
unfoldable pub trace_header : (Bytes → Option Bytes) → (Bytes → Bool) → Bytes → Trace → Bytes
unfolding trace_token concat
trace_header split_host is_ipv6 date t =
    let rcpt : Bytes = trace_token t.recipient in
    concat (
      codes "Received: from "
      ∷ or_else (trace_token t.helo) (codes "unknown")
      ∷ codes " ("
      ∷ literal_of is_ipv6 (ip_of split_host t.remote)
      ∷ codes ")"
      ∷ (13 ∷ 10 ∷ [])
      ∷ (9 ∷ codes "by ")
      ∷ trace_token t.by
      ∷ codes " (XeronMX) with "
      ∷ t.protocol
      ∷ codes " id "
      ∷ t.id
      ∷ (if is_empty rcpt then [] else 13 ∷ 10 ∷ 9 ∷ codes "for <" ++ (rcpt ++ codes ">"))
      ∷ codes "; "
      ∷ date
      ∷ (13 ∷ 10 ∷ [])
      ∷ [])
