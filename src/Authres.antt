-- ===== src/Authres.antt =====
-- internal/authres: the result header that a message is filed with, and whether a result
-- authenticates the sender. The SPF, DKIM and ARC checks themselves are inputs; `org_domain` is
-- publicsuffix.EffectiveTLDPlusOne, `none` where it answers an error.
use xeron_mx.Prelude.{
  ℕ, Bool, false, not, ◌&&◌, ◌||◌, Option, none, some, List, [], ◌∷◌, ◌++◌, map, leb, ◌==◌,
  if◌then◌else◌, is_empty, select, any,
}
use xeron_mx.Text.{Bytes, codes, bytes_eq, after_last, trim_suffix}
use xeron_mx.Unicode.{Unicode}

pub record Signature : Type 0 where
  pub domain : Bytes
  pub result : Bytes

pub record Result : Type 0 where
  pub spf : Bytes
  pub spf_domain : Bytes
  pub spf_helo : Bool
  pub dkim : List Signature
  pub arc : Bytes

abbrev pub no_result : Result
no_result = record { spf = []; spf_domain = []; spf_helo = false; dkim = []; arc = [] }

unfoldable pub is_word_byte : ℕ → Bool
is_word_byte c =
    (leb b'a' c && leb c b'z')
    || ((leb b'A' c && leb c b'Z')
        || ((leb b'0' c && leb c b'9') || (c == b'.' || (c == b'-' || c == b'_'))))

unfoldable pub token : Bytes → Bytes
unfolding is_word_byte select
token = select is_word_byte

-- strings.Join(parts, "; ")
unfoldable pub join : List Bytes → Bytes
join [] = []
join (s ∷ []) = s
join (s ∷ t ∷ parts) = s ++ (codes "; " ++ join (t ∷ parts))

abbrev property : Bytes → Bytes → Bytes
property name value = if is_empty value then [] else 32 ∷ (name ++ b'=' ∷ value)

spf_part : Result → List Bytes
unfolding token
spf_part r =
    if is_empty r.spf
    then []
    else (codes "spf="
        ++ (token r.spf
            ++ property (if r.spf_helo then codes "smtp.helo" else codes "smtp.mailfrom")
                (token r.spf_domain)))
      ∷ []

dkim_part : Signature → Bytes
unfolding token
dkim_part s = codes "dkim=" ++ (token s.result ++ property (codes "header.d") (token s.domain))

abbrev dkim_parts : List Signature → List Bytes
dkim_parts [] = codes "dkim=none" ∷ []
dkim_parts (s ∷ more) = map dkim_part (s ∷ more)

arc_part : Result → List Bytes
unfolding token
arc_part r = if is_empty r.arc then [] else (codes "arc=" ++ token r.arc) ∷ []

unfoldable pub header : Result → Bytes
unfolding spf_part dkim_part arc_part join
header r =
    if is_empty r.spf && (is_empty r.dkim && is_empty r.arc)
    then []
    else join (spf_part r ++ (dkim_parts r.dkim ++ arc_part r))

module _ (u : Unicode) (org_domain : Bytes → Option Bytes) where
  unfoldable pub domain_of : Bytes → Bytes
  unfolding after_last trim_suffix
  domain_of addr = elim (after_last b'@' addr) [
    | none ↦ []
    | some d ↦ u.to_lower (trim_suffix b'.' d)
  ]

  abbrev or_empty : Option Bytes → Bytes
  or_empty none = []
  or_empty (some s) = s

  unfoldable pub org_of : Bytes → Bytes
  unfolding trim_suffix
  org_of d = or_empty (org_domain (u.to_lower (trim_suffix b'.' d)))

  unfoldable pub aligned : Bytes → Bytes → Bool
  unfolding org_of bytes_eq
  aligned a b = not (is_empty (org_of a)) && bytes_eq (org_of a) (org_of b)

  unfoldable pub authenticates : Result → Bytes → Bool
  unfolding domain_of aligned bytes_eq any
  authenticates r mail_from =
      let domain = domain_of mail_from in
      not (is_empty domain)
      && ((bytes_eq r.spf (codes "pass") && (not r.spf_helo && bytes_eq r.spf_domain domain))
          || any (λ (s : Signature). bytes_eq s.result (codes "pass") && aligned s.domain domain)
              r.dkim)
