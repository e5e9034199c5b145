-- ===== src/Sender/Direct.antt =====
-- sendDirect, directTo and lookupMX of internal/sender/outbound.go: the recipients grouped by
-- domain, and each group handed to the first host of its domain that can be reached.
use xeron_mx.Prelude.{
  ℕ, suc, Bool, true, false, Option, none, some, List, [], ◌∷◌, ◌++◌, map, leb, if◌then◌else◌,
  is_empty, sort_by,
}
use xeron_mx.Text.{Bytes, codes, bytes_eq, after_last, trim_suffix}
use xeron_mx.Unicode.{Unicode}
use xeron_mx.Sender.{
  SendError, reply, other, permanent, wrap, RecipientFailure, Recipients, nobody, Sent, sent, broke,
  Client, failure, reject_one, transmit,
}

pub record Mx : Type 0 where
  pub host : Bytes
  pub pref : ℕ

-- A DNS answer: the records, or an error that says the name is not there, or another error.
pub data Lookup (A : Type 0) : Type 0 where
  found : A → Lookup A
  absent : Lookup A
  failing : SendError → Lookup A

pub data Hosts : Type 0 where
  hosts : List Bytes → Hosts
  no_hosts : SendError → Hosts

-- The loop over the sorted records: a record without a host is a null MX.
unfoldable pub host_names : Bytes → List Mx → List Bytes → Hosts
unfolding trim_suffix
host_names domain [] names = hosts names
host_names domain (r ∷ records) names =
    let rest = host_names domain records (names ++ trim_suffix b'.' r.host ∷ []) in
    if is_empty (trim_suffix b'.' r.host)
    then no_hosts (reply 556 (domain ++ codes " publishes a null MX and accepts no mail"))
    else rest

-- What LookupHost says where there is no MX record.
abbrev pub address_only : Bytes → Lookup Unit → Hosts
address_only domain (found _) = hosts (domain ∷ [])
address_only domain absent =
    no_hosts (reply 550 (domain ++ codes " has no MX and no address, it cannot receive mail"))
address_only domain (failing e) = no_hosts e

abbrev pub of_records : Bytes → List Mx → Lookup Unit → Hosts
of_records domain [] address = address_only domain address
of_records domain (r ∷ records) address =
    host_names domain (sort_by (λ (x y : Mx). leb x.pref y.pref) (r ∷ records)) []

unfoldable pub lookup_mx : Bytes → Lookup (List Mx) → Lookup Unit → Hosts
unfolding host_names sort_by
lookup_mx domain (found records) address = of_records domain records address
lookup_mx domain absent address = address_only domain address
lookup_mx domain (failing e) address = no_hosts e

-- A host of a domain: the error of dialing it, or the conversation with it.
pub data Line : Type 0 where
  down : SendError → Line
  up : Client → Line

pub record Network : Type 0 where
  pub mx : Bytes → Lookup (List Mx)
  pub address : Bytes → Lookup Unit
  pub dial : Bytes → Line

abbrev pub last_error : Bytes → Option SendError → SendError
last_error domain none =
    other (codes "no MX host for " ++ (domain ++ codes " accepted the message"))
last_error domain (some e) = e

-- The loop over the hosts: only a host that cannot be dialed sends it to the next one.
unfoldable pub try_hosts : Network → Bytes → List Bytes → List Bytes → Option SendError → Sent
unfolding transmit
try_hosts net domain rcpts [] last = broke (last_error domain last)
try_hosts net domain rcpts (host ∷ more) last = elim (net.dial host) [
  | down e ↦ try_hosts net domain rcpts more (some e)
  | up client ↦ transmit client rcpts
]

abbrev pub to_hosts : Network → Bytes → List Bytes → Hosts → Sent
to_hosts net domain rcpts (no_hosts e) =
    broke (wrap (codes "MX lookup for " ++ (domain ++ codes ": ")) e)
to_hosts net domain rcpts (hosts names) = try_hosts net domain rcpts names none

unfoldable pub direct_to : Network → Bytes → List Bytes → Sent
unfolding lookup_mx try_hosts
direct_to net domain rcpts =
    to_hosts net domain rcpts (lookup_mx domain (net.mx domain) (net.address domain))

pub record Group : Type 0 where
  pub domain : Bytes
  pub rcpts : List Bytes

-- byDomain and domains: the groups in the order in which their domains first occur.
unfoldable pub add_to : Bytes → Bytes → List Group → List Group
unfolding bytes_eq
add_to d to [] = record { domain = d; rcpts = to ∷ [] } ∷ []
add_to d to (g ∷ groups) =
    let rest = add_to d to groups in
    if bytes_eq g.domain d then record g { rcpts = g.rcpts ++ to ∷ [] } ∷ groups else g ∷ rest

unfoldable pub malformed : Bytes → SendError
malformed to = reply 550 (codes "malformed recipient " ++ to)

-- The domain of an address, `none` where it has none.
unfoldable pub domain_part : Bytes → Option Bytes
unfolding after_last
domain_part to = elim (after_last b'@' to) [
  | none ↦ none
  | some d ↦ if is_empty d then none else some d
]

module _ (u : Unicode) where
  -- The first loop of sendDirect.
  unfoldable pub group : List Bytes → Recipients → List Group → Recipients × List Group
  unfolding domain_part malformed add_to
  group [] all groups = (all, groups)
  group (to ∷ more) all groups = elim (domain_part to) [
    | none ↦ group more (reject_one to (malformed to) all) groups
    | some d ↦ group more all (add_to (u.to_lower d) to groups)
  ]

abbrev pub fail_all : SendError → List Bytes → List RecipientFailure
fail_all e = map λ to. failure to e

-- What one group adds to the outcome.
unfoldable pub add_group : List Bytes → Sent → Recipients → Recipients
add_group rcpts (sent res) all = record {
  accepted = all.accepted ++ res.accepted;
  deferred = all.deferred ++ res.deferred;
  rejected = all.rejected ++ res.rejected;
}
add_group rcpts (broke e) all =
    if permanent e
    then record all { rejected = all.rejected ++ fail_all e rcpts }
    else record all { deferred = all.deferred ++ fail_all e rcpts }

abbrev pub is_broken : Sent → Bool
is_broken (sent res) = false
is_broken (broke e) = true

-- The second loop: `late n` is that the attempt's deadline has passed behind the n-th group, which
-- the loop asks for only after a group that failed.
unfoldable pub visit : Network → (ℕ → Bool) → ℕ → List Group → Recipients → Recipients
unfolding add_group direct_to
visit net late n [] all = all
visit net late n (g ∷ groups) all =
    let res = direct_to net g.domain g.rcpts in
    let rest = visit net late (suc n) groups (add_group g.rcpts res all) in
    if is_broken res then (if late n then add_group g.rcpts res all else rest) else rest

unfoldable pub to_groups : Network → (ℕ → Bool) → Recipients × List Group → Sent
unfolding visit
to_groups net late (all, groups) = sent (visit net late 0 groups all)

-- The body is read first: `some e` where that fails.
unfoldable pub send_direct : Unicode → Network → (ℕ → Bool) → Option SendError → List Bytes → Sent
unfolding group to_groups
send_direct u net late (some e) rcpts = broke (wrap (codes "read message: ") e)
send_direct u net late none rcpts = to_groups net late (group u rcpts nobody [])
