-- ===== src/Sender/Partition.antt =====
-- Proofs about the recipients in an outcome of sendDirect (internal/sender/outbound.go).
use xeron_mx.Prelude.{
  ℕ, suc, ◌+◌, ◌≡◌, refl, ap, ◌⊎◌, inl, inr, Bool, true, false, Option, none, some, List, [], ◌∷◌,
  Bool-cases, Option-cases, arith, count,
}
use xeron_mx.Text.{Bytes, bytes_eq, codes}
use xeron_mx.Unicode.{Unicode}
use xeron_mx.Sender.{
  SendError, permanent, wrap, Recipients, nobody, Sent, sent, broke, Client, reject_one,
}
use xeron_mx.Sender.Direct.{
  malformed, Network, Group, add_to, domain_part, group, fail_all, add_group, visit, send_direct,
  direct_to, is_broken, try_hosts, to_hosts, Hosts, hosts, no_hosts, Line, down, up,
}
use xeron_mx.Sender.Tally.{
  mentions, tally, IsTally, mentions-append, mentions-failures, addresses-fail_all,
  tally-reject_one, transmit-IsTally, tally-nobody,
}

Line-cases : (l : Line) → ((e : SendError) × (l ≡ down e)) ⊎ ((c : Client) × (l ≡ up c))
Line-cases (down e) = inl (e, refl)
Line-cases (up c) = inr (c, refl)

module _ (a : Bytes) where
  try_hosts-IsTally :
      (net : Network) (domain : Bytes) (rcpts names : List Bytes) (last : Option SendError)
      → IsTally a (mentions a rcpts) (try_hosts net domain rcpts names last)
  unfolding try_hosts
  try_hosts-IsTally net domain rcpts [] last = tt
  try_hosts-IsTally net domain rcpts (host ∷ more) last = elim (Line-cases (net.dial host)) [
    | inl (e, h) ↦ rw (h, try_hosts) (try_hosts-IsTally net domain rcpts more (some e))
    | inr (client, h) ↦ rw (h, try_hosts) (transmit-IsTally a client rcpts)
  ]

  to_hosts-IsTally :
      (net : Network) (domain : Bytes) (rcpts : List Bytes) (h : Hosts)
      → IsTally a (mentions a rcpts) (to_hosts net domain rcpts h)
  to_hosts-IsTally net domain rcpts (no_hosts e) = tt
  to_hosts-IsTally net domain rcpts (hosts names) = try_hosts-IsTally net domain rcpts names none

  add_group-tally :
      (rcpts : List Bytes) (s : Sent) (all : Recipients)
      → IsTally a (mentions a rcpts) s
      → tally a (add_group rcpts s all) ≡ tally a all + mentions a rcpts
  unfolding add_group
  add_group-tally rcpts (sent res) all h = omega (
    arith,
    mentions-append a all.accepted res.accepted,
    mentions-failures a all.deferred res.deferred,
    mentions-failures a all.rejected res.rejected,
  )
  add_group-tally rcpts (broke e) all h = elim (Bool-cases (permanent e)) [
    | inl f ↦ rw f (
        omega (
          arith,
          mentions-failures a all.rejected (fail_all e rcpts),
          ap (mentions a) (addresses-fail_all e rcpts),
        ))
    | inr f ↦ rw f (
        omega (
          arith,
          mentions-failures a all.deferred (fail_all e rcpts),
          ap (mentions a) (addresses-fail_all e rcpts),
        ))
  ]

  direct_to-IsTally :
      (net : Network) (domain : Bytes) (rcpts : List Bytes)
      → IsTally a (mentions a rcpts) (direct_to net domain rcpts)
  unfolding direct_to
  direct_to-IsTally net domain rcpts = to_hosts-IsTally net domain rcpts _

  -- How often the address stands in the groups.
  abbrev members : List Group → ℕ
  members [] = 0
  members (g ∷ groups) = mentions a g.rcpts + members groups

  members-add_to :
      (d to : Bytes) (groups : List Group)
      → members (add_to d to groups) ≡ members groups + mentions a (to ∷ [])
  unfolding add_to
  members-add_to d to [] = omega arith
  members-add_to d to (g ∷ groups) = elim (Bool-cases (bytes_eq g.domain d)) [
    | inl e ↦ rw e (omega (arith, mentions-append a g.rcpts (to ∷ [])))
    | inr e ↦ rw e (omega (arith, members-add_to d to groups))
  ]

  group-members :
      (u : Unicode) (rcpts : List Bytes) (all : Recipients) (groups : List Group)
      → let r = group u rcpts all groups in
        tally a r.0 + members r.1 ≡ tally a all + members groups + mentions a rcpts
  unfolding group
  group-members u [] all groups = unfold count in omega arith
  group-members u (to ∷ more) all groups = elim (Option-cases (domain_part to)) [
    | inl h ↦
        rw (h, group)
          (omega (
            arith,
            group-members u more (reject_one to (malformed to) all) groups,
            tally-reject_one a to (malformed to) all more,
          ))
    | inr (d, h) ↦
        rw (h, group)
          (omega (
            arith,
            group-members u more all (add_to (u.to_lower d) to groups),
            members-add_to (u.to_lower d) to groups,
            mentions-append a (to ∷ []) more,
          ))
  ]

  visit-members :
      (net : Network) (late : ℕ → Bool) (n : ℕ) (groups : List Group) (all : Recipients)
      → ((k : ℕ) → late k ≡ false)
      → tally a (visit net late n groups all) ≡ tally a all + members groups
  unfolding visit
  visit-members net late n [] all never = omega arith
  visit-members net late n (g ∷ groups) all never =
      let res = direct_to net g.domain g.rcpts in
      let rest = visit-members net late (suc n) groups (add_group g.rcpts res all) never in
      let here = add_group-tally g.rcpts res all (direct_to-IsTally net g.domain g.rcpts) in
      elim (Bool-cases (is_broken res)) [
        | inl e ↦ rw (e, never n) (omega (arith, rest, here))
        | inr e ↦ rw e (omega (arith, rest, here))
      ]

  -- Direct delivery breaks off where the body cannot be read. Otherwise, while the deadline of the
  -- attempt does not pass, it accounts for every recipient: each address of the envelope is accepted,
  -- deferred or rejected as often as the envelope names it, whatever the domains answer.
  pub send_direct_lem :
      (u : Unicode) (net : Network) (late : ℕ → Bool) (body : Option SendError) (rcpts : List Bytes)
      → ((k : ℕ) → late k ≡ false)
      → ((e : SendError) × (body ≡ some e)
          × (send_direct u net late body rcpts ≡ broke (wrap (codes "read message: ") e)))
        ⊎ ((body ≡ none)
            × ((res : Recipients) × (send_direct u net late body rcpts ≡ sent res)
                × (tally a res ≡ mentions a rcpts)))
  unfolding send_direct
  send_direct_lem u net late (some e) rcpts never = inl (e, refl, refl)
  send_direct_lem u net late none rcpts never =
      let (all, groups) = group u rcpts nobody [] in
      inr (
        refl,
        (
          visit net late 0 groups all,
          refl,
          omega (
            arith,
            visit-members net late 0 groups all never,
            group-members u rcpts nobody [],
            tally-nobody a rcpts,
          ),
        ),
      )

  -- Once the deadline has passed behind a group that failed, the recipients of the later groups are
  -- in no list of the outcome: an address that the failed group does not have is named no more often
  -- than before.
  pub visit-forgets :
      (net : Network) (late : ℕ → Bool) (n : ℕ) (g : Group) (groups : List Group) (all : Recipients)
      → is_broken (direct_to net g.domain g.rcpts) ≡ true
      → late n ≡ true
      → mentions a g.rcpts ≡ 0
      → tally a (visit net late n (g ∷ groups) all) ≡ tally a all
  unfolding visit
  visit-forgets net late n g groups all failed passed apart =
      rw (failed, passed)
        (omega (
          arith,
          apart,
          add_group-tally g.rcpts (direct_to net g.domain g.rcpts) all
              (direct_to-IsTally net g.domain g.rcpts),
        ))
