-- ===== src/Netlimit.antt =====
-- internal/netlimit: a listener that lets so many connections in at a time. The channel of slots is
-- the number of slots that are taken. A connection is named by its place in the list of those that
-- were let in; `released` is its sync.Once. An arrival is one round of Accept's loop.
pub mod Limits
mod Examples
use xeron_mx.Prelude.{
  ℕ, zero, suc, ◌+◌, ◌-◌, Bool, true, false, Option, none, some, List, [], ◌∷◌, ◌++◌, ltb, ◌==◌,
  if◌then◌else◌,
}

pub record Conn : Type 0 where
  pub released : Bool

pub record Listener : Type 0 where
  pub max : ℕ
  pub slots : ℕ
  pub conns : List Conn

-- Listen: `none` is the listener below, which has no limit.
unfoldable pub listen : ℕ → Option Listener
listen max = if max == 0 then none else some (record { max = max; slots = 0; conns = [] })

-- Whether the connection is let in; otherwise it is told so and closed.
unfoldable pub arrive : Listener → Bool × Listener
arrive l =
    if ltb l.slots l.max
    then (
      true,
      record l { slots = l.slots + 1; conns = l.conns ++ record { released = false } ∷ [] },
    )
    else (false, l)

-- Whether once.Do runs the release, and the connections behind it.
unfoldable pub release_once : ℕ → List Conn → Bool × List Conn
release_once k [] = (false, [])
release_once zero (c ∷ conns) =
    if c.released then (false, c ∷ conns) else (true, record { released = true } ∷ conns)
release_once (suc k) (c ∷ conns) = let r = release_once k conns in (r.0, c ∷ r.1)

-- Close of the connection k.
unfoldable pub close : ℕ → Listener → Listener
unfolding release_once
close k l =
    let r = release_once k l.conns in
    record l { slots = if r.0 then l.slots - 1 else l.slots; conns = r.1 }
