-- ===== src/Ratelimit/Calls.antt =====
-- Histories of calls of the limiter of internal/ratelimit.
use xeron_mx.Prelude.{◌≤◌, ◌&&◌, List, [], ◌∷◌, ◌++◌, if◌then◌else◌}
use xeron_mx.Text.{Bytes, bytes_eq}
use xeron_mx.Store.Time.{Time}
use xeron_mx.Ratelimit.{Limiter, allow, reset}

-- A call of the limiter, with the time of day where it is read.
pub data Call : Type 0 where
  ask : Bytes → Time → Call
  clear : Bytes → Call

-- The limiter behind a history of calls.
unfoldable pub after : List Call → Limiter → Limiter
unfolding allow reset
after [] l = l
after (ask k now ∷ calls) l = after calls (allow k now l).1
after (clear k ∷ calls) l = after calls (reset k l)

-- The times at which the limiter let the key pass since its last reset, behind those in `acc`.
unfoldable pub granted : Bytes → List Call → Limiter → List Time → List Time
unfolding allow reset bytes_eq
granted k [] l acc = acc
granted k (ask j now ∷ calls) l acc =
    granted k calls (allow j now l).1
      (if bytes_eq j k && (allow j now l).0 then acc ++ now ∷ [] else acc)
granted k (clear j ∷ calls) l acc = granted k calls (reset j l) (if bytes_eq j k then [] else acc)

-- The clock does not go back: no call is before `last`, and none after `now`.
abbrev pub IsTimed : Time → List Call → Time → Type 0
IsTimed last [] now = last ≤ now
IsTimed last (ask k t ∷ calls) now = (last ≤ t) × IsTimed t calls now
IsTimed last (clear k ∷ calls) now = IsTimed last calls now
