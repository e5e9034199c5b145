-- ===== src/Ratelimit/Examples.antt =====
-- The limiter of internal/ratelimit at work: tests, and the theorems on it at a history.
use xeron_mx.Prelude.{◌≡◌, ◌≤◌, refl, true, false, [], ◌∷◌, List, length, select, ltb, arith}
use xeron_mx.Text.{Bytes, codes}
use xeron_mx.Ratelimit.{new, allow, is_recent}
use xeron_mx.Ratelimit.Calls.{Call, ask, clear, after, granted}
use xeron_mx.Ratelimit.Window.{length-granted-le, allow_iff}

abbrev host : Bytes
host = codes "192.0.2.1"

abbrev other : Bytes
other = codes "192.0.2.2"

abbrev calls : List Call
calls = ask host 5 ∷ ask other 6 ∷ ask host 6 ∷ ask host 7 ∷ clear other ∷ ask host 15 ∷ []

refused_test : (allow host 7 (after (ask host 5 ∷ ask host 6 ∷ []) (new 2 10))).0 ≡ false
unfolding allow after
refused_test = refl

slides_test : (allow host 15 (after (ask host 5 ∷ ask host 6 ∷ []) (new 2 10))).0 ≡ true
unfolding allow after
slides_test = refl

granted_test : granted host calls (new 2 10) [] ≡ 5 ∷ 6 ∷ 15 ∷ []
unfolding granted
granted_test = refl

length-granted-le_example : length (select (is_recent 10 15) (granted host calls (new 2 10) [])) ≤ 2
length-granted-le_example = length-granted-le 2 10 host calls 15 (omega arith)

allow_iff_example :
    (allow host 15 (after calls (new 2 10))).0
    ≡ ltb (length (select (is_recent 10 15) (granted host calls (new 2 10) []))) 2
allow_iff_example = allow_iff 2 10 host calls 15 (omega arith)
