-- ===== src/Totp/Examples.antt =====
-- One-time passwords of internal/totp under a sum that spells the step out: tests, and the theorem
-- at one of them.
use xeron_mx.Prelude.{◌+◌, ◌≤◌, ◌<◌, ◌≡◌, refl, some, none, [], ◌∷◌, ◌++◌}
use xeron_mx.Text.{codes}
use xeron_mx.Unicode.{ascii}
use xeron_mx.Totp.{Mac, step_of, skew, clean, code, verify}
use xeron_mx.Totp.Replay.{verify_lem}

-- Twenty bytes of which the last one points at the lower half of the step.
abbrev plain : Mac
plain = record {
  sum = λ key msg. msg ++ codes "............" ++ 4 ∷ [];
  decode = λ secret. some secret;
}

code_test : code plain (codes "k") 1234 ≡ some (codes "001234")
unfolding code
code_test = refl

late_test : verify ascii plain (codes "k") (codes " 001 234") 37050 1233 ≡ some 1234
unfolding ascii verify
late_test = refl

-- The code was used.
replay_test : verify ascii plain (codes "k") (codes " 001 234") 37050 1234 ≡ none
unfolding ascii verify
replay_test = refl

verify_lem_example :
    (1233 < 1234)
    × (code plain (codes "k") 1234 ≡ some (clean ascii (codes " 001 234")))
    × ((step_of 37050 ≤ 1234 + skew) × (1234 ≤ step_of 37050 + skew))
verify_lem_example = verify_lem ascii plain (codes "k") (codes " 001 234") 37050 1233 1234 late_test
