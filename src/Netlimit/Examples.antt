-- ===== src/Netlimit/Examples.antt =====
-- A listener of internal/netlimit at work: tests, and the theorem on it at a history.
use xeron_mx.Prelude.{◌≤◌, ◌≡◌, refl, false, [], ◌∷◌, ltb, List}
use xeron_mx.Netlimit.{Listener, listen, arrive}
use xeron_mx.Netlimit.Limits.{Event, arrival, closing, after, open_conns, after-open}

abbrev listener : Listener
listener = record { max = 1; slots = 0; conns = [] }

abbrev events : List Event
events = arrival ∷ arrival ∷ closing 0 ∷ closing 0 ∷ arrival ∷ []

full_test : (arrive (after events listener)).0 ≡ false
unfolding arrive after
full_test = refl

open_test : open_conns (after events listener).conns ≡ 1
unfolding after open_conns
open_test = refl

after-open_example :
    (open_conns (after events listener).conns ≤ 1)
    × ((arrive (after events listener)).0 ≡ ltb (open_conns (after events listener).conns) 1)
unfolding listen
after-open_example = after-open 1 events listener refl
