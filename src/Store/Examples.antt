-- ===== src/Store/Examples.antt =====
-- Tests of the monthly account and of the order of the time columns, and the theorems on them at
-- concrete rows.
use xeron_mx.Prelude.{
  ℕ, ◌+◌, ◌-◌, ◌*◌, ◌/◌, ◌<◌, ◌≡◌, ◌≢◌, refl, ◌⊎◌, Bool, true, false, none, some, List, [], ◌∷◌,
  ltb, leb, ◌&&◌, ◌||◌, arith, Option,
}
use xeron_mx.Store.Time.{second, text_le, text_le_misorders}
use xeron_mx.Store.Types.{Db, PrimaryStatus}
use xeron_mx.Store.Fixtures.{empty, up}
use xeron_mx.Store.Domains.Probing.{after, after-failing, after-recovering}
use xeron_mx.Store.Usage.{sent_this_month, reserve_sends, release_sends}
use xeron_mx.Store.Usage.Accounting.{release_sends-reserve_sends}

abbrev down : PrimaryStatus
down = record up { is_up = false; consecutive_success = 0 }

abbrev busy : Db
busy = record empty { usage = record { domain_id = 1; month = 7; recipients = 40 } ∷ [] }

sent_test : sent_this_month 1 7 busy ≡ 40
unfolding sent_this_month
sent_test = refl

refused_test : (reserve_sends 1 11 (some 50) 7 busy).0 ≡ (false, 40)
unfolding reserve_sends
refused_test = refl

release_sends-reserve_sends_example :
    (db' : Db) × (release_sends 1 10 7 (reserve_sends 1 10 (some 50) 7 busy).1 ≡ some db')
    × (sent_this_month 1 7 db' ≡ sent_this_month 1 7 busy)
unfolding xeron_mx.Prelude.any sent_this_month
release_sends-reserve_sends_example =
    release_sends-reserve_sends 1 7 10 (some 50) busy (refl, tt) refl

text_le_misorders_example : text_le (3 * second) (3 * second + 500_000_000) ≡ false
text_le_misorders_example = text_le_misorders 3 500_000_000 (omega arith) (omega arith)

failing_test : (after 4 false 3 2 0 [] up).is_up ≡ (up.is_up && ltb (up.consecutive_failures + 4) 3)
failing_test = after-failing 3 2 0 [] 3 up

recovering_test :
    (after 2 true 3 2 0 [] down).is_up ≡ (down.is_up || leb 2 (down.consecutive_success + 2))
recovering_test = after-recovering 3 2 0 [] 1 down
