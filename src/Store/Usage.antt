-- ===== src/Store/Usage.antt =====
-- The monthly sending limit (internal/store/sendlimit.go). A month is a number, in place of the
-- text that usageMonth writes. A transaction is one step: SQLite lets no other writer in between.
pub mod Accounting
use xeron_mx.Prelude.{
  ℕ, ◌+◌, ◌-◌, Bool, true, false, ◌&&◌, Option, none, some, List, [], ◌∷◌, ◌++◌, ltb, ◌==◌,
  if◌then◌else◌, any, map,
}
use xeron_mx.Store.Types.{Usage, Db}

abbrev pub is_row : ℕ → ℕ → Usage → Bool
is_row k month u = u.domain_id == k && u.month == month

-- COALESCE(SUM(recipients), 0)
unfoldable pub sum_sent : ℕ → ℕ → List Usage → ℕ
sum_sent k month [] = 0
sum_sent k month (u ∷ rows) = (if is_row k month u then u.recipients else 0) + sum_sent k month rows

unfoldable pub sent_this_month : ℕ → ℕ → Db → ℕ
unfolding sum_sent
sent_this_month k month db = sum_sent k month db.usage

abbrev add_sent : ℕ → ℕ → ℕ → Usage → Usage
add_sent k month n u = if is_row k month u then record u { recipients = u.recipients + n } else u

-- INSERT … ON CONFLICT DO UPDATE
unfoldable pub upsert : ℕ → ℕ → ℕ → List Usage → List Usage
unfolding any
upsert k month n rows =
    if any (is_row k month) rows
    then map (add_sent k month n) rows
    else rows ++ record { domain_id = k; month = month; recipients = n } ∷ []

abbrev pub over : ℕ → Option ℕ → Bool
over n none = false
over n (some limit) = ltb limit n

-- Whether the sends are reserved, and how many were sent before.
unfoldable pub reserve_sends : ℕ → ℕ → Option ℕ → ℕ → Db → (Bool × ℕ) × Db
unfolding sent_this_month upsert
reserve_sends k n limit month db =
    let before = sent_this_month k month db in
    if over (before + n) limit
    then ((false, before), db)
    else ((true, before), record db { usage = upsert k month n db.usage })

-- `none` is ErrNotFound: the month has no row.
unfoldable pub release_sends : ℕ → ℕ → ℕ → Db → Option Db
unfolding any
release_sends k n month db =
    if any (is_row k month) db.usage
    then some (record db {
      usage =
          map
            (λ (u : Usage).
              if is_row k month u then record u { recipients = u.recipients - n } else u)
            db.usage;
    })
    else none
