-- ===== src/Ratelimit.antt =====
-- internal/ratelimit: the limiter of attempts for each key in a sliding window. The map is an
-- association list, which the sweep goes through in any order. `now` is what time.Now answers; the
-- mutex makes each call one step. The window is written as a sum, in place of now minus window.
pub mod Keys
pub mod Lines
pub mod Calls
pub mod Window
mod Examples
use xeron_mx.Prelude.{
  ℕ, ◌+◌, Bool, true, false, not, ◌||◌, List, [], ◌∷◌, ◌++◌, ltb, leb, if◌then◌else◌, length,
  select,
}
use xeron_mx.Text.{Bytes, bytes_eq}
use xeron_mx.Store.Time.{Time}

pub record Entry : Type 0 where
  pub key : Bytes
  pub times : List Time

pub record Limiter : Type 0 where
  pub max : ℕ
  pub window : ℕ
  pub attempts : List Entry

abbrev pub new : ℕ → ℕ → Limiter
new max window = record { max = max; window = window; attempts = [] }

abbrev pub max_keys : ℕ
max_keys = 10000

-- l.attempts[key], nil where there is none.
unfoldable pub times_of : Bytes → List Entry → List Time
unfolding bytes_eq
times_of k [] = []
times_of k (e ∷ entries) =
    let rest = times_of k entries in if bytes_eq e.key k then e.times else rest

-- l.attempts[key] = v
unfoldable pub assign : Bytes → List Time → List Entry → List Entry
unfolding bytes_eq
assign k v [] = record { key = k; times = v } ∷ []
assign k v (e ∷ entries) =
    let rest = assign k v entries in
    if bytes_eq e.key k then record e { times = v } ∷ entries else e ∷ rest

-- delete(l.attempts, key)
unfoldable pub remove : Bytes → List Entry → List Entry
unfolding bytes_eq select
remove k = select λ (e : Entry). not (bytes_eq e.key k)

-- t.After(cutoff)
abbrev pub is_recent : ℕ → Time → Time → Bool
is_recent window now t = ltb now (t + window)

-- The last time before the cutoff, or no time at all.
unfoldable pub is_stale : ℕ → Time → List Time → Bool
is_stale window now [] = true
is_stale window now (t ∷ []) = ltb (t + window) now
is_stale window now (t ∷ s ∷ times) = is_stale window now (s ∷ times)

unfoldable pub sweep : ℕ → Time → List Entry → List Entry
unfolding is_stale select
sweep window now = select λ (e : Entry). not (is_stale window now e.times)

unfoldable pub kept : Bytes → Time → Limiter → List Time
unfolding times_of select
kept k now l = select (is_recent l.window now) (times_of k l.attempts)

unfoldable pub allow : Bytes → Time → Limiter → Bool × Limiter
unfolding kept assign sweep
allow k now l =
    if leb l.max (length (kept k now l))
    then (false, record l { attempts = assign k (kept k now l) l.attempts })
    else (
      true,
      let attempts = assign k (kept k now l ++ now ∷ []) l.attempts in
          record l {
            attempts =
                if ltb max_keys (length attempts) then sweep l.window now attempts else attempts;
          },
    )

unfoldable pub reset : Bytes → Limiter → Limiter
unfolding remove
reset k l = record l { attempts = remove k l.attempts }
