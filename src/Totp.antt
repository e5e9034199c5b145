-- ===== src/Totp.antt =====
-- internal/totp: one-time passwords. HMAC-SHA1 and the decoding of base32 are parameters. Steps are
-- natural: where the clock shows the first half minute of 1970, the step before is 0 here and -1
-- there, and both are refused.
pub mod Replay
mod Examples
use xeron_mx.Prelude.{
  ℕ, ◌+◌, ◌-◌, ◌*◌, ◌/◌, ◌%◌, ◌^◌, Bool, true, false, not, ◌&&◌, ◌||◌, Option, none, some, List, [],
  ◌∷◌, ◌++◌, ltb, leb, ◌==◌, if◌then◌else◌, is_empty, length, take, drop, any, select,
}
use xeron_mx.Text.{Bytes, bytes_eq}
use xeron_mx.Unicode.{Unicode}
use xeron_mx.Blob.{big_endian}

abbrev pub digits : ℕ
digits = 6

abbrev pub period : ℕ
period = 30

abbrev pub skew : ℕ
skew = 1

-- hmac.New(sha1.New, key) on a message, and b32.DecodeString of the secret in capitals without the
-- space around it, `none` where it answers an error.
pub record Mac : Type 0 where
  pub sum : Bytes → Bytes → Bytes
  pub decode : Bytes → Option Bytes

-- Step, of a time in seconds.
abbrev pub step_of : ℕ → ℕ
step_of unix = unix / period

unfoldable pub last_byte : Bytes → ℕ
last_byte [] = 0
last_byte (x ∷ []) = x
last_byte (x ∷ y ∷ s) = last_byte (y ∷ s)

-- binary.BigEndian.Uint32
unfoldable pub uint32_of : ℕ → Bytes → ℕ
uint32_of acc [] = acc
uint32_of acc (x ∷ s) = uint32_of (acc * 256 + x) s

-- fmt.Sprintf("%06d", v)
abbrev pub six_digits : ℕ → Bytes
six_digits v =
    (48 + v / 100000 % 10)
    ∷ (48 + v / 10000 % 10)
    ∷ (48 + v / 1000 % 10)
    ∷ (48 + v / 100 % 10)
    ∷ (48 + v / 10 % 10)
    ∷ (48 + v % 10)
    ∷ []

unfoldable pub truncated : Bytes → ℕ
unfolding last_byte uint32_of
truncated sum = uint32_of 0 (take 4 (drop (last_byte sum % 16) sum)) % 2 ^ 31

module _ (mac : Mac) where
  abbrev pub code_under : Option Bytes → ℕ → Option Bytes
  code_under none step = none
  code_under (some key) step =
      if is_empty key
      then none
      else some (six_digits (truncated (mac.sum key (big_endian 8 step)) % 1000000))

  unfoldable pub code : Bytes → ℕ → Option Bytes
  unfolding truncated big_endian
  code secret step = code_under (mac.decode secret) step

unfoldable pub clean : Unicode → Bytes → Bytes
unfolding select
clean u s = select (λ c. not (c == 32)) (u.trim_space s)

abbrev pub all_digits : Bytes → Bool
all_digits s =
    if not (length s == digits) then false else not (any (λ c. ltb c b'0' || ltb b'9' c) s)

unfoldable pub looks_like_code : Unicode → Bytes → Bool
unfolding clean any
looks_like_code u s = all_digits (clean u s)

module _ (mac : Mac) (secret given : Bytes) (last_step : ℕ) where
  abbrev pub judged : ℕ → Option Bytes → Option ℕ → Option ℕ
  judged step none more = none
  judged step (some want) more = if bytes_eq want given then some step else more

  unfoldable pub try_steps : List ℕ → Option ℕ
  unfolding code bytes_eq
  try_steps [] = none
  try_steps (step ∷ steps) =
      let more = try_steps steps in
      if leb step last_step then more else judged step (code mac secret step) more

-- The step of an accepted code.
unfoldable pub verify : Unicode → Mac → Bytes → Bytes → ℕ → ℕ → Option ℕ
unfolding clean looks_like_code try_steps
verify u mac secret given unix last_step =
    let current = step_of unix in
    if not (looks_like_code u (clean u given))
    then none
    else try_steps mac secret (clean u given) last_step
        ((current - skew) ∷ current ∷ (current + skew) ∷ [])
