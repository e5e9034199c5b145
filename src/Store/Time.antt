-- ===== src/Store/Time.antt =====
-- Instants as internal/store/store.go keeps them: an instant is a count of nanoseconds, and the
-- column holds its text by formatTime, RFC 3339 with the fraction's trailing zeros cut off. The
-- queries compare and sort these texts. The part before the fraction has a fixed width for the
-- years 0 to 9999, so its order is the order of the seconds.
use xeron_mx.Prelude.{
  ℕ, zero, suc, ◌+◌, ◌*◌, ◌/◌, ◌%◌, ◌≤◌, ◌<◌, ◌≡◌, Bool, true, false, [], ◌∷◌, ◌++◌, arith, ltb,
  ◌==◌, if◌then◌else◌, Bool-cases, inl, inr, refl,
}
use xeron_mx.Text.{Bytes, bytes_le}

abbrev pub Time : Type 0
Time = ℕ

abbrev pub second : ℕ
second = 1_000_000_000

-- The last k decimal digits of n, the highest first.
digits : ℕ → ℕ → Bytes
digits zero n = []
digits (suc k) n = digits k (n / 10) ++ (b'0' + n % 10) ∷ []

-- The same with the trailing zeros cut off.
trimmed : ℕ → ℕ → Bytes
trimmed zero n = []
trimmed (suc k) n =
    let shorter = trimmed k (n / 10) in if n % 10 == 0 then shorter else digits (suc k) n

-- What formatTime writes after the seconds.
fraction : Time → Bytes
unfolding digits trimmed
fraction t = if t % second == 0 then b'Z' ∷ [] else b'.' ∷ (trimmed 9 (t % second) ++ b'Z' ∷ [])

-- `a <= b` between two columns or arguments that formatTime wrote.
unfoldable pub text_le : Time → Time → Bool
unfolding fraction bytes_le
text_le a b =
    if ltb (a / second) (b / second)
    then true
    else if a / second == b / second
    then bytes_le (fraction a) (fraction b)
    else false

bytes_le_refl : (s : Bytes) → bytes_le s s ≡ true
unfolding bytes_le
bytes_le_refl [] = refl
bytes_le_refl (x ∷ s) = ground (arith, bytes_le_refl s)

pub text_le_refl : (t : Time) → text_le t t ≡ true
unfolding text_le
text_le_refl t = ground (arith, bytes_le_refl (fraction t))

pub text_le→seconds : (a b : Time) → text_le a b ≡ true → a / second ≤ b / second
unfolding text_le
text_le→seconds a b h = elim (Bool-cases (ltb (a / second) (b / second))) [
  | inl e ↦ ground arith
  | inr e ↦ ground arith
]

fraction-whole : (s : ℕ) → fraction (s * second) ≡ b'Z' ∷ []
unfolding fraction
fraction-whole s = let e : (s * second) % second ≡ 0 = omega arith in rw e

fraction-part :
    (s f : ℕ) → 0 < f → f < second → bytes_le (b'Z' ∷ []) (fraction (s * second + f)) ≡ false
unfolding fraction bytes_le
fraction-part s f pos small =
    let e : (s * second + f) % second ≡ f = omega arith in rw e (ground arith)

-- An instant on a whole second sorts after every later instant of the same second: the text of the
-- first ends in Z where that of the second goes on with a dot, and Z is the greater byte.
pub text_le_misorders :
    (s f : ℕ) → 0 < f → f < second → text_le (s * second) (s * second + f) ≡ false
unfolding text_le
text_le_misorders s f pos small =
    let e : (s * second) / second ≡ s = omega arith in
    let e' : (s * second + f) / second ≡ s = omega arith in
    rw (e, e', fraction-whole s) (ground (arith, fraction-part s f pos small))
