-- ===== src/Store/Queue/Bounds.antt =====
-- Proofs about Backoff (internal/store/queue.go).
use native.Mathlib.Nat.{mul-le-mul_left, le_of_lt}
use xeron_mx.Prelude.{ℕ, ◌+◌, ◌-◌, ◌*◌, ◌/◌, ◌^◌, ◌≤◌, ◌<◌, ◌≡◌, arith, ltb, if◌then◌else◌, min}
use xeron_mx.Store.Queue.{full_delay, backoff}

exponent :
    (attempts : ℕ)
    → (let tries = if ltb attempts 1 then 1 else attempts in
        if ltb 32 (tries - 1) then 32 else tries - 1)
      ≡ min 32 (attempts - 1)
exponent attempts = ground arith

capped : (max x : ℕ) → (if ltb max x then max else x) ≡ min max x
capped max x = ground arith

-- The tests of the code clamp the attempts from below and the exponent and the delay from above.
full_delay_lem :
    (attempts base max : ℕ)
    → full_delay attempts base max ≡ min max (base * 2 ^ min 32 (attempts - 1))
unfolding full_delay
full_delay_lem attempts base max = rw (exponent attempts) (capped max _)

-- d * (2^53 + u) / 2^54 lies between half of d and d, for a draw u below 2^53.
jittered_bounds :
    (d u : ℕ) → u < 2 ^ 53 → (d / 2 ≤ d * (2 ^ 53 + u) / 2 ^ 54) × (d * (2 ^ 53 + u) / 2 ^ 54 ≤ d)
jittered_bounds d u h = omega (arith, mul-le-mul_left d (le_of_lt h))

-- Before the jitter the delay is the base doubled once for each attempt after the first, at most 32
-- times, and never above the ceiling. Whatever is drawn, the delay that is taken lies between half
-- of that and all of it.
pub backoff_bounds :
    (attempts base max jitter : ℕ)
    → jitter < 2 ^ 53
    → let d = min max (base * 2 ^ min 32 (attempts - 1)) in
      (d / 2 ≤ backoff attempts base max jitter) × (backoff attempts base max jitter ≤ d)
unfolding backoff
backoff_bounds attempts base max jitter h =
    rw (full_delay_lem attempts base max) (jittered_bounds _ jitter h)
