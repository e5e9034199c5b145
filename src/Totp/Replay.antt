-- ===== src/Totp/Replay.antt =====
-- Proofs about internal/totp: which codes pass, and that none passes twice.
use xeron_mx.Prelude.{
  ℕ, ◌+◌, ◌-◌, ◌≤◌, ◌<◌, ◌≡◌, sym, ◌∙◌, ap, not, Option, none, some, List, [], ◌∷◌, leb, All, on_if,
  arith,
}
use xeron_mx.Text.{Bytes, bytes_eq}
use xeron_mx.Text.Equality.{bytes_eq→≡}
use xeron_mx.Unicode.{Unicode}
use xeron_mx.Totp.{Mac, skew, step_of, code, clean, looks_like_code, judged, try_steps, verify}

module _ (mac : Mac) (secret given : Bytes) (last_step s : ℕ) where
  judged_lem :
      (step : ℕ) (want : Option Bytes) (more : Option ℕ) (Goal : Type 0)
      → (step ≡ s → want ≡ some given → Goal)
      → (more ≡ some s → Goal)
      → judged mac secret given last_step step want more ≡ some s
      → Goal
  judged_lem step none more Goal now later h = absurd cc
  judged_lem step (some want) more Goal now later h =
      on_if (λ r. r ≡ some s → Goal) (bytes_eq want given)
        (λ e r. let same : step ≡ s = cc in now same (ap some (bytes_eq→≡ want given e)))
        (λ e r. later r) h

  try_steps_lem :
      (steps : List ℕ) (P : ℕ → Type 0)
      → All P steps
      → try_steps mac secret given last_step steps ≡ some s
      → (last_step < s) × (code mac secret s ≡ some given) × P s
  unfolding try_steps
  try_steps_lem [] P ps h = absurd cc
  try_steps_lem (step ∷ steps) P (p, ps) h =
      on_if (λ r. r ≡ some s → (last_step < s) × (code mac secret s ≡ some given) × P s)
        (leb step last_step) (λ e r. try_steps_lem steps P ps r)
        (λ e r.
          judged_lem step (code mac secret step) (try_steps mac secret given last_step steps)
            ((last_step < s) × (code mac secret s ≡ some given) × P s)
            (λ same want.
              (ground (arith, e, same), ap (code mac secret) (sym same) ∙ want, rw (sym same) p))
            (λ later. try_steps_lem steps P ps later) r)
        h

-- A code that passes is the one of a step at most one away from the clock's, and of a later step than
-- the last that was used: a code that was used does not pass again.
pub verify_lem :
    (u : Unicode) (mac : Mac) (secret given : Bytes) (unix last_step s : ℕ)
    → verify u mac secret given unix last_step ≡ some s
    → (last_step < s)
      × (code mac secret s ≡ some (clean u given))
      × ((step_of unix ≤ s + skew) × (s ≤ step_of unix + skew))
unfolding verify
verify_lem u mac secret given unix last_step s h =
    on_if
      (λ r.
        r ≡ some s
        → (last_step < s)
          × (code mac secret s ≡ some (clean u given))
          × ((step_of unix ≤ s + skew) × (s ≤ step_of unix + skew)))
      (not (looks_like_code u (clean u given))) (λ e r. absurd cc)
      (λ e r.
        try_steps_lem mac secret (clean u given) last_step s
          ((step_of unix - skew) ∷ step_of unix ∷ (step_of unix + skew) ∷ [])
          (λ k. (step_of unix ≤ k + skew) × (k ≤ step_of unix + skew))
          (
            (omega arith, omega arith),
            ((omega arith, omega arith), ((omega arith, omega arith), tt)),
          )
          r)
      h
