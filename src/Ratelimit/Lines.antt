-- ===== src/Ratelimit/Lines.antt =====
-- Lemmas on the times that the limiter of internal/ratelimit keeps: they stand in order, and what
-- has left the window does not come back.
use mathlib.Core.Path.{subst}
use xeron_mx.Prelude.{
  All-sub, ℕ, ◌≤◌, ◌<◌, ◌≡◌, refl, sym, ap, Bool, true, false, not, List, [], ◌∷◌, ◌++◌, leb,
  if◌then◌else◌, length, Bool-cases, inl, inr, arith, any, select, All, All-append,
}
use xeron_mx.Text.{Bytes, bytes_eq}
use xeron_mx.Text.Equality.{bytes_eq→≡}
use xeron_mx.Store.Time.{Time}
use xeron_mx.Ratelimit.{Entry, times_of, assign, remove, is_recent, is_stale, sweep}
use xeron_mx.Ratelimit.Keys.{IsKeyed, has_key, any-select, times_of-absent}

abbrev pub IsSorted : List Time → Type 0
IsSorted [] = Unit
IsSorted (t ∷ times) = All (λ s. t ≤ s) times × IsSorted times

-- Times in order, none after `last`.
abbrev pub IsLine : Time → List Time → Type 0
IsLine last times = IsSorted times × All (λ t. t ≤ last) times

pub All-weaken :
    (last now : Time) (times : List Time)
    → last ≤ now
    → All (λ t. t ≤ last) times
    → All (λ t. t ≤ now) times
All-weaken last now [] h a = tt
All-weaken last now (t ∷ times) h (p, a) = (omega arith, All-weaken last now times h a)

pub IsSorted-select :
    (p : Time → Bool) (times : List Time) → IsSorted times → IsSorted (select p times)
unfolding select
IsSorted-select p [] h = tt
IsSorted-select p (t ∷ times) (a, h) = elim (Bool-cases (p t)) [
  | inl e ↦ rw e (All-sub (λ s. t ≤ s) p times a, IsSorted-select p times h)
  | inr e ↦ rw e (IsSorted-select p times h)
]

pub IsSorted-snoc :
    (now : Time) (times : List Time)
    → IsSorted times
    → All (λ t. t ≤ now) times
    → IsSorted (times ++ now ∷ [])
IsSorted-snoc now [] h b = (tt, tt)
IsSorted-snoc now (t ∷ times) (a, h) (p, b) =
    (All-append (λ s. t ≤ s) times (now ∷ []) a (p, tt), IsSorted-snoc now times h b)

module _ (window : ℕ) where
  abbrev pub recent : Time → List Time → List Time
  recent now times = select (is_recent window now) times

  pub recent-append :
      (now : Time) (xs ys : List Time) → recent now (xs ++ ys) ≡ recent now xs ++ recent now ys
  unfolding select
  recent-append now [] ys = refl
  recent-append now (t ∷ xs) ys = elim (Bool-cases (is_recent window now t)) [
    | inl e ↦ rw e (ap (λ rest. t ∷ rest) (recent-append now xs ys))
    | inr e ↦ rw e (recent-append now xs ys)
  ]

  -- What has left the window does not come back.
  pub recent-recent :
      (now later : Time) (times : List Time)
      → now ≤ later
      → recent later (recent now times) ≡ recent later times
  unfolding select
  recent-recent now later [] h = refl
  recent-recent now later (t ∷ times) h = ground (arith, recent-recent now later times h)

  pub length-recent-le :
      (now later : Time) (times : List Time)
      → now ≤ later
      → length (recent later times) ≤ length (recent now times)
  unfolding select
  length-recent-le now later [] h = omega arith
  length-recent-le now later (t ∷ times) h = ground (arith, length-recent-le now later times h)

  -- The sweep's test reads the last time only: the others are before it.
  pub recent-stale :
      (now later : Time) (times : List Time)
      → now ≤ later
      → IsSorted times
      → is_stale window now times ≡ true
      → recent later times ≡ []
  unfolding is_stale select
  recent-stale now later [] h s e = refl
  recent-stale now later (t ∷ []) h s e = ground arith
  recent-stale now later (t ∷ r ∷ times) h ((p, a), s) e =
      let rest = recent-stale now later (r ∷ times) h s e in ground arith

  abbrev pub AllLines : Time → List Entry → Type 0
  AllLines last = All (λ (e : Entry). IsLine last e.times)

  pub recent-sweep :
      (k : Bytes) (now later last : Time) (entries : List Entry)
      → now ≤ later
      → IsKeyed entries
      → AllLines last entries
      → recent later (times_of k (sweep window now entries)) ≡ recent later (times_of k entries)
  unfolding sweep times_of
  recent-sweep k now later last [] h key lines = refl
  recent-sweep k now later last (e ∷ entries) h (fresh, key) (line, lines) =
      let rest = recent-sweep k now later last entries h key lines in
      elim (Bool-cases (is_stale window now e.times)) [
        | inr live ↦
            unfold select in
            rw live (elim (Bool-cases (bytes_eq e.key k)) [
              | inl same ↦ rw same refl
              | inr apart ↦ rw apart rest
            ])
        | inl stale ↦
            unfold select in
            rw stale (elim (Bool-cases (bytes_eq e.key k)) [
              | inr apart ↦ rw apart rest
              | inl same ↦
                  let gone : any (has_key k) entries ≡ false =
                    subst (λ j. any (has_key j) entries ≡ false) (bytes_eq→≡ e.key k same) fresh in
                  rw
                    (
                      same,
                      times_of-absent k
                          (select (λ (e : Entry). not (is_stale window now e.times)) entries)
                          (any-select _ k entries gone),
                    )
                    (sym (recent-stale now later e.times h line.0 stale))
            ])
      ]

pub IsLine-times_of :
    (last : Time) (k : Bytes) (entries : List Entry)
    → All (λ (e : Entry). IsLine last e.times) entries
    → IsLine last (times_of k entries)
unfolding times_of
IsLine-times_of last k [] h = (tt, tt)
IsLine-times_of last k (e ∷ entries) (p, h) = elim (Bool-cases (bytes_eq e.key k)) [
  | inl same ↦ rw same p
  | inr apart ↦ rw apart (IsLine-times_of last k entries h)
]

pub AllLines-assign :
    (last : Time) (k : Bytes) (v : List Time) (entries : List Entry)
    → IsLine last v
    → All (λ (e : Entry). IsLine last e.times) entries
    → All (λ (e : Entry). IsLine last e.times) (assign k v entries)
unfolding assign
AllLines-assign last k v [] p h = (p, tt)
AllLines-assign last k v (e ∷ entries) p (q, h) = elim (Bool-cases (bytes_eq e.key k)) [
  | inl same ↦ rw same (p, h)
  | inr apart ↦ rw apart (q, AllLines-assign last k v entries p h)
]

pub AllLines-later :
    (last now : Time) (entries : List Entry)
    → last ≤ now
    → All (λ (e : Entry). IsLine last e.times) entries
    → All (λ (e : Entry). IsLine now e.times) entries
AllLines-later last now [] h a = tt
AllLines-later last now (e ∷ entries) h ((s, p), a) =
    ((s, All-weaken last now e.times h p), AllLines-later last now entries h a)

pub times_of-remove_ne :
    (j k : Bytes) (entries : List Entry)
    → bytes_eq j k ≡ false
    → times_of k (remove j entries) ≡ times_of k entries
unfolding times_of remove select
times_of-remove_ne j k [] ne = refl
times_of-remove_ne j k (e ∷ entries) ne = elim (Bool-cases (bytes_eq e.key j)) [
  | inl same ↦
      let apart : bytes_eq e.key k ≡ false = rw (bytes_eq→≡ e.key j same) ne in
      rw (same, apart) (times_of-remove_ne j k entries ne)
  | inr other ↦
      rw other (
        ap (λ rest. if bytes_eq e.key k then e.times else rest) (times_of-remove_ne j k entries ne))
]

pub any-remove : (k : Bytes) (entries : List Entry) → any (has_key k) (remove k entries) ≡ false
unfolding any remove select
any-remove k [] = refl
any-remove k (e ∷ entries) = ground (arith, any-remove k entries)

pub leb-false : (a b : ℕ) → leb a b ≡ false → b < a
leb-false a b h = ground arith
