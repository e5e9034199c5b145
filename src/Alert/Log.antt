-- ===== src/Alert/Log.antt =====
-- The log of the alerts of internal/alert that were queued, and what lastSent says of it.
use xeron_mx.Prelude.{
  ℕ, ◌+◌, ◌≤◌, ◌≡◌, refl, sym, ◌∙◌, ap, Bool-cases, true, false, Option, none, some, List, [], ◌∷◌,
  ◌++◌, All, All-append, inl, inr, arith,
}
use xeron_mx.Text.{Bytes, bytes_eq}
use xeron_mx.Text.Equality.{bytes_eq→≡, bytes_eq_sym}
use xeron_mx.Store.Time.{Time}
use xeron_mx.Alert.{Alert, Alerter, look_up, forget, is_recent}

look_up-forget :
    (j k : Bytes) (es : List (Bytes × ℕ))
    → bytes_eq j k ≡ false
    → look_up k (forget j es) ≡ look_up k es
unfolding look_up forget
look_up-forget j k [] h = refl
look_up-forget j k (e ∷ es) h = elim (Bool-cases (bytes_eq j e.0)) [
  | inl same ↦
      let other : bytes_eq k e.0 ≡ false =
        ap (bytes_eq k) (sym (bytes_eq→≡ j e.0 same)) ∙ bytes_eq_sym k j ∙ h in
      rw (same, other) (look_up-forget j k es h)
  | inr other ↦ rw other (elim (Bool-cases (bytes_eq k e.0)) [
    | inl e2 ↦ rw e2 refl
    | inr e2 ↦ rw e2 (look_up-forget j k es h)
  ])
]

abbrev pub log : Alerter → List Alert
log a = a.delivered ++ a.queue

-- Nothing of the log is younger than what lastSent says.
abbrev pub Reaches : Option Time → Time → Type 0
Reaches none t = 1 ≤ 0
Reaches (some u) t = t ≤ u

module _ (interval : ℕ) (k : Bytes) where
  -- Two alerts with the key k are an interval apart.
  abbrev pub Apart : Alert → Alert → Type 0
  Apart al next = bytes_eq al.key k ≡ true → bytes_eq next.key k ≡ true → al.at + interval ≤ next.at

  abbrev pub Spaced : List Alert → Type 0
  Spaced [] = Unit
  Spaced (al ∷ rest) = All (Apart al) rest × Spaced rest

  abbrev pub Known : List (Bytes × ℕ) → List Alert → Type 0
  Known es = All (λ al. bytes_eq al.key k ≡ true → Reaches (look_up k es) al.at)

  abbrev pub Inv : List (Bytes × ℕ) → List Alert → Type 0
  Inv es als = Known es als × Spaced als

  Spaced-snoc :
      (als : List Alert) (al : Alert)
      → All (λ old. Apart old al) als
      → Spaced als
      → Spaced (als ++ al ∷ [])
  Spaced-snoc [] al h s = (tt, tt)
  Spaced-snoc (x ∷ als) al (h, hs) (s, ss) =
      (All-append (Apart x) als (al ∷ []) s (h, tt), Spaced-snoc als al hs ss)

  -- What was not recent was an interval ago.
  old :
      (o : Option Time) (t now : Time)
      → is_recent interval now o ≡ false
      → Reaches o t
      → t + interval ≤ now
  old none t now h r = absurd (omega (arith, r))
  old (some u) t now h r = ground arith

  still :
      (es : List (Bytes × ℕ)) (key : Bytes) (now t : Time)
      → is_recent interval now (look_up key es) ≡ false
      → Reaches (look_up k es) t
      → Reaches (look_up k ((key, now) ∷ forget key es)) t
  unfolding look_up
  still es key now t h r = elim (Bool-cases (bytes_eq k key)) [
    | inl same ↦ rw same (
        let t-old =
          old (look_up k es) t now
            (ap (λ j. is_recent interval now (look_up j es)) (bytes_eq→≡ k key same) ∙ h) r in
        omega (arith, t-old))
    | inr other ↦ rw (other, look_up-forget key k es (bytes_eq_sym key k ∙ other)) r
  ]

  now-known :
      (es : List (Bytes × ℕ)) (key : Bytes) (now : Time)
      → bytes_eq key k ≡ true
      → Reaches (look_up k ((key, now) ∷ es)) now
  unfolding look_up
  now-known es key now h = rw (bytes_eq_sym k key ∙ h) (omega arith)

  gap :
      (es : List (Bytes × ℕ)) (al next : Alert)
      → is_recent interval next.at (look_up next.key es) ≡ false
      → (bytes_eq al.key k ≡ true → Reaches (look_up k es) al.at)
      → Apart al next
  gap es al next h r e e2 =
      old (look_up k es) al.at next.at
        (ap (λ j. is_recent interval next.at (look_up j es)) (sym (bytes_eq→≡ next.key k e2)) ∙ h)
        (r e)

  pub All-still :
      (es : List (Bytes × ℕ)) (key : Bytes) (now : Time) (als : List Alert)
      → is_recent interval now (look_up key es) ≡ false
      → Known es als
      → Known ((key, now) ∷ forget key es) als
  All-still es key now [] h n = tt
  All-still es key now (al ∷ als) h (n, ns) =
      (λ e. still es key now al.at h (n e), All-still es key now als h ns)

  All-gap :
      (es : List (Bytes × ℕ)) (next : Alert) (als : List Alert)
      → is_recent interval next.at (look_up next.key es) ≡ false
      → Known es als
      → All (λ al. Apart al next) als
  All-gap es next [] h n = tt
  All-gap es next (al ∷ als) h (n, ns) = (gap es al next h n, All-gap es next als h ns)

  pub All-forgotten :
      (es : List (Bytes × ℕ)) (j : Bytes) (als : List Alert)
      → bytes_eq j k ≡ false
      → Known es als
      → Known (forget j es) als
  All-forgotten es j [] h n = tt
  All-forgotten es j (al ∷ als) h (n, ns) =
      (λ e. rw (look_up-forget j k es h) (n e), All-forgotten es j als h ns)

  pub emitted-Inv :
      (es : List (Bytes × ℕ)) (al : Alert) (als : List Alert)
      → is_recent interval al.at (look_up al.key es) ≡ false
      → Inv es als
      → Inv ((al.key, al.at) ∷ forget al.key es) (als ++ al ∷ [])
  emitted-Inv es al als h (n, s) = (
    All-append
        (λ (x : Alert).
          bytes_eq x.key k ≡ true → Reaches (look_up k ((al.key, al.at) ∷ forget al.key es)) x.at)
        als (al ∷ []) (All-still es al.key al.at als h n)
        (λ e. now-known (forget al.key es) al.key al.at e, tt),
    Spaced-snoc als al (All-gap es al als h n) s,
  )
