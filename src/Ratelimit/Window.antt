-- ===== src/Ratelimit/Window.antt =====
-- Proofs about the limiter of internal/ratelimit over a history of calls.
use mathlib.Core.Path.{subst}
use xeron_mx.Prelude.{
  All-sub, ℕ, ◌≤◌, ◌≡◌, refl, sym, ◌∙◌, ap, true, false, not, ◌&&◌, List, [], ◌∷◌, ◌++◌, ltb, leb,
  if◌then◌else◌, length, length-append, Bool-cases, inl, inr, arith, any, select, All, All-append,
}
use xeron_mx.Text.{Bytes, bytes_eq}
use xeron_mx.Text.Equality.{bytes_eq→≡}
use xeron_mx.Store.Time.{Time}
use xeron_mx.Ratelimit.{
  Entry, Limiter, times_of, assign, remove, is_recent, sweep, kept, allow, reset, max_keys, new,
}
use xeron_mx.Ratelimit.Keys.{
  IsKeyed, has_key, times_of-assign_self, times_of-assign_ne, IsKeyed-assign, IsKeyed-select,
  times_of-absent,
}
use xeron_mx.Ratelimit.Lines.{
  IsLine, IsSorted-select, IsSorted-snoc, recent, recent-append, recent-recent, length-recent-le,
  recent-sweep, IsLine-times_of, AllLines-assign, AllLines-later, times_of-remove_ne, any-remove,
  leb-false,
}
use xeron_mx.Ratelimit.Calls.{Call, ask, clear, after, granted, IsTimed}

-- What holds of the limiter behind a history, for one key and the times at which it let the key
-- pass: the entries have one key each and their times are in order; and from `last` on the window
-- finds the same times in the entry and in the record of what was granted, and at most `max`.
record Follows (k : Bytes) (last : Time) (l : Limiter) (acc : List Time) : Type 0 where
  keyed : IsKeyed l.attempts
  lines : All (λ (e : Entry). IsLine last e.times) l.attempts
  same :
      (now : Time)
      → last ≤ now
      → recent l.window now (times_of k l.attempts) ≡ recent l.window now acc
  bounded : length (recent l.window last acc) ≤ l.max

module _ (k : Bytes) where
  Follows-later :
      (last now : Time) (l : Limiter) (acc : List Time)
      → last ≤ now
      → Follows k last l acc
      → Follows k now l acc
  Follows-later last now l acc h f = record {
    keyed = f.keyed;
    lines = AllLines-later last now l.attempts h f.lines;
    same = λ later g. f.same later (omega arith);
    bounded = omega (arith, f.bounded, length-recent-le l.window last now acc h);
  }

  Follows-assign :
      (j : Bytes) (v : List Time) (now : Time) (l : Limiter) (acc acc' : List Time)
      → Follows k now l acc
      → IsLine now v
      → (bytes_eq j k ≡ true
          → (later : Time) → now ≤ later
          → recent l.window later v ≡ recent l.window later acc')
      → (bytes_eq j k ≡ false → acc' ≡ acc)
      → length (recent l.window now acc') ≤ l.max
      → Follows k now (record l { attempts = assign j v l.attempts }) acc'
  Follows-assign j v now l acc acc' f line here there bound = record {
    keyed = IsKeyed-assign j v l.attempts f.keyed;
    lines = AllLines-assign now j v l.attempts line f.lines;
    same = λ later h. elim (Bool-cases (bytes_eq j k)) [
      | inl e ↦
          ap (λ (i : Bytes). recent l.window later (times_of i (assign j v l.attempts)))
            (sym (bytes_eq→≡ j k e))
          ∙ ap (recent l.window later) (times_of-assign_self j v l.attempts)
          ∙ here e later h
      | inr e ↦
          ap (recent l.window later) (times_of-assign_ne j k v l.attempts e)
          ∙ f.same later h
          ∙ ap (recent l.window later) (sym (there e))
    ];
    bounded = bound;
  }

  Follows-sweep :
      (now : Time) (l : Limiter) (acc : List Time)
      → Follows k now l acc
      → Follows k now (record l { attempts = sweep l.window now l.attempts }) acc
  unfolding sweep
  Follows-sweep now l acc f = record {
    keyed = IsKeyed-select _ l.attempts f.keyed;
    lines = All-sub (λ (e : Entry). IsLine now e.times) _ l.attempts f.lines;
    same = λ later h.
        recent-sweep l.window k now later now l.attempts h f.keyed f.lines ∙ f.same later h;
    bounded = f.bounded;
  }

  kept-IsLine :
      (j : Bytes) (now : Time) (l : Limiter) (acc : List Time)
      → Follows k now l acc
      → IsLine now (kept j now l)
  unfolding kept
  kept-IsLine j now l acc f =
      let (s, b) = IsLine-times_of now j l.attempts f.lines in
      (
        IsSorted-select _ (times_of j l.attempts) s,
        All-sub (λ t. t ≤ now) _ (times_of j l.attempts) b,
      )

  -- What is left of the entry of the key is what was granted to it in the window.
  kept_lem :
      (j : Bytes) (now later : Time) (l : Limiter) (acc : List Time)
      → Follows k now l acc
      → bytes_eq j k ≡ true
      → now ≤ later
      → recent l.window later (kept j now l) ≡ recent l.window later acc
  unfolding kept
  kept_lem j now later l acc f e h =
      recent-recent l.window now later (times_of j l.attempts) h
      ∙ ap (λ (i : Bytes). recent l.window later (times_of i l.attempts)) (bytes_eq→≡ j k e)
      ∙ f.same later h

  kept_self :
      (now : Time) (l : Limiter) (acc : List Time)
      → Follows k now l acc
      → kept k now l ≡ recent l.window now acc
  unfolding kept
  kept_self now l acc f = f.same now (omega arith)

  Follows-grant :
      (j : Bytes) (now : Time) (l : Limiter) (acc : List Time)
      → Follows k now l acc
      → leb l.max (length (kept j now l)) ≡ false
      → Follows k now
          (record l { attempts = assign j (kept j now l ++ now ∷ []) l.attempts })
          (if bytes_eq j k && true then acc ++ now ∷ [] else acc)
  Follows-grant j now l acc f room =
      let (s, b) = kept-IsLine j now l acc f in
      let line : IsLine now (kept j now l ++ now ∷ []) = (
        IsSorted-snoc now (kept j now l) s b,
        All-append (λ t. t ≤ now) (kept j now l) (now ∷ []) b (omega arith, tt),
      ) in
      elim (Bool-cases (bytes_eq j k)) [
        | inr e ↦
            rw e (Follows-assign j _ now l acc acc f line (λ e'. absurd cc) (λ e. refl) f.bounded)
        | inl e ↦ rw e (
            Follows-assign j _ now l acc (acc ++ now ∷ []) f line
              (λ e later h.
                recent-append l.window later (kept j now l) (now ∷ [])
                ∙ ap (λ xs. xs ++ recent l.window later (now ∷ []))
                    (kept_lem j now later l acc f e h)
                ∙ sym (recent-append l.window later acc (now ∷ [])))
              (λ e'. absurd cc)
              (let size : length (kept j now l) ≡ length (recent l.window now acc) =
                  ap (λ i. length (kept i now l)) (bytes_eq→≡ j k e)
                  ∙ ap length (kept_self now l acc f) in
                let one : length (recent l.window now (now ∷ [])) ≤ 1 =
                  unfold select in ground arith in
                omega (
                  arith,
                  size,
                  one,
                  ap length (recent-append l.window now acc (now ∷ [])),
                  length-append (recent l.window now acc) (recent l.window now (now ∷ [])),
                  leb-false l.max (length (kept j now l)) room,
                )))
      ]

  allow-Follows :
      (j : Bytes) (now : Time) (l : Limiter) (acc : List Time)
      → Follows k now l acc
      → Follows k now
          (allow j now l).1
          (if bytes_eq j k && (allow j now l).0 then acc ++ now ∷ [] else acc)
  unfolding allow
  allow-Follows j now l acc f = elim (Bool-cases (leb l.max (length (kept j now l)))) [
    | inl full ↦ rw full (elim (Bool-cases (bytes_eq j k)) [
      | inl e ↦ rw e (
          Follows-assign j (kept j now l) now l acc acc f (kept-IsLine j now l acc f)
            (λ e later h. kept_lem j now later l acc f e h) (λ e. refl) f.bounded)
      | inr e ↦ rw e (
          Follows-assign j (kept j now l) now l acc acc f (kept-IsLine j now l acc f)
            (λ e later h. kept_lem j now later l acc f e h) (λ e. refl) f.bounded)
    ])
    | inr room ↦ rw room (
        let f' = Follows-grant j now l acc f room in
        elim (Bool-cases (ltb max_keys (length (assign j (kept j now l ++ now ∷ []) l.attempts)))) [
          | inl many ↦ rw many (Follows-sweep now _ _ f')
          | inr few ↦ rw few f'
        ])
  ]

  reset-Follows :
      (j : Bytes) (last : Time) (l : Limiter) (acc : List Time)
      → Follows k last l acc
      → Follows k last (reset j l) (if bytes_eq j k then [] else acc)
  unfolding reset remove
  reset-Follows j last l acc f =
      let keyed = IsKeyed-select (λ (e : Entry). not (bytes_eq e.key j)) l.attempts f.keyed in
      let lines =
        All-sub (λ (e : Entry). IsLine last e.times) (λ (e : Entry). not (bytes_eq e.key j))
          l.attempts f.lines in
      elim (Bool-cases (bytes_eq j k)) [
        | inr e ↦ rw e (record {
          keyed = keyed;
          lines = lines;
          same = λ later h.
              ap (recent l.window later) (times_of-remove_ne j k l.attempts e) ∙ f.same later h;
          bounded = f.bounded;
        })
        | inl e ↦ rw e (record {
          keyed = keyed;
          lines = lines;
          same = λ later h. ap (recent l.window later) (
              times_of-absent k (remove j l.attempts) (
                subst (λ (i : Bytes). any (has_key i) (remove j l.attempts) ≡ false)
                  (bytes_eq→≡ j k e) (any-remove j l.attempts)));
          bounded = unfold select in omega arith;
        })
      ]

  after-Follows :
      (calls : List Call) (last now : Time) (l : Limiter) (acc : List Time)
      → Follows k last l acc
      → IsTimed last calls now
      → Follows k now (after calls l) (granted k calls l acc)
  unfolding after granted
  after-Follows [] last now l acc f h = Follows-later last now l acc h f
  after-Follows (ask j t ∷ calls) last now l acc f (h, timed) =
      after-Follows calls t now _ _ (allow-Follows j t l acc (Follows-later last t l acc h f)) timed
  after-Follows (clear j ∷ calls) last now l acc f timed =
      after-Follows calls last now _ _ (reset-Follows j last l acc f) timed

allow-config :
    (j : Bytes) (now : Time) (l : Limiter)
    → ((allow j now l).1.max ≡ l.max) × ((allow j now l).1.window ≡ l.window)
unfolding allow
allow-config j now l = elim (Bool-cases (leb l.max (length (kept j now l)))) [
  | inl e ↦ rw e (refl, refl)
  | inr e ↦ rw e (refl, refl)
]

after-config :
    (calls : List Call) (l : Limiter)
    → ((after calls l).max ≡ l.max) × ((after calls l).window ≡ l.window)
unfolding after reset
after-config [] l = (refl, refl)
after-config (ask k t ∷ calls) l =
    let (m, w) = after-config calls (allow k t l).1 in
    let (m', w') = allow-config k t l in (m ∙ m', w ∙ w')
after-config (clear k ∷ calls) l = after-config calls (reset k l)

new-Follows : (k : Bytes) (max window last : ℕ) → Follows k last (new max window) []
unfolding times_of select
new-Follows k max window last = record {
  keyed = tt;
  lines = tt;
  same = λ now h. refl;
  bounded = omega arith;
}

module _ (max window : ℕ) (k : Bytes) (calls : List Call) (now : Time)
    (timed : IsTimed 0 calls now) where
  follows : Follows k now (after calls (new max window)) (granted k calls (new max window) [])
  follows = after-Follows k calls 0 now (new max window) [] (new-Follows k max window 0) timed

  -- After any history of calls at times in order, whatever the other keys did and whatever a sweep
  -- of the map dropped, at most `max` of the calls that passed for a key since its last reset are
  -- less than a window old.
  pub length-granted-le :
      length (select (is_recent window now) (granted k calls (new max window) [])) ≤ max
  length-granted-le =
      let (m, w) = after-config calls (new max window) in
      omega (
        arith,
        follows.bounded,
        m,
        ap (λ d. length (select (is_recent d now) (granted k calls (new max window) []))) w,
      )

  -- After such a history the next call for a key passes exactly if fewer than `max` of the calls
  -- that passed for it since its last reset are less than a window old.
  pub allow_iff :
      (allow k now (after calls (new max window))).0
      ≡ ltb (length (select (is_recent window now) (granted k calls (new max window) []))) max
  unfolding allow
  allow_iff =
      let (m, w) = after-config calls (new max window) in
      let size =
        ap length (kept_self k now _ _ follows)
        ∙ ap (λ d. length (select (is_recent d now) (granted k calls (new max window) []))) w in
      elim (Bool-cases (
        leb (after calls (new max window)).max
          (length (kept k now (after calls (new max window)))))) [
            | inl e ↦ rw e (ground (arith, size, m))
            | inr e ↦ rw e (ground (arith, size, m))
          ]
