-- ===== src/Netlimit/Limits.antt =====
-- Proofs about the cap on connections (internal/netlimit/netlimit.go).
use mathlib.Core.Path.{subst}
use xeron_mx.Prelude.{
  ℕ, zero, suc, ◌+◌, ◌≤◌, ◌≡◌, refl, sym, ◌∙◌, ap, ◌==◌, none, inl, inr, Bool-cases, Bool, false,
  not, some, List, [], ◌∷◌, ◌++◌, ltb, count, if◌then◌else◌, on_if, arith,
}
use xeron_mx.Netlimit.{Conn, Listener, listen, arrive, release_once, close}

-- What happens to a listener: a connection arrives, or one is closed, as often as its users like.
pub data Event : Type 0 where
  arrival : Event
  closing : ℕ → Event

unfoldable pub after : List Event → Listener → Listener
unfolding arrive close
after [] l = l
after (arrival ∷ events) l = after events (arrive l).1
after (closing k ∷ events) l = after events (close k l)

-- The connections that were let in and are not closed.
unfoldable pub open_conns : List Conn → ℕ
unfolding count
open_conns = count λ (c : Conn). not c.released

pub record IsLimited (l : Listener) : Type 0 where
  pub counted : l.slots ≡ open_conns l.conns
  pub within : l.slots ≤ l.max

open-append : (xs ys : List Conn) → open_conns (xs ++ ys) ≡ open_conns xs + open_conns ys
unfolding open_conns count
open-append [] ys = omega arith
open-append (c ∷ xs) ys = omega (arith, open-append xs ys)

-- A release frees one connection, or none.
open-release_once :
    (k : ℕ) (conns : List Conn)
    → open_conns conns
      ≡ open_conns (release_once k conns).1 + (if (release_once k conns).0 then 1 else 0)
unfolding open_conns count release_once
open-release_once k [] = omega arith
open-release_once zero (c ∷ conns) = ground arith
open-release_once (suc k) (c ∷ conns) = ground (arith, open-release_once k conns)

open-fresh : open_conns (record { released = false } ∷ []) ≡ 1
unfolding open_conns count
open-fresh = refl

arrive-IsLimited : (l : Listener) → IsLimited l → IsLimited (arrive l).1
unfolding arrive
arrive-IsLimited l h =
    on_if (λ (r : Bool × Listener). IsLimited r.1) (ltb l.slots l.max)
      (λ e. record {
        counted =
            ground (
              arith,
              h.counted,
              open-append l.conns (record { released = false } ∷ []),
              open-fresh,
            );
        within = ground arith;
      })
      (λ e. h)

close-IsLimited : (k : ℕ) (l : Listener) → IsLimited l → IsLimited (close k l)
unfolding close
close-IsLimited k l h = record {
  counted = ground (arith, h.counted, open-release_once k l.conns);
  within = ground (arith, h.within);
}

after-IsLimited : (events : List Event) (l : Listener) → IsLimited l → IsLimited (after events l)
unfolding after
after-IsLimited [] l h = h
after-IsLimited (arrival ∷ events) l h = after-IsLimited events (arrive l).1 (arrive-IsLimited l h)
after-IsLimited (closing k ∷ events) l h =
    after-IsLimited events (close k l) (close-IsLimited k l h)

arrive-max : (l : Listener) → (arrive l).1.max ≡ l.max
unfolding arrive
arrive-max l =
    on_if (λ (r : Bool × Listener). r.1.max ≡ l.max) (ltb l.slots l.max) (λ e. refl) (λ e. refl)

after-max : (events : List Event) (l : Listener) → (after events l).max ≡ l.max
unfolding after close
after-max [] l = refl
after-max (arrival ∷ events) l = omega (arith, after-max events (arrive l).1, arrive-max l)
after-max (closing k ∷ events) l = after-max events (close k l)

arrive_lem : (l : Listener) → (arrive l).0 ≡ ltb l.slots l.max
unfolding arrive
arrive_lem l = ground arith

new-IsLimited : (max : ℕ) → IsLimited (record { max = max; slots = 0; conns = [] })
unfolding open_conns count
new-IsLimited max = record { counted = refl; within = omega arith }

some-injective : (k l : Listener) → some k ≡ some l → k ≡ l
some-injective k l h = cc

-- After any arrivals and closings of a listener with a limit, of one connection more than once
-- too, at most `max` connections are open, and the next one is let in exactly if fewer are.
pub after-open :
    (max : ℕ) (events : List Event) (l : Listener)
    → listen max ≡ some l
    → (open_conns (after events l).conns ≤ max)
      × ((arrive (after events l)).0 ≡ ltb (open_conns (after events l).conns) max)
unfolding listen
after-open max events l h = elim (Bool-cases (max == 0)) [
  | inl e ↦ let wrong : none ≡ some l = rw e at h in cc
  | inr e ↦
      let fresh : record { max = max; slots = 0; conns = [] } ≡ l =
        some-injective _ l (rw e at h) in
      let limited : IsLimited l = subst IsLimited fresh (new-IsLimited max) in
      let same : l.max ≡ max = sym (ap (λ (l : Listener). l.max) fresh) in
      let v = after-IsLimited events l limited in
      (
        omega (arith, v.counted, v.within, after-max events l, same),
        arrive_lem (after events l) ∙ ground (arith, v.counted, after-max events l, same),
      )
]
