-- ===== src/World/Keeps.antt =====
-- Lemmas on the shared world and the spool.
use xeron_mx.Prelude.{
  ℕ, ◌≡◌, refl, ap, Bool, Option-cases, none, true, false, ◌&&◌, ltb, length, List, [], ◌∷◌, ◌++◌,
  ◌==◌, any, select, Bool-cases, inl, inr, arith, some, find,
}
use xeron_mx.Text.{Bytes}
use xeron_mx.Store.Time.{Time}
use xeron_mx.Store.Types.{Event, EventType}
use xeron_mx.World.{
  World, Blob, record_event, notify, count_filter_match, delete, get, put, PutResult, stored,
  exceeds, failed,
}

abbrev pub IsSame : World → World → Type 0
IsSame w w' = (w'.db.queue ≡ w.db.queue) × (w'.blobs ≡ w.blobs)

pub record_event-IsSame :
    (broken : Bool) (e : Event) (w : World) → IsSame w (record_event broken e w)
unfolding record_event
record_event-IsSame false e w = (refl, refl)
record_event-IsSame true e w = (refl, refl)

pub count_filter_match-IsSame :
    (broken : Bool) (k : ℕ) (now : Time) (w : World) → IsSame w (count_filter_match broken k now w)
unfolding count_filter_match
count_filter_match-IsSame false k now w = (refl, refl)
count_filter_match-IsSame true k now w = (refl, refl)

-- An event and then a notice.
pub told-IsSame :
    (set broken : Bool) (t : EventType) (e : Event) (w : World)
    → IsSame w (notify set t (record_event broken e w))
unfolding record_event
told-IsSame false false t e w = (refl, refl)
told-IsSame false true t e w = (refl, refl)
told-IsSame true false t e w = (refl, refl)
told-IsSame true true t e w = (refl, refl)

module _ (k : ℕ) (body : Bytes) where
  pub delete-stored :
      (blobs : List Blob)
      → any (λ (b : Blob). b.id == k) blobs ≡ false
      → delete k (blobs ++ record { id = k; body = body } ∷ []) ≡ blobs
  unfolding delete any select
  delete-stored [] h = ground arith
  delete-stored (b ∷ blobs) h = elim (Bool-cases (b.id == k)) [
    | inl e ↦ ground arith
    | inr e ↦ rw e (ap (λ rest. b ∷ rest) (delete-stored blobs (ground arith)))
  ]

  find-stored :
      (blobs : List Blob)
      → any (λ (b : Blob). b.id == k) blobs ≡ false
      → find (λ (b : Blob). b.id == k) (blobs ++ record { id = k; body = body } ∷ [])
        ≡ some (record { id = k; body = body })
  unfolding any find
  find-stored [] h = ground arith
  find-stored (b ∷ blobs) h = elim (Bool-cases (b.id == k)) [
    | inl e ↦ ground arith
    | inr e ↦ rw e (find-stored blobs (ground arith))
  ]

  pub get-stored :
      (blobs : List Blob)
      → any (λ (b : Blob). b.id == k) blobs ≡ false
      → get k (blobs ++ record { id = k; body = body } ∷ []) ≡ some body
  unfolding get
  get-stored blobs h = rw (find-stored blobs h, get) refl

-- What an answer of `put` says of the spool.
abbrev pub IsPut : ℕ → Bytes → List Blob → PutResult → Type 0
IsPut k body blobs failed = Unit
IsPut k body blobs exceeds = Unit
IsPut k body blobs (stored n blobs') =
    (n ≡ length body) × (blobs' ≡ blobs ++ record { id = k; body = body } ∷ [])

pub put-IsPut :
    (broken : Bool) (k : ℕ) (body : Bytes) (max_bytes : ℕ) (blobs : List Blob)
    → IsPut k body blobs (put broken k body max_bytes blobs)
unfolding put
put-IsPut broken k body max_bytes blobs = elim (Bool-cases broken) [
  | inl e ↦ rw e tt
  | inr e ↦ rw e (elim (Bool-cases (any (λ (b : Blob). b.id == k) blobs)) [
    | inl f ↦ rw f tt
    | inr f ↦ rw f (elim (Bool-cases (ltb 0 max_bytes && ltb max_bytes (length body))) [
      | inl g ↦ rw g tt
      | inr g ↦ rw g (refl, refl)
    ])
  ])
]

pub delete-absent :
    (k : ℕ) (blobs : List Blob)
    → any (λ (b : Blob). b.id == k) blobs ≡ false
    → delete k blobs ≡ blobs
unfolding delete any select
delete-absent k [] h = refl
delete-absent k (b ∷ blobs) h = elim (Bool-cases (b.id == k)) [
  | inl e ↦ ground arith
  | inr e ↦ rw e (ap (λ rest. b ∷ rest) (delete-absent k blobs (ground arith)))
]

find-append :
    (k : ℕ) (blobs more : List Blob) (b : Blob)
    → find (λ (c : Blob). c.id == k) blobs ≡ some b
    → find (λ (c : Blob). c.id == k) (blobs ++ more) ≡ some b
unfolding find
find-append k [] more b h = cc
find-append k (c ∷ blobs) more b h = ground (arith, find-append k blobs more b)

-- A body that is added hides no other.
pub get-append :
    (k : ℕ) (blobs more : List Blob) (body : Bytes)
    → get k blobs ≡ some body
    → get k (blobs ++ more) ≡ some body
unfolding get
get-append k blobs more body h = elim (Option-cases (find (λ (c : Blob). c.id == k) blobs)) [
  | inl e ↦ let h' : none ≡ some body = rw (e, get) at h in cc
  | inr (b, e) ↦ rw (find-append k blobs more b e, get) (rw (e, get) at h)
]
