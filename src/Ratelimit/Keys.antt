-- ===== src/Ratelimit/Keys.antt =====
-- Lemmas on the map of internal/ratelimit: one entry for each key, and what a lookup finds after an
-- assignment, a deletion and a selection.
use xeron_mx.Prelude.{
  ◌≡◌, refl, ◌∙◌, ap, Bool, false, List, [], ◌∷◌, if◌then◌else◌, Bool-cases, inl, inr, arith, any,
  select,
}
use xeron_mx.Text.{Bytes, bytes_eq}
use xeron_mx.Text.Equality.{bytes_eq→≡, bytes_eq_refl, bytes_eq_sym}
use xeron_mx.Store.Time.{Time}
use xeron_mx.Ratelimit.{Entry, times_of, assign}

abbrev pub has_key : Bytes → Entry → Bool
has_key k e = bytes_eq e.key k

abbrev pub IsKeyed : List Entry → Type 0
IsKeyed [] = Unit
IsKeyed (e ∷ entries) = (any (has_key e.key) entries ≡ false) × IsKeyed entries

pub times_of-assign_self :
    (k : Bytes) (v : List Time) (entries : List Entry) → times_of k (assign k v entries) ≡ v
unfolding assign times_of
times_of-assign_self k v [] = rw (bytes_eq_refl k) refl
times_of-assign_self k v (e ∷ entries) = elim (Bool-cases (bytes_eq e.key k)) [
  | inl h ↦ rw h (rw h refl)
  | inr h ↦ rw h (rw h (times_of-assign_self k v entries))
]

pub times_of-assign_ne :
    (k j : Bytes) (v : List Time) (entries : List Entry)
    → bytes_eq k j ≡ false
    → times_of j (assign k v entries) ≡ times_of j entries
unfolding assign times_of
times_of-assign_ne k j v [] ne = rw ne refl
times_of-assign_ne k j v (e ∷ entries) ne = elim (Bool-cases (bytes_eq e.key k)) [
  | inl h ↦
      let same : e.key ≡ k = bytes_eq→≡ e.key k h in
      let apart : bytes_eq e.key j ≡ false = rw same ne in rw h (rw apart refl)
  | inr h ↦ rw h (
      ap (λ rest. if bytes_eq e.key j then e.times else rest) (times_of-assign_ne k j v entries ne))
]

any-assign :
    (k j : Bytes) (v : List Time) (entries : List Entry)
    → any (has_key j) entries ≡ false
    → bytes_eq k j ≡ false
    → any (has_key j) (assign k v entries) ≡ false
unfolding assign any
any-assign k j v [] h ne = ground arith
any-assign k j v (e ∷ entries) h ne = elim (Bool-cases (bytes_eq e.key k)) [
  | inl g ↦ rw g h
  | inr g ↦ rw g (ground (arith, any-assign k j v entries))
]

pub IsKeyed-assign :
    (k : Bytes) (v : List Time) (entries : List Entry)
    → IsKeyed entries
    → IsKeyed (assign k v entries)
unfolding assign any
IsKeyed-assign k v [] key = (refl, tt)
IsKeyed-assign k v (e ∷ entries) (fresh, key) = elim (Bool-cases (bytes_eq e.key k)) [
  | inl h ↦ rw h (fresh, key)
  | inr h ↦ rw h (
    any-assign k e.key v entries fresh (bytes_eq_sym k e.key ∙ h),
    IsKeyed-assign k v entries key,
  )
]

pub any-select :
    (p : Entry → Bool) (k : Bytes) (entries : List Entry)
    → any (has_key k) entries ≡ false
    → any (has_key k) (select p entries) ≡ false
unfolding any select
any-select p k [] h = refl
any-select p k (e ∷ entries) h = ground (arith, any-select p k entries)

pub IsKeyed-select :
    (p : Entry → Bool) (entries : List Entry) → IsKeyed entries → IsKeyed (select p entries)
unfolding select
IsKeyed-select p [] key = tt
IsKeyed-select p (e ∷ entries) (fresh, key) = elim (Bool-cases (p e)) [
  | inl h ↦ rw h (any-select p e.key entries fresh, IsKeyed-select p entries key)
  | inr h ↦ rw h (IsKeyed-select p entries key)
]

pub times_of-absent :
    (k : Bytes) (entries : List Entry) → any (has_key k) entries ≡ false → times_of k entries ≡ []
unfolding times_of any
times_of-absent k [] h = refl
times_of-absent k (e ∷ entries) h = ground (arith, times_of-absent k entries)
