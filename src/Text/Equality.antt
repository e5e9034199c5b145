-- ===== src/Text/Equality.antt =====
-- Equality of texts and the test for it. No Go source is modelled here.
use xeron_mx.Prelude.{◌≡◌, refl, true, [], ◌∷◌, arith}
use xeron_mx.Text.{Bytes, bytes_eq}

pub bytes_eq_refl : (s : Bytes) → bytes_eq s s ≡ true
unfolding bytes_eq
bytes_eq_refl [] = refl
bytes_eq_refl (x ∷ s) = ground (arith, bytes_eq_refl s)

pub bytes_eq→≡ : (s t : Bytes) → bytes_eq s t ≡ true → s ≡ t
unfolding bytes_eq
bytes_eq→≡ [] [] h = refl
bytes_eq→≡ [] (y ∷ t) h = cc
bytes_eq→≡ (x ∷ s) [] h = cc
bytes_eq→≡ (x ∷ s) (y ∷ t) h =
    let head : x ≡ y = ground arith in let tail : s ≡ t = bytes_eq→≡ s t (ground arith) in cc

pub bytes_eq_sym : (s t : Bytes) → bytes_eq s t ≡ bytes_eq t s
unfolding bytes_eq
bytes_eq_sym [] [] = refl
bytes_eq_sym [] (y ∷ t) = refl
bytes_eq_sym (x ∷ s) [] = refl
bytes_eq_sym (x ∷ s) (y ∷ t) = ground (arith, bytes_eq_sym s t)
