-- ===== src/Blob/Examples.antt =====
-- The encryption of internal/blob with a cipher that hides nothing but keeps the promises of
-- AES-GCM: tests, and the theorems on it.
use xeron_mx.Prelude.{
  ℕ, zero, suc, ◌+◌, ◌*◌, ◌≡◌, refl, sym, ◌∙◌, ap, true, false, Option, some, none, [], ◌∷◌, ◌++◌,
  if◌then◌else◌, ◌==◌, length, length-append, take, on_if, arith,
}
use xeron_mx.Text.{Bytes, bytes_eq, codes}
use xeron_mx.Blob.{
  Cipher, header_size, chunk_size, tag_size, decode, encode, read_chunks, seal_chunks, seal_secret,
  unseal,
}
use xeron_mx.Blob.Chunks.{IsSound}
use xeron_mx.Blob.Roundtrip.{decode-encode, decode-take, unseal-seal_secret}

unfoldable strip : Bytes → Bytes → Option Bytes
strip [] s = some s
strip (x ∷ t) [] = none
strip (x ∷ t) (y ∷ s) = let rest = strip t s in if x == y then rest else none

-- The tag is the nonce and four zeros.
abbrev clear : Cipher
clear = record {
  seal = λ key nonce text. (nonce ++ 0 ∷ 0 ∷ 0 ∷ 0 ∷ []) ++ text;
  open_sealed = λ key nonce sealed. strip (nonce ++ 0 ∷ 0 ∷ 0 ∷ 0 ∷ []) sealed;
  derive = λ salt. salt;
}

strip-append : (t s : Bytes) → strip t (t ++ s) ≡ some s
unfolding strip
strip-append [] s = refl
strip-append (x ∷ t) s = ground (arith, strip-append t s)

strip-other :
    (n m t u s : Bytes)
    → length n ≡ length m
    → bytes_eq n m ≡ false
    → strip (m ++ t) ((n ++ u) ++ s) ≡ none
unfolding strip bytes_eq
strip-other [] [] t u s len e = cc
strip-other [] (y ∷ m) t u s len e = absurd (omega (arith, len))
strip-other (x ∷ n) [] t u s len e = absurd (omega (arith, len))
strip-other (x ∷ n) (y ∷ m) t u s len e =
    on_if (λ r. r ≡ none) (y == x)
      (λ same. strip-other n m t u s (omega (arith, len)) (ground (arith, e, same))) (λ other. refl)

clear-IsSound : IsSound clear
clear-IsSound = record {
  opens = λ key nonce text len. strip-append (nonce ++ 0 ∷ 0 ∷ 0 ∷ 0 ∷ []) text;
  refuses = λ key nonce other text len len2 e.
      strip-other nonce other (0 ∷ 0 ∷ 0 ∷ 0 ∷ []) (0 ∷ 0 ∷ 0 ∷ 0 ∷ []) text (len ∙ sym len2) e;
  tags = λ key nonce text len. omega (
    arith,
    len,
    length-append (nonce ++ 0 ∷ 0 ∷ 0 ∷ 0 ∷ []) text,
    length-append nonce (0 ∷ 0 ∷ 0 ∷ 0 ∷ []),
  );
}

abbrev salt : Bytes
salt = codes "0123456789abcdef"

abbrev body : Bytes
body = codes "Subject: x"

chunks_test : read_chunks clear salt 4 9 0 (seal_chunks clear salt 4 9 0 body) ≡ (body, true)
unfolding read_chunks seal_chunks strip
chunks_test = refl

-- The file was cut off behind its first chunk.
cut_test :
    read_chunks clear salt 4 9 0 (take 20 (seal_chunks clear salt 4 9 0 body))
    ≡ (codes "Subj", false)
unfolding read_chunks seal_chunks strip
cut_test = refl

secret_test : unseal clear (seal_secret clear salt (codes "nonce-nonce-") body) ≡ some body
secret_test = unseal-seal_secret clear clear-IsSound salt refl (codes "nonce-nonce-") body refl

decode-encode_example : decode clear (encode clear salt body) ≡ some (body, true)
decode-encode_example = decode-encode clear clear-IsSound salt refl body

unfoldable zeros : ℕ → Bytes
zeros zero = []
zeros (suc n) = 0 ∷ zeros n

length-zeros : (n : ℕ) → length (zeros n) ≡ n
unfolding zeros
length-zeros zero = refl
length-zeros (suc n) = ap suc (length-zeros n)

decode-take_example :
    decode clear
      (take (header_size + 1 * (chunk_size + tag_size)) (encode clear salt (zeros 65537)))
    ≡ some (take (1 * chunk_size) (zeros 65537), false)
decode-take_example =
    decode-take clear clear-IsSound salt refl 1 (zeros 65537) (omega (arith, length-zeros 65537))
