-- ===== src/Blob/Roundtrip.antt =====
-- Proofs about the files and the sealed secrets of internal/blob.
use mathlib.Core.List.{append_assoc}
use xeron_mx.Prelude.{
  ℕ, suc, ◌+◌, ◌*◌, ◌≤◌, ◌≡◌, refl, sym, ◌∙◌, ap, true, false, some, ◌++◌, ltb, length,
  length-append, take, on_if, arith,
}
use xeron_mx.Text.{Bytes, bytes_eq}
use xeron_mx.Blob.{
  Cipher, tag_size, nonce_size, salt_size, chunk_size, header_size, magic, seal_chunks, read_file,
  encode, decode, seal_secret, unseal,
}
use xeron_mx.Blob.Chunks.{
  IsSound, take-exact, drop-exact, take-beyond, front, read-front, take-seal_chunks,
  length-front-ge, read_chunks-seal_chunks, length-seal_chunks-ge,
}

module _ (c : Cipher) (sound : IsSound c) (salt : Bytes) (salted : length salt ≡ salt_size) where
  read_file-seal_chunks :
      (key text : Bytes)
      → read_file c key (seal_chunks c key chunk_size (suc (length text)) 0 text) ≡ (text, true)
  unfolding read_file
  read_file-seal_chunks key text =
      let file = seal_chunks c key chunk_size (suc (length text)) 0 text in
      read_chunks-seal_chunks c sound key chunk_size (suc (length file)) (suc (length text)) 0 text
        (omega arith)
        (omega (
          arith,
          length-seal_chunks-ge c sound key chunk_size (suc (length text)) 0 text (omega arith)
              (omega arith),
        ))
        (omega arith)

  decode-file :
      (file : Bytes) → decode c (magic ++ (salt ++ file)) ≡ some (read_file c (c.derive salt) file)
  unfolding decode bytes_eq
  decode-file file =
      on_if (λ r. r ≡ some (read_file c (c.derive salt) file))
        (ltb (length (magic ++ (salt ++ file))) header_size)
        (λ e. absurd (ground (arith, length-append salt file, salted)))
        (λ e.
          rw (take-exact salt_size salt file salted, drop-exact salt_size salt file salted) refl)

  -- What Put writes, whole chunks or not, is what Get reads to its end, where AES-GCM keeps its
  -- promises and the salt has 16 bytes.
  pub decode-encode : (text : Bytes) → decode c (encode c salt text) ≡ some (text, true)
  unfolding encode
  decode-encode text =
      decode-file (seal_chunks c (c.derive salt) chunk_size (suc (length text)) 0 text)
      ∙ ap some (read_file-seal_chunks (c.derive salt) text)

  -- Of a file that was cut off behind n of its whole chunks, Get reads these and then says that it is
  -- corrupt, where AES-GCM keeps its promises and the salt has 16 bytes.
  pub decode-take :
      (n : ℕ) (text : Bytes)
      → n * chunk_size ≤ length text
      → decode c (take (header_size + n * (chunk_size + tag_size)) (encode c salt text))
        ≡ some (take (n * chunk_size) text, false)
  unfolding encode read_file
  decode-take n text h =
      let key = c.derive salt in
      let file = seal_chunks c key chunk_size (suc (length text)) 0 text in
      rw
        (
          sym (append_assoc magic salt file),
          take-beyond (header_size + n * (chunk_size + tag_size)) (n * (chunk_size + tag_size))
              (magic ++ salt) file (omega (arith, salted, length-append magic salt)),
          append_assoc magic salt (take (n * (chunk_size + tag_size)) file),
          take-seal_chunks c sound key chunk_size (suc (length text)) n 0 text (omega arith) h
              (omega arith),
          decode-file (front c sound key chunk_size n 0 text),
        )
        (ap some (
          read-front c sound key chunk_size (suc (length (front c sound key chunk_size n 0 text))) n
            0 text h (omega (arith, length-front-ge c sound key chunk_size n 0 text))))

  -- A sealed secret is unsealed again.
  pub unseal-seal_secret :
      (nonce text : Bytes)
      → length nonce ≡ nonce_size
      → unseal c (seal_secret c salt nonce text) ≡ some text
  unfolding unseal seal_secret
  unseal-seal_secret nonce text nonced =
      let sealed = c.seal (c.derive salt) nonce text in
      let len = sound.tags (c.derive salt) nonce text nonced in
      on_if (λ r. r ≡ some text)
        (ltb (length (salt ++ (nonce ++ sealed))) (salt_size + nonce_size + tag_size))
        (λ e. absurd (
          ground (
            arith,
            salted,
            nonced,
            len,
            length-append salt (nonce ++ sealed),
            length-append nonce sealed,
          )))
        (λ e.
          rw
            (
              take-exact salt_size salt (nonce ++ sealed) salted,
              drop-exact salt_size salt (nonce ++ sealed) salted,
              take-exact nonce_size nonce sealed nonced,
              drop-exact nonce_size nonce sealed nonced,
            )
            (sound.opens (c.derive salt) nonce text nonced))
