-- ===== src/Blob/Chunks.antt =====
-- Proofs about the chunks of a file (internal/blob/blob.go): what reading makes of them.
use xeron_mx.Prelude.{
  ℕ, zero, suc, ◌+◌, ◌*◌, ◌/◌, ◌%◌, ◌≤◌, ◌<◌, ◌≡◌, refl, sym, ◌∙◌, ap, Bool, true, false, none,
  some, [], ◌∷◌, ◌++◌, ltb, length, length-append, length-take-le, length-take, length-take-drop,
  take, drop, take-append_self, drop-append_self, take_all, drop_all, take-drop, on_if, arith,
}
use xeron_mx.Text.{Bytes, bytes_eq}
use xeron_mx.Blob.{
  Cipher, tag_size, nonce_size, big_endian, mark, nonce_for, seal_chunks, read_chunks,
}

-- What AES-GCM is relied on for: a text sealed under a nonce is opened under it, a text sealed under
-- another nonce is refused, and the tag is 16 bytes long.
pub record IsSound (c : Cipher) : Type 0 where
  pub opens :
      (key nonce text : Bytes)
      → length nonce ≡ nonce_size
      → c.open_sealed key nonce (c.seal key nonce text) ≡ some text
  pub refuses :
      (key nonce other text : Bytes)
      → length nonce ≡ nonce_size
      → length other ≡ nonce_size
      → bytes_eq nonce other ≡ false
      → c.open_sealed key other (c.seal key nonce text) ≡ none
  pub tags :
      (key nonce text : Bytes)
      → length nonce ≡ nonce_size
      → length (c.seal key nonce text) ≡ length text + tag_size

length-big_endian : (k n : ℕ) → length (big_endian k n) ≡ k
unfolding big_endian
length-big_endian zero n = refl
length-big_endian (suc k) n =
    omega
      (arith, length-append (big_endian k (n / 256)) (n % 256 ∷ []), length-big_endian k (n / 256))

length-nonce_for : (counter : ℕ) (last : Bool) → length (nonce_for counter last) ≡ nonce_size
unfolding nonce_for
length-nonce_for counter last =
    omega
      (arith, length-append (big_endian 8 counter) (mark last ∷ []), length-big_endian 8 counter)

marks-apart : (s : Bytes) → bytes_eq (s ++ 1 ∷ []) (s ++ 0 ∷ []) ≡ false
unfolding bytes_eq
marks-apart [] = refl
marks-apart (x ∷ s) = ground (arith, marks-apart s)

-- The last chunk is sealed under another nonce than one with its number before the last.
nonces-apart : (counter : ℕ) → bytes_eq (nonce_for counter true) (nonce_for counter false) ≡ false
unfolding nonce_for bytes_eq
nonces-apart counter = marks-apart (big_endian 8 counter)

take-short : (n : ℕ) (xs : Bytes) → length (take n xs) < n → length xs ≤ n
take-short zero xs h = absurd (omega arith)
take-short (suc n) [] h = omega arith
take-short (suc n) (x ∷ xs) h = omega (arith, take-short n xs (omega arith))

pub take-exact : (n : ℕ) (xs ys : Bytes) → length xs ≡ n → take n (xs ++ ys) ≡ xs
take-exact n xs ys h = ap (λ k. take k (xs ++ ys)) (sym h) ∙ take-append_self xs ys

pub drop-exact : (n : ℕ) (xs ys : Bytes) → length xs ≡ n → drop n (xs ++ ys) ≡ ys
drop-exact n xs ys h = ap (λ k. drop k (xs ++ ys)) (sym h) ∙ drop-append_self xs ys

suc_mul : (n m : ℕ) → suc n * m ≡ m + n * m
suc_mul n m = grind arith

pub take-beyond :
    (m k : ℕ) (xs ys : Bytes) → m ≡ length xs + k → take m (xs ++ ys) ≡ xs ++ take k ys
take-beyond m k [] ys h = ap (λ i. take i ys) (omega (arith, h))
take-beyond zero k (x ∷ xs) ys h = absurd (omega (arith, h))
take-beyond (suc m) k (x ∷ xs) ys h = ap (λ r. x ∷ r) (take-beyond m k xs ys (omega (arith, h)))

take-sum : (n k m : ℕ) (xs : Bytes) → m ≡ n + k → take n xs ++ take k (drop n xs) ≡ take m xs
take-sum zero k m xs h = ap (λ i. take i xs) (omega (arith, h))
take-sum (suc n) k zero xs h = absurd (omega (arith, h))
take-sum (suc n) zero (suc m) [] h = refl
take-sum (suc n) (suc k) (suc m) [] h = refl
take-sum (suc n) k (suc m) (x ∷ xs) h = ap (λ r. x ∷ r) (take-sum n k m xs (omega (arith, h)))

module _ (c : Cipher) (sound : IsSound c) (key : Bytes) (size : ℕ) where
  -- A round of the reader on a chunk before the last.
  read-inner :
      (fuel counter : ℕ) (chunk rest : Bytes)
      → length chunk ≡ size
      → let more = read_chunks c key size fuel (counter + 1) rest in
        read_chunks c key size
          (suc fuel)
          counter
          (c.seal key (nonce_for counter false) chunk ++ rest)
        ≡ (chunk ++ more.0, more.1)
  unfolding read_chunks
  read-inner fuel counter chunk rest h =
      let s = c.seal key (nonce_for counter false) chunk in
      let more = read_chunks c key size fuel (counter + 1) rest in
      let len : length s ≡ size + tag_size = omega (
        arith,
        h,
        sound.tags key (nonce_for counter false) chunk (length-nonce_for counter false),
      ) in
      rw
        (
          take-exact (size + tag_size) s rest len,
          drop-exact (size + tag_size) s rest len,
          sound.opens key (nonce_for counter false) chunk (length-nonce_for counter false),
        )
        (on_if (λ (r : Bytes × Bool). r ≡ (chunk ++ more.0, more.1)) (ltb (length s) tag_size)
          (λ e. absurd (ground (arith, len))) (λ e. refl))

  -- A round of the reader on the last chunk.
  read-last :
      (fuel counter : ℕ) (chunk : Bytes)
      → length chunk ≤ size
      → read_chunks c key size (suc fuel) counter (c.seal key (nonce_for counter true) chunk)
        ≡ (chunk, true)
  unfolding read_chunks
  read-last fuel counter chunk h =
      let s = c.seal key (nonce_for counter true) chunk in
      let len : length s ≡ length chunk + tag_size =
        sound.tags key (nonce_for counter true) chunk (length-nonce_for counter true) in
      rw
        (
          take_all (size + tag_size) s (omega (arith, len)),
          drop_all (size + tag_size) s (omega (arith, len)),
          sound.refuses key (nonce_for counter true) (nonce_for counter false) chunk
              (length-nonce_for counter true) (length-nonce_for counter false)
              (nonces-apart counter),
          sound.opens key (nonce_for counter true) chunk (length-nonce_for counter true),
        )
        (on_if (λ (r : Bytes × Bool). r ≡ (chunk, true)) (ltb (length s) tag_size)
          (λ e. absurd (ground (arith, len))) (λ e. refl))

  -- What the loop of Put writes is read back, with a round more than there are bytes on each side.
  pub read_chunks-seal_chunks :
      (f g counter : ℕ) (text : Bytes)
      → 0 < size
      → length text < f
      → length text < g
      → read_chunks c key size f counter (seal_chunks c key size g counter text) ≡ (text, true)
  unfolding seal_chunks
  read_chunks-seal_chunks zero g counter text pos hf hg = absurd (omega arith)
  read_chunks-seal_chunks (suc f) zero counter text pos hf hg = absurd (omega arith)
  read_chunks-seal_chunks (suc f) (suc g) counter text pos hf hg =
      on_if (λ file. read_chunks c key size (suc f) counter file ≡ (text, true))
        (ltb (length (take size text)) size)
        (λ e.
          let short : length text ≤ size = take-short size text (ground arith) in
          rw (take_all size text short) (read-last f counter text short))
        (λ e.
          let full : length (take size text) ≡ size = ground (arith, length-take-le size text) in
          let ih =
            read_chunks-seal_chunks f g (counter + 1) (drop size text) pos
              (omega (arith, full, length-take-drop size text))
              (omega (arith, full, length-take-drop size text)) in
          read-inner f counter (take size text)
            (seal_chunks c key size g (counter + 1) (drop size text)) full
          ∙ ap (λ (r : Bytes × Bool). (take size text ++ r.0, r.1)) ih
          ∙ ap (λ t. (t, true)) (take-drop size text))

  -- The bytes of the file do not become fewer, so a round for each byte of the file is enough too.
  pub length-seal_chunks-ge :
      (g counter : ℕ) (text : Bytes)
      → 0 < size
      → length text < g
      → length text ≤ length (seal_chunks c key size g counter text)
  unfolding seal_chunks
  length-seal_chunks-ge zero counter text pos h = absurd (omega arith)
  length-seal_chunks-ge (suc g) counter text pos h =
      on_if (λ (file : Bytes). length text ≤ length file) (ltb (length (take size text)) size)
        (λ e.
          let short : length text ≤ size = take-short size text (ground arith) in
          rw (take_all size text short) (
            omega (
              arith,
              sound.tags key (nonce_for counter true) text (length-nonce_for counter true),
            )))
        (λ e.
          let full : length (take size text) ≡ size = ground (arith, length-take-le size text) in
          omega (
            arith,
            full,
            length-take-drop size text,
            sound.tags key (nonce_for counter false) (take size text)
                (length-nonce_for counter false),
            length-append (c.seal key (nonce_for counter false) (take size text))
                (seal_chunks c key size g (counter + 1) (drop size text)),
            length-seal_chunks-ge g (counter + 1) (drop size text) pos
                (omega (arith, full, length-take-drop size text)),
          ))

  -- The first n chunks of a file.
  unfoldable pub front : ℕ → ℕ → Bytes → Bytes
  front zero counter text = []
  front (suc n) counter text =
      c.seal key (nonce_for counter false) (take size text)
      ++ front n (counter + 1) (drop size text)

  pub length-front-ge : (n counter : ℕ) (text : Bytes) → n ≤ length (front n counter text)
  unfolding front
  length-front-ge zero counter text = omega arith
  length-front-ge (suc n) counter text = omega (
    arith,
    sound.tags key (nonce_for counter false) (take size text) (length-nonce_for counter false),
    length-append (c.seal key (nonce_for counter false) (take size text))
        (front n (counter + 1) (drop size text)),
    length-front-ge n (counter + 1) (drop size text),
  )

  -- The loop of Put writes them first.
  pub take-seal_chunks :
      (g n counter : ℕ) (text : Bytes)
      → 0 < size
      → n * size ≤ length text
      → length text < g
      → take (n * (size + tag_size)) (seal_chunks c key size g counter text) ≡ front n counter text
  unfolding seal_chunks front
  take-seal_chunks zero n counter text pos h hg = absurd (omega arith)
  take-seal_chunks (suc g) zero counter text pos h hg =
      ap (λ i. take i (seal_chunks c key size (suc g) counter text)) {x = 0 * (size + tag_size)}
        {y = 0} (omega arith)
  take-seal_chunks (suc g) (suc n) counter text pos h hg =
      let more = suc_mul n size in
      let full : length (take size text) ≡ size = length-take size text (omega (arith, more)) in
      let s = c.seal key (nonce_for counter false) (take size text) in
      let len : size + tag_size ≡ length s = omega (
        arith,
        full,
        sound.tags key (nonce_for counter false) (take size text) (length-nonce_for counter false),
      ) in
      on_if (λ file. take (suc n * (size + tag_size)) file ≡ front (suc n) counter text)
        (ltb (length (take size text)) size) (λ e. absurd (ground (arith, full)))
        (λ e.
          take-beyond (suc n * (size + tag_size)) (n * (size + tag_size)) s
            (seal_chunks c key size g (counter + 1) (drop size text))
            (suc_mul n (size + tag_size)
              ∙ ap (λ k. k + n * (size + tag_size)) {x = size + tag_size} {y = length s} len)
          ∙ ap (λ r. s ++ r)
              (take-seal_chunks g n (counter + 1) (drop size text) pos
                (omega (arith, more, full, length-take-drop size text))
                (omega (arith, full, length-take-drop size text))))

  -- A file that was cut off behind one of its chunks is read that far, and seen not to be whole.
  pub read-front :
      (f n counter : ℕ) (text : Bytes)
      → n * size ≤ length text
      → n < f
      → read_chunks c key size f counter (front n counter text) ≡ (take (n * size) text, false)
  unfolding front
  read-front zero n counter text h hf = absurd (omega arith)
  read-front (suc f) zero counter text h hf =
      unfold read_chunks in
      rw (take_all {A = ℕ} (size + tag_size) [] (omega arith))
        (ap (λ i. (take i text, false)) {x = 0} {y = 0 * size} (omega arith))
  read-front (suc f) (suc n) counter text h hf =
      let more = suc_mul n size in
      let full : length (take size text) ≡ size = length-take size text (omega (arith, more)) in
      read-inner f counter (take size text) (front n (counter + 1) (drop size text)) full
      ∙ ap (λ (r : Bytes × Bool). (take size text ++ r.0, r.1))
          (read-front f n (counter + 1) (drop size text)
            (omega (arith, more, full, length-take-drop size text)) (omega arith))
      ∙ ap (λ t. (t, false)) (take-sum size (n * size) (suc n * size) text more)
