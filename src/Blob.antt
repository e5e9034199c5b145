-- ===== src/Blob.antt =====
-- internal/blob: the files of the spool. A body is cut into chunks, each sealed on its own under a
-- nonce that counts the chunks and marks the last one. AES-GCM and HKDF, which are not in the
-- repository, are a parameter. The loops run on fuel: each round takes a chunk off, so one round
-- more than there are bytes is enough. The file operations are those of World.
pub mod Chunks
pub mod Roundtrip
mod Examples
use xeron_mx.Prelude.{
  ℕ, zero, suc, ◌+◌, ◌/◌, ◌%◌, Bool, true, false, not, ◌||◌, Option, none, some, List, [], ◌∷◌,
  ◌++◌, ltb, if◌then◌else◌, is_empty, length, take, drop,
}
use xeron_mx.Text.{Bytes, bytes_eq, codes}

-- Seal and Open of the AEAD under a key and a nonce, and the key that HKDF derives with a salt.
pub record Cipher : Type 0 where
  pub seal : Bytes → Bytes → Bytes → Bytes
  pub open_sealed : Bytes → Bytes → Bytes → Option Bytes
  pub derive : Bytes → Bytes

abbrev pub tag_size : ℕ
tag_size = 16

abbrev pub nonce_size : ℕ
nonce_size = 12

abbrev pub salt_size : ℕ
salt_size = 16

abbrev pub chunk_size : ℕ
chunk_size = 65536

-- magic and formatVer
abbrev pub magic : Bytes
magic = codes "XMXB" ++ 1 ∷ []

abbrev pub header_size : ℕ
header_size = 21

unfoldable pub big_endian : ℕ → ℕ → Bytes
big_endian zero n = []
big_endian (suc k) n = big_endian k (n / 256) ++ (n % 256) ∷ []

abbrev pub mark : Bool → ℕ
mark true = 1
mark false = 0

unfoldable pub nonce_for : ℕ → Bool → Bytes
unfolding big_endian
nonce_for counter last = 0 ∷ 0 ∷ 0 ∷ (big_endian 8 counter ++ mark last ∷ [])

module _ (c : Cipher) (key : Bytes) (size : ℕ) where
  -- The loop of Put over chunks of `size` bytes; a shorter one, empty perhaps, is the last.
  unfoldable pub seal_chunks : ℕ → ℕ → Bytes → Bytes
  unfolding nonce_for
  seal_chunks zero counter text = []
  seal_chunks (suc fuel) counter text =
      let more = seal_chunks fuel (counter + 1) (drop size text) in
      if ltb (length (take size text)) size
      then c.seal key (nonce_for counter true) (take size text)
      else c.seal key (nonce_for counter false) (take size text) ++ more

  -- What next makes of a chunk: it is tried as one before the last and then as the last one, behind
  -- which nothing may stand. The text that is read, and whether it ended without ErrCorrupt.
  abbrev pub opened : Option Bytes → Option Bytes → Bytes → Bytes × Bool → Bytes × Bool
  opened (some out) _ rest more = (out ++ more.0, more.1)
  opened none (some out) rest more = if is_empty rest then (out, true) else ([], false)
  opened none none rest more = ([], false)

  unfoldable pub read_chunks : ℕ → ℕ → Bytes → Bytes × Bool
  unfolding nonce_for
  read_chunks zero counter file = ([], false)
  read_chunks (suc fuel) counter file =
      let more = read_chunks fuel (counter + 1) (drop (size + tag_size) file) in
      let buf = take (size + tag_size) file in
      if ltb (length buf) tag_size
      then ([], false)
      else opened (c.open_sealed key (nonce_for counter false) buf)
          (c.open_sealed key (nonce_for counter true) buf) (drop (size + tag_size) file) more

module _ (c : Cipher) where
  -- A round more than the file has bytes.
  unfoldable pub read_file : Bytes → Bytes → Bytes × Bool
  unfolding read_chunks
  read_file key file = read_chunks c key chunk_size (suc (length file)) 0 file

  -- The file that Put writes for a text within maxBytes, under a random salt, where no call fails.
  unfoldable pub encode : Bytes → Bytes → Bytes
  encode salt text =
      magic ++ (salt ++ seal_chunks c (c.derive salt) chunk_size (suc (length text)) 0 text)

  -- Get of such a file, and reading to the end: `none` is ErrCorrupt before anything is read.
  unfoldable pub decode : Bytes → Option (Bytes × Bool)
  unfolding bytes_eq
  decode file =
      if ltb (length file) header_size
      then none
      else if not (bytes_eq (take 5 file) magic)
      then none
      else some (read_file (c.derive (take salt_size (drop 5 file))) (drop salt_size (drop 5 file)))

  -- Seal of a secret, under a random salt and nonce.
  unfoldable pub seal_secret : Bytes → Bytes → Bytes → Bytes
  seal_secret salt nonce text = salt ++ (nonce ++ c.seal (c.derive salt) nonce text)

  -- Unseal.
  unfoldable pub unseal : Bytes → Option Bytes
  unseal sealed =
      if ltb (length sealed) (salt_size + nonce_size + tag_size)
      then none
      else c.open_sealed (c.derive (take salt_size sealed))
          (take nonce_size (drop salt_size sealed)) (drop nonce_size (drop salt_size sealed))
