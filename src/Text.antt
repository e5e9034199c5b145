-- ===== src/Text.antt =====
-- Go strings as lists of bytes, and what the program uses of the packages strings and fmt: the
-- cut-off of internal/store/queue.go, comparison, and the byte order in which
-- SQLite compares TEXT.
pub mod Equality
use Prim.Native.Char.{code}
use xeron_mx.Prelude.{
  Option, none, some, is_empty, ℕ, String, Bool, true, false, ◌&&◌, List, [], ◌∷◌, ◌++◌, ltb, leb,
  ◌==◌, if◌then◌else◌, length, take,
}

abbrev pub Bytes : Type 0
Bytes = List ℕ

-- The bytes of an ASCII literal.
abbrev pub codes : String → Bytes
codes String.[] = []
codes (String.◌∷◌ c s) = code c ∷ codes s

unfoldable pub bytes_eq : Bytes → Bytes → Bool
bytes_eq [] [] = true
bytes_eq [] (y ∷ ys) = false
bytes_eq (x ∷ xs) [] = false
bytes_eq (x ∷ xs) (y ∷ ys) = x == y && bytes_eq xs ys

-- memcmp order, a prefix first.
unfoldable pub bytes_le : Bytes → Bytes → Bool
bytes_le [] ys = true
bytes_le (x ∷ xs) [] = false
bytes_le (x ∷ xs) (y ∷ ys) =
    let rest = bytes_le xs ys in if ltb x y then true else if x == y then rest else false

-- truncate of internal/store/queue.go
unfoldable pub truncate : Bytes → ℕ → Bytes
truncate s n = if leb (length s) n then s else take n s ++ codes "..."

-- What stands after the last byte c: strings.LastIndex and the slice from the place behind it.
unfoldable pub after_last : ℕ → Bytes → Option Bytes
after_last c [] = none
after_last c (x ∷ s) = elim (after_last c s) [
  | some rest ↦ some rest
  | none ↦ if x == c then some s else none
]

-- strings.TrimSuffix(s, suffix) for a suffix of one byte.
unfoldable pub trim_suffix : ℕ → Bytes → Bytes
trim_suffix c [] = []
trim_suffix c (x ∷ s) = if is_empty s && x == c then [] else x ∷ trim_suffix c s
