-- ===== src/Unicode.antt =====
-- The functions of Go's packages strings and unicode that depend on Unicode tables, which are not
-- in the repository: the models take them as a record and use no law of it that a statement does
-- not name. `ascii` is the record that they are on ASCII text.
use xeron_mx.Prelude.{ℕ, ◌+◌, Bool, ◌&&◌, ◌||◌, [], ◌∷◌, map, leb, ◌==◌, if◌then◌else◌}
use mathlib.Core.List.{reverse}
use xeron_mx.Text.{Bytes, bytes_eq}

pub record Unicode : Type 0 where
  pub to_lower : Bytes → Bytes
  pub trim_space : Bytes → Bytes
  pub to_valid_utf8 : Bytes → Bytes
  pub eq_fold : Bytes → Bytes → Bool

unfoldable pub lower_byte : ℕ → ℕ
lower_byte c = if leb b'A' c && leb c b'Z' then c + 32 else c

is_space : ℕ → Bool
is_space c = c == 32 || leb 9 c && leb c 13

drop_spaces : Bytes → Bytes
drop_spaces [] = []
drop_spaces (c ∷ s) = let rest = drop_spaces s in if is_space c then rest else c ∷ s

unfoldable pub ascii : Unicode
unfolding lower_byte is_space drop_spaces bytes_eq
ascii = record {
  to_lower = map lower_byte;
  trim_space = λ s. reverse (drop_spaces (reverse (drop_spaces s)));
  to_valid_utf8 = λ s. s;
  eq_fold = λ s t. bytes_eq (map lower_byte s) (map lower_byte t);
}

-- strings.EqualFold of two texts of one length, the second of ASCII bytes: no letter of another
-- length in bytes can then match.
unfoldable pub equal_fold : Bytes → Bytes → Bool
unfolding lower_byte bytes_eq
equal_fold s t = bytes_eq (map lower_byte s) (map lower_byte t)
