-- ===== src/Text.antt =====
-- Byte strings (std::string): equality, the order of std::map's keys, and the substring operations
-- that the program uses. A byte is a number.
pub mod Order
pub mod Decimal
pub mod Tokens
pub mod Cut
use Prim.Native.Char.{code}
use Prim.Native.String.{String}
use peerboot_cpp.Prelude.{
  ℕ, Bool, true, false, ◌||◌, ◌&&◌, List, [], ◌∷◌, Option, none, some, ltb, leb, ◌==◌,
  if◌then◌else◌,
}

abbrev pub Str : Type 0
Str = List ℕ

-- A string literal: its bytes.
abbrev pub codes : String → Str
codes String.[] = []
codes (String.◌∷◌ c s) = code c ∷ codes s

-- std::string operator==
unfoldable pub str_eq : Str → Str → Bool
str_eq [] [] = true
str_eq [] (y ∷ t) = false
str_eq (x ∷ s) [] = false
str_eq (x ∷ s) (y ∷ t) = x == y && str_eq s t

-- std::string operator<, the lexicographic order
unfoldable pub str_lt : Str → Str → Bool
str_lt [] [] = false
str_lt [] (y ∷ t) = true
str_lt (x ∷ s) [] = false
str_lt (x ∷ s) (y ∷ t) = ltb x y || (x == y && str_lt s t)

-- isspace of the "C" locale
unfoldable pub is_space : ℕ → Bool
is_space c = c == 32 || (leb 9 c && leb c 13)

-- s.find(c), with s.substr(0, i) and s.substr(i + 1); `none` is npos
unfoldable pub split_at : ℕ → Str → Option (Str × Str)
split_at c [] = none
split_at c (x ∷ s) =
    if x == c
    then some ([], s)
    else elim (split_at c s) [ none ↦ none | some (before, after) ↦ some (x ∷ before, after) ]
