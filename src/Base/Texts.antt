-- ===== src/Base/Texts.antt =====
-- Texts by their characters: the patterns and path tests of the contracts.
use Prim.Native.Nat.{ℕ, zero, suc}
use Prim.Native.Char.{code}
use Prim.Native.String.{String}
use mathlib.Core.List.{List, [], ◌∷◌}
use mathlib.Core.Bool.{Bool, true, false, ◌&&◌, ◌||◌}
use text.Mathlib.Text.{◌==◌}
use schema_guard.Base.Tests.{leb, eqb}
use schema_guard.Base.Lists.{length, all}

-- The code points of a text. `String` has its own `[]` and `∷`.
abbrev pub codes : String → List ℕ
codes String.[] = []
codes (String.◌∷◌ c s) = code c ∷ codes s

pub in_range : ℕ → ℕ → ℕ → Bool
in_range lo hi c = leb lo c && leb c hi

-- `[0-9a-f]`
unfoldable pub is_hex : ℕ → Bool
unfolding in_range
is_hex c = in_range b'0' b'9' c || in_range b'a' b'f' c

-- `^[0-9a-f]{n}$`
unfoldable pub is_hex_text : ℕ → String → Bool
unfolding is_hex
is_hex_text n s = let cs = codes s in eqb (length cs) n && all is_hex cs

-- `[A-Za-z0-9_.-]`
unfoldable pub is_name_char : ℕ → Bool
unfolding in_range
is_name_char c =
    in_range b'A' b'Z' c
    || in_range b'a' b'z' c
    || in_range b'0' b'9' c
    || eqb c b'_'
    || eqb c b'.'
    || eqb c b'-'

-- The number of characters lies between the two bounds.
unfoldable pub length_within : ℕ → ℕ → String → Bool
length_within lo hi s = let n = length (codes s) in leb lo n && leb n hi

-- `s[:n]`
unfoldable pub first_chars : ℕ → String → String
first_chars zero s = String.[]
first_chars (suc n) String.[] = String.[]
first_chars (suc n) (String.◌∷◌ c s) = String.◌∷◌ c (first_chars n s)

-- `==` of two lists of texts.
unfoldable pub same_names : List String → List String → Bool
same_names [] [] = true
same_names [] (d ∷ ds) = false
same_names (c ∷ cs) [] = false
same_names (c ∷ cs) (d ∷ ds) = c == d && same_names cs ds
