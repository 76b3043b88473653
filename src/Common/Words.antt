-- ===== src/Common/Words.antt =====
-- Python's `str.strip` and `str.split` without arguments, and `replace(",", " ")`: texts as lists of
-- characters. Header values are Latin-1, so the spaces are those of the first 256 characters.
use Prim.Native.Char.{Char, code}
use nsi_aggregator_proxy.Common.{
  leb, eqb, if◌then◌else◌, ℕ, String, Bool, true, false, not, ◌&&◌, ◌||◌, List, [], ◌∷◌,
}

-- `c.isspace()`
unfoldable pub is_space : ℕ → Bool
is_space c = leb 9 c && leb c 13 || leb 28 c && leb c 32 || eqb c 133 || eqb c 160

unfoldable pub lstrip : String → String
lstrip String.[] = String.[]
lstrip (String.◌∷◌ c s) = let rest = lstrip s in if is_space (code c) then rest else String.◌∷◌ c s

-- A character before a text that is stripped on the right.
abbrev pub put : Char → String → String
put c String.[] = if is_space (code c) then String.[] else String.◌∷◌ c String.[]
put c (String.◌∷◌ d s) = String.◌∷◌ c (String.◌∷◌ d s)

unfoldable pub rstrip : String → String
rstrip String.[] = String.[]
rstrip (String.◌∷◌ c s) = put c (rstrip s)

unfoldable pub strip : String → String
unfolding lstrip rstrip
strip s = rstrip (lstrip s)

-- Whether a text begins with a word.
abbrev pub begins_word : String → Bool
begins_word String.[] = false
begins_word (String.◌∷◌ c s) = not (is_space (code c))

-- A character before the words of the text after it: of their first, if `joined`.
abbrev pub attach : Char → Bool → List String → List String
attach c true (w ∷ ws) = String.◌∷◌ c w ∷ ws
attach c true [] = String.◌∷◌ c String.[] ∷ []
attach c false ws = String.◌∷◌ c String.[] ∷ ws

-- `s.split()`
unfoldable pub split : String → List String
split String.[] = []
split (String.◌∷◌ c s) =
    let rest = split s in if is_space (code c) then rest else attach c (begins_word s) rest

abbrev pub space : Char
space = " "

-- `s.replace(",", " ")`
unfoldable pub commas_to_spaces : String → String
commas_to_spaces String.[] = String.[]
commas_to_spaces (String.◌∷◌ c s) =
    String.◌∷◌ (if eqb (code c) b',' then space else c) (commas_to_spaces s)
