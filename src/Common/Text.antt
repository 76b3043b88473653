-- ===== src/Common/Text.antt =====
-- Text: whole strings compared and joined, and numbers printed in decimal.
use Prim.Native.Nat.{ℕ, zero, suc, ◌/◌, ◌%◌, Ordering}
use Prim.Native.String
use Prim.Native.String.{String}
use mathlib.Core.Bool.{Bool, true, false}
use mathlib.Core.List.{List, [], ◌∷◌}
use mathlib.Core.Option.{Option, none, some}
use text.Mathlib.Text
use nsi_aggregator_proxy.Common.Tests.{ltb, if◌then◌else◌}

infix 50 ◌==◌
abbrev pub ◌==◌ : String → String → Bool
a == b = Text.◌==◌ a b

infixr 65 ◌<>◌
abbrev pub ◌<>◌ : String → String → String
a <> b = String.◌++◌ a b

-- Python's `a > b` on texts: by code points.
abbrev pub text_lt : String → String → Bool
text_lt a b = elim (String.compare a b) [ Ordering.lt ↦ true | _ ↦ false ]

-- Python's truth of a text.
abbrev pub is_empty : String → Bool
is_empty String.[] = true
is_empty (String.◌∷◌ c s) = false

-- `text or fallback`, for a text that may be missing.
abbrev pub text_or : Option String → String → String
text_or none fallback = fallback
text_or (some text) fallback = if is_empty text then fallback else text

-- `separator.join(texts)`
abbrev pub join : String → List String → String
join separator [] = ""
join separator (t ∷ []) = t
join separator (t ∷ u ∷ ts) = t <> separator <> join separator (u ∷ ts)

digit : ℕ → String
digit zero = "0"
digit (suc zero) = "1"
digit (suc (suc zero)) = "2"
digit (suc (suc (suc zero))) = "3"
digit (suc (suc (suc (suc zero)))) = "4"
digit (suc (suc (suc (suc (suc zero))))) = "5"
digit (suc (suc (suc (suc (suc (suc zero)))))) = "6"
digit (suc (suc (suc (suc (suc (suc (suc zero))))))) = "7"
digit (suc (suc (suc (suc (suc (suc (suc (suc zero)))))))) = "8"
digit _ = "9"

-- The digits of a number below 2 ^ rounds; a number has fewer digits than its own value plus one.
decimal : ℕ → ℕ → String
unfolding digit
decimal zero n = ""
decimal (suc rounds) n =
    let rest = decimal rounds (n / 10) in if ltb n 10 then digit n else rest <> digit (n % 10)

-- `str(n)`
unfoldable pub str : ℕ → String
unfolding decimal
str n = decimal (suc n) n
