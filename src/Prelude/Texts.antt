-- ===== src/Prelude/Texts.antt =====
-- Go's text formatting: fmt.Sprintf as a list of pieces, %q, %d, strings.Join.
use Prim.Native.Nat.{ℕ, zero, suc, ◌/◌, ◌%◌}
use Prim.Native.String.{String, ◌++◌, len, slice}
use text.Mathlib.Text.{starts_with}
use mathlib.Core.List.{List, [], ◌∷◌}
use forge_operator.Prelude.Tests.{ltb, if◌then◌else◌}

abbrev pub concat : List String → String
concat [] = ""
concat (x ∷ xs) = x ++ concat xs

-- strings.Join(parts, sep)
unfoldable pub join : String → List String → String
join sep [] = ""
join sep (x ∷ []) = x
join sep (x ∷ y ∷ xs) = x ++ (sep ++ join sep (y ∷ xs))

-- strings.TrimPrefix(s, prefix)
abbrev pub trim_prefix : String → String → String
trim_prefix s prefix = if starts_with s prefix then slice s (len prefix) (len s) else s

-- %q of a text without quotes, backslashes and control characters, such as a Kubernetes name.
abbrev pub quote : String → String
quote s = "\"" ++ (s ++ "\"")

digit : ℕ → String
digit zero = "0"
digit (suc zero) = "1"
digit (suc (suc zero)) = "2"
digit (suc (suc (suc zero))) = "3"
digit (suc (suc (suc (suc zero)))) = "4"
digit (suc (suc (suc (suc (suc zero))))) = "5"
digit (suc (suc (suc (suc (suc (suc zero)))))) = "6"
digit (suc (suc (suc (suc (suc (suc (suc zero))))))) = "7"
digit (suc (suc (suc (suc (suc (suc (suc (suc zero)))))))) = "8"
digit _ = "9"

-- A number has at most as many digits as it has units, so its successor is fuel enough.
decimal_from : ℕ → ℕ → String
decimal_from zero n = ""
decimal_from (suc fuel) n =
    let front = decimal_from fuel (n / 10) in if ltb n 10 then digit n else front ++ digit (n % 10)

-- %d of a number that is not negative.
unfoldable pub decimal : ℕ → String
unfolding decimal_from digit
decimal n = decimal_from (suc n) n
