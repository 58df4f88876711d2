-- ===== src/Common/Text.antt =====
-- Joining texts, and the decimal numerals that a template literal prints.
use Prim.Native.Nat.{ℕ, zero, suc, ◌/◌, ◌%◌}
use Prim.Native.String.{String, ◌++◌}
use polyquantlab.Common.Tests.{ltb}
use polyquantlab.Common.Lists.{get_or}
use mathlib.Core.Bool.{true, false}
use mathlib.Core.List.{List, [], ◌∷◌}

-- `parts.join(sep)`
abbrev pub join : String → List String → String
join sep [] = ""
join sep (x ∷ []) = x
join sep (x ∷ y ∷ rest) = x ++ (sep ++ join sep (y ∷ rest))

-- A template literal, the concatenation of its pieces.
abbrev pub concat : List String → String
concat [] = ""
concat (x ∷ []) = x
concat (x ∷ y ∷ rest) = x ++ concat (y ∷ rest)

abbrev digit_text : ℕ → String
digit_text n = get_or ("0" ∷ "1" ∷ "2" ∷ "3" ∷ "4" ∷ "5" ∷ "6" ∷ "7" ∷ "8" ∷ "9" ∷ []) n ""

-- The last `n` digits of a number, and the number that is left.
abbrev pub split_digits : ℕ → ℕ → ℕ × String
split_digits zero k = (k, "")
split_digits (suc n) k =
    let (rest, text) = split_digits n (k / 10) in (rest, text ++ digit_text (k % 10))

abbrev numeral : ℕ → ℕ → String
numeral zero n = ""
numeral (suc fuel) n = elim (ltb 9 n) [
  | true ↦ numeral fuel (n / 10) ++ digit_text (n % 10)
  | false ↦ digit_text n
]

-- A natural number in decimal; a number has no more digits than its successor.
abbrev pub show_nat : ℕ → String
show_nat n = numeral (suc n) n
