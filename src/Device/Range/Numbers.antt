-- ===== src/Device/Range/Numbers.antt =====
-- Decimal numbers in the headers of packages/server/src/device/range.ts.
use nslibrary.Common.{ℕ, ◌+◌, ◌*◌, ◌-◌, Bool, true, ◌&&◌, List, [], ◌∷◌, leb}

-- `\d`
abbrev pub is_digit : ℕ → Bool
is_digit c = leb 48 c && leb c 57

unfoldable pub are_digits : List ℕ → Bool
are_digits [] = true
are_digits (c ∷ cs) = is_digit c && are_digits cs

-- `Number(digits)`, with the number that the digits before give.
unfoldable pub number_from : ℕ → List ℕ → ℕ
number_from n [] = n
number_from n (c ∷ cs) = number_from (n * 10 + (c - 48)) cs

unfoldable pub number_of : List ℕ → ℕ
unfolding number_from
number_of digits = number_from 0 digits
