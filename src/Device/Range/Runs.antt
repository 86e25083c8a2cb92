-- ===== src/Device/Range/Runs.antt =====
-- Headers of packages/server/src/device/range.ts, and the theorems of the parser at them.
use nslibrary.Common.{ℕ, ◌≡◌, refl, some, List, [], ◌∷◌, ◌↔◌}
use nslibrary.Device.Range.{
  bytes_in, unsatisfiable, parse_range_header, parse_trimmed, parse_spec, suffix_range,
  bounded_range, split_dash, trim_start, trim_end,
}
use nslibrary.Device.Range.Numbers.{number_of, number_from, are_digits}
use nslibrary.Device.Range.Forms.{Selected, Wanted, header_of, parse_range_header-Wanted}
use nslibrary.Shared.Frame.Bytes.{same_bytes}

-- "10" and "19"
abbrev ten : List ℕ
ten = 49 ∷ 48 ∷ []

abbrev nineteen : List ℕ
nineteen = 49 ∷ 57 ∷ []

-- " Bytes=-500 "
last_500 :
    parse_range_header
      (some (32 ∷ 66 ∷ 121 ∷ 116 ∷ 101 ∷ 115 ∷ 61 ∷ 45 ∷ 53 ∷ 48 ∷ 48 ∷ 32 ∷ []))
      9000
    ≡ bytes_in (record { start = 8500; end = 8999 })
unfolding parse_range_header parse_trimmed parse_spec split_dash suffix_range trim_start trim_end
    number_of number_from are_digits same_bytes
last_500 = refl

past_the_end : parse_range_header (header_of ten nineteen) 10 ≡ unsatisfiable
unfolding parse_range_header parse_trimmed parse_spec split_dash bounded_range trim_start trim_end
    number_of number_from are_digits same_bytes
past_the_end = refl

parse_range_header-Wanted_example :
    Selected (parse_range_header (header_of ten nineteen) 15) 15 12 ↔ Wanted ten nineteen 15 12
unfolding are_digits
parse_range_header-Wanted_example = parse_range_header-Wanted ten nineteen 15 12 refl refl tt
