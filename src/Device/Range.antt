-- ===== src/Device/Range.antt =====
-- packages/server/src/device/range.ts: HTTP byte ranges. A header is the list of its UTF-16 code
-- units. A number in it may have any length here; the source rounds those above 2 ^ 53, which are
-- past the end of every file, to others above 2 ^ 53.
pub mod Numbers
pub mod Bounds
pub mod Forms
mod Runs
use nslibrary.Common.{
  ℕ, zero, suc, ◌+◌, ◌*◌, ◌-◌, min, Bool, true, false, ◌&&◌, ◌||◌, not, Option, none, some, List,
  [], ◌∷◌, ltb, leb, ◌==◌, if◌then◌else◌, any, map, take, drop,
}
unfoldable pub use nslibrary.Common.Text.{trim_start, trim_end}
use nslibrary.Device.Range.Numbers.{number_of, are_digits}
use nslibrary.Shared.Frame.Bytes.{same_bytes}

pub record ByteRange : Type 0 where
  pub start : ℕ
  pub end : ℕ

pub data ParsedRange : Type 0 where
  bytes_in : ByteRange → ParsedRange
  all_bytes : ParsedRange
  unsatisfiable : ParsedRange

-- `toLowerCase` on the units that can become one of "bytes=".
abbrev pub to_lower : ℕ → ℕ
to_lower c = if leb 65 c && leb c 90 then c + 32 else c

-- "bytes="
abbrev pub bytes_unit : List ℕ
bytes_unit = 98 ∷ 121 ∷ 116 ∷ 101 ∷ 115 ∷ 61 ∷ []

-- What stands before the first "-", and after it, if there is one.
unfoldable pub split_dash : List ℕ → Option (List ℕ × List ℕ)
split_dash [] = none
split_dash (c ∷ cs) =
    let rest = split_dash cs in
    if c == 45
    then some ([], cs)
    else elim rest [ none ↦ none | some (before, after) ↦ some (c ∷ before, after) ]

-- `bytes=-500`, with the digits after the dash.
unfoldable pub suffix_range : List ℕ → ℕ → ParsedRange
unfolding number_of
suffix_range digits size =
    let length = number_of digits in
    if (length == 0) || (size == 0)
    then unsatisfiable
    else bytes_in (record { start = size - length; end = size - 1 })

-- `bytes=0-499`
unfoldable pub bounded_range : List ℕ → List ℕ → ℕ → ParsedRange
bounded_range first last size =
    let start = number_of first in
    let end_ = number_of last in
    if leb size start || ltb end_ start
    then unsatisfiable
    else bytes_in (record { start = start; end = min end_ (size - 1) })

-- `bytes=9500-`
unfoldable pub open_range : List ℕ → ℕ → ParsedRange
open_range first size =
    let start = number_of first in
    if leb size start then unsatisfiable else bytes_in (record { start = start; end = size - 1 })

-- The three regular expressions, told apart by which sides of the dash hold digits.
abbrev pub by_sides : List ℕ → List ℕ → ℕ → ParsedRange
by_sides [] [] size = unsatisfiable
by_sides [] (d ∷ ds) size = suffix_range (d ∷ ds) size
by_sides (c ∷ cs) [] size = open_range (c ∷ cs) size
by_sides (c ∷ cs) (d ∷ ds) size = bounded_range (c ∷ cs) (d ∷ ds) size

abbrev pub of_sides : Option (List ℕ × List ℕ) → ℕ → ParsedRange
of_sides none size = unsatisfiable
of_sides (some (before, after)) size =
    if are_digits before && are_digits after then by_sides before after size else unsatisfiable

unfoldable pub parse_spec : List ℕ → ℕ → ParsedRange
unfolding split_dash
parse_spec spec size = of_sides (split_dash spec) size

-- A list of ranges, or a space inside.
abbrev pub is_separator : ℕ → Bool
is_separator c = (c == 44) || (c == 32)

-- The header after it was trimmed.
unfoldable pub parse_trimmed : List ℕ → ℕ → ParsedRange
unfolding parse_spec
parse_trimmed trimmed size =
    if not (same_bytes (map to_lower (take 6 trimmed)) bytes_unit)
    then unsatisfiable
    else if any is_separator (drop 6 trimmed)
    then unsatisfiable
    else parse_spec (drop 6 trimmed) size

unfoldable pub parse_range_header : Option (List ℕ) → ℕ → ParsedRange
unfolding parse_trimmed trim_start trim_end
parse_range_header none size = all_bytes
parse_range_header (some []) size = all_bytes
parse_range_header (some (c ∷ cs)) size = parse_trimmed (trim_end (trim_start (c ∷ cs))) size
