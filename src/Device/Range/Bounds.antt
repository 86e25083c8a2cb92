-- ===== src/Device/Range/Bounds.antt =====
-- A range that `parseRangeHeader` of packages/server/src/device/range.ts returns is inside the file.
use nslibrary.Common.{
  ℕ, ◌<◌, ◌≤◌, ◌≡◌, refl, Bool, true, false, ◌&&◌, not, Option, none, some, List, [], ◌∷◌, arith,
  if◌then◌else◌, map, take, drop, any,
}
use nslibrary.Device.Range.{
  ParsedRange, bytes_in, all_bytes, unsatisfiable, parse_range_header, parse_trimmed, parse_spec,
  of_sides, by_sides, suffix_range, bounded_range, open_range, split_dash, to_lower, bytes_unit,
  is_separator, trim_start, trim_end,
}
use nslibrary.Device.Range.Numbers.{are_digits}
use nslibrary.Shared.Frame.Bytes.{same_bytes}

-- A range that was found starts before it ends, and ends in the file.
abbrev pub IsInside : ℕ → ParsedRange → Type 0
IsInside size (bytes_in r) = (r.start ≤ r.end) × (r.end < size)
IsInside size all_bytes = Unit {0}
IsInside size unsatisfiable = Unit {0}

when_else :
    (b : Bool) (size : ℕ) (p q : ParsedRange)
    → (b ≡ true → IsInside size p)
    → (b ≡ false → IsInside size q)
    → IsInside size (if b then p else q)
when_else true size p q f g = f refl
when_else false size p q f g = g refl

by_sides-IsInside : (before after : List ℕ) (size : ℕ) → IsInside size (by_sides before after size)
unfolding suffix_range bounded_range open_range
by_sides-IsInside [] [] size = tt
by_sides-IsInside [] (d ∷ ds) size = ground arith
by_sides-IsInside (c ∷ cs) [] size = ground arith
by_sides-IsInside (c ∷ cs) (d ∷ ds) size = ground arith

of_sides-IsInside :
    (sides : Option (List ℕ × List ℕ)) (size : ℕ) → IsInside size (of_sides sides size)
of_sides-IsInside none size = tt
of_sides-IsInside (some (before, after)) size =
    when_else (are_digits before && are_digits after) size (by_sides before after size)
      unsatisfiable (λ _. by_sides-IsInside before after size) (λ _. tt)

parse_trimmed-IsInside : (trimmed : List ℕ) (size : ℕ) → IsInside size (parse_trimmed trimmed size)
unfolding parse_trimmed parse_spec
parse_trimmed-IsInside trimmed size =
    let spec = drop 6 trimmed in
    let inner = of_sides-IsInside (split_dash spec) size in
    when_else (not (same_bytes (map to_lower (take 6 trimmed)) bytes_unit)) size unsatisfiable
      (if any is_separator spec then unsatisfiable else of_sides (split_dash spec) size) (λ _. tt)
      λ _.
        when_else (any is_separator spec) size unsatisfiable (of_sides (split_dash spec) size)
          (λ _. tt) (λ _. inner)

-- Whatever the header says, a range that it gives is not empty and lies inside the file.
pub parse_range_header-IsInside :
    (header : Option (List ℕ)) (size : ℕ) → IsInside size (parse_range_header header size)
unfolding parse_range_header
parse_range_header-IsInside none size = tt
parse_range_header-IsInside (some []) size = tt
parse_range_header-IsInside (some (c ∷ cs)) size =
    parse_trimmed-IsInside (trim_end (trim_start (c ∷ cs))) size
