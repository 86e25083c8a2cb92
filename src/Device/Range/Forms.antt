-- ===== src/Device/Range/Forms.antt =====
-- Which bytes the three forms of a range of packages/server/src/device/range.ts ask for.
use nslibrary.Common.{
  ℕ, ◌+◌, ◌<◌, ◌≤◌, ◌≡◌, refl, Bool, true, false, ◌&&◌, ◌||◌, Option, some, List, [], ◌∷◌, ◌++◌,
  arith, Bool-cases, inl, inr, ◌==◌, any, ◌↔◌,
}
use nslibrary.Device.Range.{
  ParsedRange, bytes_in, all_bytes, unsatisfiable, parse_range_header, parse_trimmed, parse_spec,
  by_sides, suffix_range, bounded_range, open_range, split_dash, bytes_unit, is_separator,
  trim_start, trim_end,
}
use nslibrary.Device.Range.Numbers.{number_of, are_digits, is_digit}
use nslibrary.Shared.Frame.Bytes.{same_bytes}

abbrev pub Selected : ParsedRange → ℕ → ℕ → Type 0
Selected (bytes_in r) size i = (r.start ≤ i) × (i ≤ r.end)
Selected all_bytes size i = i < size
Selected unsatisfiable size i = ⊥

-- The last bytes, the bytes from a number on, or those between two numbers.
abbrev pub Wanted : List ℕ → List ℕ → ℕ → ℕ → Type 0
Wanted [] after size i = (size ≤ i + number_of after) × (i < size)
Wanted (c ∷ cs) [] size i = (number_of (c ∷ cs) ≤ i) × (i < size)
Wanted (c ∷ cs) (d ∷ ds) size i = (number_of (c ∷ cs) ≤ i) × (i ≤ number_of (d ∷ ds)) × (i < size)

split_dash-digits :
    (before after : List ℕ)
    → are_digits before ≡ true
    → split_dash (before ++ 45 ∷ after) ≡ some (before, after)
unfolding split_dash are_digits
split_dash-digits [] after h = refl
split_dash-digits (c ∷ cs) after h = elim (Bool-cases (is_digit c)) [
  | inl d ↦
      let rest = split_dash-digits cs after (rw d at h) in
      let no : (c == 45) ≡ false = ground (arith, d) in rw (no, rest) refl
  | inr n ↦ cc
]

-- A digit or a dash.
abbrev is_plain : ℕ → Bool
is_plain c = is_digit c || (c == 45)

are_plain : List ℕ → Bool
are_plain [] = true
are_plain (c ∷ cs) = is_plain c && are_plain cs

sides-plain :
    (before after : List ℕ)
    → are_digits before ≡ true
    → are_digits after ≡ true
    → are_plain (before ++ 45 ∷ after) ≡ true
unfolding are_digits are_plain
sides-plain [] [] h k = refl
sides-plain [] (d ∷ ds) h k = ground (arith, sides-plain [] ds)
sides-plain (c ∷ cs) after h k = ground (arith, sides-plain cs after)

plain-separator : (cs : List ℕ) → are_plain cs ≡ true → any is_separator cs ≡ false
unfolding are_plain
plain-separator [] h = refl
plain-separator (c ∷ cs) h = ground (arith, plain-separator cs)

-- The text ends with a digit or a dash, so nothing is trimmed.
plain-trim_end : (cs : List ℕ) → are_plain cs ≡ true → trim_end cs ≡ cs
unfolding are_plain trim_end
plain-trim_end [] h = refl
plain-trim_end (c ∷ []) h = ground arith
plain-trim_end (c ∷ d ∷ cs) h = rw (plain-trim_end (d ∷ cs) (ground arith)) refl

behind_unit :
    (x : ℕ) (xs : List ℕ)
    → trim_end (x ∷ xs) ≡ x ∷ xs
    → trim_end (bytes_unit ++ (x ∷ xs)) ≡ bytes_unit ++ (x ∷ xs)
unfolding trim_end
behind_unit x xs e = rw e refl

untrimmed :
    (before after : List ℕ)
    → are_plain (before ++ 45 ∷ after) ≡ true
    → trim_end (bytes_unit ++ (before ++ 45 ∷ after)) ≡ bytes_unit ++ (before ++ 45 ∷ after)
untrimmed [] after h = behind_unit 45 after (plain-trim_end (45 ∷ after) h)
untrimmed (c ∷ cs) after h =
    behind_unit c (cs ++ 45 ∷ after) (plain-trim_end (c ∷ (cs ++ 45 ∷ after)) h)

-- `bytes=`, and the two sides of the dash.
abbrev pub header_of : List ℕ → List ℕ → Option (List ℕ)
header_of before after = some (bytes_unit ++ (before ++ 45 ∷ after))

parse-sides :
    (before after : List ℕ) (size : ℕ)
    → are_digits before ≡ true
    → are_digits after ≡ true
    → parse_range_header (header_of before after) size ≡ by_sides before after size
unfolding parse_range_header parse_trimmed parse_spec trim_start same_bytes
parse-sides before after size h k =
    let plain = sides-plain before after h k in
    rw
      (
        untrimmed before after plain,
        plain-separator (before ++ 45 ∷ after) plain,
        split_dash-digits before after h,
        h,
        k,
      )
      refl

-- One of the sides holds digits.
abbrev pub HasDigits : List ℕ → List ℕ → Type 0
HasDigits [] [] = ⊥
HasDigits _ _ = Unit {0}

sides-Wanted :
    (before after : List ℕ) (size i : ℕ)
    → HasDigits before after
    → (Selected (by_sides before after size) size i → Wanted before after size i)
      × (Wanted before after size i → Selected (by_sides before after size) size i)
unfolding suffix_range bounded_range open_range
sides-Wanted [] [] size i n = absurd n
sides-Wanted [] (d ∷ ds) size i n = ground arith
sides-Wanted (c ∷ cs) [] size i n = ground arith
sides-Wanted (c ∷ cs) (d ∷ ds) size i n = ground arith

-- For a header `bytes=`, digits, a dash and digits, where one of the two numbers may be missing, the
-- bytes of the file that are selected are the wanted ones: the last bytes, as many as the second
-- number says, if the first is missing; those from the first number on, if the second is missing; or
-- those from the first to the second. None is selected where none of these is in the file.
pub parse_range_header-Wanted :
    (before after : List ℕ) (size i : ℕ)
    → are_digits before ≡ true
    → are_digits after ≡ true
    → HasDigits before after
    → Selected (parse_range_header (header_of before after) size) size i
      ↔ Wanted before after size i
parse_range_header-Wanted before after size i h k n =
    let (f, g) = sides-Wanted before after size i n in rw (parse-sides before after size h k) (f, g)
