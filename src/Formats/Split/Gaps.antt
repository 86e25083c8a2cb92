-- ===== src/Formats/Split/Gaps.antt =====
-- The parts that packages/formats/src/split.ts accepts as one container.
use nslibrary.Common.{
  ℕ, suc, ◌+◌, ◌-◌, ◌*◌, ◌<◌, ◌≡◌, refl, ap, sym, ◌∙◌, subst, Bool, true, false, ◌&&◌, ◌||◌, not,
  Option, none, some, List, [], ◌∷◌, map, arith, ltb, leb, ◌==◌, if◌then◌else◌, length, filter,
  Bool-cases, Option-cases, inl, inr,
}
use nslibrary.Common.Text.{codes, starts_with}
use nslibrary.Common.Sort.{sort, sort_onto, insert, IsSorted, sort-IsSorted, sort-Perm}
use mathlib.Core.List.{Perm}
use nslibrary.Formats.Container.{ContainerFormat}
use nslibrary.Formats.Split.{
  split_part_index, SplitPart, SplitLayout, DirEntry, unique, consecutive_from, starts_at_zero,
  consecutive_from_zero, collect_parts, by_index, index_of, layout_of, detect_split_directory,
  container_format_from_name,
}

abbrev pub contains : ℕ → List ℕ → Bool
contains j [] = false
contains j (x ∷ xs) = (x == j) || contains j xs

contains-filter :
    (j x : ℕ) (xs : List ℕ)
    → contains j (filter (λ y. not (y == x)) xs) ≡ (contains j xs && not (x == j))
contains-filter j x [] = refl
contains-filter j x (y ∷ ys) = ground (arith, contains-filter j x ys)

contains-unique : (j : ℕ) (xs : List ℕ) → contains j (unique xs) ≡ contains j xs
unfolding unique
contains-unique j [] = refl
contains-unique j (x ∷ xs) = ground (arith, contains-unique j xs, contains-filter j x (unique xs))

contains-insert :
    (j x : ℕ) (ys : List ℕ) → contains j (insert ltb x ys) ≡ ((x == j) || contains j ys)
contains-insert j x [] = refl
contains-insert j x (y ∷ ys) = ground (arith, contains-insert j x ys)

contains-sort_onto :
    (j : ℕ) (done xs : List ℕ)
    → contains j (sort_onto ltb done xs) ≡ (contains j done || contains j xs)
contains-sort_onto j done [] = ground arith
contains-sort_onto j done (x ∷ xs) =
    ground (arith, contains-sort_onto j (insert ltb x done) xs, contains-insert j x done)

contains-consecutive :
    (j i : ℕ) (xs : List ℕ)
    → consecutive_from i xs ≡ true
    → contains j xs ≡ (leb i j && ltb j (i + length xs))
unfolding consecutive_from
contains-consecutive j i [] h = ground arith
contains-consecutive j i (x ∷ xs) h = ground (arith, contains-consecutive j (suc i) xs)

split_and : (a b : Bool) → (a && b) ≡ true → (a ≡ true) × (b ≡ true)
split_and a b h = ground (arith, h)

-- How many numbers there are below the first that is missing.
abbrev pub part_count : List ℕ → ℕ
part_count xs = length (sort ltb (unique xs))

consecutive_from_zero-full :
    (j : ℕ) (xs : List ℕ) → consecutive_from_zero xs ≡ true → contains j xs ≡ ltb j (part_count xs)
unfolding consecutive_from_zero
consecutive_from_zero-full j [] h = cc
consecutive_from_zero-full j (x ∷ xs) h =
    let u = sort ltb (unique (x ∷ xs)) in
    let steps = (split_and (starts_at_zero u) (consecutive_from 0 u) h).1 in
    sym (contains-sort_onto j [] (unique (x ∷ xs)) ∙ contains-unique j (x ∷ xs))
    ∙ contains-consecutive j 0 u steps
    ∙ ground arith

ltb-trans_false :
    (a b c : SplitPart) → by_index a b ≡ true → by_index c b ≡ false → by_index c a ≡ false
ltb-trans_false a b c h k = ground arith

ltb-asym : (a b : SplitPart) → by_index a b ≡ true → by_index b a ≡ false
ltb-asym a b h = ground arith

-- The parts of a layout: the given ones in the order of their indexes, which are all the numbers
-- below some count.
pub record IsWhole (parts : List SplitPart) (layout : SplitLayout) : Type 0 where
  pub same : Perm layout.parts parts
  pub ordered : IsSorted by_index layout.parts
  pub count : ℕ
  pub some_part : 0 < count
  pub exactly : (j : ℕ) → contains j (map index_of layout.parts) ≡ ltb j count

unless_some :
    {A : Type 0} (b : Bool) (x y : A)
    → (if not b then none else some x) ≡ some y
    → (b ≡ true) × (x ≡ y)
unless_some true x y h = (refl, cc)
unless_some false x y h = cc

part_count_pos : (xs : List ℕ) → consecutive_from_zero xs ≡ true → 0 < part_count xs
unfolding consecutive_from_zero starts_at_zero
part_count_pos [] h = cc
part_count_pos (x ∷ xs) h = nonempty (sort ltb (unique (x ∷ xs))) (split_and _ _ h).0
  where
    nonempty : (u : List ℕ) → starts_at_zero u ≡ true → 0 < length u
    nonempty [] e = cc
    nonempty (y ∷ ys) e = omega arith

layout_of-IsWhole :
    (format : ContainerFormat) (rel_name : List ℕ) (parts : List SplitPart) {layout : SplitLayout}
    → layout_of format rel_name parts ≡ some layout
    → IsWhole parts layout × (layout.format ≡ format) × (layout.rel_name ≡ rel_name)
unfolding layout_of
layout_of-IsWhole format rel_name parts h =
    let sorted = sort by_index parts in
    let (full, made) = unless_some (consecutive_from_zero (map index_of sorted)) _ _ h in
    subst (λ (l : SplitLayout). IsWhole parts l × (l.format ≡ format) × (l.rel_name ≡ rel_name))
      made
      (
        record {
          same = sort-Perm by_index parts;
          ordered = sort-IsSorted by_index ltb-asym ltb-trans_false parts;
          count = part_count (map index_of sorted);
          some_part = part_count_pos (map index_of sorted) full;
          exactly = λ j. consecutive_from_zero-full j (map index_of sorted) full;
        },
        refl,
        refl,
      )

-- A name of two decimal digits, and the number that they write.
abbrev pub has_two_digits : List ℕ → Bool
has_two_digits (a ∷ b ∷ []) = ltb 47 a && ltb a 58 && ltb 47 b && ltb b 58
has_two_digits _ = false

abbrev pub written_number : List ℕ → ℕ
written_number (a ∷ b ∷ []) = (a - 48) * 10 + (b - 48)
written_number _ = 0

abbrev pub is_part_file : DirEntry → Bool
is_part_file e = e.is_file && has_two_digits e.name

abbrev pub numbered_part : DirEntry → SplitPart
numbered_part e = record { name = e.name; index = written_number e.name }

-- The files of a directory whose name is two digits, with the numbers of their names.
abbrev pub part_files : List DirEntry → List SplitPart
part_files entries = map numbered_part (filter is_part_file entries)

-- The tests of the loop on one entry.
collected : DirEntry → Option SplitPart
collected e =
    if not e.is_file || starts_with (codes ".") e.name
    then none
    else elim (split_part_index e.name) [
      | none ↦ none
      | some index ↦ some (record { name = e.name; index = index })
    ]

abbrev with_part : Option SplitPart → List SplitPart → List SplitPart
with_part none parts = parts
with_part (some part) parts = part ∷ parts

collected-is_part_file :
    (name : List ℕ) (is_file : Bool)
    → let e : DirEntry = record { name = name; is_file = is_file } in
      collected e ≡ (if is_part_file e then some (numbered_part e) else none)
unfolding collected split_part_index starts_with
collected-is_part_file [] is_file = ground arith
collected-is_part_file (a ∷ []) is_file = ground arith
collected-is_part_file (a ∷ b ∷ []) is_file = ground arith
collected-is_part_file (a ∷ b ∷ c ∷ name) is_file = ground arith

collect_parts-with_part :
    (e : DirEntry) (entries : List DirEntry)
    → collect_parts (e ∷ entries) ≡ with_part (collected e) (collect_parts entries)
unfolding collected collect_parts
collect_parts-with_part e entries =
    elim (Bool-cases (not e.is_file || starts_with (codes ".") e.name)) [
      | inl skipped ↦ rw skipped refl
      | inr kept ↦ elim (Option-cases (split_part_index e.name)) [
        | inl other ↦ rw (kept, other) refl
        | inr (index, part) ↦ rw (kept, part) refl
      ]
    ]

with_part-filter :
    (e : DirEntry) (entries : List DirEntry)
    → with_part (if is_part_file e then some (numbered_part e) else none) (part_files entries)
      ≡ part_files (e ∷ entries)
with_part-filter e entries = elim (Bool-cases (is_part_file e)) [
  | inl part ↦ rw part refl
  | inr other ↦ rw other refl
]

collect_parts-part_files : (entries : List DirEntry) → collect_parts entries ≡ part_files entries
collect_parts-part_files [] = unfold collect_parts in refl
collect_parts-part_files (e ∷ entries) =
    collect_parts-with_part e entries
    ∙ ap (with_part (collected e)) (collect_parts-part_files entries)
    ∙ ap (λ part. with_part part (part_files entries)) (collected-is_part_file e.name e.is_file)
    ∙ with_part-filter e entries

-- A directory that is taken for a split container has a container's name, which the layout keeps.
-- Its parts are the files whose name is two decimal digits, each once, in the order of the numbers
-- that these digits write; the numbers are exactly those below some count, which is not 0.
pub detect_split_directory-IsWhole :
    (dir_name : List ℕ) (entries : List DirEntry) {layout : SplitLayout}
    → detect_split_directory dir_name entries ≡ some layout
    → IsWhole (part_files entries) layout
      × (container_format_from_name dir_name ≡ some layout.format)
      × (layout.rel_name ≡ dir_name)
unfolding detect_split_directory
detect_split_directory-IsWhole dir_name entries {layout} h =
    elim (Option-cases (container_format_from_name dir_name)) [
      | inl other ↦ let no_layout = rw (other, detect_split_directory) at h in cc
      | inr (format, named) ↦
          let found : layout_of format dir_name (collect_parts entries) ≡ some _ =
            rw (named, detect_split_directory) at h in
          let (whole, f, r) = layout_of-IsWhole format dir_name (collect_parts entries) found in
          (
            subst (λ parts. IsWhole parts layout) (collect_parts-part_files entries) whole,
            named ∙ ap some (sym f),
            r,
          )
    ]
