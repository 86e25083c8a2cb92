-- ===== src/Formats/Split.antt =====
-- packages/formats/src/split.ts: containers that a FAT32 dumper split into parts.
pub mod Gaps
mod Runs
use nslibrary.Common.{
  ℕ, zero, suc, ◌+◌, ◌-◌, ◌*◌, Bool, true, false, ◌&&◌, ◌||◌, not, Option, none, some, List, [],
  ◌∷◌, ◌++◌, map, ltb, leb, ◌==◌, if◌then◌else◌, is_some, filter, all,
}
use nslibrary.Common.Text.{codes, same_text, starts_with}
use nslibrary.Common.Sort.{sort}
use mathlib.Core.List.{reverse}
use nslibrary.Formats.Container.{
  ContainerFormat, LibraryFileFormat, container, nro, format_from_file_name,
}

pub record SplitPart : Type 0 where
  pub name : List ℕ
  pub index : ℕ

pub record SplitLayout : Type 0 where
  pub format : ContainerFormat
  pub rel_name : List ℕ
  pub parts : List SplitPart

-- `\d`
unfoldable pub is_digit : ℕ → Bool
is_digit c = leb 48 c && leb c 57

unfoldable pub two_digits : ℕ → ℕ → ℕ
two_digits a b = (a - 48) * 10 + (b - 48)

unfoldable pub split_part_index : List ℕ → Option ℕ
unfolding is_digit two_digits
split_part_index (a ∷ b ∷ []) = if is_digit a && is_digit b then some (two_digits a b) else none
split_part_index _ = none

unfoldable pub container_format_from_name : List ℕ → Option ContainerFormat
unfolding format_from_file_name
container_format_from_name name = elim (format_from_file_name name) [
  | some (container format) ↦ some format
  | _ ↦ none
]

-- What `.` matches: no line terminator.
unfoldable pub is_no_line_end : ℕ → Bool
is_no_line_end c = not (c == 10) && not (c == 13) && not (c == 8232) && not (c == 8233)

pub record NumberedName : Type 0 where
  pub stem : List ℕ
  pub index : ℕ
  pub format : ContainerFormat

-- The match of NUMBERED_FILE on a name that is read from its end: two digits, a dot, the stem.
unfoldable pub match_numbered : List ℕ → Option (List ℕ × ℕ)
unfolding is_digit is_no_line_end two_digits
match_numbered (b ∷ a ∷ dot ∷ c ∷ stem) =
    if is_digit a && is_digit b && (dot == 46) && all is_no_line_end (c ∷ stem)
    then some (reverse (c ∷ stem), two_digits a b)
    else none
match_numbered _ = none

unfoldable pub numbered_name : Option (List ℕ × ℕ) → Option NumberedName
unfolding container_format_from_name
numbered_name none = none
numbered_name (some (stem, index)) = elim (container_format_from_name stem) [
  | none ↦ none
  | some format ↦ some (record { stem = stem; index = index; format = format })
]

unfoldable pub parse_numbered_split_name : List ℕ → Option NumberedName
unfolding numbered_name match_numbered
parse_numbered_split_name name = numbered_name (match_numbered (reverse name))

unfoldable pub is_split_related_file_name : List ℕ → Bool
unfolding split_part_index parse_numbered_split_name
is_split_related_file_name name =
    is_some (split_part_index name) || is_some (parse_numbered_split_name name)

-- `[...new Set(numbers)]`
unfoldable pub unique : List ℕ → List ℕ
unique [] = []
unique (x ∷ xs) = x ∷ filter (λ y. not (y == x)) (unique xs)

-- The loop: each number is its place.
unfoldable pub consecutive_from : ℕ → List ℕ → Bool
consecutive_from i [] = true
consecutive_from i (x ∷ xs) = (x == i) && consecutive_from (suc i) xs

unfoldable pub starts_at_zero : List ℕ → Bool
starts_at_zero [] = false
starts_at_zero (x ∷ xs) = x == 0

unfoldable pub consecutive_from_zero : List ℕ → Bool
unfolding unique consecutive_from starts_at_zero
consecutive_from_zero [] = false
consecutive_from_zero (x ∷ xs) =
    let sorted = sort ltb (unique (x ∷ xs)) in starts_at_zero sorted && consecutive_from 0 sorted

pub record DirEntry : Type 0 where
  pub name : List ℕ
  pub is_file : Bool

-- The loop of `detectSplitDirectory` over the entries of the directory.
unfoldable pub collect_parts : List DirEntry → List SplitPart
unfolding split_part_index starts_with
collect_parts [] = []
collect_parts (e ∷ entries) =
    let rest = collect_parts entries in
    if not e.is_file || starts_with (codes ".") e.name
    then rest
    else elim (split_part_index e.name) [
      | none ↦ rest
      | some index ↦ record { name = e.name; index = index } ∷ rest
    ]

abbrev pub by_index : SplitPart → SplitPart → Bool
by_index a b = ltb a.index b.index

abbrev pub index_of : SplitPart → ℕ
index_of part = part.index

-- `parts.sort(…)`, and the layout unless the indexes have a gap.
unfoldable pub layout_of : ContainerFormat → List ℕ → List SplitPart → Option SplitLayout
unfolding consecutive_from_zero
layout_of format rel_name parts =
    let sorted = sort by_index parts in
    if not (consecutive_from_zero (map index_of sorted))
    then none
    else some (record { format = format; rel_name = rel_name; parts = sorted })

unfoldable pub detect_split_directory : List ℕ → List DirEntry → Option SplitLayout
unfolding container_format_from_name collect_parts layout_of
detect_split_directory dir_name entries = elim (container_format_from_name dir_name) [
  | none ↦ none
  | some format ↦ layout_of format dir_name (collect_parts entries)
]

-- `groups`, a Map by stem, in the order of insertion.
pub record Group : Type 0 where
  pub stem : List ℕ
  pub format : ContainerFormat
  pub parts : List SplitPart

-- `group.parts.push({ name, index })` on the group of the stem, which is made if there is none.
unfoldable pub push_part : List ℕ → NumberedName → List Group → List Group
unfolding same_text
push_part name n [] =
    record {
      stem = n.stem;
      format = n.format;
      parts = record { name = name; index = n.index } ∷ [];
    }
    ∷ []
push_part name n (g ∷ groups) =
    if same_text g.stem n.stem
    then record g { parts = g.parts ++ (record { name = name; index = n.index } ∷ []) } ∷ groups
    else g ∷ push_part name n groups

unfoldable pub group_names : List (List ℕ) → List Group → List Group
unfolding parse_numbered_split_name push_part
group_names [] groups = groups
group_names (name ∷ names) groups =
    group_names names
      (elim (parse_numbered_split_name name) [ none ↦ groups | some n ↦ push_part name n groups ])

unfoldable pub layouts_of : List Group → List SplitLayout
unfolding layout_of
layouts_of [] = []
layouts_of (g ∷ groups) =
    let rest = layouts_of groups in
    elim (layout_of g.format g.stem g.parts) [ none ↦ rest | some layout ↦ layout ∷ rest ]

unfoldable pub group_numbered_split_files : List (List ℕ) → List SplitLayout
unfolding group_names layouts_of
group_numbered_split_files names = layouts_of (group_names names [])

unfoldable pub is_library_or_split_name : List ℕ → Bool
unfolding format_from_file_name is_split_related_file_name starts_with
is_library_or_split_name name =
    if starts_with (codes ".") name
    then false
    else if is_some (format_from_file_name name)
    then true
    else is_split_related_file_name name
