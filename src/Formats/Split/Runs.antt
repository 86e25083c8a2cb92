-- ===== src/Formats/Split/Runs.antt =====
-- A directory of parts, and the theorem of packages/formats/src/split.ts at it.
use nslibrary.Common.{ℕ, ◌≡◌, refl, true, none, some, List, [], ◌∷◌}
use nslibrary.Common.Text.{codes, same_text, starts_with, to_lower}
use nslibrary.Formats.Container.{nsp, xci, extension_of, format_of_extension, format_from_file_name}
use nslibrary.Formats.Split.{
  SplitPart, SplitLayout, DirEntry, split_part_index, two_digits, is_digit, detect_split_directory,
  collect_parts, layout_of, consecutive_from_zero, consecutive_from, starts_at_zero, unique,
  container_format_from_name, group_numbered_split_files, group_names, push_part, layouts_of,
  parse_numbered_split_name, match_numbered, numbered_name, is_no_line_end,
}
use nslibrary.Formats.Split.Gaps.{IsWhole, part_files, detect_split_directory-IsWhole}

abbrev file : List ℕ → DirEntry
file name = record { name = name; is_file = true }

abbrev part : List ℕ → ℕ → SplitPart
part name index = record { name = name; index = index }

abbrev listing : List DirEntry
listing = file (codes "01") ∷ file (codes "notes.txt") ∷ file (codes "00") ∷ []

abbrev whole : SplitLayout
whole = record {
  format = nsp;
  rel_name = codes "Game.NSP";
  parts = part (codes "00") 0 ∷ part (codes "01") 1 ∷ [];
}

found : detect_split_directory (codes "Game.NSP") listing ≡ some whole
unfolding detect_split_directory container_format_from_name format_from_file_name extension_of
    format_of_extension same_text to_lower collect_parts split_part_index is_digit two_digits
    starts_with layout_of consecutive_from_zero consecutive_from starts_at_zero unique
found = refl

-- Part 0 is missing.
headless : detect_split_directory (codes "Game.NSP") (file (codes "01") ∷ []) ≡ none
unfolding detect_split_directory container_format_from_name format_from_file_name extension_of
    format_of_extension same_text to_lower collect_parts split_part_index is_digit two_digits
    starts_with layout_of consecutive_from_zero consecutive_from starts_at_zero unique
headless = refl

numbered :
    group_numbered_split_files (codes "A.xci.01" ∷ codes "B.nsp" ∷ codes "A.xci.00" ∷ [])
    ≡ record {
      format = xci;
      rel_name = codes "A.xci";
      parts = part (codes "A.xci.00") 0 ∷ part (codes "A.xci.01") 1 ∷ [];
    }
      ∷ []
unfolding group_numbered_split_files group_names push_part layouts_of parse_numbered_split_name
    match_numbered numbered_name is_no_line_end container_format_from_name format_from_file_name
    extension_of format_of_extension same_text to_lower is_digit two_digits layout_of
    consecutive_from_zero consecutive_from starts_at_zero unique
numbered = refl

detect_split_directory-IsWhole_example :
    IsWhole (part_files listing) whole
    × (container_format_from_name (codes "Game.NSP") ≡ some whole.format)
    × (whole.rel_name ≡ codes "Game.NSP")
detect_split_directory-IsWhole_example =
    detect_split_directory-IsWhole (codes "Game.NSP") listing found
