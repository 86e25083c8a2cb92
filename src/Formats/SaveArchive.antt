-- ===== src/Formats/SaveArchive.antt =====
-- packages/formats/src/save-archive.ts: the tar files that hold save data, as they are read. A path is
-- the bytes of its UTF-8 text, which those of a name field are taken to be. SaveArchive/Walk holds
-- `readSaveArchive` itself.
pub mod Walk
pub mod Ends
pub mod Plain
pub mod Safe
pub mod Inside
mod Runs
use nslibrary.Common.{
  ℕ, zero, suc, ◌+◌, ◌-◌, ◌*◌, ◌/◌, ◌%◌, min, Bool, true, false, ◌&&◌, ◌||◌, not, Option, none,
  some, List, [], ◌∷◌, ◌++◌, map, ltb, leb, ◌==◌, if◌then◌else◌, length, take, drop, all, any,
}
use nslibrary.Common.Text.{codes, same_text}
use nslibrary.Formats.Binary.{
  Parsed, parsed, format_error, range_error, bad_magic, truncated, invalid, unsupported, throw_if,
  ◌>>=◌, ◌>>◌,
}
use nslibrary.Formats.Reader.{RandomAccessReader, read_exact}
use nslibrary.Formats.Partition.{until_nul}
use mathlib.Core.List.{reverse}

abbrev pub tar_block : ℕ
tar_block = 512

abbrev pub save_archive_max_path : ℕ
save_archive_max_path = 255

abbrev pub save_archive_max_entries : ℕ
save_archive_max_entries = 100000

pub data EntryType : Type 0 where
  file dir : EntryType

pub record SaveArchiveEntry : Type 0 where
  pub path : List ℕ
  pub type : EntryType
  pub size : ℕ
  pub offset : ℕ

pub record SaveArchiveListing : Type 0 where
  pub entries : List SaveArchiveEntry
  pub file_count : ℕ
  pub data_size : ℕ

-- `path.split("/")`: the parts, of which the first is `part` followed by what comes before a slash.
unfoldable pub split_from : List ℕ → List ℕ → List (List ℕ)
split_from part [] = part ∷ []
split_from part (c ∷ path) =
    let next = split_from [] path in
    let longer = split_from (part ++ (c ∷ [])) path in if c == 47 then part ∷ next else longer

unfoldable pub components : List ℕ → List (List ℕ)
unfolding split_from
components path = split_from [] path

-- An empty component, "." or "..".
unfoldable pub is_bad_part : List ℕ → Bool
unfolding same_text
is_bad_part part = same_text part [] || (same_text part (codes ".") || same_text part (codes ".."))

unfoldable pub starts_with_slash : List ℕ → Bool
starts_with_slash [] = false
starts_with_slash (c ∷ path) = c == 47

-- `saveArchivePathProblem(path) !== null`
unfoldable pub has_path_problem : List ℕ → Bool
unfolding components is_bad_part starts_with_slash
has_path_problem path =
    (length path == 0)
    || (ltb (save_archive_max_path - 1) (length path)
        || (any (λ c. c == 0) path
            || (any (λ c. c == 92) path
                || (starts_with_slash path || any is_bad_part (components path)))))

unfoldable pub c_string : List ℕ → ℕ → ℕ → List ℕ
unfolding until_nul
c_string buf offset len = until_nul (take len (drop offset buf))

-- `replace(/[\0 ]+$/, "")` on a text that is turned round, and `replace(/^ +/, "")`.
unfoldable pub strip_end : List ℕ → List ℕ
strip_end [] = []
strip_end (c ∷ text) = let rest = strip_end text in if (c == 0) || (c == 32) then rest else c ∷ text

unfoldable pub strip_spaces : List ℕ → List ℕ
strip_spaces [] = []
strip_spaces (c ∷ text) = let rest = strip_spaces text in if c == 32 then rest else c ∷ text

-- `Number.parseInt(text, 8)`, with the number that the digits before give.
unfoldable pub octal_from : ℕ → List ℕ → ℕ
octal_from n [] = n
octal_from n (c ∷ text) = octal_from (n * 8 + (c - 48)) text

unfoldable pub octal_of : List ℕ → Parsed ℕ
unfolding octal_from
octal_of [] = parsed 0
octal_of (c ∷ text) =
    if not (all (λ d. leb 48 d && leb d 55) (c ∷ text))
    then format_error invalid
    else parsed (octal_from 0 (c ∷ text))

unfoldable pub parse_octal : List ℕ → ℕ → ℕ → Parsed ℕ
unfolding strip_end strip_spaces octal_of
parse_octal buf offset len =
    octal_of (strip_spaces (reverse (strip_end (reverse (take len (drop offset buf))))))

unfoldable pub is_zero_block : List ℕ → Bool
is_zero_block block = all (λ b. b == 0) block

-- The sum over the header, from its byte `i` on, with spaces for the bytes of the checksum.
unfoldable pub sum_from : ℕ → List ℕ → ℕ
sum_from i [] = 0
sum_from i (b ∷ header) = (if leb 148 i && ltb i 156 then 0x20 else b) + sum_from (suc i) header

-- `path.replace(/\/+$/, "")` on a path that is turned round.
unfoldable pub strip_slashes : List ℕ → List ℕ
strip_slashes [] = []
strip_slashes (c ∷ path) = let rest = strip_slashes path in if c == 47 then rest else c ∷ path

-- `while (path.startsWith("./")) path = path.slice(2)`
unfoldable pub strip_dots : List ℕ → List ℕ
strip_dots (d ∷ s ∷ path) =
    let rest = strip_dots path in if (d == 46) && (s == 47) then rest else d ∷ s ∷ path
strip_dots path = path

unfoldable pub type_of_flag : ℕ → Parsed EntryType
type_of_flag flag =
    if flag == 53
    then parsed dir
    else if (flag == 48) || (flag == 0)
    then parsed file
    else format_error unsupported

-- `prefix ? prefix + "/" + name : name`
unfoldable pub tar_path : List ℕ → List ℕ → List ℕ
tar_path [] name = name
tar_path (c ∷ prefix) name = (c ∷ prefix) ++ (47 ∷ name)

unfoldable pub path_of : EntryType → List ℕ → List ℕ
unfolding strip_slashes strip_dots
path_of dir path = strip_dots (reverse (strip_slashes (reverse path)))
path_of file path = strip_dots path

-- `type === "dir" && (path === "" || path === ".")`
unfoldable pub is_root : EntryType → List ℕ → Bool
unfolding same_text
is_root dir path = same_text path [] || same_text path (codes ".")
is_root file path = false

unfoldable pub size_of : EntryType → List ℕ → Parsed ℕ
unfolding parse_octal
size_of dir header = parsed 0
size_of file header = parse_octal header 124 12

unfoldable pub flag_of : List ℕ → ℕ
flag_of [] = 0
flag_of (b ∷ _) = b
