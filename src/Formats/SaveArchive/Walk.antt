-- ===== src/Formats/SaveArchive/Walk.antt =====
-- `readSaveArchive` of packages/formats/src/save-archive.ts. Its loops are the steps of one machine,
-- which runs on fuel; `none` means that the fuel ran out.
use nslibrary.Common.{
  ℕ, zero, suc, ◌+◌, ◌-◌, ◌*◌, ◌/◌, ◌%◌, min, Bool, true, false, ◌||◌, not, Option, none, some,
  List, [], ◌∷◌, ◌++◌, ltb, ◌==◌, if◌then◌else◌, length, take, drop, any,
}
use nslibrary.Common.Text.{codes, same_text}
use nslibrary.Formats.Binary.{
  Parsed, parsed, format_error, range_error, bad_magic, truncated, invalid, unsupported, throw_if,
  ◌>>=◌, ◌>>◌,
}
use nslibrary.Formats.Reader.{RandomAccessReader, read_exact}
use nslibrary.Formats.SaveArchive.{
  tar_block, save_archive_max_entries, EntryType, file, dir, SaveArchiveEntry, SaveArchiveListing,
  components, has_path_problem, c_string, parse_octal, is_zero_block, sum_from, type_of_flag,
  tar_path, path_of, is_root, size_of, flag_of,
}

-- The variables of `readSaveArchive`. After the first zero block `padding` is true, and `offset` is
-- the inner loop's `rest`.
pub record Reading : Type 0 where
  pub offset : ℕ
  pub padding : Bool
  pub entries : List SaveArchiveEntry
  pub seen : List (List ℕ)
  pub file_count : ℕ
  pub data_size : ℕ

pub data Step : Type 0 where
  go_on : Reading → Step
  finished : Reading → Step

-- The counts behind an entry.
unfoldable pub counted : EntryType → ℕ → Reading → Reading
counted dir size s = s
counted file size s = record s { file_count = s.file_count + 1; data_size = s.data_size + size }

-- What follows the name: the checks, and the entry.
unfoldable pub add_entry : RandomAccessReader → Reading → List ℕ → EntryType → List ℕ → Parsed Step
unfolding has_path_problem same_text size_of counted
add_entry reader s header type path = do
  throw_if (has_path_problem path) invalid
  throw_if (any (λ p. same_text p path) s.seen) invalid
  size ← size_of type header
  let data_offset = s.offset + tar_block
  let padded = (size + 511) / tar_block * tar_block
  throw_if (ltb reader.size (data_offset + padded)) truncated
  let entry : SaveArchiveEntry = record {
    path = path;
    type = type;
    size = size;
    offset = data_offset;
  }
  throw_if (ltb save_archive_max_entries (length s.entries + 1)) unsupported
  parsed (
      go_on (
        counted type size (record s {
          offset = data_offset + padded;
          entries = s.entries ++ (entry ∷ []);
          seen = path ∷ s.seen;
        })))

unfoldable pub read_header : RandomAccessReader → Reading → List ℕ → Parsed Step
unfolding parse_octal sum_from type_of_flag flag_of c_string tar_path path_of is_root add_entry
    same_text
read_header reader s header = do
  throw_if (not (same_text (take 5 (drop 257 header)) (codes "ustar"))) bad_magic
  stored ← parse_octal header 148 8
  throw_if (not (sum_from 0 header == stored)) invalid
  type ← type_of_flag (flag_of (drop 156 header))
  let path = path_of type (tar_path (c_string header 345 155) (c_string header 0 100))
  if is_root type path
      then parsed (go_on (record s { offset = s.offset + tar_block }))
      else add_entry reader s header type path

-- The loop over the blocks behind the two zero blocks.
unfoldable pub read_padding : RandomAccessReader → Reading → Parsed Step
unfolding is_zero_block read_exact
read_padding reader s =
    if ltb s.offset reader.size
    then (do
      block ← read_exact reader s.offset (min (reader.size - s.offset) (64 * tar_block))
      throw_if (not (is_zero_block block)) invalid
      parsed (go_on (record s { offset = s.offset + length block })))
    else parsed (finished s)

unfoldable pub read_block : RandomAccessReader → Reading → Parsed Step
unfolding read_exact is_zero_block read_header
read_block reader s = do
  throw_if (ltb reader.size (s.offset + tar_block)) truncated
  header ← read_exact reader s.offset tar_block
  if is_zero_block header
      then (do
        throw_if (ltb reader.size (s.offset + tar_block * 2)) truncated
        parsed (go_on (record s { offset = s.offset + tar_block; padding = true })))
      else read_header reader s header

-- One round of a loop.
unfoldable pub read_step : RandomAccessReader → Reading → Parsed Step
unfolding read_padding read_block
read_step reader s = if s.padding then read_padding reader s else read_block reader s

-- What a round leads to, with the run of the rounds that follow.
unfoldable pub after : (Reading → Option (Parsed Reading)) → Parsed Step → Option (Parsed Reading)
after next (parsed (go_on s)) = next s
after next (parsed (finished s)) = some (parsed s)
after next (format_error code) = some (format_error code)
after next range_error = some range_error

unfoldable pub run : ℕ → RandomAccessReader → Reading → Option (Parsed Reading)
unfolding read_step after
run zero reader s = none
run (suc fuel) reader s = after (run fuel reader) (read_step reader s)

-- `parts.join("/")`
unfoldable pub join_parts : List (List ℕ) → List ℕ
join_parts [] = []
join_parts (part ∷ []) = part
join_parts (part ∷ next ∷ parts) = part ++ (47 ∷ join_parts (next ∷ parts))

unfoldable pub is_file : EntryType → Bool
is_file file = true
is_file dir = false

-- `new Map(entries.map((entry) => [entry.path, entry.type])).get(path) === "file"`: the last entry of
-- a path is the one that the map holds.
unfoldable pub is_file_from : Bool → List SaveArchiveEntry → List ℕ → Bool
unfolding same_text is_file
is_file_from held [] path = held
is_file_from held (e ∷ es) path =
    is_file_from (if same_text e.path path then is_file e.type else held) es path

unfoldable pub any_file_above : List SaveArchiveEntry → List (List ℕ) → ℕ → ℕ → Bool
unfolding is_file_from join_parts
any_file_above entries parts i zero = false
any_file_above entries parts i (suc n) =
    is_file_from false entries (join_parts (take i parts)) || any_file_above entries parts (suc i) n

-- An entry below a path that is a file.
unfoldable pub is_inside_file : List SaveArchiveEntry → SaveArchiveEntry → Bool
unfolding any_file_above components
is_inside_file entries e =
    any_file_above entries (components e.path) 1 (length (components e.path) - 1)

abbrev pub start : Reading
start = record {
  offset = 0;
  padding = false;
  entries = [];
  seen = [];
  file_count = 0;
  data_size = 0;
}

unfoldable pub listing_of : Reading → Parsed SaveArchiveListing
unfolding is_inside_file
listing_of s = do
  throw_if (any (is_inside_file s.entries) s.entries) invalid
  parsed (record { entries = s.entries; file_count = s.file_count; data_size = s.data_size })

unfoldable pub listed : Option (Parsed Reading) → Option (Parsed SaveArchiveListing)
unfolding listing_of
listed none = none
listed (some m) = some (m >>= listing_of)

unfoldable pub read_save_archive : RandomAccessReader → Option (Parsed SaveArchiveListing)
unfolding run listed
read_save_archive reader =
    if not (reader.size % tar_block == 0)
    then some (format_error invalid)
    else listed (run (suc reader.size) reader start)
