-- ===== src/Formats/Xci.antt =====
-- packages/formats/src/xci.ts: the cartridge image, whose `secure` partition holds the content.
pub mod Bounds
use nslibrary.Common.{
  ℕ, ◌+◌, ◌||◌, Bool, not, Option, none, some, List, [], ◌∷◌, ltb, ◌==◌, if◌then◌else◌,
}
use nslibrary.Common.Text.{codes, same_text}
use nslibrary.Formats.Binary.{
  Parsed, parsed, format_error, bad_magic, invalid, ◌>>=◌, read_u64, read_magic,
}
use nslibrary.Formats.Reader.{RandomAccessReader, read_exact}
use nslibrary.Formats.Partition.{PartitionEntry, Hfs0Entry, Partition, parse_hfs0}

abbrev pub card_header_magic_offset : ℕ
card_header_magic_offset = 0x100

abbrev pub root_partition_offset_field : ℕ
root_partition_offset_field = 0x130

abbrev pub card_header_size : ℕ
card_header_size = 0x140

abbrev pub key_area_size : ℕ
key_area_size = 0x1000

-- `KNOWN_PARTITIONS.has(name)`
unfoldable pub is_known_partition : List ℕ → Bool
unfolding same_text
is_known_partition name =
    same_text name (codes "update")
    || same_text name (codes "normal")
    || same_text name (codes "secure")
    || same_text name (codes "logo")

-- A Map with text keys, in the order in which the keys were first set.
abbrev pub Partitions : Type 0
Partitions = List (List ℕ × Partition Hfs0Entry)

unfoldable pub set_partition : List ℕ → Partition Hfs0Entry → Partitions → Partitions
unfolding same_text
set_partition name p [] = (name, p) ∷ []
set_partition name p ((n, q) ∷ rest) =
    if same_text n name then (n, p) ∷ rest else (n, q) ∷ set_partition name p rest

unfoldable pub get_partition : List ℕ → Partitions → Option (Partition Hfs0Entry)
unfolding same_text
get_partition name [] = none
get_partition name ((n, q) ∷ rest) = if same_text n name then some q else get_partition name rest

pub record XciInfo : Type 0 where
  pub card_offset : ℕ
  pub root : Partition Hfs0Entry
  pub partitions : Partitions
  pub secure : Partition Hfs0Entry

-- The loop over the candidates.
unfoldable pub find_card_header : RandomAccessReader → List ℕ → Parsed ℕ
unfolding read_exact read_magic same_text
find_card_header reader [] = format_error bad_magic
find_card_header reader (candidate ∷ candidates) =
    let next = find_card_header reader candidates in
    if ltb reader.size (candidate + card_header_size)
    then next
    else read_exact reader (candidate + card_header_magic_offset) 4 >>= λ magic.
        if same_text (read_magic magic 0 4) (codes "HEAD") then parsed candidate else next

-- The loop over the entries of the root partition.
unfoldable pub read_partitions :
    RandomAccessReader → List Hfs0Entry → Partitions → Parsed Partitions
unfolding is_known_partition parse_hfs0 set_partition
read_partitions reader [] partitions = parsed partitions
read_partitions reader (e ∷ entries) partitions =
    let skip = read_partitions reader entries partitions in
    if not (is_known_partition e.entry.name)
    then skip
    else if e.entry.size == 0
    then skip
    else parse_hfs0 reader e.entry.offset (e.entry.offset + e.entry.size) >>= λ p.
        read_partitions reader entries (set_partition e.entry.name p partitions)

-- `if (!secure) throw …`
unfoldable pub require_secure : Option (Partition Hfs0Entry) → Parsed (Partition Hfs0Entry)
require_secure none = format_error invalid
require_secure (some p) = parsed p

unfoldable pub parse_xci : RandomAccessReader → Parsed XciInfo
unfolding find_card_header read_exact read_u64 parse_hfs0 read_partitions get_partition
    require_secure
parse_xci reader = do
  card_offset ← find_card_header reader (0 ∷ key_area_size ∷ [])
  header ← read_exact reader card_offset card_header_size
  root_offset ← read_u64 header root_partition_offset_field
  root ← parse_hfs0 reader (card_offset + root_offset) reader.size
  partitions ← read_partitions reader root.entries []
  secure ← require_secure (get_partition (codes "secure") partitions)
  parsed
      (record { card_offset = card_offset; root = root; partitions = partitions; secure = secure })
