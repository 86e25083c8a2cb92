-- ===== src/Formats/Partition.antt =====
-- packages/formats/src/partition.ts: the PFS0 of an NSP or NSZ and the HFS0 of an XCI. The name of an
-- entry is kept as the bytes of its UTF-8 text; bytes that are no UTF-8 are not replaced.
pub mod Build
pub mod Bounds
pub mod Layout
pub mod Read
pub mod RoundTrip
pub mod Safe
mod Runs
use nslibrary.Common.{
  ℕ, zero, suc, ◌+◌, ◌*◌, Bool, ◌||◌, not, List, [], ◌∷◌, ltb, leb, ◌==◌, if◌then◌else◌, length,
  take, drop,
}
use nslibrary.Common.Text.{codes, same_text, to_lower, ends_with}
use nslibrary.Formats.Binary.{
  Parsed, parsed, format_error, bad_magic, truncated, invalid, throw_if, ◌>>=◌, ◌>>◌, read_uint,
  read_u64, read_magic,
}
use nslibrary.Formats.Reader.{RandomAccessReader, read_exact}

pub data EntryKind : Type 0 where
  cnmt nca ncz tik cert other : EntryKind

pub record PartitionEntry : Type 0 where
  pub name : List ℕ
  pub offset : ℕ
  pub size : ℕ
  pub kind : EntryKind

pub record Hfs0Entry : Type 0 where
  pub entry : PartitionEntry
  pub hashed_size : ℕ
  pub sha256 : List ℕ

pub record Partition (E : Type 0) : Type 0 where
  pub offset : ℕ
  pub header_size : ℕ
  pub entries : List E

abbrev pub pfs0_entry_size : ℕ
pfs0_entry_size = 0x18

abbrev pub hfs0_entry_size : ℕ
hfs0_entry_size = 0x40

abbrev pub max_entries : ℕ
max_entries = 0x4000

abbrev pub max_string_table_size : ℕ
max_string_table_size = 0x100000

unfoldable pub classify_entry : List ℕ → EntryKind
unfolding to_lower ends_with
classify_entry name =
    let lower = to_lower name in
    if ends_with (codes ".cnmt.nca") lower || ends_with (codes ".cnmt.ncz") lower
    then cnmt
    else if ends_with (codes ".nca") lower
    then nca
    else if ends_with (codes ".ncz") lower
    then ncz
    else if ends_with (codes ".tik") lower
    then tik
    else if ends_with (codes ".cert") lower
    then cert
    else other

pub record RawPartition : Type 0 where
  pub header : List ℕ
  pub count : ℕ
  pub header_size : ℕ
  pub string_table_offset : ℕ

-- What follows the two numbers of the fixed header.
unfoldable pub read_tables : RandomAccessReader → ℕ → ℕ → ℕ → ℕ → ℕ → Parsed RawPartition
unfolding read_exact
read_tables reader base end entry_size count string_table_size = do
  throw_if (ltb max_entries count) invalid
  throw_if (ltb max_string_table_size string_table_size) invalid
  let string_table_offset = 0x10 + count * entry_size
  let header_size = string_table_offset + string_table_size
  throw_if (ltb end (base + header_size)) truncated
  header ← read_exact reader base header_size
  parsed (record {
    header = header;
    count = count;
    header_size = header_size;
    string_table_offset = string_table_offset;
  })

unfoldable pub read_partition_header : RandomAccessReader → ℕ → ℕ → List ℕ → ℕ → Parsed RawPartition
unfolding read_tables read_exact read_magic same_text read_uint
read_partition_header reader base end magic entry_size = do
  throw_if (ltb end (base + 0x10)) truncated
  fixed ← read_exact reader base 0x10
  throw_if (not (same_text (read_magic fixed 0 4) magic)) bad_magic
  count ← read_uint 4 4 fixed
  string_table_size ← read_uint 4 8 fixed
  read_tables reader base end entry_size count string_table_size

-- The bytes before the first 0, or all.
unfoldable pub until_nul : List ℕ → List ℕ
until_nul [] = []
until_nul (b ∷ bytes) = let rest = until_nul bytes in if b == 0 then [] else b ∷ rest

unfoldable pub entry_name : RawPartition → ℕ → Parsed (List ℕ)
unfolding until_nul
entry_name raw name_offset = do
  let start = raw.string_table_offset + name_offset
  throw_if (leb raw.header_size start) invalid
  parsed (until_nul (drop start raw.header))

unfoldable pub entry_bounds : ℕ → ℕ → ℕ → Parsed (Unit {0})
entry_bounds offset size end = throw_if (ltb end (offset + size)) truncated

-- What both loops read of the entry that starts at `o` of the header.
unfoldable pub read_entry : RawPartition → ℕ → ℕ → ℕ → Parsed PartitionEntry
unfolding entry_name read_u64 read_uint entry_bounds classify_entry
read_entry raw data_start end o = do
  name_offset ← read_uint 4 (o + 0x10) raw.header
  name ← entry_name raw name_offset
  start ← read_u64 raw.header o
  let offset = data_start + start
  size ← read_u64 raw.header (o + 0x08)
  entry_bounds offset size end
  parsed (record { name = name; offset = offset; size = size; kind = classify_entry name })

unfoldable pub hfs0_entry : RawPartition → ℕ → ℕ → ℕ → Parsed Hfs0Entry
unfolding read_entry read_uint
hfs0_entry raw data_start end o = do
  entry ← read_entry raw data_start end o
  hashed_size ← read_uint 4 (o + 0x14) raw.header
  parsed (record {
    entry = entry;
    hashed_size = hashed_size;
    sha256 = take 0x20 (drop (o + 0x20) raw.header);
  })

-- The loop over the entries: `n` of them, the first at `o`.
unfoldable pub read_entries : {E : Type 0} → (ℕ → Parsed E) → ℕ → ℕ → ℕ → Parsed (List E)
read_entries read_one entry_size zero o = parsed []
read_entries read_one entry_size (suc n) o =
    let rest = read_entries read_one entry_size n (o + entry_size) in
    read_one o >>= λ entry. (rest >>= λ entries. parsed (entry ∷ entries))

unfoldable pub parse_pfs0 : RandomAccessReader → ℕ → ℕ → Parsed (Partition PartitionEntry)
unfolding read_partition_header read_entries read_entry
parse_pfs0 reader base end = do
  raw ← read_partition_header reader base end (codes "PFS0") pfs0_entry_size
  let data_start = base + raw.header_size
  entries ← read_entries (read_entry raw data_start end) pfs0_entry_size raw.count 0x10
  parsed (record { offset = base; header_size = raw.header_size; entries = entries })

unfoldable pub parse_hfs0 : RandomAccessReader → ℕ → ℕ → Parsed (Partition Hfs0Entry)
unfolding read_partition_header read_entries hfs0_entry
parse_hfs0 reader base end = do
  raw ← read_partition_header reader base end (codes "HFS0") hfs0_entry_size
  let data_start = base + raw.header_size
  entries ← read_entries (hfs0_entry raw data_start end) hfs0_entry_size raw.count 0x10
  parsed (record { offset = base; header_size = raw.header_size; entries = entries })
