-- ===== src/Formats/Partition/Build.antt =====
-- `buildPfs0Header` of packages/formats/src/partition.ts.
use nslibrary.Common.{ℕ, ◌+◌, ◌-◌, ◌*◌, List, [], ◌∷◌, ◌++◌, length, replicate}
use nslibrary.Common.Text.{codes}
use nslibrary.Shared.Frame.Bytes.{write}
use nslibrary.Formats.Binary.{Parsed, parsed, ◌>>=◌, write_uint, align_up}
use nslibrary.Formats.Partition.{pfs0_entry_size}

pub record Pfs0HeaderEntry : Type 0 where
  pub name : List ℕ
  pub size : ℕ

abbrev pub name_bytes : Pfs0HeaderEntry → List ℕ
name_bytes entry = entry.name ++ (0 ∷ [])

unfoldable pub names_size : List Pfs0HeaderEntry → ℕ
names_size [] = 0
names_size (entry ∷ entries) = length (name_bytes entry) + names_size entries

-- The numbers of an entry, written at `o`.
unfoldable pub write_fields : ℕ → ℕ → ℕ → ℕ → List ℕ → Parsed (List ℕ)
unfolding write_uint
write_fields o data_offset size name_offset header = do
  header ← write_uint 8 o data_offset header
  header ← write_uint 8 (o + 0x08) size header
  write_uint 4 (o + 0x10) name_offset header

-- The loop over the entries, the first of which is written at `o`.
unfoldable pub write_entries : List Pfs0HeaderEntry → ℕ → ℕ → ℕ → ℕ → List ℕ → Parsed (List ℕ)
unfolding write_fields write
write_entries [] fixed_size o data_offset name_offset header = parsed header
write_entries (entry ∷ entries) fixed_size o data_offset name_offset header = do
  header ← write_fields o data_offset entry.size name_offset header
  let header = write (fixed_size + name_offset) (name_bytes entry) header
  write_entries entries fixed_size (o + pfs0_entry_size) (data_offset + entry.size)
      (name_offset + length (name_bytes entry)) header

abbrev pub fixed_size_of : List Pfs0HeaderEntry → ℕ
fixed_size_of entries = 0x10 + length entries * pfs0_entry_size

unfoldable pub string_table_size_of : List Pfs0HeaderEntry → ℕ → ℕ
unfolding names_size align_up
string_table_size_of entries align =
    align_up (fixed_size_of entries + names_size entries) align - fixed_size_of entries

unfoldable pub build_pfs0_header : List Pfs0HeaderEntry → ℕ → Parsed (List ℕ)
unfolding string_table_size_of write_uint write_entries
build_pfs0_header entries align = do
  let fixed_size = fixed_size_of entries
  let string_table_size = string_table_size_of entries align
  let header = write 0 (codes "PFS0") (replicate (fixed_size + string_table_size) 0)
  header ← write_uint 4 4 (length entries) header
  header ← write_uint 4 8 string_table_size header
  write_entries entries fixed_size 0x10 0 0 header
