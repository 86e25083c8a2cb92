-- ===== src/Formats/Container/Runs.antt =====
-- An NSP of one file, and the theorems of packages/formats/src/container.ts at it.
use nslibrary.Common.{ℕ, ◌≡◌, ◌≢◌, refl, List, [], ◌∷◌, ◌++◌, All}
use nslibrary.Common.Text.{codes, same_text, to_lower, ends_with}
use nslibrary.Shared.Frame.Bytes.{le, of_le}
use nslibrary.Formats.Binary.{parsed, range_error, align_up, read_uint, read_u64, read_magic}
use nslibrary.Formats.Binary.Laws.{parsed-ne-range_error}
use nslibrary.Formats.Reader.{RandomAccessReader, buffer_reader, read_exact}
use nslibrary.Formats.Partition.{
  PartitionEntry, cnmt, classify_entry, parse_pfs0, read_partition_header, read_tables,
  read_entries, read_entry, entry_name, until_nul, entry_bounds,
}
use nslibrary.Formats.Partition.Build.{names_size, string_table_size_of}
use nslibrary.Formats.Partition.Layout.{header_bytes}
use nslibrary.Formats.Container.{nsp, list_container_entries}
use nslibrary.Formats.Container.Entries.{
  LiesIn, list_container_entries-LiesIn, list_container_entries-ne-range_error,
}

abbrev image : List ℕ
unfolding string_table_size_of names_size align_up le
image = header_bytes (record { name = codes "m.cnmt.nca"; size = 2 } ∷ []) 16 ++ (7 ∷ 8 ∷ [])

abbrev reader : RandomAccessReader
unfolding buffer_reader image names_size string_table_size_of align_up le
reader = buffer_reader image

abbrev one_entry : List PartitionEntry
one_entry = record { name = codes "m.cnmt.nca"; offset = 64; size = 2; kind = cnmt } ∷ []

listed : list_container_entries reader nsp ≡ parsed one_entry
unfolding list_container_entries parse_pfs0 read_partition_header read_tables read_entries
    read_entry read_exact read_uint read_u64 read_magic entry_name until_nul entry_bounds
    classify_entry to_lower ends_with same_text of_le le buffer_reader image names_size
    string_table_size_of align_up reader
listed = refl

list_container_entries-LiesIn_example : All (LiesIn 66) one_entry
unfolding reader buffer_reader image names_size string_table_size_of align_up le
list_container_entries-LiesIn_example = list_container_entries-LiesIn reader nsp listed

list_container_entries-ne-range_error_example : list_container_entries reader nsp ≢ range_error
unfolding reader buffer_reader
list_container_entries-ne-range_error_example =
    list_container_entries-ne-range_error reader nsp λ o l. parsed-ne-range_error
