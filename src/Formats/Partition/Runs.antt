-- ===== src/Formats/Partition/Runs.antt =====
-- A PFS0 of two files, and the theorems of packages/formats/src/partition.ts at it.
use nslibrary.Common.{ℕ, ◌≡◌, refl, List, [], ◌∷◌, ◌++◌, arith, length, take, All}
use nslibrary.Common.Text.{codes, same_text, to_lower, ends_with}
use nslibrary.Shared.Frame.Bytes.{le, of_le}
use nslibrary.Formats.Binary.{
  parsed, format_error, truncated, align_up, read_uint, read_u64, read_magic,
}
use nslibrary.Formats.Reader.{buffer_reader, read_exact}
use nslibrary.Formats.Partition.{
  nca, tik, classify_entry, parse_pfs0, read_partition_header, read_tables, read_entries,
  read_entry, entry_name, until_nul, entry_bounds,
}
use nslibrary.Formats.Partition.Build.{
  Pfs0HeaderEntry, build_pfs0_header, names_size, string_table_size_of,
}
use nslibrary.Formats.Partition.Layout.{IsBuildable, header_bytes}
use nslibrary.Formats.Partition.Read.{HasNoNul, placed}
use nslibrary.Formats.Partition.RoundTrip.{parse_pfs0-build_pfs0_header}

abbrev two_files : List Pfs0HeaderEntry
two_files =
    record { name = codes "a.NCA"; size = 3 } ∷ record { name = codes "b.tik"; size = 2 } ∷ []

abbrev contents : List ℕ
contents = 1 ∷ 2 ∷ 3 ∷ 4 ∷ 5 ∷ []

abbrev image : List ℕ
unfolding string_table_size_of names_size align_up le
image = header_bytes two_files 32 ++ contents

listed :
    parse_pfs0 (buffer_reader image) 0 101
    ≡ parsed (record {
      offset = 0;
      header_size = 96;
      entries =
          record { name = codes "a.NCA"; offset = 96; size = 3; kind = nca }
          ∷ record { name = codes "b.tik"; offset = 99; size = 2; kind = tik }
          ∷ [];
    })
unfolding parse_pfs0 read_partition_header read_tables read_entries read_entry read_exact read_uint
    read_u64 read_magic entry_name until_nul entry_bounds classify_entry to_lower ends_with
    same_text of_le le buffer_reader image names_size string_table_size_of align_up
listed = refl

-- The last byte is missing.
cut_short : parse_pfs0 (buffer_reader (take 100 image)) 0 100 ≡ format_error truncated
unfolding parse_pfs0 read_partition_header read_tables read_entries read_entry read_exact read_uint
    read_u64 read_magic entry_name until_nul entry_bounds classify_entry to_lower ends_with
    same_text of_le le buffer_reader image names_size string_table_size_of align_up
cut_short = refl

is_buildable : IsBuildable two_files 32
unfolding string_table_size_of names_size align_up
is_buildable = record { few = omega arith; short_names = omega arith; small = omega arith }

clean : All HasNoNul two_files
clean = omega arith

parse_pfs0-build_pfs0_header_example :
    (header : List ℕ) × (build_pfs0_header two_files 32 ≡ parsed header)
    × (parse_pfs0 (buffer_reader (header ++ contents)) 0 (length (header ++ contents))
        ≡ parsed (record {
          offset = 0;
          header_size = length header;
          entries = placed (length header) two_files;
        }))
parse_pfs0-build_pfs0_header_example =
    parse_pfs0-build_pfs0_header two_files 32 contents is_buildable clean refl
