-- ===== src/Formats/Partition/RoundTrip.antt =====
-- What `parsePfs0` of packages/formats/src/partition.ts reads of the header that `buildPfs0Header`
-- wrote.
use nslibrary.Common.{
  ℕ, ◌+◌, ◌-◌, ◌≡◌, refl, sym, ap, ◌∙◌, List, [], ◌∷◌, ◌++◌, arith, length, replicate,
  length-append, length-replicate, take-append_self, All, le→leb,
}
use nslibrary.Common.Text.{codes, same_text}
use nslibrary.Shared.Frame.Bytes.{le, of_le, of_le-le}
use nslibrary.Formats.Binary.{parsed, ◌>>=◌, read_uint, read_magic}
use nslibrary.Formats.Reader.{buffer_reader, read_exact}
use nslibrary.Formats.Reader.Refine.{buffer_reader-Serves, read_exact_refines}
use nslibrary.Formats.Partition.{
  RawPartition, read_entry, read_entries, read_tables, read_partition_header, parse_pfs0,
}
use nslibrary.Formats.Partition.Build.{
  Pfs0HeaderEntry, name_bytes, names_size, fixed_size_of, string_table_size_of, build_pfs0_header,
}
use nslibrary.Formats.Partition.Layout.{
  table, names, sizes, fixed_bytes, header_bytes, IsBuildable, build_pfs0_header_lem, names_size-le,
}
use nslibrary.Formats.Partition.Read.{HasNoNul, placed, read_entries_lem, length-table}

length-header_bytes :
    (entries : List Pfs0HeaderEntry) (align : ℕ)
    → length (header_bytes entries align)
      ≡ fixed_size_of entries + string_table_size_of entries align
unfolding names_size le
length-header_bytes entries align =
    let size = string_table_size_of entries align in
    omega (
      arith,
      length-append (table entries 0 0) (names entries ++ replicate (size - names_size entries) 0),
      length-append (names entries) (replicate (size - names_size entries) 0),
      length-table entries 0 0,
      length-names entries,
      length-replicate {A = ℕ} (size - names_size entries) 0,
      names_size-le entries align,
    )
  where
    length-names : (es : List Pfs0HeaderEntry) → length (names es) ≡ names_size es
    length-names [] = refl
    length-names (e ∷ es) = omega (arith, length-append (name_bytes e) (names es), length-names es)

-- The header that was read back.
abbrev written : List Pfs0HeaderEntry → ℕ → RawPartition
written entries align = record {
  header = header_bytes entries align;
  count = length entries;
  header_size = fixed_size_of entries + string_table_size_of entries align;
  string_table_offset = fixed_size_of entries;
}

read_partition_header_lem :
    (entries : List Pfs0HeaderEntry) (align : ℕ) (files : List ℕ)
    → IsBuildable entries align
    → length files ≡ sizes entries
    → let image = header_bytes entries align ++ files in
      read_partition_header (buffer_reader image) 0 (length image) (codes "PFS0") 24
      ≡ parsed (written entries align)
unfolding read_partition_header read_tables read_magic same_text read_uint of_le le
read_partition_header_lem entries align files ok hf =
    let size = string_table_size_of entries align in
    let header = header_bytes entries align in
    let image = header ++ files in
    let len : length image ≡ fixed_size_of entries + size + sizes entries =
      omega (arith, length-append header files, length-header_bytes entries align, hf) in
    let exact = λ (l : ℕ).
      read_exact_refines (buffer_reader image) image 0 l (buffer_reader-Serves image)
        (omega (arith, len, ok.small)) in
    let fixed : read_exact (buffer_reader image) 0 16 ≡ parsed (fixed_bytes (length entries) size) =
      exact 16 ∙ rw (le→leb (0 + 16) (length image) (omega (arith, len))) refl in
    let whole : read_exact (buffer_reader image) 0 (fixed_size_of entries + size) ≡ parsed header =
      exact (fixed_size_of entries + size)
      ∙ rw (le→leb (0 + (fixed_size_of entries + size)) (length image) (omega (arith, len))) (
          ap parsed (
            take-append_self (fixed_size_of entries + size) header files
              (sym (length-header_bytes entries align)))) in
    let count : of_le (le 4 (length entries)) ≡ length entries =
      of_le-le 4 (length entries) (omega (arith, ok.few)) in
    let table_size : of_le (le 4 size) ≡ size = of_le-le 4 size (omega (arith, ok.short_names)) in
    rw (fixed, count, table_size, whole) (ground (arith, len, ok.few, ok.short_names))

length-fixed_bytes : (count size : ℕ) → length (fixed_bytes count size) ≡ 16
unfolding le
length-fixed_bytes count size = refl

read_written :
    (entries : List Pfs0HeaderEntry) (align : ℕ) (files : List ℕ)
    → IsBuildable entries align
    → All HasNoNul entries
    → length files ≡ sizes entries
    → read_entries
        (read_entry
          (written entries align)
          (0 + (written entries align).header_size)
          (length (header_bytes entries align ++ files)))
        24
        (length entries)
        16
      ≡ parsed (placed (0 + (written entries align).header_size + 0) entries)
read_written entries align files ok clean hf =
    let header = header_bytes entries align in
    let size = string_table_size_of entries align in
    let len = length-header_bytes entries align in
    let pad : List ℕ = replicate (size - names_size entries) 0 in
    read_entries_lem entries (written entries align) (0 + (written entries align).header_size)
      (length (header ++ files)) 16 0 0 (fixed_bytes (length entries) size) [] pad refl (sym len)
      (sym (length-fixed_bytes (length entries) size))
      (omega (arith, length-fixed_bytes (length entries) size)) clean (omega (arith, ok.small))
      (omega (arith, ok.short_names, names_size-le entries align))
      (omega (arith, len, length-append header files, hf))

-- For at most 0x4000 entries with no 0 in a name, a string table of at most 0x100000 bytes and a
-- file that ends below 2^53, the header can be built, and an image of that header with the files
-- behind it parses to the same names and sizes, in the same order, the files back to back behind
-- the header.
pub parse_pfs0-build_pfs0_header :
    (entries : List Pfs0HeaderEntry) (align : ℕ) (files : List ℕ)
    → IsBuildable entries align
    → All HasNoNul entries
    → length files ≡ sizes entries
    → (header : List ℕ) × (build_pfs0_header entries align ≡ parsed header)
      × (parse_pfs0 (buffer_reader (header ++ files)) 0 (length (header ++ files))
          ≡ parsed (record {
            offset = 0;
            header_size = length header;
            entries = placed (length header) entries;
          }))
unfolding parse_pfs0
parse_pfs0-build_pfs0_header entries align files ok clean hf =
    let header = header_bytes entries align in
    let raw = written entries align in
    let len = length-header_bytes entries align in
    let data_start = 0 + raw.header_size in
    let end = length (header ++ files) in
    let start : data_start + 0 ≡ length header = omega (arith, len) in
    (
      header,
      build_pfs0_header_lem entries align ok,
      ap
            (λ r. r >>= λ raw.
              read_entries (read_entry raw (0 + raw.header_size) end) 24 raw.count 16 >>= λ entries.
              parsed (record { offset = 0; header_size = raw.header_size; entries = entries }))
            (read_partition_header_lem entries align files ok hf)
          ∙ ap
              (λ r. r >>= λ entries.
                parsed (record { offset = 0; header_size = raw.header_size; entries = entries }))
              (read_written entries align files ok clean hf)
          ∙ rw (start, len) refl,
    )
