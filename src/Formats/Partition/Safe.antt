-- ===== src/Formats/Partition/Safe.antt =====
-- The accesses of packages/formats/src/partition.ts to its buffers lie within them.
use nslibrary.Common.{ℕ, zero, suc, ◌+◌, ◌*◌, ◌≤◌, ◌≡◌, ◌≢◌, List, arith, length, ltb, leb, not}
use nslibrary.Common.Text.{codes, same_text}
use nslibrary.Formats.Binary.{
  Parsed, range_error, read_uint, read_u64, read_magic, invalid, truncated, bad_magic,
}
use nslibrary.Formats.Binary.Laws.{
  >>=-eq-range_error, guarded-eq-range_error, parsed-ne-range_error,
}
use nslibrary.Formats.Reader.{RandomAccessReader, read_exact}
use nslibrary.Formats.Partition.{
  RawPartition, pfs0_entry_size, hfs0_entry_size, max_entries, max_string_table_size, entry_name,
  entry_bounds, read_entry, hfs0_entry, read_entries, read_tables, read_partition_header,
  parse_pfs0, parse_hfs0,
}
use nslibrary.Formats.Partition.Bounds.{read_partition_header-IsRead}
use nslibrary.Formats.Reader.Access.{
  read_uint-ne-range_error, read_u64-ne-range_error, length-read_exact, read_exact-ne-range_error,
}

entry_name-ne-range_error : (raw : RawPartition) (n : ℕ) → entry_name raw n ≢ range_error
unfolding entry_name
entry_name-ne-range_error raw n e =
    let (_, e1) =
      guarded-eq-range_error (leb raw.header_size (raw.string_table_offset + n)) invalid _ e in
    parsed-ne-range_error e1

read_entry-ne-range_error :
    (raw : RawPartition) (data_start end o : ℕ)
    → o + 0x18 ≤ length raw.header
    → read_entry raw data_start end o ≢ range_error
unfolding read_entry entry_bounds
read_entry-ne-range_error raw data_start end o h e =
    let (n, _, e1) =
      >>=-eq-range_error (read_uint 4 (o + 0x10) raw.header) _ e
        (read_uint-ne-range_error 4 (o + 0x10) raw.header (omega arith)) in
    let (_, _, e2) = >>=-eq-range_error (entry_name raw n) _ e1 (entry_name-ne-range_error raw n) in
    let (start, _, e3) =
      >>=-eq-range_error (read_u64 raw.header o) _ e2
        (read_u64-ne-range_error o raw.header (omega arith)) in
    let (size, _, e4) =
      >>=-eq-range_error (read_u64 raw.header (o + 8)) _ e3
        (read_u64-ne-range_error (o + 8) raw.header (omega arith)) in
    let (_, e5) = guarded-eq-range_error (ltb end (data_start + start + size)) truncated _ e4 in
    parsed-ne-range_error e5

hfs0_entry-ne-range_error :
    (raw : RawPartition) (data_start end o : ℕ)
    → o + 0x40 ≤ length raw.header
    → hfs0_entry raw data_start end o ≢ range_error
unfolding hfs0_entry
hfs0_entry-ne-range_error raw data_start end o h e =
    let (_, _, e1) =
      >>=-eq-range_error (read_entry raw data_start end o) _ e
        (read_entry-ne-range_error raw data_start end o (omega arith)) in
    let (_, _, e2) =
      >>=-eq-range_error (read_uint 4 (o + 0x14) raw.header) _ e1
        (read_uint-ne-range_error 4 (o + 0x14) raw.header (omega arith)) in
    parsed-ne-range_error e2

-- The loop stays below `limit` where its table does.
read_entries-ne-range_error :
    {E : Type 0} (one : ℕ → Parsed E) (entry_size limit n o : ℕ)
    → ((o : ℕ) → o + entry_size ≤ limit → one o ≢ range_error)
    → o + n * entry_size ≤ limit
    → read_entries one entry_size n o ≢ range_error
unfolding read_entries
read_entries-ne-range_error one entry_size limit zero o each h e = parsed-ne-range_error e
read_entries-ne-range_error one entry_size limit (suc n) o each h e =
    let split : suc n * entry_size ≡ entry_size + n * entry_size = grind arith in
    let (_, _, e1) = >>=-eq-range_error (one o) _ e (each o (omega (arith, split))) in
    let (_, _, e2) = >>=-eq-range_error (read_entries one entry_size n (o + entry_size)) _ e1 (
      read_entries-ne-range_error one entry_size limit n (o + entry_size) each
        (omega (arith, split))) in
    parsed-ne-range_error e2

module _ (reader : RandomAccessReader) (steady : (o l : ℕ) → reader.read o l ≢ range_error) where
  read_partition_header-ne-range_error :
      (base end entry_size : ℕ) (magic : List ℕ)
      → read_partition_header reader base end magic entry_size ≢ range_error
  unfolding read_partition_header read_tables
  read_partition_header-ne-range_error base end entry_size magic e =
      let (_, e1) = guarded-eq-range_error (ltb end (base + 0x10)) truncated _ e in
      let (fixed, read, e2) =
        >>=-eq-range_error (read_exact reader base 0x10) _ e1
          (read_exact-ne-range_error reader base 0x10 steady) in
      let len = length-read_exact reader base 0x10 read in
      let (_, e3) =
        guarded-eq-range_error (not (same_text (read_magic fixed 0 4) magic)) bad_magic _ e2 in
      let (count, _, e4) =
        >>=-eq-range_error (read_uint 4 4 fixed) _ e3
          (read_uint-ne-range_error 4 4 fixed (omega (arith, len))) in
      let (size, _, e5) =
        >>=-eq-range_error (read_uint 4 8 fixed) _ e4
          (read_uint-ne-range_error 4 8 fixed (omega (arith, len))) in
      let (_, e6) = guarded-eq-range_error (ltb max_entries count) invalid _ e5 in
      let (_, e7) = guarded-eq-range_error (ltb max_string_table_size size) invalid _ e6 in
      let header_size : ℕ = 0x10 + count * entry_size + size in
      let (_, e8) = guarded-eq-range_error (ltb end (base + header_size)) truncated _ e7 in
      let (_, _, e9) =
        >>=-eq-range_error (read_exact reader base header_size) _ e8
          (read_exact-ne-range_error reader base header_size steady) in
      parsed-ne-range_error e9

  -- Of a reader whose `read` throws no RangeError, no bytes make `parsePfs0` access a buffer out of
  -- its bounds: it gives a partition or a FormatError.
  pub parse_pfs0-ne-range_error : (base end : ℕ) → parse_pfs0 reader base end ≢ range_error
  unfolding parse_pfs0
  parse_pfs0-ne-range_error base end e =
      let (raw, read, e1) =
        >>=-eq-range_error (read_partition_header reader base end (codes "PFS0") pfs0_entry_size) _
          e (read_partition_header-ne-range_error base end pfs0_entry_size (codes "PFS0")) in
      let ok = read_partition_header-IsRead reader base end pfs0_entry_size (codes "PFS0") read in
      let (_, _, e2) =
        >>=-eq-range_error
          (read_entries (read_entry raw (base + raw.header_size) end) pfs0_entry_size raw.count
            0x10)
          _ e1
          (read_entries-ne-range_error (read_entry raw (base + raw.header_size) end) pfs0_entry_size
            (length raw.header) raw.count 0x10
            (λ o. read_entry-ne-range_error raw (base + raw.header_size) end o)
            (omega (arith, ok.whole, ok.tables, ok.longer))) in
      parsed-ne-range_error e2

  -- The same of `parseHfs0`.
  pub parse_hfs0-ne-range_error : (base end : ℕ) → parse_hfs0 reader base end ≢ range_error
  unfolding parse_hfs0
  parse_hfs0-ne-range_error base end e =
      let (raw, read, e1) =
        >>=-eq-range_error (read_partition_header reader base end (codes "HFS0") hfs0_entry_size) _
          e (read_partition_header-ne-range_error base end hfs0_entry_size (codes "HFS0")) in
      let ok = read_partition_header-IsRead reader base end hfs0_entry_size (codes "HFS0") read in
      let (_, _, e2) =
        >>=-eq-range_error
          (read_entries (hfs0_entry raw (base + raw.header_size) end) hfs0_entry_size raw.count
            0x10)
          _ e1
          (read_entries-ne-range_error (hfs0_entry raw (base + raw.header_size) end) hfs0_entry_size
            (length raw.header) raw.count 0x10
            (λ o. hfs0_entry-ne-range_error raw (base + raw.header_size) end o)
            (omega (arith, ok.whole, ok.tables, ok.longer))) in
      parsed-ne-range_error e2
