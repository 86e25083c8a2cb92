-- ===== src/Formats/Partition/Bounds.antt =====
-- What packages/formats/src/partition.ts gives of a partition that it accepts, whatever the bytes.
use nslibrary.Common.{
  ℕ, zero, suc, ◌+◌, ◌*◌, ◌≤◌, ◌≡◌, refl, ap, subst, List, arith, length, All, ltb, not, not_ltb→le,
}
use nslibrary.Common.Text.{codes, same_text}
use nslibrary.Formats.Binary.{
  Parsed, parsed, read_uint, read_u64, read_magic, invalid, truncated, bad_magic,
}
use nslibrary.Formats.Binary.Laws.{>>=-eq-parsed, parsed-inj, guarded}
use nslibrary.Formats.Reader.{RandomAccessReader, read_exact}
use nslibrary.Formats.Reader.Access.{length-read_exact}
use nslibrary.Formats.Partition.{
  PartitionEntry, Hfs0Entry, Partition, RawPartition, pfs0_entry_size, hfs0_entry_size, max_entries,
  max_string_table_size, classify_entry, entry_name, entry_bounds, read_entry, hfs0_entry,
  read_entries, read_tables, read_partition_header, parse_pfs0, parse_hfs0,
}

-- The header was read whole, and lies before `end`.
pub record IsRead (base end entry_size : ℕ) (raw : RawPartition) : Type 0 where
  pub whole : length raw.header ≡ raw.header_size
  pub tables : raw.string_table_offset ≡ 0x10 + raw.count * entry_size
  pub longer : raw.string_table_offset ≤ raw.header_size
  pub within : base + raw.header_size ≤ end
  pub few : raw.count ≤ max_entries

pub read_partition_header-IsRead :
    (reader : RandomAccessReader) (base end entry_size : ℕ) (magic : List ℕ) {raw : RawPartition}
    → read_partition_header reader base end magic entry_size ≡ parsed raw
    → IsRead base end entry_size raw
unfolding read_partition_header read_tables
read_partition_header-IsRead reader base end entry_size magic h =
    let (_, h1) = guarded (ltb end (base + 0x10)) truncated _ h in
    let (fixed, _, h2) = >>=-eq-parsed (read_exact reader base 0x10) _ h1 in
    let (_, h3) = guarded (not (same_text (read_magic fixed 0 4) magic)) bad_magic _ h2 in
    let (count, _, h4) = >>=-eq-parsed (read_uint 4 4 fixed) _ h3 in
    let (size, _, h5) = >>=-eq-parsed (read_uint 4 8 fixed) _ h4 in
    let (few, h6) = guarded (ltb max_entries count) invalid _ h5 in
    let (_, h7) = guarded (ltb max_string_table_size size) invalid _ h6 in
    let header_size : ℕ = 0x10 + count * entry_size + size in
    let (within, h8) = guarded (ltb end (base + header_size)) truncated _ h7 in
    let (header, e, h9) = >>=-eq-parsed (read_exact reader base header_size) _ h8 in
    let whole = length-read_exact reader base header_size e in
    subst (IsRead base end entry_size) (parsed-inj h9) (record {
      whole = whole;
      tables = refl;
      longer = omega arith;
      within = not_ltb→le end (base + header_size) within;
      few = not_ltb→le max_entries count few;
    })

-- An entry that was read lies behind the header and ends by `end`, and has the kind of its name.
abbrev pub IsPlaced : ℕ → ℕ → PartitionEntry → Type 0
IsPlaced data_start end e =
    (data_start ≤ e.offset) × (e.offset + e.size ≤ end) × (e.kind ≡ classify_entry e.name)

read_entry-IsPlaced :
    (raw : RawPartition) (data_start end o : ℕ) {entry : PartitionEntry}
    → read_entry raw data_start end o ≡ parsed entry
    → IsPlaced data_start end entry
unfolding read_entry entry_bounds
read_entry-IsPlaced raw data_start end o h =
    let (name_offset, _, h1) = >>=-eq-parsed (read_uint 4 (o + 0x10) raw.header) _ h in
    let (name, _, h2) = >>=-eq-parsed (entry_name raw name_offset) _ h1 in
    let (start, _, h3) = >>=-eq-parsed (read_u64 raw.header o) _ h2 in
    let (size, _, h4) = >>=-eq-parsed (read_u64 raw.header (o + 0x08)) _ h3 in
    let (within, h5) = guarded (ltb end (data_start + start + size)) truncated _ h4 in
    subst (IsPlaced data_start end) (parsed-inj h5)
      (omega arith, not_ltb→le end (data_start + start + size) within, refl)

hfs0_entry-IsPlaced :
    (raw : RawPartition) (data_start end o : ℕ) {entry : Hfs0Entry}
    → hfs0_entry raw data_start end o ≡ parsed entry
    → IsPlaced data_start end entry.entry
unfolding hfs0_entry
hfs0_entry-IsPlaced raw data_start end o h =
    let (entry, e, h1) = >>=-eq-parsed (read_entry raw data_start end o) _ h in
    let (size, _, h2) = >>=-eq-parsed (read_uint 4 (o + 0x14) raw.header) _ h1 in
    subst (λ (x : Hfs0Entry). IsPlaced data_start end x.entry) (parsed-inj h2)
      (read_entry-IsPlaced raw data_start end o e)

-- The loop gives as many entries as it is asked for, each as one step gives it.
read_entries-All :
    {E : Type 0} (P : E → Type 0) (one : ℕ → Parsed E) (entry_size n o : ℕ) {entries : List E}
    → ((o : ℕ) (e : E) → one o ≡ parsed e → P e)
    → read_entries one entry_size n o ≡ parsed entries
    → All P entries × (length entries ≡ n)
unfolding read_entries
read_entries-All P one entry_size zero o each h =
    subst (λ xs. All P xs × (length xs ≡ 0)) (parsed-inj h) (tt, refl)
read_entries-All P one entry_size (suc n) o each h =
    let (e, here, h1) = >>=-eq-parsed (one o) _ h in
    let (es, there, h2) = >>=-eq-parsed (read_entries one entry_size n (o + entry_size)) _ h1 in
    let rest = read_entries-All P one entry_size n (o + entry_size) each there in
    subst (λ xs. All P xs × (length xs ≡ suc n)) (parsed-inj h2)
      ((each o e here, rest.0), ap suc rest.1)

pub record IsInside (base end : ℕ) {E : Type 0} (entry_of : E → PartitionEntry) (p : Partition E)
    : Type 0 where
  pub at_base : p.offset ≡ base
  pub header : base + p.header_size ≤ end
  pub few : length p.entries ≤ max_entries
  pub placed : All (λ e. IsPlaced (base + p.header_size) end (entry_of e)) p.entries

-- A PFS0 that is accepted, whatever its bytes are, has a header that ends by `end`, at most 0x4000
-- entries, and each of its files lies between the end of the header and `end`.
pub parse_pfs0-IsInside :
    (reader : RandomAccessReader) (base end : ℕ) {p : Partition PartitionEntry}
    → parse_pfs0 reader base end ≡ parsed p
    → IsInside base end (λ e. e) p
unfolding parse_pfs0
parse_pfs0-IsInside reader base end h =
    let (raw, e, h1) =
      >>=-eq-parsed (read_partition_header reader base end (codes "PFS0") pfs0_entry_size) _ h in
    let ok = read_partition_header-IsRead reader base end pfs0_entry_size (codes "PFS0") e in
    let data_start : ℕ = base + raw.header_size in
    let (entries, es, h2) =
      >>=-eq-parsed (read_entries (read_entry raw data_start end) pfs0_entry_size raw.count 0x10) _
        h1 in
    let (all, len) =
      read_entries-All (IsPlaced data_start end) (read_entry raw data_start end) pfs0_entry_size
        raw.count 0x10 (λ o entry. read_entry-IsPlaced raw data_start end o) es in
    subst (IsInside base end (λ x. x)) (parsed-inj h2) (record {
      at_base = refl;
      header = ok.within;
      few = omega (arith, ok.few, len);
      placed = all;
    })

-- The same of an HFS0.
pub parse_hfs0-IsInside :
    (reader : RandomAccessReader) (base end : ℕ) {p : Partition Hfs0Entry}
    → parse_hfs0 reader base end ≡ parsed p
    → IsInside base end (λ e. e.entry) p
unfolding parse_hfs0
parse_hfs0-IsInside reader base end h =
    let (raw, e, h1) =
      >>=-eq-parsed (read_partition_header reader base end (codes "HFS0") hfs0_entry_size) _ h in
    let ok = read_partition_header-IsRead reader base end hfs0_entry_size (codes "HFS0") e in
    let data_start : ℕ = base + raw.header_size in
    let (entries, es, h2) =
      >>=-eq-parsed (read_entries (hfs0_entry raw data_start end) hfs0_entry_size raw.count 0x10) _
        h1 in
    let (all, len) =
      read_entries-All (λ x. IsPlaced data_start end x.entry) (hfs0_entry raw data_start end)
        hfs0_entry_size raw.count 0x10 (λ o entry. hfs0_entry-IsPlaced raw data_start end o) es in
    subst (IsInside base end (λ x. x.entry)) (parsed-inj h2) (record {
      at_base = refl;
      header = ok.within;
      few = omega (arith, ok.few, len);
      placed = all;
    })
