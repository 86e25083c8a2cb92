-- ===== src/Formats/Partition/Read.antt =====
-- What the loop of `parsePfs0` in packages/formats/src/partition.ts reads of a table of entries that
-- `buildPfs0Header` wrote.
use nslibrary.Common.{
  ℕ, suc, ◌+◌, ◌*◌, ◌≤◌, ◌<◌, ◌≡◌, ◌≢◌, refl, sym, ap, ◌∙◌, List, [], ◌∷◌, ◌++◌, arith, length,
  drop, length-append, append_assoc, All, false, ltb, leb,
}
use nslibrary.Shared.Frame.{max_safe_integer}
use nslibrary.Shared.Frame.Bytes.{le, of_le, room, of_le-le}
use nslibrary.Formats.Binary.{parsed, ◌>>=◌, ◌>>◌, read_uint, read_u64, throw_if, invalid}
use nslibrary.Formats.Binary.Laws.{read_uint-append, drop-append_past}
use nslibrary.Formats.Partition.{
  PartitionEntry, RawPartition, classify_entry, until_nul, entry_name, entry_bounds, read_entry,
  read_entries,
}
use nslibrary.Formats.Partition.Build.{Pfs0HeaderEntry, name_bytes, names_size}
use nslibrary.Formats.Partition.Layout.{
  entry_bytes, table, names, sizes, length-entry_bytes, regroup,
}

-- No byte of a name is 0.
abbrev pub HasNoNul : Pfs0HeaderEntry → Type 0
HasNoNul entry = All (λ b. b ≢ 0) entry.name

-- Where the files lie: back to back from `start` on, in the order of the entries.
abbrev pub placed : ℕ → List Pfs0HeaderEntry → List PartitionEntry
placed start [] = []
placed start (entry ∷ entries) =
    record {
      name = entry.name;
      offset = start;
      size = entry.size;
      kind = classify_entry entry.name;
    }
    ∷ placed (start + entry.size) entries

until_nul-append :
    (name rest : List ℕ) → All (λ b. b ≢ 0) name → until_nul (name ++ (0 ∷ rest)) ≡ name
unfolding until_nul
until_nul-append [] rest h = refl
until_nul-append (b ∷ name) rest h = ground (arith, h.0, until_nul-append name rest h.1)

read_u64_lem :
    (header : List ℕ) (o value : ℕ)
    → read_uint 8 o header ≡ parsed value
    → value ≤ max_safe_integer
    → read_u64 header o ≡ parsed value
unfolding read_u64
read_u64_lem header o value e h =
    ap (λ r. r >>= λ v. throw_if (ltb max_safe_integer v) invalid >> parsed v) e ∙ ground (arith, h)

-- The numbers of the entry at `o`.
fields :
    (header pre rest : List ℕ) (d s n o : ℕ)
    → header ≡ pre ++ (entry_bytes d s n ++ rest)
    → o ≡ length pre
    → d ≤ max_safe_integer
    → s ≤ max_safe_integer
    → n < room 4
    → (read_u64 header o ≡ parsed d)
      × (read_u64 header (o + 8) ≡ parsed s)
      × (read_uint 4 (o + 16) header ≡ parsed n)
unfolding le of_le
fields header pre rest d s n o eh eo hd hs hn =
    let xs = entry_bytes d s n ++ rest in
    let at_d : read_uint 8 o (pre ++ xs) ≡ parsed d =
      read_uint-append pre 8 0 o xs (omega arith) (omega arith)
      ∙ ap parsed (of_le-le 8 d (omega arith)) in
    let at_s : read_uint 8 (o + 8) (pre ++ xs) ≡ parsed s =
      read_uint-append pre 8 8 (o + 8) xs (omega arith) (omega arith)
      ∙ ap parsed (of_le-le 8 s (omega arith)) in
    let at_n : read_uint 4 (o + 16) (pre ++ xs) ≡ parsed n =
      read_uint-append pre 4 16 (o + 16) xs (omega arith) (omega arith)
      ∙ ap parsed (of_le-le 4 n hn) in
    (
      read_u64_lem header o d (ap (read_uint 8 o) eh ∙ at_d) hd,
      read_u64_lem header (o + 8) s (ap (read_uint 8 (o + 8)) eh ∙ at_s) hs,
      ap (read_uint 4 (o + 16)) eh ∙ at_n,
    )

-- The first of the names that lie at `start`.
entry_name_lem :
    (raw : RawPartition) (before name rest : List ℕ) (n : ℕ)
    → raw.header ≡ before ++ (name ++ (0 ∷ rest))
    → raw.header_size ≡ length raw.header
    → raw.string_table_offset + n ≡ length before
    → All (λ b. b ≢ 0) name
    → entry_name raw n ≡ parsed name
unfolding entry_name
entry_name_lem raw before name rest n eh es eo clean =
    let long : length raw.header ≡ length before + (length name + suc (length rest)) =
      ap length eh
      ∙ omega (arith, length-append before (name ++ (0 ∷ rest)), length-append name (0 ∷ rest)) in
    let inside : leb raw.header_size (raw.string_table_offset + n) ≡ false =
      ground (arith, long, es, eo) in
    let start : length before + 0 ≡ length before = omega arith in
    let there : drop (raw.string_table_offset + n) raw.header ≡ name ++ (0 ∷ rest) =
      ap (drop (raw.string_table_offset + n)) eh
      ∙ rw (eo, ← start) (drop-append_past before 0 (name ++ (0 ∷ rest))) in
    rw (inside, there, until_nul-append name rest clean) refl

read_entry_lem :
    (raw : RawPartition) (data_start end o d s n : ℕ) (name : List ℕ)
    → read_u64 raw.header o ≡ parsed d
    → read_u64 raw.header (o + 8) ≡ parsed s
    → read_uint 4 (o + 16) raw.header ≡ parsed n
    → entry_name raw n ≡ parsed name
    → data_start + d + s ≤ end
    → read_entry raw data_start end o
      ≡ parsed
          (record { name = name; offset = data_start + d; size = s; kind = classify_entry name })
unfolding read_entry entry_bounds
read_entry_lem raw data_start end o d s n name hd hs hn hname fits =
    rw (hn, hname, hd, hs) (ground arith)

pub length-table :
    (entries : List Pfs0HeaderEntry) (d n : ℕ) → length (table entries d n) ≡ length entries * 24
length-table [] d n = refl
length-table (e ∷ es) d n = omega (
  arith,
  length-append (entry_bytes d e.size n) (table es (d + e.size) (n + length (name_bytes e))),
  length-entry_bytes d e.size n,
  length-table es (d + e.size) (n + length (name_bytes e)),
)

-- The first name stands behind the table and the names before it.
first_name :
    (pre tables mid name others : List ℕ)
    → pre ++ (tables ++ (mid ++ ((name ++ (0 ∷ [])) ++ others)))
      ≡ (pre ++ (tables ++ mid)) ++ (name ++ (0 ∷ others))
first_name pre tables mid name others = simp append_assoc

pub read_entries_lem :
    (entries : List Pfs0HeaderEntry) (raw : RawPartition) (data_start end o d n : ℕ)
    (pre mid pad : List ℕ)
    → raw.header ≡ pre ++ (table entries d n ++ (mid ++ (names entries ++ pad)))
    → raw.header_size ≡ length raw.header
    → o ≡ length pre
    → raw.string_table_offset + n ≡ length pre + (length entries * 24 + length mid)
    → All HasNoNul entries
    → d + sizes entries ≤ max_safe_integer
    → n + names_size entries < room 4
    → data_start + d + sizes entries ≤ end
    → read_entries (read_entry raw data_start end) 24 (length entries) o
      ≡ parsed (placed (data_start + d) entries)
unfolding read_entries names_size
read_entries_lem [] raw data_start end o d n pre mid pad eh es eo et clean hd hn fits = refl
read_entries_lem (e ∷ es) raw data_start end o d n pre mid pad eh ez eo et clean hd hn fits =
    let eb = entry_bytes d e.size n in
    let tables = eb ++ table es (d + e.size) (n + length (name_bytes e)) in
    let others = names es ++ pad in
    let (field_d, field_s, field_n) =
      fields raw.header pre
        (table es (d + e.size) (n + length (name_bytes e)) ++ (mid ++ (names (e ∷ es) ++ pad))) d
        e.size n o (eh ∙ ap (◌++◌ pre) (append_assoc eb _ _)) eo (omega arith) (omega arith)
        (omega arith) in
    let before = pre ++ (tables ++ mid) in
    let name =
      entry_name_lem raw before e.name others n
        (eh
          ∙ ap (λ xs. pre ++ (tables ++ (mid ++ xs))) (append_assoc (name_bytes e) (names es) pad)
          ∙ first_name pre tables mid e.name others)
        ez
        (omega (
          arith,
          et,
          length-append pre (tables ++ mid),
          length-append tables mid,
          length-table (e ∷ es) d n,
        ))
        clean.0 in
    let entry =
      read_entry_lem raw data_start end o d e.size n e.name field_d field_s field_n name
        (omega arith) in
    let rest =
      read_entries_lem es raw data_start end (o + 24) (d + e.size) (n + length (name_bytes e))
        (pre ++ eb) (mid ++ name_bytes e) pad
        (eh
          ∙ sym (
              regroup pre eb (table es (d + e.size) (n + length (name_bytes e))) mid (name_bytes e)
                (names es) pad))
        ez (omega (arith, length-append pre eb, length-entry_bytes d e.size n))
        (omega (
          arith,
          et,
          length-append pre eb,
          length-entry_bytes d e.size n,
          length-append mid (name_bytes e),
        ))
        clean.1 (omega arith) (omega arith) (omega arith) in
    let start : data_start + (d + e.size) ≡ data_start + d + e.size = omega arith in
    rw (entry, rest, start) refl
