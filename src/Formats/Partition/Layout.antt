-- ===== src/Formats/Partition/Layout.antt =====
-- The bytes that `buildPfs0Header` of packages/formats/src/partition.ts writes, side by side.
use nslibrary.Common.{
  ℕ, zero, suc, ◌+◌, ◌-◌, ◌*◌, ◌≤◌, ◌<◌, ◌≡◌, refl, sym, ap, ◌∙◌, List, [], ◌∷◌, ◌++◌, arith,
  length, replicate, length-append, append_assoc,
}
use nslibrary.Common.Text.{codes}
use nslibrary.Shared.Frame.Bytes.{le, write, room}
use nslibrary.Formats.Binary.{parsed, ◌>>=◌, write_uint, align_up}
use nslibrary.Formats.Binary.Laws.{
  write_uint-append, write-append_past, write-replicate, le-align_up,
}
use nslibrary.Formats.Partition.Build.{
  Pfs0HeaderEntry, name_bytes, names_size, write_fields, write_entries, fixed_size_of,
  string_table_size_of, build_pfs0_header,
}

-- One entry of the table.
abbrev pub entry_bytes : ℕ → ℕ → ℕ → List ℕ
entry_bytes data_offset size name_offset =
    le 8 data_offset ++ (le 8 size ++ (le 4 name_offset ++ replicate 4 0))

-- The table, before and after it is written.
abbrev pub blanks : List Pfs0HeaderEntry → List ℕ
blanks [] = []
blanks (entry ∷ entries) = replicate 24 0 ++ blanks entries

abbrev pub table : List Pfs0HeaderEntry → ℕ → ℕ → List ℕ
table [] data_offset name_offset = []
table (entry ∷ entries) data_offset name_offset =
    entry_bytes data_offset entry.size name_offset
    ++ table entries (data_offset + entry.size) (name_offset + length (name_bytes entry))

abbrev pub names : List Pfs0HeaderEntry → List ℕ
names [] = []
names (entry ∷ entries) = name_bytes entry ++ names entries

abbrev pub sizes : List Pfs0HeaderEntry → ℕ
sizes [] = 0
sizes (entry ∷ entries) = entry.size + sizes entries

replicate-append : (n m : ℕ) → replicate {A = ℕ} (n + m) 0 ≡ replicate n 0 ++ replicate m 0
replicate-append zero m = let e : 0 + m ≡ m = omega arith in rw e refl
replicate-append (suc n) m =
    let step : suc n + m ≡ suc (n + m) = omega arith in rw step (ap (◌∷◌ 0) (replicate-append n m))

replicate-blanks :
    (entries : List Pfs0HeaderEntry) (m : ℕ)
    → replicate (length entries * 24 + m) 0 ≡ blanks entries ++ replicate m 0
replicate-blanks [] m = ap (λ n. replicate n 0) (omega arith)
replicate-blanks (e ∷ es) m =
    let step : suc (length es) * 24 + m ≡ 24 + (length es * 24 + m) = omega arith in
    rw step (
      replicate-append 24 (length es * 24 + m)
      ∙ ap (λ xs. replicate 24 0 ++ xs) (replicate-blanks es m))

-- A step of the loop writes the first blank entry.
write_fields_lem :
    (pre xs : List ℕ) (data_offset size name_offset o : ℕ)
    → o ≡ length pre
    → data_offset < room 8
    → size < room 8
    → name_offset < room 4
    → write_fields o data_offset size name_offset (pre ++ (replicate 24 0 ++ xs))
      ≡ parsed (pre ++ (entry_bytes data_offset size name_offset ++ xs))
unfolding write_fields write le
write_fields_lem pre xs data_offset size name_offset o e hd hs hn =
    let xs' = write 0 (le 8 data_offset) (replicate 24 0 ++ xs) in
    let xs'' = write 8 (le 8 size) xs' in
    rw
      (
        write_uint-append pre 8 0 data_offset o (replicate 24 0 ++ xs) (omega arith) hd
            (omega arith),
        write_uint-append pre 8 8 size (o + 8) xs' (omega arith) hs (omega arith),
        write_uint-append pre 4 16 name_offset (o + 16) xs'' (omega arith) hn (omega arith),
      )
      refl

length-blanks : (entries : List Pfs0HeaderEntry) → length (blanks entries) ≡ length entries * 24
length-blanks [] = refl
length-blanks (e ∷ es) = omega (arith, length-blanks es)

pub length-entry_bytes : (d s n : ℕ) → length (entry_bytes d s n) ≡ 24
unfolding le
length-entry_bytes d s n = refl

-- A name is copied behind the names before it.
copy_name :
    (a b c name : List ℕ) (m o : ℕ)
    → o ≡ length a + (length b + length c)
    → length name ≤ m
    → write o name (a ++ (b ++ (c ++ replicate m 0)))
      ≡ a ++ (b ++ ((c ++ name) ++ replicate (m - length name) 0))
copy_name a b c name m o e h =
    let start : length c + 0 ≡ length c = omega arith in
    rw
      (
        e,
        write-append_past a (length b + length c) name (b ++ (c ++ replicate m 0)),
        write-append_past b (length c) name (c ++ replicate m 0),
        append_assoc,
      )
      (ap (λ xs. a ++ (b ++ xs))
        (rw (← start) (write-append_past c 0 name (replicate m 0))
          ∙ ap (λ xs. c ++ xs) (write-replicate name m h)))

-- The first entry joins the table, and its name the names.
pub regroup :
    (pre entry rest mid name others zeros : List ℕ)
    → (pre ++ entry) ++ (rest ++ ((mid ++ name) ++ (others ++ zeros)))
      ≡ pre ++ ((entry ++ rest) ++ (mid ++ ((name ++ others) ++ zeros)))
regroup pre entry rest mid name others zeros = simp append_assoc

write_entries_lem :
    (entries : List Pfs0HeaderEntry) (fixed_size o d n m : ℕ) (pre mid : List ℕ)
    → o ≡ length pre
    → fixed_size + n ≡ length pre + (length (blanks entries) + length mid)
    → d + sizes entries < room 8
    → n + names_size entries < room 4
    → names_size entries ≤ m
    → write_entries entries fixed_size o d n (pre ++ (blanks entries ++ (mid ++ replicate m 0)))
      ≡ parsed (
          pre
          ++ (table entries d n
              ++ (mid ++ (names entries ++ replicate (m - names_size entries) 0))))
unfolding write_entries names_size
write_entries_lem [] fixed_size o d n m pre mid ho hf hd hn hm =
    let e : m - 0 ≡ m = omega arith in rw e refl
write_entries_lem (e ∷ es) fixed_size o d n m pre mid ho hf hd hn hm =
    let eb = entry_bytes d e.size n in
    let name = name_bytes e in
    let m' = m - length name in
    let len : length (pre ++ eb) ≡ length pre + 24 =
      omega (arith, length-append pre eb, length-entry_bytes d e.size n) in
    let rest =
      write_entries_lem es fixed_size (o + 24) (d + e.size) (n + length name) m' (pre ++ eb)
        (mid ++ name) (omega (arith, len)) (omega (arith, len, length-append mid name))
        (omega arith) (omega arith) (omega arith) in
    let copy =
      copy_name (pre ++ eb) (blanks es) mid name m (fixed_size + n) (omega (arith, len))
        (omega arith) in
    let next =
      λ (h : List ℕ). write_entries es fixed_size (o + 24) (d + e.size) (n + length name) h in
    let done = table es (d + e.size) (n + length name) in
    let left : m' - names_size es ≡ m - (length name + names_size es) = omega arith in
    ap (λ r. r >>= λ h. next (write (fixed_size + n) name h))
      (write_fields_lem pre (blanks es ++ (mid ++ replicate m 0)) d e.size n o ho (omega arith)
        (omega arith) (omega arith))
    ∙ ap (λ h. next (write (fixed_size + n) name h))
        (sym (append_assoc pre eb (blanks es ++ (mid ++ replicate m 0))))
    ∙ ap next copy
    ∙ rest
    ∙ ap parsed (
        rw left (
          regroup pre eb done mid name (names es)
            (replicate (m - (length name + names_size es)) 0)))

-- The first 16 bytes: the magic, the number of entries and the size of the string table.
abbrev pub fixed_bytes : ℕ → ℕ → List ℕ
fixed_bytes count string_table_size =
    codes "PFS0" ++ (le 4 count ++ (le 4 string_table_size ++ replicate 4 0))

abbrev pub header_bytes : List Pfs0HeaderEntry → ℕ → List ℕ
header_bytes entries align =
    fixed_bytes (length entries) (string_table_size_of entries align)
    ++ (table entries 0 0
        ++ (names entries ++ replicate (string_table_size_of entries align - names_size entries) 0))

-- What the numbers of a header must fit.
pub record IsBuildable (entries : List Pfs0HeaderEntry) (align : ℕ) : Type 0 where
  pub few : length entries ≤ 0x4000
  pub short_names : string_table_size_of entries align ≤ 0x100000
  pub small :
      fixed_size_of entries + string_table_size_of entries align + sizes entries ≤ 9007199254740991

pub names_size-le :
    (entries : List Pfs0HeaderEntry) (align : ℕ)
    → names_size entries ≤ string_table_size_of entries align
unfolding string_table_size_of align_up
names_size-le entries align =
    omega (arith, le-align_up (fixed_size_of entries + names_size entries) align)

pub build_pfs0_header_lem :
    (entries : List Pfs0HeaderEntry) (align : ℕ)
    → IsBuildable entries align
    → build_pfs0_header entries align ≡ parsed (header_bytes entries align)
unfolding build_pfs0_header write_uint
build_pfs0_header_lem entries align ok =
    let size = string_table_size_of entries align in
    let count = length entries in
    let names_le = names_size-le entries align in
    let blank = blanks entries ++ replicate size 0 in
    let x0 = codes "PFS0" ++ (replicate 12 0 ++ blank) in
    let x1 = codes "PFS0" ++ (le 4 count ++ (replicate 8 0 ++ blank)) in
    let total : fixed_size_of entries + size ≡ 16 + (count * 24 + size) = omega arith in
    let zeros : replicate (fixed_size_of entries + size) 0 ≡ replicate 16 0 ++ blank = rw total (
      replicate-append 16 (count * 24 + size)
      ∙ ap (λ xs. replicate 16 0 ++ xs) (replicate-blanks entries size)) in
    let last = λ (h : List ℕ). write_entries entries (fixed_size_of entries) 16 0 0 h in
    let second = λ (h : List ℕ). write_uint 4 8 size h >>= last in
    ap (λ h. write_uint 4 4 count (write 0 (codes "PFS0") h) >>= second) zeros
    ∙ ap (λ r. r >>= second)
        (write_uint-append [] 4 4 count 4 x0 refl (omega (arith, ok)) (omega arith))
    ∙ ap (λ r. r >>= last)
        (write_uint-append [] 4 8 size 8 x1 refl (omega (arith, ok)) (omega arith))
    ∙ write_entries_lem entries (fixed_size_of entries) 16 0 0 size (fixed_bytes count size) [] refl
        (omega (arith, length-blanks entries)) (omega (arith, ok)) (omega (arith, ok)) names_le
