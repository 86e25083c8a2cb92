-- ===== src/Formats/Nro/Safe.antt =====
-- What packages/formats/src/nro.ts gives of an executable, whatever its bytes are.
use nslibrary.Common.{
  ℕ, ◌+◌, ◌≤◌, ◌<◌, ◌≡◌, ◌≢◌, subst, not, min, Option, none, some, List, arith, length, ltb, ◌==◌,
  not_ltb→le,
}
use nslibrary.Common.Text.{codes, same_text}
use nslibrary.Formats.Binary.{
  parsed, range_error, truncated, bad_magic, invalid, read_uint, read_u64, read_magic,
  read_title_id,
}
use nslibrary.Formats.Binary.Laws.{
  >>=-eq-range_error, >>=-eq-parsed, guarded, guarded-eq-range_error, if-ne-range_error,
  if-eq-parsed, parsed-inj, parsed-ne-range_error,
}
use nslibrary.Formats.Reader.{RandomAccessReader, read_exact}
use nslibrary.Formats.Reader.Access.{
  read_uint-ne-range_error, read_u64-ne-range_error, read_title_id-ne-range_error,
  length-read_exact, read_exact-ne-range_error,
}
use nslibrary.Formats.Nro.{
  AssetSection, NroInfo, nacp_size, parse_nacp, section_at, read_nacp, read_assets, parse_nro,
}

parse_nacp-ne-range_error : (nacp : List ℕ) → parse_nacp nacp ≢ range_error
unfolding parse_nacp
parse_nacp-ne-range_error nacp e =
    let (long, e1) = guarded-eq-range_error (ltb (length nacp) 0x3078) truncated _ e in
    let h = not_ltb→le (length nacp) 0x3078 long in
    let (_, _, e2) =
      >>=-eq-range_error (read_title_id nacp 0x3070) _ e1
        (read_title_id-ne-range_error 0x3070 nacp h) in
    parsed-ne-range_error e2

module _ (reader : RandomAccessReader) (steady : (o l : ℕ) → reader.read o l ≢ range_error) where
  section_at-ne-range_error :
      (nro_size : ℕ) (assets : List ℕ) (field : ℕ)
      → field + 0x10 ≤ length assets
      → section_at reader nro_size assets field ≢ range_error
  unfolding section_at
  section_at-ne-range_error nro_size assets field h e =
      let (size, _, e1) =
        >>=-eq-range_error (read_u64 assets (field + 8)) _ e
          (read_u64-ne-range_error (field + 8) assets (omega arith)) in
      if-ne-range_error (size == 0) _ _ (λ _. parsed-ne-range_error)
        (λ _ e2.
          let (start, _, e3) =
            >>=-eq-range_error (read_u64 assets field) _ e2
              (read_u64-ne-range_error field assets (omega arith)) in
          let (_, e4) =
            guarded-eq-range_error (ltb reader.size (nro_size + start + size)) truncated _ e3 in
          parsed-ne-range_error e4)
        e1

  read_nacp-ne-range_error :
      (section : Option AssetSection) → read_nacp reader section ≢ range_error
  unfolding read_nacp
  read_nacp-ne-range_error none e = parsed-ne-range_error e
  read_nacp-ne-range_error (some section) e =
      let (buf, _, e1) =
        >>=-eq-range_error (read_exact reader section.offset (min section.size nacp_size)) _ e
          (read_exact-ne-range_error reader section.offset (min section.size nacp_size) steady) in
      let (_, _, e2) = >>=-eq-range_error (parse_nacp buf) _ e1 (parse_nacp-ne-range_error buf) in
      parsed-ne-range_error e2

  read_assets-ne-range_error :
      (nro_size : ℕ) (assets : List ℕ)
      → length assets ≡ 0x38
      → read_assets reader nro_size assets ≢ range_error
  unfolding read_assets
  read_assets-ne-range_error nro_size assets h e =
      let (nacp_section, _, e1) =
        >>=-eq-range_error (section_at reader nro_size assets 0x18) _ e
          (section_at-ne-range_error nro_size assets 0x18 (omega arith)) in
      let (_, _, e2) =
        >>=-eq-range_error (section_at reader nro_size assets 0x08) _ e1
          (section_at-ne-range_error nro_size assets 0x08 (omega arith)) in
      let (_, _, e3) =
        >>=-eq-range_error (read_nacp reader nacp_section) _ e2
          (read_nacp-ne-range_error nacp_section) in
      let (_, _, e4) =
        >>=-eq-range_error (section_at reader nro_size assets 0x28) _ e3
          (section_at-ne-range_error nro_size assets 0x28 (omega arith)) in
      parsed-ne-range_error e4

  -- Of a reader whose `read` throws no RangeError, no bytes make `parseNro` access a buffer out of its
  -- bounds.
  pub parse_nro-ne-range_error : parse_nro reader ≢ range_error
  unfolding parse_nro
  parse_nro-ne-range_error e =
      let (header, read, e1) =
        >>=-eq-range_error (read_exact reader 0 0x80) _ e
          (read_exact-ne-range_error reader 0 0x80 steady) in
      let len = length-read_exact reader 0 0x80 read in
      let (_, e2) =
        guarded-eq-range_error (not (same_text (read_magic header 0x10 4) (codes "NRO0"))) bad_magic
          _ e1 in
      let (nro_size, _, e3) =
        >>=-eq-range_error (read_uint 4 0x18 header) _ e2
          (read_uint-ne-range_error 4 0x18 header (omega (arith, len))) in
      let (_, e4) = guarded-eq-range_error (ltb nro_size 0x80) invalid _ e3 in
      let (_, e5) = guarded-eq-range_error (ltb reader.size nro_size) truncated _ e4 in
      if-ne-range_error (ltb reader.size (nro_size + 0x38)) _ _ (λ _. parsed-ne-range_error)
        (λ _ e6.
          let (assets, read', e7) =
            >>=-eq-range_error (read_exact reader nro_size 0x38) _ e6
              (read_exact-ne-range_error reader nro_size 0x38 steady) in
          if-ne-range_error (not (same_text (read_magic assets 0 4) (codes "ASET"))) _ _
            (λ _. parsed-ne-range_error)
            (λ _.
              read_assets-ne-range_error nro_size assets
                (length-read_exact reader nro_size 0x38 read'))
            e7)
        e5

-- A section that is there lies behind the executable and ends with the file, and is not empty.
abbrev pub IsWithin : ℕ → ℕ → Option AssetSection → Type 0
IsWithin nro_size end none = Unit {0}
IsWithin nro_size end (some s) = (nro_size ≤ s.offset) × (0 < s.size) × (s.offset + s.size ≤ end)

pub record IsSound (reader : RandomAccessReader) (info : NroInfo) : Type 0 where
  pub long_enough : 0x80 ≤ info.nro_size
  pub within : info.nro_size ≤ reader.size
  pub icon : IsWithin info.nro_size reader.size info.icon
  pub romfs : IsWithin info.nro_size reader.size info.romfs

section_at-IsWithin :
    (reader : RandomAccessReader) (nro_size : ℕ) (assets : List ℕ) (field : ℕ)
    {s : Option AssetSection}
    → section_at reader nro_size assets field ≡ parsed s
    → IsWithin nro_size reader.size s
unfolding section_at
section_at-IsWithin reader nro_size assets field e =
    let (size, _, e1) = >>=-eq-parsed (read_u64 assets (field + 8)) _ e in
    if-eq-parsed (IsWithin nro_size reader.size) (size == 0) _ _ e1
      (λ _ b none_is. subst (IsWithin nro_size reader.size) (parsed-inj none_is) tt)
      (λ some_size b e2.
        let (start, _, e3) = >>=-eq-parsed (read_u64 assets field) _ e2 in
        let (fits, e4) = guarded (ltb reader.size (nro_size + start + size)) truncated _ e3 in
        subst (IsWithin nro_size reader.size) (parsed-inj e4) (
          omega arith,
          ground (arith, some_size),
          not_ltb→le reader.size (nro_size + start + size) fits,
        ))

read_assets-IsSound :
    (reader : RandomAccessReader) (nro_size : ℕ) (assets : List ℕ) {info : NroInfo}
    → 0x80 ≤ nro_size
    → nro_size ≤ reader.size
    → read_assets reader nro_size assets ≡ parsed info
    → IsSound reader info
unfolding read_assets
read_assets-IsSound reader nro_size assets long within e =
    let (nacp_section, _, e1) = >>=-eq-parsed (section_at reader nro_size assets 0x18) _ e in
    let (icon, at_icon, e2) = >>=-eq-parsed (section_at reader nro_size assets 0x08) _ e1 in
    let (nacp, _, e3) = >>=-eq-parsed (read_nacp reader nacp_section) _ e2 in
    let (romfs, at_romfs, e4) = >>=-eq-parsed (section_at reader nro_size assets 0x28) _ e3 in
    subst (IsSound reader) (parsed-inj e4) (record {
      long_enough = long;
      within = within;
      icon = section_at-IsWithin reader nro_size assets 0x08 at_icon;
      romfs = section_at-IsWithin reader nro_size assets 0x28 at_romfs;
    })

-- An executable that is accepted has at least 0x80 bytes, which lie in the file, and its icon and its
-- RomFS, where it has them, lie between its end and the end of the file.
pub parse_nro-IsSound :
    (reader : RandomAccessReader) {info : NroInfo}
    → parse_nro reader ≡ parsed info
    → IsSound reader info
unfolding parse_nro
parse_nro-IsSound reader e =
    let (header, _, e1) = >>=-eq-parsed (read_exact reader 0 0x80) _ e in
    let (_, e2) =
      guarded (not (same_text (read_magic header 0x10 4) (codes "NRO0"))) bad_magic _ e1 in
    let (nro_size, _, e3) = >>=-eq-parsed (read_uint 4 0x18 header) _ e2 in
    let (long, e4) = guarded (ltb nro_size 0x80) invalid _ e3 in
    let (fits, e5) = guarded (ltb reader.size nro_size) truncated _ e4 in
    let low = not_ltb→le nro_size 0x80 long in
    let high = not_ltb→le reader.size nro_size fits in
    if-eq-parsed (IsSound reader) (ltb reader.size (nro_size + 0x38)) _ _ e5
      (λ _ b no_assets.
        subst (IsSound reader) (parsed-inj no_assets)
          (record { long_enough = low; within = high; icon = tt; romfs = tt }))
      (λ _ b e6.
        let (assets, _, e7) = >>=-eq-parsed (read_exact reader nro_size 0x38) _ e6 in
        if-eq-parsed (IsSound reader) (not (same_text (read_magic assets 0 4) (codes "ASET"))) _ _
          e7
          (λ _ c no_assets.
            subst (IsSound reader) (parsed-inj no_assets)
              (record { long_enough = low; within = high; icon = tt; romfs = tt }))
          (λ _ c. read_assets-IsSound reader nro_size assets low high))
