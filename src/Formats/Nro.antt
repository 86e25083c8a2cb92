-- ===== src/Formats/Nro.antt =====
-- packages/formats/src/nro.ts: a homebrew executable and its asset section. A text is kept as the
-- bytes of its UTF-8 form, and of what `trim` removes the characters of ASCII are.
pub mod Safe
mod Runs
use nslibrary.Common.{
  ℕ, ◌+◌, min, Bool, ◌||◌, ◌&&◌, not, Option, none, some, List, [], ◌∷◌, ltb, leb, ◌==◌,
  if◌then◌else◌, length, take, drop,
}
use nslibrary.Common.Text.{codes, same_text}
use nslibrary.Formats.Binary.{
  Parsed, parsed, bad_magic, truncated, invalid, throw_if, ◌>>=◌, ◌>>◌, read_uint, read_u64,
  read_magic, read_title_id,
}
use nslibrary.Formats.Reader.{RandomAccessReader, read_exact}
use nslibrary.Formats.Partition.{until_nul}
use mathlib.Core.List.{reverse}

abbrev pub nacp_size : ℕ
nacp_size = 0x4000

abbrev pub nro_header_read_size : ℕ
nro_header_read_size = 0x80

abbrev pub asset_header_size : ℕ
asset_header_size = 0x38

pub record NacpInfo : Type 0 where
  pub name : List ℕ
  pub publisher : List ℕ
  pub display_version : List ℕ
  pub add_on_content_base_id : List ℕ

pub record AssetSection : Type 0 where
  pub offset : ℕ
  pub size : ℕ

pub record NroInfo : Type 0 where
  pub nro_size : ℕ
  pub icon : Option AssetSection
  pub nacp : Option NacpInfo
  pub romfs : Option AssetSection

-- Tab, line feed, vertical tab, form feed, carriage return and space.
unfoldable pub is_space : ℕ → Bool
is_space c = (leb 9 c && leb c 13) || (c == 32)

unfoldable pub trim_start : List ℕ → List ℕ
unfolding is_space
trim_start [] = []
trim_start (c ∷ text) = let rest = trim_start text in if is_space c then rest else c ∷ text

unfoldable pub trim : List ℕ → List ℕ
unfolding trim_start
trim text = reverse (trim_start (reverse (trim_start text)))

unfoldable pub c_string : List ℕ → ℕ → ℕ → List ℕ
unfolding until_nul trim
c_string buf offset max_length = trim (take max_length (until_nul (drop offset buf)))

unfoldable pub parse_nacp : List ℕ → Parsed NacpInfo
unfolding c_string read_title_id
parse_nacp nacp = do
  throw_if (ltb (length nacp) 0x3078) truncated
  add_on_content_base_id ← read_title_id nacp 0x3070
  parsed (record {
    name = c_string nacp 0x0 0x200;
    publisher = c_string nacp 0x200 0x100;
    display_version = c_string nacp 0x3060 0x10;
    add_on_content_base_id = add_on_content_base_id;
  })

-- `section` of `parseNro`: the section of which `field_offset` of the asset header tells.
unfoldable pub section_at : RandomAccessReader → ℕ → List ℕ → ℕ → Parsed (Option AssetSection)
unfolding read_u64
section_at reader nro_size assets field_offset = do
  size ← read_u64 assets (field_offset + 0x08)
  if size == 0 then parsed none else do
    start ← read_u64 assets field_offset
    throw_if (ltb reader.size (nro_size + start + size)) truncated
    parsed (some (record { offset = nro_size + start; size = size }))

unfoldable pub read_nacp : RandomAccessReader → Option AssetSection → Parsed (Option NacpInfo)
unfolding parse_nacp read_exact
read_nacp reader none = parsed none
read_nacp reader (some section) = do
  buf ← read_exact reader section.offset (min section.size nacp_size)
  nacp ← parse_nacp buf
  parsed (some nacp)

unfoldable pub read_assets : RandomAccessReader → ℕ → List ℕ → Parsed NroInfo
unfolding section_at read_nacp
read_assets reader nro_size assets = do
  nacp_section ← section_at reader nro_size assets 0x18
  icon ← section_at reader nro_size assets 0x08
  nacp ← read_nacp reader nacp_section
  romfs ← section_at reader nro_size assets 0x28
  parsed (record { nro_size = nro_size; icon = icon; nacp = nacp; romfs = romfs })

unfoldable pub parse_nro : RandomAccessReader → Parsed NroInfo
unfolding read_exact read_magic same_text read_uint read_assets
parse_nro reader = do
  header ← read_exact reader 0 nro_header_read_size
  throw_if (not (same_text (read_magic header 0x10 4) (codes "NRO0"))) bad_magic
  nro_size ← read_uint 4 0x18 header
  throw_if (ltb nro_size nro_header_read_size) invalid
  throw_if (ltb reader.size nro_size) truncated
  let no_assets : NroInfo = record { nro_size = nro_size; icon = none; nacp = none; romfs = none }
  if ltb reader.size (nro_size + asset_header_size) then parsed no_assets else do
    assets ← read_exact reader nro_size asset_header_size
    if not (same_text (read_magic assets 0 4) (codes "ASET"))
        then parsed no_assets
        else read_assets reader nro_size assets
