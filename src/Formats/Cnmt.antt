-- ===== src/Formats/Cnmt.antt =====
-- packages/formats/src/cnmt.ts: the packaged content meta of a title.
pub mod Safe
mod Runs
use nslibrary.Common.{
  ℕ, zero, suc, ◌+◌, ◌*◌, ◌/◌, ◌%◌, Bool, Option, none, some, List, [], ◌∷◌, ltb, leb, ◌==◌,
  if◌then◌else◌, length, take, drop,
}
use nslibrary.Formats.Binary.{
  Parsed, parsed, truncated, throw_if, ◌>>=◌, ◌>>◌, read_uint, read_title_id,
}

abbrev pub cnmt_header_size : ℕ
cnmt_header_size = 0x20

abbrev pub cnmt_content_record_size : ℕ
cnmt_content_record_size = 0x38

pub data PackagedContentKind : Type 0 where
  application patch addon other : PackagedContentKind

unfoldable pub kind_of : ℕ → PackagedContentKind
kind_of raw_type =
    if raw_type == 0x80
    then application
    else if raw_type == 0x81
    then patch
    else if raw_type == 0x82
    then addon
    else other

pub record CnmtContentRecord : Type 0 where
  pub sha256 : List ℕ
  pub nca_id : List ℕ
  pub size : ℕ
  pub type_ : ℕ
  pub id_offset : ℕ

pub record CnmtInfo : Type 0 where
  pub title_id : List ℕ
  pub version : ℕ
  pub raw_type : ℕ
  pub kind : PackagedContentKind
  pub application_id : List ℕ
  pub required_system_version : Option ℕ
  pub required_application_version : Option ℕ
  pub contents : List CnmtContentRecord
  pub install_size : ℕ

-- A digit of `toString("hex")`.
unfoldable pub lower_hex_digit : ℕ → ℕ
lower_hex_digit d = if ltb d 10 then 48 + d else 87 + d

-- `buf.toString("hex")`
unfoldable pub hex_of_bytes : List ℕ → List ℕ
unfolding lower_hex_digit
hex_of_bytes [] = []
hex_of_bytes (b ∷ bytes) = lower_hex_digit (b / 16) ∷ lower_hex_digit (b % 16) ∷ hex_of_bytes bytes

unfoldable pub content_record : List ℕ → ℕ → Parsed CnmtContentRecord
unfolding hex_of_bytes read_uint
content_record buf offset = do
  let sha256 = hex_of_bytes (take 0x20 (drop offset buf))
  let nca_id = hex_of_bytes (take 0x10 (drop (offset + 0x20) buf))
  size ← read_uint 5 (offset + 0x30) buf
  type_ ← read_uint 1 (offset + 0x36) buf
  id_offset ← read_uint 1 (offset + 0x37) buf
  parsed (record {
    sha256 = sha256;
    nca_id = nca_id;
    size = size;
    type_ = type_;
    id_offset = id_offset;
  })

-- What the extended header gives: the application's ID and the two required versions.
pub record Extended : Type 0 where
  pub application_id : List ℕ
  pub required_system_version : Option ℕ
  pub required_application_version : Option ℕ

unfoldable pub plain : List ℕ → Extended
plain title_id = record {
  application_id = title_id;
  required_system_version = none;
  required_application_version = none;
}

unfoldable pub read_application : List ℕ → List ℕ → Parsed Extended
unfolding plain read_uint
read_application title_id extended = do
  version ← read_uint 4 0x8 extended
  parsed (record (plain title_id) { required_system_version = some version })

unfoldable pub read_patch : List ℕ → List ℕ → Parsed Extended
unfolding plain read_uint read_title_id
read_patch title_id extended = do
  application_id ← read_title_id extended 0
  version ← read_uint 4 0x8 extended
  parsed (record (plain title_id) {
    application_id = application_id;
    required_system_version = some version;
  })

unfoldable pub read_addon : List ℕ → List ℕ → Parsed Extended
unfolding plain read_uint read_title_id
read_addon title_id extended = do
  application_id ← read_title_id extended 0
  let base = record (plain title_id) { application_id = application_id }
  if leb 0x0c (length extended)
      then (read_uint 4 0x8 extended >>= λ version.
          parsed (record base { required_application_version = some version }))
      else parsed base

unfoldable pub read_extended : PackagedContentKind → List ℕ → List ℕ → Parsed Extended
unfolding read_application read_patch read_addon plain
read_extended application title_id extended =
    if leb 0x0c (length extended)
    then read_application title_id extended
    else parsed (plain title_id)
read_extended patch title_id extended =
    if leb 0x0c (length extended) then read_patch title_id extended else parsed (plain title_id)
read_extended addon title_id extended =
    if leb 0x08 (length extended) then read_addon title_id extended else parsed (plain title_id)
read_extended other title_id extended = parsed (plain title_id)

-- The loop over the records, the first of which starts at `offset`.
unfoldable pub content_records : ℕ → ℕ → List ℕ → Parsed (List CnmtContentRecord)
unfolding content_record
content_records zero offset buf = parsed []
content_records (suc n) offset buf =
    let rest = content_records n (offset + cnmt_content_record_size) buf in
    content_record buf offset >>= λ c. (rest >>= λ cs. parsed (c ∷ cs))

unfoldable pub total_size : List CnmtContentRecord → ℕ
total_size [] = 0
total_size (c ∷ contents) = c.size + total_size contents

unfoldable pub parse_cnmt : List ℕ → Parsed CnmtInfo
unfolding read_title_id read_uint read_extended kind_of content_records total_size
parse_cnmt buf = do
  throw_if (ltb (length buf) cnmt_header_size) truncated
  title_id ← read_title_id buf 0
  version ← read_uint 4 0x8 buf
  raw_type ← read_uint 1 0xc buf
  extended_header_size ← read_uint 2 0xe buf
  content_count ← read_uint 2 0x10 buf
  let table_offset = cnmt_header_size + extended_header_size
  let records_end = table_offset + content_count * cnmt_content_record_size
  throw_if (ltb (length buf) records_end) truncated
  let kind = kind_of raw_type
  x ← read_extended kind title_id (take extended_header_size (drop cnmt_header_size buf))
  contents ← content_records content_count table_offset buf
  parsed (record {
    title_id = title_id;
    version = version;
    raw_type = raw_type;
    kind = kind;
    application_id = x.application_id;
    required_system_version = x.required_system_version;
    required_application_version = x.required_application_version;
    contents = contents;
    install_size = total_size contents;
  })
