-- ===== src/Formats/Ticket.antt =====
-- packages/formats/src/ticket.ts: a plaintext ticket.
pub mod Safe
use nslibrary.Common.{
  ℕ, ◌+◌, ◌-◌, ◌*◌, ◌||◌, Option, none, some, List, [], ◌∷◌, ltb, ◌==◌, if◌then◌else◌, length, take,
  drop,
}
use nslibrary.Common.Text.{to_upper}
use nslibrary.Formats.Binary.{
  Parsed, parsed, format_error, truncated, unsupported, throw_if, ◌>>=◌, ◌>>◌, read_uint,
}
use nslibrary.Formats.Partition.{until_nul}
use nslibrary.Formats.Cnmt.{hex_of_bytes}

-- SIGNATURE_LAYOUT: the size of the signature and of its padding.
unfoldable pub signature_layout : ℕ → Option (ℕ × ℕ)
signature_layout t =
    if t == 0x10000
    then some (0x200, 0x3c)
    else if t == 0x10001
    then some (0x100, 0x3c)
    else if t == 0x10002
    then some (0x3c, 0x40)
    else if t == 0x10003
    then some (0x200, 0x3c)
    else if t == 0x10004
    then some (0x100, 0x3c)
    else if t == 0x10005
    then some (0x3c, 0x40)
    else if t == 0x10006
    then some (0x14, 0x28)
    else none

abbrev pub ticket_data_size : ℕ
ticket_data_size = 0x180

pub data TitleKeyType : Type 0 where
  common personalized : TitleKeyType

pub record TicketInfo : Type 0 where
  pub signature_type : ℕ
  pub issuer : List ℕ
  pub title_key_type : TitleKeyType
  pub key_generation : ℕ
  pub rights_id : List ℕ
  pub title_id : List ℕ
  pub title_key_block : List ℕ

-- The text at `start`, up to a 0, which counts up to the 0x40th byte after `start`, or 0x40 bytes.
unfoldable pub issuer_of : List ℕ → ℕ → List ℕ
unfolding until_nul
issuer_of buf start =
    let text = until_nul (drop start buf) in
    if length text == length (drop start buf) || ltb 0x40 (length text)
    then take 0x40 (drop start buf)
    else text

unfoldable pub read_ticket : List ℕ → ℕ → ℕ → Parsed TicketInfo
unfolding issuer_of hex_of_bytes to_upper read_uint
read_ticket buf signature_type data_start = do
  throw_if (ltb (length buf) (data_start + ticket_data_size)) truncated
  let rights_id = to_upper (hex_of_bytes (take 0x10 (drop (data_start + 0x160) buf)))
  key_type ← read_uint 1 (data_start + 0x141) buf
  key_generation ← read_uint 1 (data_start + 0x145) buf
  parsed (record {
    signature_type = signature_type;
    issuer = issuer_of buf data_start;
    title_key_type = if key_type == 1 then personalized else common;
    key_generation = key_generation;
    rights_id = rights_id;
    title_id = take 16 rights_id;
    title_key_block = take 0x100 (drop (data_start + 0x40) buf);
  })

unfoldable pub after_signature : List ℕ → ℕ → Option (ℕ × ℕ) → Parsed TicketInfo
unfolding read_ticket
after_signature buf signature_type none = format_error unsupported
after_signature buf signature_type (some (size, padding)) =
    read_ticket buf signature_type (4 + size + padding)

unfoldable pub parse_ticket : List ℕ → Parsed TicketInfo
unfolding signature_layout after_signature read_uint
parse_ticket buf = do
  throw_if (ltb (length buf) 4) truncated
  signature_type ← read_uint 4 0 buf
  after_signature buf signature_type (signature_layout signature_type)
