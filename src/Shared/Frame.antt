-- ===== src/Shared/Frame.antt =====
-- packages/shared/src/usb-frame.ts: the header of a USB frame. A byte is a number below 256. A
-- buffer is written at offsets, as through a `DataView`, whose setters keep the low bits of a number.
pub mod Bytes
pub mod RoundTrip
pub mod Limits
mod Runs
use nslibrary.Common.{
  ℕ, ◌+◌, ◌^◌, Bool, true, false, ◌&&◌, ◌||◌, not, Option, none, some, List, [], ◌∷◌, ◌++◌, ltb,
  leb, ◌==◌, if◌then◌else◌, or_else, length, take, drop, replicate,
}
use nslibrary.Shared.Frame.Bytes.{le, of_le, write, same_bytes}

abbrev pub usb_proto_version : ℕ
usb_proto_version = 1

abbrev pub usb_frame_header_size : ℕ
usb_frame_header_size = 32

-- `1 << 20`
abbrev pub usb_max_json_length : ℕ
usb_max_json_length = 1048576

-- Number.MAX_SAFE_INTEGER
abbrev pub max_safe_integer : ℕ
max_safe_integer = 9007199254740991

pub data FrameKind : Type 0 where
  request response cancel ping pong : FrameKind

abbrev pub kind_code : FrameKind → ℕ
kind_code request = 1
kind_code response = 2
kind_code cancel = 3
kind_code ping = 4
kind_code pong = 5

-- `KINDS.has(kind)`, with the kind that it is.
unfoldable pub kind_of : ℕ → Option FrameKind
kind_of n =
    if n == 1
    then some request
    else if n == 2
    then some response
    else if n == 3
    then some cancel
    else if n == 4
    then some ping
    else if n == 5
    then some pong
    else none

pub record FrameHeader : Type 0 where
  pub version : ℕ
  pub kind : FrameKind
  pub flags : ℕ
  pub request_id : ℕ
  pub status : ℕ
  pub json_length : ℕ
  pub payload_length : ℕ

pub data FrameErrorCode : Type 0 where
  short_header bad_magic bad_version bad_kind too_large : FrameErrorCode

-- A value, or the code of the `FrameError` that was thrown.
pub data Framed (A : Type 0) : Type 0 where
  framed : A → Framed A
  frame_error : FrameErrorCode → Framed A

-- "NSLU"
abbrev pub magic_bytes : List ℕ
magic_bytes = 78 ∷ 83 ∷ 76 ∷ 85 ∷ []

-- The writes of `encodeFrameHeader`, in their order. A header without a version has that of the
-- protocol; the callers give none, and `frame_header` writes it out.
unfoldable pub header_bytes : FrameHeader → List ℕ
unfolding write le
header_bytes h = write 24 (le 8 h.payload_length) (
    write 16 (le 4 h.json_length) (
      write 12 (le 2 h.status) (
        write 8 (le 4 h.request_id) (
          write 7 (le 1 h.flags) (
            write 6 (le 1 (kind_code h.kind))
              (write 4 (le 2 h.version) (write 0 magic_bytes (replicate 32 0))))))))

unfoldable pub encode_frame_header : FrameHeader → Framed (List ℕ)
unfolding header_bytes
encode_frame_header h =
    if ltb usb_max_json_length h.json_length
    then frame_error too_large
    else if ltb max_safe_integer h.payload_length
    then frame_error too_large
    else framed (header_bytes h)

-- `view.getUint…(offset, true)`, of `size` bytes.
unfoldable pub get_uint : ℕ → ℕ → List ℕ → ℕ
unfolding of_le
get_uint size offset bytes = of_le (take size (drop offset bytes))

unfoldable pub decode_fields : FrameKind → List ℕ → FrameHeader
unfolding get_uint
decode_fields kind bytes = record {
  version = get_uint 2 4 bytes;
  kind = kind;
  flags = get_uint 1 7 bytes;
  request_id = get_uint 4 8 bytes;
  status = get_uint 2 12 bytes;
  json_length = get_uint 4 16 bytes;
  payload_length = get_uint 8 24 bytes;
}

unfoldable pub decode_frame_header : List ℕ → Framed FrameHeader
unfolding get_uint kind_of decode_fields same_bytes
decode_frame_header bytes =
    if ltb (length bytes) usb_frame_header_size
    then frame_error short_header
    else if not (same_bytes (take 4 bytes) magic_bytes)
    then frame_error bad_magic
    else if not (get_uint 2 4 bytes == usb_proto_version)
    then frame_error bad_version
    else elim (kind_of (get_uint 1 6 bytes)) [
      | none ↦ frame_error bad_kind
      | some kind ↦
          if ltb usb_max_json_length (get_uint 4 16 bytes)
          then frame_error too_large
          else if ltb max_safe_integer (get_uint 8 24 bytes)
          then frame_error too_large
          else framed (decode_fields kind bytes)
    ]

pub record EncodeFrameOptions : Type 0 where
  pub kind : FrameKind
  pub request_id : ℕ
  pub status : Option ℕ
  pub flags : Option ℕ
  pub json : Option (List ℕ)
  pub payload : Option (List ℕ)

unfoldable pub frame_header : EncodeFrameOptions → FrameHeader
frame_header o = record {
  version = usb_proto_version;
  kind = o.kind;
  flags = or_else o.flags 0;
  request_id = o.request_id;
  status = or_else o.status 0;
  json_length = length (or_else o.json []);
  payload_length = length (or_else o.payload []);
}

-- The header, then `json`, the UTF-8 text of the JSON value, and the payload; an error is thrown on.
abbrev pub with_body : EncodeFrameOptions → Framed (List ℕ) → Framed (List ℕ)
with_body o (framed header) = framed (header ++ or_else o.json [] ++ or_else o.payload [])
with_body o (frame_error e) = frame_error e

unfoldable pub encode_frame : EncodeFrameOptions → Framed (List ℕ)
unfolding frame_header encode_frame_header
encode_frame o = with_body o (encode_frame_header (frame_header o))
