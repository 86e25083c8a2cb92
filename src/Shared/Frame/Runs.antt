-- ===== src/Shared/Frame/Runs.antt =====
-- A frame of packages/shared/src/usb-frame.ts with a JSON text and a payload, and its theorems there.
use nslibrary.Common.{ℕ, ◌≡◌, refl, some, List, [], ◌∷◌, ◌++◌, take, drop, arith}
use nslibrary.Shared.Frame.{
  FrameHeader, response, framed, decode_frame_header, EncodeFrameOptions, encode_frame,
  frame_header,
}
use nslibrary.Shared.Frame.{get_uint, header_bytes, kind_of, decode_fields}
use nslibrary.Shared.Frame.Bytes.{same_bytes, le, of_le, write}
use nslibrary.Shared.Frame.RoundTrip.{decode_frame_header-encode_frame}

-- Status 206, with "{}" and three bytes.
abbrev chunk : EncodeFrameOptions
chunk = record {
  kind = response;
  request_id = 70000;
  status = some 206;
  flags = some 1;
  json = some (123 ∷ 125 ∷ []);
  payload = some (1 ∷ 2 ∷ 3 ∷ []);
}

abbrev chunk_header : FrameHeader
chunk_header = record {
  version = 1;
  kind = response;
  flags = 1;
  request_id = 70000;
  status = 206;
  json_length = 2;
  payload_length = 3;
}

decode_frame_header-encode_frame_example :
    (bytes : List ℕ) × (encode_frame chunk ≡ framed bytes)
    × (decode_frame_header (bytes ++ (9 ∷ [])) ≡ framed (frame_header chunk))
    × (take (frame_header chunk).json_length (drop 32 (bytes ++ (9 ∷ []))) ≡ 123 ∷ 125 ∷ [])
    × (take
          (frame_header chunk).payload_length
          (drop (frame_header chunk).json_length (drop 32 (bytes ++ (9 ∷ []))))
        ≡ 1 ∷ 2 ∷ 3 ∷ [])
    × (drop
          (frame_header chunk).payload_length
          (drop (frame_header chunk).json_length (drop 32 (bytes ++ (9 ∷ []))))
        ≡ 9 ∷ [])
unfolding frame_header
decode_frame_header-encode_frame_example =
    decode_frame_header-encode_frame chunk (9 ∷ [])
      (refl, omega arith, omega arith, omega arith, omega arith, omega arith)

abbrev chunk_bytes : List ℕ
chunk_bytes = header_bytes chunk_header

decodes : decode_frame_header chunk_bytes ≡ framed chunk_header
unfolding decode_frame_header header_bytes write le of_le get_uint kind_of decode_fields same_bytes
decodes = refl
