-- ===== src/Shared/Frame/RoundTrip.antt =====
-- What `decodeFrameHeader` of packages/shared/src/usb-frame.ts reads from what `encodeFrameHeader`
-- wrote.
use nslibrary.Common.{
  ℕ, ◌<◌, ◌≤◌, ◌≡◌, refl, ap, ◌∙◌, true, false, some, List, [], ◌∷◌, ◌++◌, arith, ltb, ◌==◌, length,
  take, drop, or_else, append_assoc,
}
use nslibrary.Shared.Frame.{
  FrameHeader, FrameKind, request, response, cancel, ping, pong, framed, header_bytes,
  encode_frame_header, decode_frame_header, decode_fields, get_uint, kind_of, kind_code,
  usb_max_json_length, max_safe_integer, EncodeFrameOptions, encode_frame, with_body, frame_header,
  usb_frame_header_size, magic_bytes,
}
use nslibrary.Shared.Frame.Bytes.{le, of_le, write, same_bytes, of_le-le}

-- The numbers of a header fit their fields and the limits.
abbrev pub IsSendable : FrameHeader → Type 0
IsSendable h =
    (h.version ≡ 1)
    × (h.flags < 256)
    × (h.request_id < 4294967296)
    × (h.status < 65536)
    × (h.json_length ≤ usb_max_json_length)
    × (h.payload_length ≤ max_safe_integer)

kind_code-byte : (k : FrameKind) → kind_code k < 256
kind_code-byte request = omega arith
kind_code-byte response = omega arith
kind_code-byte cancel = omega arith
kind_code-byte ping = omega arith
kind_code-byte pong = omega arith

kind_of-kind_code : (k : FrameKind) → kind_of (kind_code k) ≡ some k
unfolding kind_of
kind_of-kind_code request = refl
kind_of-kind_code response = refl
kind_of-kind_code cancel = refl
kind_of-kind_code ping = refl
kind_of-kind_code pong = refl

fields :
    (h : FrameHeader) (rest : List ℕ)
    → IsSendable h
    → (get_uint 2 4 (header_bytes h ++ rest) ≡ h.version)
      × (get_uint 1 6 (header_bytes h ++ rest) ≡ kind_code h.kind)
      × (get_uint 1 7 (header_bytes h ++ rest) ≡ h.flags)
      × (get_uint 4 8 (header_bytes h ++ rest) ≡ h.request_id)
      × (get_uint 2 12 (header_bytes h ++ rest) ≡ h.status)
      × (get_uint 4 16 (header_bytes h ++ rest) ≡ h.json_length)
      × (get_uint 8 24 (header_bytes h ++ rest) ≡ h.payload_length)
unfolding header_bytes write le get_uint of_le
fields h rest (v, f, r, s, j, p) = (
  of_le-le 2 h.version (omega arith),
  of_le-le 1 (kind_code h.kind) (omega (arith, kind_code-byte h.kind)),
  of_le-le 1 h.flags (omega arith),
  of_le-le 4 h.request_id (omega arith),
  of_le-le 2 h.status (omega arith),
  of_le-le 4 h.json_length (omega arith),
  of_le-le 8 h.payload_length (omega arith),
)

long_enough :
    (h : FrameHeader) (rest : List ℕ)
    → (ltb (length (header_bytes h ++ rest)) 32 ≡ false)
      × (same_bytes (take 4 (header_bytes h ++ rest)) magic_bytes ≡ true)
unfolding header_bytes write le same_bytes
long_enough h rest = (ground arith, refl)

encoded : (h : FrameHeader) → IsSendable h → encode_frame_header h ≡ framed (header_bytes h)
unfolding encode_frame_header
encoded h n = ground arith

decoded :
    (h : FrameHeader) (rest : List ℕ)
    → IsSendable h
    → decode_frame_header (header_bytes h ++ rest) ≡ framed h
unfolding decode_frame_header decode_fields
decoded h rest n =
    let (short, magic) = long_enough h rest in
    let (v, k, f, r, s, j, p) = fields h rest n in
    let version : (h.version == 1) ≡ true = ground (arith, n.0) in
    let json : ltb usb_max_json_length h.json_length ≡ false = ground (arith, n.4) in
    let payload : ltb max_safe_integer h.payload_length ≡ false = ground (arith, n.5) in
    rw (short, magic, v, version, k, kind_of-kind_code h.kind, j, json, p, payload, f, r, s)
      (ap (λ x. framed (record h { version = x })) v)

-- A header whose numbers fit their fields is encoded in 32 bytes, and whatever follows them,
-- decoding gives that header back.
pub decode_frame_header-encode_frame_header :
    (h : FrameHeader) (rest : List ℕ)
    → IsSendable h
    → (bytes : List ℕ) × (encode_frame_header h ≡ framed bytes)
      × (length bytes ≡ 32)
      × (decode_frame_header (bytes ++ rest) ≡ framed h)
unfolding header_bytes write
decode_frame_header-encode_frame_header h rest n =
    (header_bytes h, encoded h n, refl, decoded h rest n)

-- The options of a frame that fit: the numbers, and the sizes of the two parts.
abbrev pub IsSmall : EncodeFrameOptions → Type 0
IsSmall o = IsSendable (frame_header o)

take-length : (xs ys : List ℕ) → take (length xs) (xs ++ ys) ≡ xs
take-length [] ys = refl
take-length (x ∷ xs) ys = ap (◌∷◌ x) (take-length xs ys)

drop-length : (xs ys : List ℕ) → drop (length xs) (xs ++ ys) ≡ ys
drop-length [] ys = refl
drop-length (x ∷ xs) ys = drop-length xs ys

drop-header : (h : FrameHeader) (rest : List ℕ) → drop 32 (header_bytes h ++ rest) ≡ rest
unfolding header_bytes write le
drop-header h rest = refl

-- A frame that fits is encoded, and a receiver that decodes its header and cuts the two parts after
-- it at the lengths that the header gives finds the JSON text and the payload, and what was sent
-- after the frame behind them.
pub decode_frame_header-encode_frame :
    (o : EncodeFrameOptions) (after : List ℕ)
    → IsSmall o
    → (bytes : List ℕ) × (encode_frame o ≡ framed bytes)
      × (decode_frame_header (bytes ++ after) ≡ framed (frame_header o))
      × (take (frame_header o).json_length (drop usb_frame_header_size (bytes ++ after))
          ≡ or_else o.json [])
      × (take
            (frame_header o).payload_length
            (drop (frame_header o).json_length (drop usb_frame_header_size (bytes ++ after)))
          ≡ or_else o.payload [])
      × (drop
            (frame_header o).payload_length
            (drop (frame_header o).json_length (drop usb_frame_header_size (bytes ++ after)))
          ≡ after)
unfolding encode_frame
decode_frame_header-encode_frame o after n =
    let h = frame_header o in
    let json = or_else o.json [] in
    let payload = or_else o.payload [] in
    let rest = json ++ (payload ++ after) in
    let whole : header_bytes h ++ json ++ payload ++ after ≡ header_bytes h ++ rest =
      append_assoc (header_bytes h ++ json) payload after
      ∙ append_assoc (header_bytes h) json (payload ++ after) in
    let body : drop 32 (header_bytes h ++ json ++ payload ++ after) ≡ rest =
      ap (drop 32) whole ∙ drop-header h rest in
    let second : drop (length json) (drop 32 (header_bytes h ++ json ++ payload ++ after))
        ≡ payload ++ after =
      ap (drop (length json)) body ∙ drop-length json (payload ++ after) in
    (
      header_bytes h ++ json ++ payload,
      ap (with_body o) (encoded h n),
      ap decode_frame_header whole ∙ decoded h rest n,
      ap (take (length json)) body ∙ take-length json (payload ++ after),
      ap (take (length payload)) second ∙ take-length payload after,
      ap (drop (length payload)) second ∙ drop-length payload after,
    )
