-- ===== src/Shared/Frame/Limits.antt =====
-- What `decodeFrameHeader` of packages/shared/src/usb-frame.ts accepts, whatever the bytes are.
use nslibrary.Common.{
  ℕ, ◌≤◌, sym, if◌then◌else◌, Bool, ◌≡◌, refl, some, List, arith, length, Option-cases, inl, inr,
  take, ltb, not, ◌==◌, true, false,
}
use nslibrary.Shared.Frame.{
  FrameHeader, Framed, framed, frame_error, FrameErrorCode, short_header, bad_magic, bad_version,
  bad_kind, too_large, FrameKind, decode_frame_header, decode_fields, get_uint, kind_of,
  usb_max_json_length, max_safe_integer, usb_frame_header_size, usb_proto_version, magic_bytes,
  request, response, cancel, ping, pong, kind_code,
}
use nslibrary.Shared.Frame.Bytes.{same_bytes}

kind_code-kind_of : (n : ℕ) (k : FrameKind) → kind_of n ≡ some k → kind_code k ≡ n
unfolding kind_of
kind_code-kind_of n request e = ground arith
kind_code-kind_of n response e = ground arith
kind_code-kind_of n cancel e = ground arith
kind_code-kind_of n ping e = ground arith
kind_code-kind_of n pong e = ground arith

-- A guard that throws did not.
passed :
    {A : Type 0} (b : Bool) (code : FrameErrorCode) (r : Framed A) (a : A)
    → (if b then frame_error code else r) ≡ framed a
    → (b ≡ false) × (r ≡ framed a)
passed true code r a e = cc
passed false code r a e = (refl, e)

-- The guards on the lengths, after the kind.
lengths :
    (k : FrameKind) (bytes : List ℕ) (h : FrameHeader)
    → (if ltb usb_max_json_length (get_uint 4 16 bytes)
        then frame_error too_large
        else if ltb max_safe_integer (get_uint 8 24 bytes)
        then frame_error too_large
        else framed (decode_fields k bytes))
      ≡ framed h
    → (h ≡ decode_fields k bytes)
      × (get_uint 4 16 bytes ≤ usb_max_json_length)
      × (get_uint 8 24 bytes ≤ max_safe_integer)
lengths k bytes h e =
    let (json, e1) = passed (ltb usb_max_json_length (get_uint 4 16 bytes)) too_large _ h e in
    let (payload, e2) = passed (ltb max_safe_integer (get_uint 8 24 bytes)) too_large _ h e1 in
    (ground (arith, e2), ground (arith, json), ground (arith, payload))

-- Whatever the bytes, a header that decodes comes from at least 32 of them that begin with the
-- magic, has version 1 and the kind of its byte, and its lengths are within the limits.
pub decode_frame_header-limits :
    (bytes : List ℕ) (h : FrameHeader)
    → decode_frame_header bytes ≡ framed h
    → (usb_frame_header_size ≤ length bytes)
      × (same_bytes (take 4 bytes) magic_bytes ≡ true)
      × (h.version ≡ usb_proto_version)
      × (get_uint 1 6 bytes ≡ kind_code h.kind)
      × (h.json_length ≤ usb_max_json_length)
      × (h.payload_length ≤ max_safe_integer)
unfolding decode_frame_header decode_fields
decode_frame_header-limits bytes h e0 =
    let (long, e1) = passed (ltb (length bytes) 32) short_header _ h e0 in
    let (magic, e2) = passed (not (same_bytes (take 4 bytes) magic_bytes)) bad_magic _ h e1 in
    let (version, e3) = passed (not (get_uint 2 4 bytes == 1)) bad_version _ h e2 in
    elim (Option-cases (kind_of (get_uint 1 6 bytes))) [
      | inl unknown ↦ absurd (failed (rw unknown at e3))
      | inr (k, known) ↦
          let (same, json, payload) = lengths k bytes h (rw known at e3) in
          rw same (
            ground (arith, long),
            ground (arith, magic),
            ground (arith, version),
            sym (kind_code-kind_of (get_uint 1 6 bytes) k known),
            json,
            payload,
          )
    ]
  where
    failed : frame_error bad_kind ≡ framed h → ⊥
    failed e = cc
