-- ===== src/Formats/Binary.antt =====
-- packages/formats/src/binary.ts: numbers, magics and title IDs in a buffer of bytes. What a reader
-- returns is a value, a `FormatError` with its code (the text of the message is left out), or the
-- RangeError that a `Buffer` throws for an access outside it or a number that does not fit.
pub mod Laws
use nslibrary.Common.{
  ℕ, zero, suc, ◌+◌, ◌-◌, ◌*◌, ◌/◌, ◌%◌, Bool, ◌&&◌, List, [], ◌∷◌, ◌++◌, ltb, leb, ◌==◌,
  if◌then◌else◌, length, take, drop,
}
use nslibrary.Shared.Frame.{max_safe_integer}
use nslibrary.Shared.Frame.Bytes.{le, of_le, write, room}

pub data FormatErrorCode : Type 0 where
  bad_magic truncated invalid unsupported : FormatErrorCode

pub data Parsed {ℓ} (A : Type ℓ) : Type ℓ where
  parsed : A → Parsed A
  format_error : FormatErrorCode → Parsed A
  range_error : Parsed A

infixl 5 ◌>>=◌ ◌>>◌
abbrev pub ◌>>=◌ {ℓ κ} : {A : Type ℓ} {B : Type κ} → Parsed A → (A → Parsed B) → Parsed B
parsed a >>= f = f a
format_error code >>= f = format_error code
range_error >>= f = range_error

abbrev pub ◌>>◌ {ℓ} : {B : Type ℓ} → Parsed (Unit {0}) → Parsed B → Parsed B
m >> k = m >>= λ _. k

-- `if (test) throw new FormatError(code)`
abbrev pub throw_if : Bool → FormatErrorCode → Parsed (Unit {0})
throw_if test code = if test then format_error code else parsed tt

-- `buf.readUInt32LE(offset)` and the like, of `size` bytes.
unfoldable pub read_uint : ℕ → ℕ → List ℕ → Parsed ℕ
unfolding of_le
read_uint size offset buf =
    if leb (offset + size) (length buf)
    then parsed (of_le (take size (drop offset buf)))
    else range_error

-- `buf.writeUInt32LE(value, offset)` and the like, of `size` bytes.
unfoldable pub write_uint : ℕ → ℕ → ℕ → List ℕ → Parsed (List ℕ)
unfolding write le
write_uint size offset value buf =
    if ltb value (room size) && leb (offset + size) (length buf)
    then parsed (write offset (le size value) buf)
    else range_error

unfoldable pub read_u64 : List ℕ → ℕ → Parsed ℕ
unfolding read_uint
read_u64 buf offset = do
  value ← read_uint 8 offset buf
  throw_if (ltb max_safe_integer value) invalid
  parsed value

-- latin1: a character for each byte.
unfoldable pub read_magic : List ℕ → ℕ → ℕ → List ℕ
read_magic buf offset len = take len (drop offset buf)

-- A digit of `toString(16).toUpperCase()`.
unfoldable pub hex_digit : ℕ → ℕ
hex_digit d = if ltb d 10 then 48 + d else 55 + d

-- The last `width` hexadecimal digits of a number, which is all of them, padded with zeros, where
-- it is below 16 to the power of `width`.
unfoldable pub hex_digits : ℕ → ℕ → List ℕ
unfolding hex_digit
hex_digits zero value = []
hex_digits (suc width) value = hex_digits width (value / 16) ++ (hex_digit (value % 16) ∷ [])

unfoldable pub read_title_id : List ℕ → ℕ → Parsed (List ℕ)
unfolding hex_digits read_uint
read_title_id buf offset = do value ← read_uint 8 offset buf; parsed (hex_digits 16 value)

unfoldable pub align_up : ℕ → ℕ → ℕ
align_up value alignment =
    if alignment == 0 then value else (value + (alignment - 1)) / alignment * alignment
