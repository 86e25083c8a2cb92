-- ===== src/Shared/TitleId.antt =====
-- packages/shared/src/title-id.ts: title IDs, and what a file's name says of a title. A text is the
-- list of its characters' codes. A bigint is a natural number; `& ~0x800n`, `^ 0x1000n` and
-- `& ~0xfffn` clear a bit, turn a bit round and clear the low twelve bits.
pub mod Digits
pub mod Written
pub mod Kinds
pub mod FileName
mod Runs
use nslibrary.Common.{
  ℕ, zero, suc, ◌+◌, ◌-◌, ◌*◌, ◌/◌, ◌%◌, Bool, true, false, ◌&&◌, ◌||◌, not, Option, none, some,
  List, [], ◌∷◌, ◌++◌, ltb, leb, ◌==◌, if◌then◌else◌, length, take, drop, all,
}
use nslibrary.Common.Text.{to_upper, trim}
use nslibrary.Shared.Types.{ContentMetaType, application, patch, addon}

pub data TitleIdResult {ℓ} (A : Type ℓ) : Type ℓ where
  valid : A → TitleIdResult A
  -- `throw new Error(…)`
  rejected : TitleIdResult A

infixl 5 ◌>>=◌
abbrev pub ◌>>=◌ {ℓ κ} :
    {A : Type ℓ} {B : Type κ} → TitleIdResult A → (A → TitleIdResult B) → TitleIdResult B
valid a >>= f = f a
rejected >>= f = rejected

-- `[0-9A-F]`
unfoldable pub is_upper_hex : ℕ → Bool
is_upper_hex c = (leb 48 c && leb c 57) || (leb 65 c && leb c 70)

unfoldable pub is_title_id : List ℕ → Bool
unfolding is_upper_hex
is_title_id value = (length value == 16) && all is_upper_hex value

-- `replace(/^0x/i, "")`
unfoldable pub strip_0x : List ℕ → List ℕ
strip_0x (z ∷ x ∷ text) = if (z == 48) && ((x == 120) || (x == 88)) then text else z ∷ x ∷ text
strip_0x text = text

unfoldable pub normalize_title_id : List ℕ → TitleIdResult (List ℕ)
unfolding trim strip_0x to_upper is_title_id
normalize_title_id value =
    let hex = to_upper (strip_0x (trim value)) in
    if not (is_title_id hex) then rejected else valid hex

-- The value of an upper-case digit.
unfoldable pub hex_value : ℕ → ℕ
hex_value c = if leb c 57 then c - 48 else c - 55

-- `BigInt("0x" + digits)`, with the number that the digits before give.
unfoldable pub number_from : ℕ → List ℕ → ℕ
unfolding hex_value
number_from n [] = n
number_from n (c ∷ digits) = number_from (n * 16 + hex_value c) digits

unfoldable pub title_id_to_big_int : List ℕ → TitleIdResult ℕ
unfolding normalize_title_id number_from
title_id_to_big_int title_id = normalize_title_id title_id >>= λ hex. valid (number_from 0 hex)

-- 2 to the power of 64.
abbrev pub title_id_limit : ℕ
title_id_limit = 18446744073709551616

-- A digit of `toString(16).toUpperCase()`.
unfoldable pub hex_digit : ℕ → ℕ
hex_digit d = if ltb d 10 then 48 + d else 55 + d

-- The last `width` digits, which are all, padded with zeros, of a number that has no more.
unfoldable pub hex_digits : ℕ → ℕ → List ℕ
unfolding hex_digit
hex_digits zero value = []
hex_digits (suc width) value = hex_digits width (value / 16) ++ (hex_digit (value % 16) ∷ [])

unfoldable pub big_int_to_title_id : ℕ → TitleIdResult (List ℕ)
unfolding hex_digits
big_int_to_title_id value =
    if ltb (title_id_limit - 1) value then rejected else valid (hex_digits 16 value)

-- The type by the low twelve bits.
unfoldable pub type_of_low : ℕ → ContentMetaType
type_of_low low = if low == 0 then application else if low == 0x800 then patch else addon

unfoldable pub infer_type_from_title_id : List ℕ → TitleIdResult ContentMetaType
unfolding title_id_to_big_int type_of_low
infer_type_from_title_id title_id =
    title_id_to_big_int title_id >>= λ value. valid (type_of_low (value % 0x1000))

-- `value & ~0x800n`
unfoldable pub clear_patch_bit : ℕ → ℕ
clear_patch_bit value = if (value / 0x800) % 2 == 1 then value - 0x800 else value

-- `value ^ 0x1000n`
unfoldable pub flip_addon_bit : ℕ → ℕ
flip_addon_bit value = if (value / 0x1000) % 2 == 1 then value - 0x1000 else value + 0x1000

unfoldable pub application_id_for_patch : List ℕ → TitleIdResult (List ℕ)
unfolding title_id_to_big_int big_int_to_title_id clear_patch_bit
application_id_for_patch title_id =
    title_id_to_big_int title_id >>= λ value. big_int_to_title_id (clear_patch_bit value)

unfoldable pub guess_application_id_for_addon : List ℕ → TitleIdResult (List ℕ)
unfolding title_id_to_big_int big_int_to_title_id flip_addon_bit
guess_application_id_for_addon title_id = title_id_to_big_int title_id >>= λ value.
    big_int_to_title_id (flip_addon_bit value / 0x1000 * 0x1000)

pub record FilenameInfo : Type 0 where
  pub title_id : Option (List ℕ)
  pub version : Option ℕ

-- `[0-9A-Fa-f]`
unfoldable pub is_hex : ℕ → Bool
unfolding is_upper_hex
is_hex c = is_upper_hex c || (leb 97 c && leb c 102)

unfoldable pub is_digit : ℕ → Bool
is_digit c = leb 48 c && leb c 57

-- `\]` behind a match: the match, if the text goes on with a bracket.
unfoldable pub closed : List ℕ → List ℕ → Option (List ℕ)
closed [] found = none
closed (x ∷ text) found = if x == 93 then some found else none

-- `(0100[0-9A-Fa-f]{12})\]` at the start of a text.
unfoldable pub id_behind : List ℕ → Option (List ℕ)
unfolding is_hex closed
id_behind (a ∷ b ∷ c ∷ d ∷ text) =
    let digits = take 12 text in
    if (a == 48)
      && (b == 49)
      && (c == 48)
      && (d == 48)
      && (length digits == 12)
      && all is_hex digits
    then closed (drop 12 text) (a ∷ b ∷ c ∷ d ∷ digits)
    else none
id_behind _ = none

-- The first match of `\[(0100[0-9A-Fa-f]{12})\]`.
unfoldable pub find_id : List ℕ → Option (List ℕ)
unfolding id_behind
find_id [] = none
find_id (c ∷ text) =
    let rest = find_id text in
    if not (c == 91) then rest else elim (id_behind text) [ some id ↦ some id | none ↦ rest ]

-- The digits at the start of a text, and what stands behind them.
unfoldable pub digit_run : List ℕ → List ℕ × List ℕ
unfolding is_digit
digit_run [] = ([], [])
digit_run (c ∷ text) =
    let rest = digit_run text in if is_digit c then (c ∷ rest.0, rest.1) else ([], c ∷ text)

-- `v(\d{1,10})\]` at the start of a text, for both cases of the letter.
unfoldable pub version_behind : List ℕ → Option (List ℕ)
unfolding digit_run closed
version_behind [] = none
version_behind (v ∷ text) =
    let (digits, behind) = digit_run text in
    if ((v == 118) || (v == 86)) && leb 1 (length digits) && leb (length digits) 10
    then closed behind digits
    else none

-- The first match of `\[v(\d{1,10})\]`.
unfoldable pub find_version : List ℕ → Option (List ℕ)
unfolding version_behind
find_version [] = none
find_version (c ∷ text) =
    let rest = find_version text in
    if not (c == 91)
    then rest
    else elim (version_behind text) [ some digits ↦ some digits | none ↦ rest ]

-- `Number(digits)`, with the number that the digits before give.
unfoldable pub decimal_from : ℕ → List ℕ → ℕ
decimal_from n [] = n
decimal_from n (c ∷ digits) = decimal_from (n * 10 + (c - 48)) digits

-- `if (n <= 0xffffffff) info.version = n`
unfoldable pub version_of : Option (List ℕ) → Option ℕ
unfolding decimal_from
version_of none = none
version_of (some digits) =
    let n = decimal_from 0 digits in if leb n 0xffffffff then some n else none

unfoldable pub upper_id : Option (List ℕ) → Option (List ℕ)
unfolding to_upper
upper_id none = none
upper_id (some id) = some (to_upper id)

unfoldable pub parse_title_filename : List ℕ → FilenameInfo
unfolding find_id find_version version_of upper_id
parse_title_filename name = record {
  title_id = upper_id (find_id name);
  version = version_of (find_version name);
}
