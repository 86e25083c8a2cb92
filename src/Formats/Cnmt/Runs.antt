-- ===== src/Formats/Cnmt/Runs.antt =====
-- The theorem of packages/formats/src/cnmt.ts at a header that promises a record which is missing.
use nslibrary.Common.{ℕ, ◌≡◌, refl, List, ◌∷◌, ◌++◌, replicate}
use nslibrary.Shared.Frame.Bytes.{of_le}
use nslibrary.Formats.Binary.{
  format_error, truncated, read_uint, read_title_id, hex_digits, hex_digit,
}
use nslibrary.Formats.Cnmt.{parse_cnmt}

-- One record is announced at 0x10.
abbrev meta : List ℕ
meta = replicate 16 0 ++ (1 ∷ replicate 15 0)

cut_short : parse_cnmt meta ≡ format_error truncated
unfolding parse_cnmt read_title_id read_uint hex_digits hex_digit of_le
cut_short = refl
