-- ===== src/Shared/TitleId/Runs.antt =====
-- Title IDs and file names, and the theorems of packages/shared/src/title-id.ts at them.
use nslibrary.Common.{inl, inr, [], ℕ, ◌≡◌, ◌<◌, refl, none, some, List}
use nslibrary.Common.Text.{codes, to_upper, trim, trim_start, trim_end}
use nslibrary.Shared.Types.{patch}
use nslibrary.Shared.TitleId.{
  valid, rejected, title_id_to_big_int, title_id_limit, big_int_to_title_id, normalize_title_id,
  strip_0x, is_title_id, is_upper_hex, number_from, hex_value, hex_digits, hex_digit,
  infer_type_from_title_id, type_of_low, guess_application_id_for_addon, flip_addon_bit,
  parse_title_filename, find_id, id_behind, closed, find_version, version_behind, digit_run,
  is_digit, is_hex, decimal_from, version_of, upper_id,
}
use nslibrary.Shared.TitleId.Written.{title_id_to_big_int-place_value}

abbrev update_id : List ℕ
update_id = codes " 0x0100abcd00000800"

abbrev update_value : ℕ
update_value = 0x0100ABCD00000800

update_number : title_id_to_big_int update_id ≡ valid update_value
unfolding title_id_to_big_int normalize_title_id trim trim_start trim_end strip_0x to_upper
    is_title_id is_upper_hex number_from hex_value
update_number = refl

too_short : title_id_to_big_int (codes "0100") ≡ rejected
unfolding title_id_to_big_int normalize_title_id trim trim_start trim_end strip_0x to_upper
    is_title_id is_upper_hex number_from hex_value
too_short = refl

update_kind : infer_type_from_title_id update_id ≡ valid patch
unfolding infer_type_from_title_id title_id_to_big_int normalize_title_id trim trim_start trim_end
    strip_0x to_upper is_title_id is_upper_hex number_from hex_value type_of_low
update_kind = refl

-- A DLC with the bit set.
dlc_base :
    guess_application_id_for_addon (codes "0100ABCD00001001") ≡ valid (codes "0100ABCD00000000")
unfolding guess_application_id_for_addon title_id_to_big_int normalize_title_id trim trim_start
    trim_end strip_0x to_upper is_title_id is_upper_hex number_from hex_value flip_addon_bit
    big_int_to_title_id hex_digits hex_digit
dlc_base = refl

title_id_to_big_int-place_value_example :
    (title_id_to_big_int update_id ≡ valid update_value)
    × (update_value < title_id_limit)
    × (big_int_to_title_id update_value ≡ valid (codes "0100ABCD00000800"))
title_id_to_big_int-place_value_example =
    title_id_to_big_int-place_value (codes " ") (codes "0x") (codes "0100abcd00000800") [] refl
      (inr (inl refl)) refl refl refl

unversioned :
    parse_title_filename (codes "Game [0100abcd00000000] (US).nsp")
    ≡ record { title_id = some (codes "0100ABCD00000000"); version = none }
unfolding parse_title_filename find_id id_behind closed find_version version_behind digit_run
    is_digit is_hex is_upper_hex decimal_from version_of upper_id to_upper
unversioned = refl
