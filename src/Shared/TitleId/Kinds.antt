-- ===== src/Shared/TitleId/Kinds.antt =====
-- The types of title IDs and the base games that packages/shared/src/title-id.ts derives.
use nslibrary.Common.{ℕ, ◌-◌, ◌*◌, ◌/◌, ◌%◌, ◌<◌, ◌≡◌, ap, ◌∙◌, arith, List}
use nslibrary.Shared.Types.{application, patch}
use nslibrary.Shared.TitleId.{
  valid, ◌>>=◌, title_id_to_big_int, title_id_limit, big_int_to_title_id, hex_digits, type_of_low,
  infer_type_from_title_id, clear_patch_bit, flip_addon_bit, application_id_for_patch,
  guess_application_id_for_addon,
}
use nslibrary.Shared.TitleId.Digits.{
  big_int_to_title_id-title_id_to_big_int, big_int_to_title_id-digits,
  title_id_to_big_int-hex_digits,
}

type_of_low-patch : (low : ℕ) → type_of_low low ≡ patch → low ≡ 0x800
unfolding type_of_low
type_of_low-patch low h = ground (arith, h)

type_of_low-zero : (low : ℕ) → low ≡ 0 → type_of_low low ≡ application
unfolding type_of_low
type_of_low-zero low h = ground (arith, h)

valid-inj : {A : Type 0} {a b : A} → valid a ≡ valid b → a ≡ b
valid-inj h = cc

clear_patch_bit-patch : (value : ℕ) → value % 0x1000 ≡ 0x800 → clear_patch_bit value ≡ value - 0x800
unfolding clear_patch_bit
clear_patch_bit-patch value h = ground (arith, h)

flip_addon_bit-lt : (value : ℕ) → value < title_id_limit → flip_addon_bit value < title_id_limit
unfolding flip_addon_bit
flip_addon_bit-lt value h = ground (arith, h)

-- The ID of a number that is a multiple of 0x1000 is that of a base game.
infer-base :
    (value : ℕ)
    → value < title_id_limit
    → value % 0x1000 ≡ 0
    → infer_type_from_title_id (hex_digits 16 value) ≡ valid application
unfolding infer_type_from_title_id
infer-base value h low =
    ap (λ r. r >>= λ v. valid (type_of_low (v % 0x1000))) (title_id_to_big_int-hex_digits value h)
    ∙ ap valid (type_of_low-zero (value % 0x1000) low)

-- An update's ID has a base ID: it is the ID 0x800 below, and that is a base game's ID.
pub application_id_for_patch-IsBase :
    (text : List ℕ) {value : ℕ}
    → title_id_to_big_int text ≡ valid value
    → infer_type_from_title_id text ≡ valid patch
    → (id : List ℕ) × (application_id_for_patch text ≡ valid id)
      × (title_id_to_big_int id ≡ valid (value - 0x800))
      × (infer_type_from_title_id id ≡ valid application)
unfolding infer_type_from_title_id application_id_for_patch
application_id_for_patch-IsBase text {value} h kind =
    let (small, _) = big_int_to_title_id-title_id_to_big_int text h in
    let inferred : valid (type_of_low (value % 0x1000)) ≡ valid patch = rw h at kind in
    let low = type_of_low-patch (value % 0x1000) (valid-inj inferred) in
    let base = clear_patch_bit-patch value low in
    let below : value - 0x800 < title_id_limit = omega (arith, small) in
    (
      hex_digits 16 (value - 0x800),
      ap (λ r. r >>= λ v. big_int_to_title_id (clear_patch_bit v)) h
          ∙ ap big_int_to_title_id base
          ∙ big_int_to_title_id-digits (value - 0x800) below,
      title_id_to_big_int-hex_digits (value - 0x800) below,
      infer-base (value - 0x800) below (omega (arith, low)),
    )

-- Whatever title ID is taken for that of a DLC, the guessed ID is a base game's ID.
pub guess_application_id_for_addon-IsBase :
    (text : List ℕ) {value : ℕ}
    → title_id_to_big_int text ≡ valid value
    → (id : List ℕ) × (guess_application_id_for_addon text ≡ valid id)
      × (infer_type_from_title_id id ≡ valid application)
unfolding guess_application_id_for_addon
guess_application_id_for_addon-IsBase text {value} h =
    let (small, _) = big_int_to_title_id-title_id_to_big_int text h in
    let base : ℕ = flip_addon_bit value / 0x1000 * 0x1000 in
    let below : base < title_id_limit = omega (arith, flip_addon_bit-lt value small) in
    (
      hex_digits 16 base,
      ap (λ r. r >>= λ v. big_int_to_title_id (flip_addon_bit v / 0x1000 * 0x1000)) h
          ∙ big_int_to_title_id-digits base below,
      infer-base base below (omega arith),
    )
