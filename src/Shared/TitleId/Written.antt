-- ===== src/Shared/TitleId/Written.antt =====
-- The texts that `titleIdToBigInt` of packages/shared/src/title-id.ts reads, and the number of each.
use nslibrary.Common.{
  ℕ, ◌+◌, ◌-◌, ◌*◌, ◌<◌, ◌≡◌, refl, ap, ◌∙◌, sym, Bool, true, false, ◌&&◌, ◌||◌, not, List, [], ◌∷◌,
  ◌++◌, map, arith, ltb, ◌==◌, if◌then◌else◌, length, all, inl, inr, ◌⊎◌, length-map, append-nil,
}
use native.Mathlib.Nat.{mul_assoc}
use nslibrary.Common.Text.{codes, to_upper, upper_code, trim, trim_start, trim_end, is_space}
use nslibrary.Shared.TitleId.{
  valid, ◌>>=◌, is_upper_hex, is_title_id, strip_0x, normalize_title_id, hex_value, number_from,
  title_id_to_big_int, title_id_limit, big_int_to_title_id,
}
use nslibrary.Shared.TitleId.Digits.{IsDigits, hex_room, big_int_to_title_id-title_id_to_big_int}

-- A hexadecimal digit of either case, its capital form and its value.
abbrev pub is_any_hex : ℕ → Bool
is_any_hex c = (ltb 47 c && ltb c 58) || (ltb 64 c && ltb c 71) || (ltb 96 c && ltb c 103)

abbrev pub capital : ℕ → ℕ
capital c = if ltb c 97 then c else c - 32

abbrev pub digit_value : ℕ → ℕ
digit_value c = if ltb c 58 then c - 48 else if ltb c 71 then c - 55 else c - 87

-- The number that digits write: each counts by its distance from the end.
abbrev pub place_value : List ℕ → ℕ
place_value [] = 0
place_value (c ∷ digits) = digit_value c * hex_room (length digits) + place_value digits

abbrev pub IsPrefix : List ℕ → Type 0
IsPrefix prefix = (prefix ≡ []) ⊎ ((prefix ≡ codes "0x") ⊎ (prefix ≡ codes "0X"))

all-cons :
    (P : ℕ → Bool) (c : ℕ) (text : List ℕ)
    → all P (c ∷ text) ≡ true
    → (P c ≡ true) × (all P text ≡ true)
all-cons P c text h = ground (arith, h)

trim_start-spaces :
    (before text : List ℕ)
    → all is_space before ≡ true
    → trim_start (before ++ text) ≡ trim_start text
unfolding trim_start
trim_start-spaces [] text h = refl
trim_start-spaces (c ∷ before) text h =
    let (here, there) = all-cons is_space c before h in
    rw here (trim_start-spaces before text there)

trim_end-spaces : (after : List ℕ) → all is_space after ≡ true → trim_end after ≡ []
unfolding trim_end
trim_end-spaces [] h = refl
trim_end-spaces (c ∷ after) h =
    let (here, there) = all-cons is_space c after h in rw (trim_end-spaces after there, here) refl

-- No character of the text is white space.
abbrev IsSolid : List ℕ → Type 0
IsSolid text = all (λ c. not (is_space c)) text ≡ true

IsSolid-cons : (c : ℕ) (text : List ℕ) → IsSolid (c ∷ text) → (is_space c ≡ false) × IsSolid text
IsSolid-cons c text h = apart (is_space c) _ h
  where
    apart : (a b : Bool) → (not a && b) ≡ true → (a ≡ false) × (b ≡ true)
    apart true b e = cc
    apart false b e = (refl, e)

trim_end-solid :
    (text after : List ℕ)
    → IsSolid text
    → all is_space after ≡ true
    → trim_end (text ++ after) ≡ text
unfolding trim_end
trim_end-solid [] after h k = trim_end-spaces after k
trim_end-solid (c ∷ []) after h k =
    let solid = (IsSolid-cons c [] h).0 in rw (trim_end-spaces after k, solid) refl
trim_end-solid (c ∷ d ∷ text) after h k =
    let rest = trim_end-solid (d ∷ text) after (IsSolid-cons c (d ∷ text) h).1 k in
    rw (rest, trim_end) refl

trim_start-solid :
    (c : ℕ) (text after : List ℕ)
    → IsSolid (c ∷ text)
    → trim_start (c ∷ text ++ after) ≡ c ∷ text ++ after
unfolding trim_start
trim_start-solid c text after h = let solid = (IsSolid-cons c text h).0 in rw solid refl

any_hex-facts :
    (c : ℕ)
    → is_any_hex c ≡ true
    → (not (is_space c) ≡ true)
      × (upper_code c ≡ capital c)
      × (is_upper_hex (capital c) ≡ true)
      × (hex_value (capital c) ≡ digit_value c)
      × ((c == 120) ≡ false)
      × ((c == 88) ≡ false)
unfolding upper_code is_upper_hex hex_value
any_hex-facts c h = ground (arith, h)

digits-IsSolid : (digits : List ℕ) → all is_any_hex digits ≡ true → IsSolid digits
digits-IsSolid [] h = refl
digits-IsSolid (c ∷ digits) h =
    let (here, there) = all-cons is_any_hex c digits h in
    rw ((any_hex-facts c here).0) (digits-IsSolid digits there)

to_upper-capital :
    (digits : List ℕ) → all is_any_hex digits ≡ true → to_upper digits ≡ map capital digits
unfolding to_upper
to_upper-capital [] h = refl
to_upper-capital (c ∷ digits) h =
    let (here, there) = all-cons is_any_hex c digits h in
    let up = (any_hex-facts c here).1 in
    rw up (ap (◌∷◌ (capital c)) (to_upper-capital digits there))

capital-IsDigits : (digits : List ℕ) → all is_any_hex digits ≡ true → IsDigits (map capital digits)
capital-IsDigits [] h = refl
capital-IsDigits (c ∷ digits) h =
    let (here, there) = all-cons is_any_hex c digits h in
    let upper = (any_hex-facts c here).2 in rw upper (capital-IsDigits digits there)

number_from-place_value :
    (n : ℕ) (digits : List ℕ)
    → all is_any_hex digits ≡ true
    → number_from n (map capital digits) ≡ n * hex_room (length digits) + place_value digits
unfolding number_from
number_from-place_value n [] h = omega arith
number_from-place_value n (c ∷ digits) h =
    let (here, there) = all-cons is_any_hex c digits h in
    let value = (any_hex-facts c here).3 in
    ap (λ v. number_from (n * 16 + v) (map capital digits)) value
    ∙ number_from-place_value (n * 16 + digit_value c) digits there
    ∙ omega (arith, mul_assoc n 16 (hex_room (length digits)))

strip_0x-digits : (digits : List ℕ) → all is_any_hex digits ≡ true → strip_0x digits ≡ digits
unfolding strip_0x
strip_0x-digits [] h = refl
strip_0x-digits (c ∷ []) h = refl
strip_0x-digits (c ∷ d ∷ digits) h =
    let (_, _, _, _, small, big) =
      any_hex-facts d (all-cons is_any_hex d digits (all-cons is_any_hex c (d ∷ digits) h).1).0 in
    ground (arith, small, big)

strip_0x-prefix :
    (prefix digits : List ℕ)
    → IsPrefix prefix
    → all is_any_hex digits ≡ true
    → strip_0x (prefix ++ digits) ≡ digits
unfolding strip_0x
strip_0x-prefix prefix digits (inl none) h = rw none (strip_0x-digits digits h)
strip_0x-prefix prefix digits (inr (inl small)) h = rw small refl
strip_0x-prefix prefix digits (inr (inr big)) h = rw big refl

prefix-IsSolid :
    (prefix digits : List ℕ)
    → IsPrefix prefix
    → all is_any_hex digits ≡ true
    → IsSolid (prefix ++ digits)
prefix-IsSolid prefix digits (inl none) h = rw none (digits-IsSolid digits h)
prefix-IsSolid prefix digits (inr (inl small)) h = rw small (digits-IsSolid digits h)
prefix-IsSolid prefix digits (inr (inr big)) h = rw big (digits-IsSolid digits h)

trim-solid :
    (before text after : List ℕ)
    → all is_space before ≡ true
    → IsSolid text
    → all is_space after ≡ true
    → trim (before ++ (text ++ after)) ≡ text
unfolding trim
trim-solid before [] after h k l = ap trim_end (trim_start-spaces before after h ∙ no_text after l)
  where
    no_text : (spaces : List ℕ) → all is_space spaces ≡ true → trim_start spaces ≡ []
    no_text spaces e = ap trim_start (sym (append-nil spaces)) ∙ trim_start-spaces spaces [] e
trim-solid before (c ∷ text) after h k l =
    ap trim_end (trim_start-spaces before (c ∷ text ++ after) h ∙ trim_start-solid c text after k)
    ∙ trim_end-solid (c ∷ text) after k l

normalize_title_id-written :
    (text digits : List ℕ)
    → length digits ≡ 16
    → all is_any_hex digits ≡ true
    → strip_0x (trim text) ≡ digits
    → normalize_title_id text ≡ valid (map capital digits)
unfolding normalize_title_id is_title_id
normalize_title_id-written text digits len h e =
    rw (e, to_upper-capital digits h, length-map capital digits, len, capital-IsDigits digits h)
      refl

-- A text of sixteen hexadecimal digits of either case, with white space around and with 0x or 0X in
-- front or without, is read as the number that the digits write, which is below 2^64; and that
-- number is written as the sixteen digits in capital letters.
pub title_id_to_big_int-place_value :
    (before prefix digits after : List ℕ)
    → all is_space before ≡ true
    → IsPrefix prefix
    → length digits ≡ 16
    → all is_any_hex digits ≡ true
    → all is_space after ≡ true
    → (title_id_to_big_int (before ++ ((prefix ++ digits) ++ after)) ≡ valid (place_value digits))
      × (place_value digits < title_id_limit)
      × (big_int_to_title_id (place_value digits) ≡ valid (map capital digits))
title_id_to_big_int-place_value before prefix digits after b p len h a =
    let text = before ++ ((prefix ++ digits) ++ after) in
    let normal : normalize_title_id text ≡ valid (map capital digits) =
      normalize_title_id-written text digits len h (
        ap strip_0x
          (trim-solid before (prefix ++ digits) after b (prefix-IsSolid prefix digits p h) a)
        ∙ strip_0x-prefix prefix digits p h) in
    let number : title_id_to_big_int text ≡ valid (place_value digits) =
      unfold title_id_to_big_int in
      ap (λ r. r >>= λ hex. valid (number_from 0 hex)) normal
      ∙ ap valid (number_from-place_value 0 digits h ∙ omega arith) in
    let (small, back) = big_int_to_title_id-title_id_to_big_int text number in
    (number, small, back ∙ normal)
