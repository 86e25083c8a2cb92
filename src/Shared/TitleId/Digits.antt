-- ===== src/Shared/TitleId/Digits.antt =====
-- Title IDs as numbers and as digits, for packages/shared/src/title-id.ts.
use nslibrary.Common.{
  ℕ, zero, suc, ◌+◌, ◌-◌, ◌*◌, ◌/◌, ◌%◌, ◌≤◌, ◌<◌, ◌≡◌, refl, sym, ap, ◌∙◌, Bool, true, false, ◌&&◌,
  not, List, [], ◌∷◌, ◌++◌, arith, ltb, ◌==◌, if◌then◌else◌, length, all, length-append, append-nil,
  append_assoc, subst, Bool-cases, inl, inr, ==_iff,
}
use native.Mathlib.Nat.{mul-le-mul_right, mul_assoc}
use nslibrary.Common.Text.{to_upper, upper_code, trim, trim_start, trim_end, is_space}
use nslibrary.Shared.TitleId.{
  valid, rejected, ◌>>=◌, is_upper_hex, is_title_id, strip_0x, normalize_title_id, hex_value,
  number_from, title_id_to_big_int, title_id_limit, hex_digit, hex_digits, big_int_to_title_id,
}

abbrev pub IsDigits : List ℕ → Type 0
IsDigits text = all is_upper_hex text ≡ true

-- 16 to the power of `width`.
abbrev pub hex_room : ℕ → ℕ
hex_room zero = 1
hex_room (suc width) = 16 * hex_room width

length-hex_digits : (width value : ℕ) → length (hex_digits width value) ≡ width
unfolding hex_digits
length-hex_digits zero value = refl
length-hex_digits (suc width) value = omega (
  arith,
  length-hex_digits width (value / 16),
  length-append (hex_digits width (value / 16)) (hex_digit (value % 16) ∷ []),
)

hex_digit-is_upper_hex : (d : ℕ) → d < 16 → is_upper_hex (hex_digit d) ≡ true
unfolding is_upper_hex hex_digit
hex_digit-is_upper_hex d h = ground arith

hex_value-hex_digit : (d : ℕ) → d < 16 → hex_value (hex_digit d) ≡ d
unfolding hex_value hex_digit
hex_value-hex_digit d h = ground arith

all-append : (xs ys : List ℕ) → IsDigits xs → IsDigits ys → IsDigits (xs ++ ys)
all-append [] ys h k = k
all-append (x ∷ xs) ys h k = ground (arith, all-append xs ys)

hex_digits-IsDigits : (width value : ℕ) → IsDigits (hex_digits width value)
unfolding hex_digits
hex_digits-IsDigits zero value = refl
hex_digits-IsDigits (suc width) value =
    all-append (hex_digits width (value / 16)) (hex_digit (value % 16) ∷ [])
      (hex_digits-IsDigits width (value / 16)) (ground (arith, hex_digit-is_upper_hex (value % 16)))

number_from-append :
    (n : ℕ) (xs ys : List ℕ) → number_from n (xs ++ ys) ≡ number_from (number_from n xs) ys
unfolding number_from
number_from-append n [] ys = refl
number_from-append n (x ∷ xs) ys = number_from-append (n * 16 + hex_value x) xs ys

number_from-hex_digits :
    (width value : ℕ) → value < hex_room width → number_from 0 (hex_digits width value) ≡ value
unfolding number_from hex_digits
number_from-hex_digits zero value h = omega arith
number_from-hex_digits (suc width) value h =
    number_from-append 0 (hex_digits width (value / 16)) (hex_digit (value % 16) ∷ [])
    ∙ omega (
      arith,
      number_from-hex_digits width (value / 16) (omega arith),
      hex_value-hex_digit (value % 16) (omega arith),
    )

upper_hex_range : (c : ℕ) → is_upper_hex c ≡ true → (48 ≤ c) × (c ≤ 70)
unfolding is_upper_hex
upper_hex_range c h = ground (arith, h)

no_space : (c : ℕ) → 48 ≤ c → c ≤ 70 → is_space c ≡ false
no_space c low high = ground arith

-- A canonical title ID goes through `normalizeTitleId` as it is.
digit-kept :
    (c : ℕ)
    → is_upper_hex c ≡ true
    → (is_space c ≡ false) × (upper_code c ≡ c) × ((c == 120) ≡ false) × ((c == 88) ≡ false)
unfolding upper_code
digit-kept c h =
    let (low, high) = upper_hex_range c h in
    (no_space c low high, ground (arith, low, high), ground (arith, high), ground (arith, high))

head_tail : (c : ℕ) (text : List ℕ) → IsDigits (c ∷ text) → (is_upper_hex c ≡ true) × IsDigits text
head_tail c text h = ground (arith, h)

trim_start-digits : (text : List ℕ) → IsDigits text → trim_start text ≡ text
unfolding trim_start
trim_start-digits [] h = refl
trim_start-digits (c ∷ text) h = rw (digit-kept c (head_tail c text h).0).0 refl

trim_end-digits : (text : List ℕ) → IsDigits text → trim_end text ≡ text
unfolding trim_end
trim_end-digits [] h = refl
trim_end-digits (c ∷ []) h = rw (digit-kept c (head_tail c [] h).0).0 refl
trim_end-digits (c ∷ d ∷ text) h =
    rw (trim_end-digits (d ∷ text) (head_tail c (d ∷ text) h).1, trim_end) refl

to_upper-digits : (text : List ℕ) → IsDigits text → to_upper text ≡ text
unfolding to_upper
to_upper-digits [] h = refl
to_upper-digits (c ∷ text) h =
    let (here, there) = head_tail c text h in
    rw ((digit-kept c here).1) (ap (◌∷◌ c) (to_upper-digits text there))

strip_0x-digits : (text : List ℕ) → IsDigits text → strip_0x text ≡ text
unfolding strip_0x
strip_0x-digits [] h = refl
strip_0x-digits (c ∷ []) h = refl
strip_0x-digits (c ∷ d ∷ text) h =
    let (_, _, x, big_x) = digit-kept d (head_tail d text (head_tail c (d ∷ text) h).1).0 in
    ground (arith, x, big_x)

pub normalize_title_id-digits :
    (text : List ℕ) → length text ≡ 16 → IsDigits text → normalize_title_id text ≡ valid text
unfolding normalize_title_id trim is_title_id
normalize_title_id-digits text len h =
    rw
      (
        trim_start-digits text h,
        trim_end-digits text h,
        strip_0x-digits text h,
        to_upper-digits text h,
        len,
        h,
      )
      refl

hex_digit-hex_value :
    (c : ℕ) → is_upper_hex c ≡ true → (hex_digit (hex_value c) ≡ c) × (hex_value c < 16)
unfolding is_upper_hex hex_digit hex_value
hex_digit-hex_value c h = ground (arith, h)

-- The digits of the number that digits stand for are these digits, behind those of what came before.
hex_digits-number_from :
    (width n : ℕ) (text : List ℕ)
    → IsDigits text
    → hex_digits (width + length text) (number_from n text) ≡ hex_digits width n ++ text
unfolding number_from hex_digits
hex_digits-number_from width n [] h =
    let e : width + 0 ≡ width = omega arith in rw (e, append-nil) refl
hex_digits-number_from width n (c ∷ text) h =
    let (here, there) = head_tail c text h in
    let (back, small) = hex_digit-hex_value c here in
    let longer : width + suc (length text) ≡ suc width + length text = omega arith in
    let quotient : (n * 16 + hex_value c) / 16 ≡ n = omega (arith, small) in
    let digit : (n * 16 + hex_value c) % 16 ≡ hex_value c = omega (arith, small) in
    rw longer (
      hex_digits-number_from (suc width) (n * 16 + hex_value c) text there
      ∙ rw (hex_digits, quotient, digit, back) (append_assoc (hex_digits width n) (c ∷ []) text))

number_from-lt :
    (n : ℕ) (text : List ℕ) → IsDigits text → number_from n text < suc n * hex_room (length text)
unfolding number_from
number_from-lt n [] h = omega arith
number_from-lt n (c ∷ text) h =
    let (here, there) = head_tail c text h in
    let (_, small) = hex_digit-hex_value c here in
    let rest = number_from-lt (n * 16 + hex_value c) text there in
    let step : suc (n * 16 + hex_value c) * hex_room (length text)
        ≤ suc n * 16 * hex_room (length text) =
      mul-le-mul_right (hex_room (length text)) (omega (arith, small)) in
    omega (arith, rest, step, mul_assoc (suc n) 16 (hex_room (length text)))

both : (a b : Bool) → (a && b) ≡ true → (a ≡ true) × (b ≡ true)
both a b h = ground (arith, h)

valid-inj : {A : Type 0} {a b : A} → valid a ≡ valid b → a ≡ b
valid-inj h = cc

-- What `titleIdToBigInt` accepts.
pub title_id_to_big_int-IsDigits :
    (text : List ℕ) {value : ℕ}
    → title_id_to_big_int text ≡ valid value
    → (hex : List ℕ) × (normalize_title_id text ≡ valid hex)
      × (length hex ≡ 16)
      × IsDigits hex
      × (number_from 0 hex ≡ value)
unfolding title_id_to_big_int normalize_title_id is_title_id
title_id_to_big_int-IsDigits text h = accepted (to_upper (strip_0x (trim text))) h
  where
    accepted :
        (hex : List ℕ) {value : ℕ}
        → ((if not (is_title_id hex) then rejected else valid hex) >>= λ digits.
            valid (number_from 0 digits))
          ≡ valid value
        → (hex' : List ℕ) × ((if not (is_title_id hex) then rejected else valid hex) ≡ valid hex')
          × (length hex' ≡ 16)
          × IsDigits hex'
          × (number_from 0 hex' ≡ value)
    accepted hex e = elim (Bool-cases (is_title_id hex)) [
      | inl ok ↦
          let (len, digits) = both (length hex == 16) (all is_upper_hex hex) ok in
          let number : valid (number_from 0 hex) ≡ valid _ = rw ok at e in
          (hex, rw ok refl, (==_iff (length hex) 16).0 len, digits, valid-inj number)
      | inr bad ↦ let no_value = rw bad at e in cc
    ]

pub big_int_to_title_id-digits :
    (value : ℕ) → value < title_id_limit → big_int_to_title_id value ≡ valid (hex_digits 16 value)
unfolding big_int_to_title_id
big_int_to_title_id-digits value h =
    let small : ltb (title_id_limit - 1) value ≡ false = ground (arith, h) in rw small refl

limit :
    (hex : List ℕ) {value : ℕ}
    → length hex ≡ 16
    → value < 1 * hex_room (length hex)
    → value < title_id_limit
limit hex len h = let bound = rw len at h in omega (arith, bound)

written_as : (hex : List ℕ) → IsDigits hex → hex_digits (length hex) (number_from 0 hex) ≡ hex
unfolding hex_digits
written_as hex digits =
    let e : 0 + length hex ≡ length hex = omega arith in
    rw (← e) (hex_digits-number_from 0 0 hex digits)

-- A number that a text is read as is below 2^64 and is written as the canonical form of the text.
pub big_int_to_title_id-title_id_to_big_int :
    (text : List ℕ) {value : ℕ}
    → title_id_to_big_int text ≡ valid value
    → (value < title_id_limit) × (big_int_to_title_id value ≡ normalize_title_id text)
big_int_to_title_id-title_id_to_big_int text {value} h =
    let (hex, normal, len, digits, number) = title_id_to_big_int-IsDigits text h in
    let bound = number_from-lt 0 hex digits in
    let small : value < title_id_limit =
      limit hex len (subst (λ (n : ℕ). n < 1 * hex_room (length hex)) number bound) in
    (
      small,
      big_int_to_title_id-digits value small
          ∙ ap valid (ap (hex_digits 16) (sym number) ∙ rw (← len) (written_as hex digits))
          ∙ sym normal,
    )

-- A number below 2^64 comes back from its title ID.
pub title_id_to_big_int-hex_digits :
    (value : ℕ) → value < title_id_limit → title_id_to_big_int (hex_digits 16 value) ≡ valid value
unfolding title_id_to_big_int
title_id_to_big_int-hex_digits value h =
    let normal =
      normalize_title_id-digits (hex_digits 16 value) (length-hex_digits 16 value)
        (hex_digits-IsDigits 16 value) in
    ap (λ r. r >>= λ hex. valid (number_from 0 hex)) normal
    ∙ ap valid (number_from-hex_digits 16 value h)
