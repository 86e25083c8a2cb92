-- ===== src/Formats/Binary/Laws.antt =====
-- Fields at a known place of a buffer, for packages/formats/src/binary.ts.
use nslibrary.Common.{
  ◌≢◌, Bool, ℕ, zero, suc, ◌+◌, ◌-◌, ◌/◌, ◌%◌, ◌≤◌, ◌<◌, ◌≡◌, refl, ap, ◌∙◌, List, [], ◌∷◌, ◌++◌,
  arith, length, take, drop, replicate, length-append, le→leb, lt→ltb, true, false, ◌==◌,
  if◌then◌else◌,
}
use native.Mathlib.Nat.{mul-mod_left}
use nslibrary.Shared.Frame.Bytes.{le, of_le, write, room}
use nslibrary.Formats.Binary.{
  Parsed, parsed, format_error, range_error, FormatErrorCode, read_uint, write_uint, align_up,
  ◌>>=◌, ◌>>◌, throw_if,
}

pub drop-append_past {ℓ} :
    {A : Type ℓ} (pre : List A) (k : ℕ) (xs : List A)
    → drop (length pre + k) (pre ++ xs) ≡ drop k xs
drop-append_past [] k xs = ap (λ n. drop n xs) (omega arith)
drop-append_past (p ∷ pre) k xs =
    let step : suc (length pre) + k ≡ suc (length pre + k) = omega arith in
    rw step (drop-append_past pre k xs)

-- Writing past a first part leaves it alone.
pub write-append_past :
    (pre : List ℕ) (k : ℕ) (bytes xs : List ℕ)
    → write (length pre + k) bytes (pre ++ xs) ≡ pre ++ write k bytes xs
unfolding write
write-append_past [] k bytes xs = ap (λ n. write n bytes xs) (omega arith)
write-append_past (p ∷ pre) k bytes xs =
    let step : suc (length pre) + k ≡ suc (length pre + k) = omega arith in
    rw step (ap (◌∷◌ p) (write-append_past pre k bytes xs))

-- Writing over as many zeros as there are bytes to write, or more.
pub write-replicate :
    (bytes : List ℕ) (m : ℕ)
    → length bytes ≤ m
    → write 0 bytes (replicate m 0) ≡ bytes ++ replicate (m - length bytes) 0
unfolding write
write-replicate [] zero h = refl
write-replicate [] (suc m) h = let e : suc m - 0 ≡ suc m = omega arith in rw e refl
write-replicate (b ∷ bytes) zero h = absurd (omega arith)
write-replicate (b ∷ bytes) (suc m) h =
    ap (◌∷◌ b) (write-replicate bytes m (omega arith))
    ∙ ap (λ n. b ∷ (bytes ++ replicate n 0)) (omega arith)

-- A field that fits, at `k` of what follows the first part.
pub write_uint-append :
    (pre : List ℕ) (size k value o : ℕ) (xs : List ℕ)
    → o ≡ length pre + k
    → value < room size
    → k + size ≤ length xs
    → write_uint size o value (pre ++ xs) ≡ parsed (pre ++ write k (le size value) xs)
unfolding write_uint
write_uint-append pre size k value o xs e small fits =
    rw
      (
        e,
        lt→ltb value (room size) small,
        le→leb (length pre + k + size) (length (pre ++ xs)) (omega (arith, length-append pre xs)),
        write-append_past pre k (le size value) xs,
      )
      refl

pub read_uint-append :
    (pre : List ℕ) (size k o : ℕ) (xs : List ℕ)
    → o ≡ length pre + k
    → k + size ≤ length xs
    → read_uint size o (pre ++ xs) ≡ parsed (of_le (take size (drop k xs)))
unfolding read_uint
read_uint-append pre size k o xs e fits =
    rw
      (
        e,
        le→leb (length pre + k + size) (length (pre ++ xs)) (omega (arith, length-append pre xs)),
        drop-append_past pre k xs,
      )
      refl

pub le-align_up : (value alignment : ℕ) → value ≤ align_up value alignment
unfolding align_up
le-align_up value zero = omega arith
le-align_up value (suc a) = grind arith

pub align_up-mod : (value alignment : ℕ) → 0 < alignment → align_up value alignment % alignment ≡ 0
unfolding align_up
align_up-mod value zero h = absurd (omega arith)
align_up-mod value (suc a) h =
    let e : (suc a == 0) ≡ false = ground arith in
    rw e (mul-mod_left ((value + (suc a - 1)) / suc a) (suc a))

-- A chain that gives a value had a value at its first step.
pub >>=-eq-parsed {ℓ κ} :
    {A : Type ℓ} {B : Type κ} (m : Parsed A) (f : A → Parsed B) {b : B}
    → (m >>= f) ≡ parsed b
    → (a : A) × (m ≡ parsed a) × (f a ≡ parsed b)
>>=-eq-parsed (parsed a) f h = (a, refl, h)
>>=-eq-parsed (format_error code) f h = cc
>>=-eq-parsed range_error f h = cc

-- A chain that throws a RangeError, whose first step does not, had a value there.
pub >>=-eq-range_error {ℓ κ} :
    {A : Type ℓ} {B : Type κ} (m : Parsed A) (f : A → Parsed B)
    → (m >>= f) ≡ range_error
    → m ≢ range_error
    → (a : A) × (m ≡ parsed a) × (f a ≡ range_error)
>>=-eq-range_error (parsed a) f h k = (a, refl, h)
>>=-eq-range_error (format_error code) f h k = cc
>>=-eq-range_error range_error f h k = absurd (k refl)

-- The same behind a guard, which has passed there.
pub guarded {ℓ} :
    {B : Type ℓ} (test : Bool) (code : FormatErrorCode) (next : Parsed B) {b : B}
    → (throw_if test code >> next) ≡ parsed b
    → (test ≡ false) × (next ≡ parsed b)
guarded true code next h = cc
guarded false code next h = (refl, h)

pub guarded-eq-range_error {ℓ} :
    {B : Type ℓ} (test : Bool) (code : FormatErrorCode) (next : Parsed B)
    → (throw_if test code >> next) ≡ range_error
    → (test ≡ false) × (next ≡ range_error)
guarded-eq-range_error true code next h = cc
guarded-eq-range_error false code next h = (refl, h)

pub parsed-inj {ℓ} : {A : Type ℓ} {a b : A} → parsed a ≡ parsed b → a ≡ b
parsed-inj h = cc

pub parsed-ne-range_error {ℓ} : {A : Type ℓ} {a : A} → parsed a ≢ range_error
parsed-ne-range_error = λ e. cc

pub if-ne-range_error {ℓ} :
    {A : Type ℓ} (test : Bool) (x y : Parsed A)
    → (test ≡ true → x ≢ range_error)
    → (test ≡ false → y ≢ range_error)
    → (if test then x else y) ≢ range_error
if-ne-range_error true x y h k = h refl
if-ne-range_error false x y h k = k refl

-- A property of the values of both branches.
pub if-eq-parsed :
    {A : Type 0} (P : A → Type 0) (test : Bool) (x y : Parsed A) {a : A}
    → (if test then x else y) ≡ parsed a
    → (test ≡ true → (b : A) → x ≡ parsed b → P b)
    → (test ≡ false → (b : A) → y ≡ parsed b → P b)
    → P a
if-eq-parsed P true x y {a} e h k = h refl a e
if-eq-parsed P false x y {a} e h k = k refl a e
