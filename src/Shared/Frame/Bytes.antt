-- ===== src/Shared/Frame/Bytes.antt =====
-- Little-endian numbers in a buffer of bytes, for packages/shared/src/usb-frame.ts.
use nslibrary.Common.{
  ℕ, zero, suc, ◌+◌, ◌*◌, ◌/◌, ◌%◌, ◌<◌, ◌≡◌, refl, ap, Bool, true, false, ◌&&◌, List, [], ◌∷◌,
  ◌==◌, arith, length,
}

-- The low `size` bytes of a number, lowest first.
unfoldable pub le : ℕ → ℕ → List ℕ
le zero x = []
le (suc size) x = x % 256 ∷ le size (x / 256)

unfoldable pub of_le : List ℕ → ℕ
of_le [] = 0
of_le (b ∷ bs) = b + 256 * of_le bs

-- `bytes.set(data, offset)`. What would not fit is dropped; the source writes within its buffer.
unfoldable pub write : ℕ → List ℕ → List ℕ → List ℕ
write offset bytes [] = []
write zero [] (x ∷ buffer) = x ∷ buffer
write zero (b ∷ bytes) (x ∷ buffer) = b ∷ write zero bytes buffer
write (suc offset) bytes (x ∷ buffer) = x ∷ write offset bytes buffer

unfoldable pub same_bytes : List ℕ → List ℕ → Bool
same_bytes [] [] = true
same_bytes (a ∷ as_) (b ∷ bs) = (a == b) && same_bytes as_ bs
same_bytes _ _ = false

-- 256 to the power of `size`.
abbrev pub room : ℕ → ℕ
room zero = 1
room (suc size) = 256 * room size

pub of_le-le : (size x : ℕ) → x < room size → of_le (le size x) ≡ x
unfolding of_le le
of_le-le zero x h = omega arith
of_le-le (suc size) x h = let rest = of_le-le size (x / 256) (omega arith) in omega (arith, rest)

pub length-le : (size x : ℕ) → length (le size x) ≡ size
unfolding le
length-le zero x = refl
length-le (suc size) x = ap suc (length-le size (x / 256))
