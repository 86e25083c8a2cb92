-- ===== src/Shared/TitleId/FileName.antt =====
-- The names that `parseTitleFilename` of packages/shared/src/title-id.ts is made for.
use nslibrary.Common.{
  ℕ, ◌≤◌, ◌≡◌, ◌≢◌, refl, sym, ◌∙◌, true, false, some, List, [], ◌∷◌, ◌++◌, arith, ◌==◌, length,
  take, drop, all, All, le→leb, take-append_self, drop-append_ge,
}
use nslibrary.Common.Text.{to_upper}
use nslibrary.Shared.TitleId.{
  is_hex, is_upper_hex, is_digit, closed, id_behind, find_id, digit_run, version_behind,
  find_version, decimal_from, parse_title_filename,
}

-- No opening bracket.
abbrev pub HasNoBracket : List ℕ → Type 0
HasNoBracket = All (λ c. c ≢ 91)

no_bracket : (c : ℕ) → c ≢ 91 → (c == 91) ≡ false
no_bracket c h = ground (arith, h)

find_id-skip : (text rest : List ℕ) → HasNoBracket text → find_id (text ++ rest) ≡ find_id rest
unfolding find_id
find_id-skip [] rest h = refl
find_id-skip (c ∷ text) rest h = rw (no_bracket c h.0) (find_id-skip text rest h.1)

find_version-skip :
    (text rest : List ℕ) → HasNoBracket text → find_version (text ++ rest) ≡ find_version rest
unfolding find_version
find_version-skip [] rest h = refl
find_version-skip (c ∷ text) rest h = rw (no_bracket c h.0) (find_version-skip text rest h.1)

-- An ID: 0100 and twelve hexadecimal digits.
abbrev pub game_id : List ℕ → List ℕ
game_id digits = 48 ∷ 49 ∷ 48 ∷ 48 ∷ digits

id_behind-game_id :
    (digits rest : List ℕ)
    → length digits ≡ 12
    → all is_hex digits ≡ true
    → id_behind (game_id digits ++ (93 ∷ rest)) ≡ some (game_id digits)
unfolding id_behind closed
id_behind-game_id digits rest len hex =
    let self : take 12 (digits ++ (93 ∷ rest)) ≡ digits =
      take-append_self 12 digits (93 ∷ rest) (sym len) in
    let past : drop 12 (digits ++ (93 ∷ rest)) ≡ 93 ∷ rest =
      drop-append_ge 12 digits (93 ∷ rest) (omega (arith, len)) ∙ rw len refl in
    rw (self, past, len, hex) refl

hex_no_bracket : (c : ℕ) → is_hex c ≡ true → c ≢ 91
unfolding is_hex is_upper_hex
hex_no_bracket c h e = ground (arith, h, e)

hex-HasNoBracket : (digits : List ℕ) → all is_hex digits ≡ true → HasNoBracket digits
hex-HasNoBracket [] h = tt
hex-HasNoBracket (c ∷ digits) h =
    (hex_no_bracket c (ground (arith, h)), hex-HasNoBracket digits (ground (arith, h)))

digit_run-digits :
    (digits rest : List ℕ)
    → all is_digit digits ≡ true
    → digit_run (digits ++ (93 ∷ rest)) ≡ (digits, 93 ∷ rest)
unfolding digit_run is_digit
digit_run-digits [] rest h = refl
digit_run-digits (c ∷ digits) rest h = ground (arith, digit_run-digits digits rest)

version_behind-digits :
    (digits rest : List ℕ)
    → all is_digit digits ≡ true
    → 1 ≤ length digits
    → length digits ≤ 10
    → version_behind (118 ∷ (digits ++ (93 ∷ rest))) ≡ some digits
unfolding version_behind closed
version_behind-digits digits rest h low high =
    rw
      (digit_run-digits digits rest h, le→leb 1 (length digits) low, le→leb (length digits) 10 high)
      refl

-- `Name [0100XXXXXXXXXXXX][v123456].nsp`
abbrev pub titled : List ℕ → List ℕ → List ℕ → List ℕ → List ℕ
titled name digits version rest =
    name ++ (91 ∷ (game_id digits ++ (93 ∷ (91 ∷ 118 ∷ (version ++ (93 ∷ rest))))))

-- A name of the usual form, whose first part has no bracket, gives its ID in upper case, and its
-- version if that fits 32 bits. What stands behind the version makes no difference.
pub parse_title_filename-titled :
    (name digits version rest : List ℕ)
    → HasNoBracket name
    → length digits ≡ 12
    → all is_hex digits ≡ true
    → all is_digit version ≡ true
    → 1 ≤ length version
    → length version ≤ 10
    → decimal_from 0 version ≤ 0xffffffff
    → parse_title_filename (titled name digits version rest) ≡ record {
      title_id = some (to_upper (game_id digits));
      version = some (decimal_from 0 version);
    }
unfolding parse_title_filename version_behind
parse_title_filename-titled name digits version rest clean len hex digit low high small =
    let behind = 91 ∷ 118 ∷ (version ++ (93 ∷ rest)) in
    let text = game_id digits ++ (93 ∷ behind) in
    let id : find_id (titled name digits version rest) ≡ some (game_id digits) =
      find_id-skip name (91 ∷ text) clean
      ∙ rw (find_id, id_behind-game_id digits behind len hex) refl in
    let number : find_version (titled name digits version rest) ≡ some version =
      find_version-skip name (91 ∷ text) clean
      ∙ find_version-skip digits (93 ∷ behind) (hex-HasNoBracket digits hex)
      ∙ rw (find_version, version_behind-digits version rest digit low high) refl in
    rw (id, number, le→leb (decimal_from 0 version) 0xffffffff small) refl
