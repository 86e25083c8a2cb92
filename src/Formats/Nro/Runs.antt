-- ===== src/Formats/Nro/Runs.antt =====
-- An executable without assets, and the theorems of packages/formats/src/nro.ts at it.
use nslibrary.Common.{ℕ, ◌≡◌, refl, none, List, ◌∷◌, ◌++◌, replicate}
use nslibrary.Common.Text.{codes, same_text}
use nslibrary.Shared.Frame.Bytes.{of_le}
use nslibrary.Formats.Binary.{parsed, read_magic, read_uint}
use nslibrary.Formats.Reader.{buffer_reader, read_exact}
use nslibrary.Formats.Nro.{NroInfo, parse_nro}

-- 0x10 bytes, the magic, four bytes, the size 0x80, and the rest.
abbrev executable : List ℕ
executable = replicate 16 0 ++ (codes "NRO0" ++ (replicate 4 0 ++ (128 ∷ replicate 103 0)))

abbrev bare : NroInfo
bare = record { nro_size = 128; icon = none; nacp = none; romfs = none }

is_bare : parse_nro (buffer_reader executable) ≡ parsed bare
unfolding parse_nro buffer_reader read_exact read_magic read_uint same_text of_le
is_bare = refl
