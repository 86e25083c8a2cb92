-- ===== src/Formats/Reader/Runs.antt =====
-- A file in two parts and a window onto it, and the theorems of packages/formats/src/reader.ts there.
use nslibrary.Common.{ℕ, ◌+◌, ◌≡◌, refl, List, [], ◌∷◌}
use nslibrary.Formats.Binary.{parsed, format_error, truncated}
use nslibrary.Formats.Reader.{
  RandomAccessReader, Part, buffer_reader, concat_reader, read_concat, read_parts, read_exact,
  total_size,
}
use nslibrary.Formats.Reader.Refine.{
  Serves, PartsServe, buffer_reader-Serves, concat_reader_refines,
}

abbrev first : List ℕ
first = 10 ∷ 11 ∷ 12 ∷ []

abbrev second : List ℕ
second = 20 ∷ 21 ∷ []

abbrev two_parts : List Part
unfolding buffer_reader
two_parts =
    record { reader = buffer_reader first; size = 3 }
    ∷ record { reader = buffer_reader second; size = 2 }
    ∷ []

across : read_concat two_parts 2 2 ≡ parsed (12 ∷ 20 ∷ [])
unfolding read_concat read_parts total_size two_parts
across = refl

they_serve : PartsServe two_parts (first ∷ second ∷ [])
unfolding two_parts
they_serve = (buffer_reader-Serves first, refl, (buffer_reader-Serves second, refl, tt))

concat_reader_refines_example : Serves (concat_reader two_parts) (10 ∷ 11 ∷ 12 ∷ 20 ∷ 21 ∷ [])
unfolding two_parts
concat_reader_refines_example = concat_reader_refines two_parts (first ∷ second ∷ []) they_serve

abbrev window : RandomAccessReader
unfolding buffer_reader
window = record { size = 2; read = λ offset len. (buffer_reader first).read (1 + offset) len }

-- A read past the window by `read` itself gives a byte of the parent; `readExact` refuses it.
past_the_window : window.read 1 2 ≡ parsed (12 ∷ [])
unfolding window
past_the_window = refl

refused : read_exact window 1 2 ≡ format_error truncated
unfolding window read_exact
refused = refl
