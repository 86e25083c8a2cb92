-- ===== src/Formats/Reader.antt =====
-- packages/formats/src/reader.ts: random access over a buffer, a chain of files or a window. The
-- bytes that a reader returns come from outside the program; a reader is a record of its size and
-- its `read`. Offsets and lengths are whole numbers from 0 on, as all callers pass them.
pub mod Access
pub mod Refine
mod Runs
use nslibrary.Common.{
  ℕ, ◌+◌, ◌-◌, min, Bool, true, false, ◌||◌, not, List, [], ◌∷◌, ◌++◌, ltb, leb, ◌==◌,
  if◌then◌else◌, length, take, drop,
}
use nslibrary.Shared.Frame.{max_safe_integer}
use nslibrary.Formats.Binary.{Parsed, parsed, format_error, truncated, throw_if, ◌>>=◌, ◌>>◌}

pub record RandomAccessReader : Type 0 where
  pub size : ℕ
  pub read : ℕ → ℕ → Parsed (List ℕ)

unfoldable pub buffer_reader : List ℕ → RandomAccessReader
buffer_reader buffer = record {
  size = length buffer;
  read = λ offset len. parsed (take len (drop offset buffer));
}

-- A part of a split file: its reader and the size that its directory entry gives.
pub record Part : Type 0 where
  pub reader : RandomAccessReader
  pub size : ℕ

unfoldable pub total_size : List Part → ℕ
total_size [] = 0
total_size (part ∷ parts) = part.size + total_size parts

-- The loop of `read` over the parts, from the offset `pos` within the first.
unfoldable pub read_parts : List Part → ℕ → ℕ → Parsed (List ℕ)
read_parts [] pos remaining = parsed []
read_parts (part ∷ parts) pos remaining =
    let next = read_parts parts (pos - part.size) remaining in
    let len = min remaining (part.size - pos) in
    let rest = read_parts parts 0 (remaining - len) in
    if leb part.size pos
    then next
    else part.reader.read pos len >>= λ chunk.
        if remaining - len == 0 then parsed chunk else (rest >>= λ chunks. parsed (chunk ++ chunks))

unfoldable pub read_concat : List Part → ℕ → ℕ → Parsed (List ℕ)
unfolding read_parts total_size
read_concat parts offset len =
    if leb len 0 || leb (total_size parts) offset
    then parsed []
    else read_parts parts offset (min len (total_size parts - offset))

unfoldable pub concat_reader : List Part → RandomAccessReader
unfolding read_concat total_size
concat_reader parts = record { size = total_size parts; read = read_concat parts }

-- The constructor throws where the window does not lie in the parent.
unfoldable pub slice_reader : RandomAccessReader → ℕ → ℕ → Parsed RandomAccessReader
slice_reader parent start size = do
  throw_if (ltb parent.size (start + size)) truncated
  parsed (record { size = size; read = λ offset len. parent.read (start + offset) len })

unfoldable pub read_exact : RandomAccessReader → ℕ → ℕ → Parsed (List ℕ)
read_exact reader offset len = do
  throw_if
      (not (leb offset max_safe_integer)
        || not (leb len max_safe_integer)
        || ltb reader.size (offset + len))
      truncated
  buf ← reader.read offset len
  throw_if (not (length buf == len)) truncated
  parsed buf
