-- ===== src/Formats/Reader/Access.antt =====
-- Reads of a buffer at places that lie in it throw no RangeError; `readExact` gives as many bytes as
-- it was asked for.
use nslibrary.Common.{ℕ, ◌+◌, ◌≤◌, ◌≡◌, ◌≢◌, List, arith, length, ltb, leb, ◌==◌, not, ◌||◌}
use nslibrary.Shared.Frame.{max_safe_integer}
use nslibrary.Formats.Binary.{
  parsed, range_error, read_uint, read_u64, read_title_id, invalid, truncated,
}
use nslibrary.Formats.Binary.Laws.{
  >>=-eq-range_error, >>=-eq-parsed, guarded, guarded-eq-range_error, parsed-ne-range_error,
}
use nslibrary.Formats.Reader.{RandomAccessReader, read_exact}

pub read_uint-ne-range_error :
    (size o : ℕ) (buf : List ℕ) → o + size ≤ length buf → read_uint size o buf ≢ range_error
unfolding read_uint
read_uint-ne-range_error size o buf h = ground (arith, h)

pub read_u64-ne-range_error :
    (o : ℕ) (buf : List ℕ) → o + 8 ≤ length buf → read_u64 buf o ≢ range_error
unfolding read_u64
read_u64-ne-range_error o buf h e =
    let (value, _, e1) =
      >>=-eq-range_error (read_uint 8 o buf) _ e (read_uint-ne-range_error 8 o buf h) in
    let (_, e2) = guarded-eq-range_error (ltb max_safe_integer value) invalid _ e1 in
    parsed-ne-range_error e2

pub read_title_id-ne-range_error :
    (o : ℕ) (buf : List ℕ) → o + 8 ≤ length buf → read_title_id buf o ≢ range_error
unfolding read_title_id
read_title_id-ne-range_error o buf h e =
    let (value, _, e1) =
      >>=-eq-range_error (read_uint 8 o buf) _ e (read_uint-ne-range_error 8 o buf h) in
    parsed-ne-range_error e1

pub length-read_exact :
    (reader : RandomAccessReader) (o l : ℕ) {buf : List ℕ}
    → read_exact reader o l ≡ parsed buf
    → length buf ≡ l
unfolding read_exact
length-read_exact reader o l h =
    let (_, h1) =
      guarded
        (not (leb o max_safe_integer) || not (leb l max_safe_integer) || ltb reader.size (o + l))
        truncated _ h in
    let (buf, e, h2) = >>=-eq-parsed (reader.read o l) _ h1 in
    let (long, h3) = guarded (not (length buf == l)) truncated _ h2 in ground (arith, long, h3)

pub read_exact-ne-range_error :
    (reader : RandomAccessReader) (o l : ℕ)
    → ((o l : ℕ) → reader.read o l ≢ range_error)
    → read_exact reader o l ≢ range_error
unfolding read_exact
read_exact-ne-range_error reader o l steady e =
    let (_, e1) =
      guarded-eq-range_error
        (not (leb o max_safe_integer) || not (leb l max_safe_integer) || ltb reader.size (o + l))
        truncated _ e in
    let (buf, _, e2) = >>=-eq-range_error (reader.read o l) _ e1 (steady o l) in
    let (_, e3) = guarded-eq-range_error (not (length buf == l)) truncated _ e2 in
    parsed-ne-range_error e3
