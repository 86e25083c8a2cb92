-- ===== src/Formats/Cnmt/Safe.antt =====
-- The accesses of packages/formats/src/cnmt.ts to its buffer lie within it.
use nslibrary.Common.{
  ℕ, zero, suc, ◌+◌, ◌*◌, ◌≤◌, ◌≢◌, List, arith, length, take, drop, ltb, leb, not_ltb→le, leb→le,
}
use nslibrary.Formats.Binary.{range_error, truncated, read_uint, read_title_id}
use nslibrary.Formats.Binary.Laws.{
  >>=-eq-range_error, if-ne-range_error, guarded-eq-range_error, parsed-ne-range_error,
}
use nslibrary.Formats.Reader.Access.{read_uint-ne-range_error, read_title_id-ne-range_error}
use nslibrary.Formats.Cnmt.{
  PackagedContentKind, application, patch, addon, other, kind_of, content_record, read_application,
  read_patch, read_addon, read_extended, content_records, parse_cnmt,
}

content_record-ne-range_error :
    (buf : List ℕ) (o : ℕ) → o + 0x38 ≤ length buf → content_record buf o ≢ range_error
unfolding content_record
content_record-ne-range_error buf o h e =
    let (_, _, e1) =
      >>=-eq-range_error (read_uint 5 (o + 0x30) buf) _ e
        (read_uint-ne-range_error 5 (o + 0x30) buf (omega arith)) in
    let (_, _, e2) =
      >>=-eq-range_error (read_uint 1 (o + 0x36) buf) _ e1
        (read_uint-ne-range_error 1 (o + 0x36) buf (omega arith)) in
    let (_, _, e3) =
      >>=-eq-range_error (read_uint 1 (o + 0x37) buf) _ e2
        (read_uint-ne-range_error 1 (o + 0x37) buf (omega arith)) in
    parsed-ne-range_error e3

content_records-ne-range_error :
    (n o : ℕ) (buf : List ℕ) → o + n * 0x38 ≤ length buf → content_records n o buf ≢ range_error
unfolding content_records
content_records-ne-range_error zero o buf h e = parsed-ne-range_error e
content_records-ne-range_error (suc n) o buf h e =
    let (_, _, e1) =
      >>=-eq-range_error (content_record buf o) _ e
        (content_record-ne-range_error buf o (omega arith)) in
    let (_, _, e2) =
      >>=-eq-range_error (content_records n (o + 0x38) buf) _ e1
        (content_records-ne-range_error n (o + 0x38) buf (omega arith)) in
    parsed-ne-range_error e2

module _ (title_id extended : List ℕ) where
  read_application-ne-range_error :
      0x0c ≤ length extended → read_application title_id extended ≢ range_error
  unfolding read_application
  read_application-ne-range_error h e =
      let (_, _, e1) =
        >>=-eq-range_error (read_uint 4 8 extended) _ e (read_uint-ne-range_error 4 8 extended h) in
      parsed-ne-range_error e1

  read_patch-ne-range_error : 0x0c ≤ length extended → read_patch title_id extended ≢ range_error
  unfolding read_patch
  read_patch-ne-range_error h e =
      let (_, _, e1) =
        >>=-eq-range_error (read_title_id extended 0) _ e
          (read_title_id-ne-range_error 0 extended (omega arith)) in
      let (_, _, e2) =
        >>=-eq-range_error (read_uint 4 8 extended) _ e1
          (read_uint-ne-range_error 4 8 extended h) in
      parsed-ne-range_error e2

  read_addon-ne-range_error : 0x08 ≤ length extended → read_addon title_id extended ≢ range_error
  unfolding read_addon
  read_addon-ne-range_error h e =
      let (_, _, e1) =
        >>=-eq-range_error (read_title_id extended 0) _ e
          (read_title_id-ne-range_error 0 extended (omega arith)) in
      if-ne-range_error (leb 0x0c (length extended)) _ _
        (λ long e2.
          let (_, _, e3) =
            >>=-eq-range_error (read_uint 4 8 extended) _ e2
              (read_uint-ne-range_error 4 8 extended (leb→le _ _ long)) in
          parsed-ne-range_error e3)
        (λ short. parsed-ne-range_error) e1

  read_extended-ne-range_error :
      (kind : PackagedContentKind) → read_extended kind title_id extended ≢ range_error
  unfolding read_extended
  read_extended-ne-range_error application =
      if-ne-range_error (leb 0x0c (length extended)) _ _
        (λ long. read_application-ne-range_error (leb→le _ _ long)) (λ short. parsed-ne-range_error)
  read_extended-ne-range_error patch =
      if-ne-range_error (leb 0x0c (length extended)) _ _
        (λ long. read_patch-ne-range_error (leb→le _ _ long)) (λ short. parsed-ne-range_error)
  read_extended-ne-range_error addon =
      if-ne-range_error (leb 0x08 (length extended)) _ _
        (λ long. read_addon-ne-range_error (leb→le _ _ long)) (λ short. parsed-ne-range_error)
  read_extended-ne-range_error other = parsed-ne-range_error

-- No bytes make `parseCnmt` read out of the bounds of its buffer or of its extended header: it gives
-- the meta or throws TRUNCATED.
pub parse_cnmt-ne-range_error : (buf : List ℕ) → parse_cnmt buf ≢ range_error
unfolding parse_cnmt
parse_cnmt-ne-range_error buf e =
    let (long, e1) = guarded-eq-range_error (ltb (length buf) 0x20) truncated _ e in
    let h = not_ltb→le (length buf) 0x20 long in
    let (title_id, _, e2) =
      >>=-eq-range_error (read_title_id buf 0) _ e1
        (read_title_id-ne-range_error 0 buf (omega arith)) in
    let (version, _, e3) =
      >>=-eq-range_error (read_uint 4 0x8 buf) _ e2
        (read_uint-ne-range_error 4 0x8 buf (omega arith)) in
    let (raw_type, _, e4) =
      >>=-eq-range_error (read_uint 1 0xc buf) _ e3
        (read_uint-ne-range_error 1 0xc buf (omega arith)) in
    let (size, _, e5) =
      >>=-eq-range_error (read_uint 2 0xe buf) _ e4
        (read_uint-ne-range_error 2 0xe buf (omega arith)) in
    let (count, _, e6) =
      >>=-eq-range_error (read_uint 2 0x10 buf) _ e5
        (read_uint-ne-range_error 2 0x10 buf (omega arith)) in
    let (whole, e7) =
      guarded-eq-range_error (ltb (length buf) (0x20 + size + count * 0x38)) truncated _ e6 in
    let extended = take size (drop 0x20 buf) in
    let (x, _, e8) =
      >>=-eq-range_error (read_extended (kind_of raw_type) title_id extended) _ e7
        (read_extended-ne-range_error title_id extended (kind_of raw_type)) in
    let (contents, _, e9) = >>=-eq-range_error (content_records count (0x20 + size) buf) _ e8 (
      content_records-ne-range_error count (0x20 + size) buf
        (not_ltb→le (length buf) (0x20 + size + count * 0x38) whole)) in
    parsed-ne-range_error e9
