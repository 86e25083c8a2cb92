-- ===== src/Formats/Ticket/Safe.antt =====
-- The accesses of packages/formats/src/ticket.ts to its buffer lie within it.
use nslibrary.Common.{ℕ, ◌+◌, ◌≢◌, Option, none, some, List, arith, length, ltb, not_ltb→le}
use nslibrary.Formats.Binary.{range_error, truncated, read_uint}
use nslibrary.Formats.Binary.Laws.{
  >>=-eq-range_error, guarded-eq-range_error, parsed-ne-range_error,
}
use nslibrary.Formats.Reader.Access.{read_uint-ne-range_error}
use nslibrary.Formats.Ticket.{signature_layout, read_ticket, after_signature, parse_ticket}

read_ticket-ne-range_error : (buf : List ℕ) (t start : ℕ) → read_ticket buf t start ≢ range_error
unfolding read_ticket
read_ticket-ne-range_error buf t start e =
    let (long, e1) = guarded-eq-range_error (ltb (length buf) (start + 0x180)) truncated _ e in
    let h = not_ltb→le (length buf) (start + 0x180) long in
    let (_, _, e2) =
      >>=-eq-range_error (read_uint 1 (start + 0x141) buf) _ e1
        (read_uint-ne-range_error 1 (start + 0x141) buf (omega arith)) in
    let (_, _, e3) =
      >>=-eq-range_error (read_uint 1 (start + 0x145) buf) _ e2
        (read_uint-ne-range_error 1 (start + 0x145) buf (omega arith)) in
    parsed-ne-range_error e3

after_signature-ne-range_error :
    (buf : List ℕ) (t : ℕ) (layout : Option (ℕ × ℕ)) → after_signature buf t layout ≢ range_error
unfolding after_signature
after_signature-ne-range_error buf t none = λ e. cc
after_signature-ne-range_error buf t (some (size, padding)) =
    read_ticket-ne-range_error buf t (4 + size + padding)

-- No bytes make `parseTicket` read out of the bounds of its buffer: it gives the ticket, or throws
-- TRUNCATED or UNSUPPORTED.
pub parse_ticket-ne-range_error : (buf : List ℕ) → parse_ticket buf ≢ range_error
unfolding parse_ticket
parse_ticket-ne-range_error buf e =
    let (long, e1) = guarded-eq-range_error (ltb (length buf) 4) truncated _ e in
    let h = not_ltb→le (length buf) 4 long in
    let (t, _, e2) =
      >>=-eq-range_error (read_uint 4 0 buf) _ e1
        (read_uint-ne-range_error 4 0 buf (omega arith)) in
    after_signature-ne-range_error buf t (signature_layout t) e2
