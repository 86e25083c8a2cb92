-- ===== src/Formats/SaveArchive/Ends.antt =====
-- Each round of the loops of `readSaveArchive` moves the offset on, which does not pass the end.
use nslibrary.Common.{
  ℕ, zero, suc, ◌+◌, ◌-◌, ◌*◌, ◌/◌, ◌%◌, ◌≤◌, ◌<◌, ◌≡◌, ◌≢◌, refl, sym, min, true, false, not, ◌==◌,
  Bool, Option, none, some, drop, take, ltb, not_ltb→le, ltb→lt, if◌then◌else◌, arith, subst,
  length, List, ◌++◌, [], ◌∷◌, any,
}
use nslibrary.Common.Text.{codes, same_text}
use nslibrary.Formats.Binary.{
  Parsed, parsed, format_error, range_error, truncated, invalid, bad_magic, unsupported, throw_if,
  ◌>>◌, ◌>>=◌,
}
use nslibrary.Formats.Binary.Laws.{>>=-eq-parsed, guarded, parsed-inj}
use nslibrary.Formats.Reader.{RandomAccessReader, read_exact}
use nslibrary.Formats.Reader.Access.{length-read_exact}
use nslibrary.Formats.SaveArchive.{
  tar_block, EntryType, file, dir, SaveArchiveEntry, has_path_problem, size_of, is_zero_block,
  parse_octal, sum_from, type_of_flag, c_string, tar_path, path_of, is_root, flag_of,
  save_archive_max_entries,
}
use nslibrary.Formats.SaveArchive.Walk.{
  Reading, Step, go_on, finished, counted, add_entry, read_header, read_padding, read_block,
  read_step, after, run, start, listed, read_save_archive,
}

-- The entry that a header with the checked path and size gives, and the state behind it.
abbrev pub entry_at : Reading → List ℕ → EntryType → ℕ → SaveArchiveEntry
entry_at s path type size = record {
  path = path;
  type = type;
  size = size;
  offset = s.offset + tar_block;
}

abbrev pub with_entry : Reading → List ℕ → EntryType → ℕ → Reading
with_entry s path type size = counted type size (record s {
  offset = s.offset + tar_block + (size + 511) / tar_block * tar_block;
  entries = s.entries ++ (entry_at s path type size ∷ []);
  seen = path ∷ s.seen;
})

-- What is known of an entry that passed the checks.
pub record IsAdded (reader : RandomAccessReader) (s : Reading) (path : List ℕ) (type : EntryType)
    (size : ℕ) : Type 0 where
  pub unproblematic : has_path_problem path ≡ false
  pub unseen : any (λ p. same_text p path) s.seen ≡ false
  pub fits : s.offset + tar_block + (size + 511) / tar_block * tar_block ≤ reader.size

pub add_entry-IsAdded :
    (reader : RandomAccessReader) (s : Reading) (header : List ℕ) (type : EntryType) (path : List ℕ)
    → {step : Step} → add_entry reader s header type path ≡ parsed step
    → (size : ℕ) × (size_of type header ≡ parsed size)
      × IsAdded reader s path type size
      × (step ≡ go_on (with_entry s path type size))
unfolding add_entry
add_entry-IsAdded reader s header type path h =
    let (clean, h1) = guarded (has_path_problem path) invalid _ h in
    let (fresh, h2) = guarded (any (λ p. same_text p path) s.seen) invalid _ h1 in
    let (size, e, h3) = >>=-eq-parsed (size_of type header) _ h2 in
    let (fits, h4) =
      guarded (ltb reader.size (s.offset + tar_block + (size + 511) / tar_block * tar_block))
        truncated _ h3 in
    let (_, h5) = guarded (ltb save_archive_max_entries (length s.entries + 1)) unsupported _ h4 in
    (
      size,
      e,
      record { unproblematic = clean; unseen = fresh; fits = not_ltb→le _ _ fits },
      sym (parsed-inj h5),
    )

-- What a round may do: it ends, it moves on over a block that holds no entry, or it adds an entry
-- and moves on behind its data.
pub data Moves (reader : RandomAccessReader) (s : Reading) : Step → Type 0 where
  ends : Moves reader s (finished s)
  skips :
      (o : ℕ) (p : Bool)
      → s.offset < o
      → s.offset < reader.size
      → Moves reader s (go_on (record s { offset = o; padding = p }))
  adds :
      (path : List ℕ) (type : EntryType) (size : ℕ)
      → IsAdded reader s path type size
      → Moves reader s (go_on (with_entry s path type size))

add_entry-Moves :
    (reader : RandomAccessReader) (s : Reading) (header : List ℕ) (type : EntryType) (path : List ℕ)
    → {step : Step} → add_entry reader s header type path ≡ parsed step
    → Moves reader s step
add_entry-Moves reader s header type path h =
    let (size, _, added, e) = add_entry-IsAdded reader s header type path h in
    subst (Moves reader s) (sym e) (adds path type size added)

read_header-Moves :
    (reader : RandomAccessReader) (s : Reading) (header : List ℕ)
    → s.offset < reader.size
    → {step : Step} → read_header reader s header ≡ parsed step
    → Moves reader s step
unfolding read_header
read_header-Moves reader s header below h =
    let (_, h1) =
      guarded (not (same_text (take 5 (drop 257 header)) (codes "ustar"))) bad_magic _ h in
    let (stored, _, h2) = >>=-eq-parsed (parse_octal header 148 8) _ h1 in
    let (_, h3) = guarded (not (sum_from 0 header == stored)) invalid _ h2 in
    let (type, _, h4) = >>=-eq-parsed (type_of_flag (flag_of (drop 156 header))) _ h3 in
    let path = path_of type (tar_path (c_string header 345 155) (c_string header 0 100)) in
    root_or_entry (is_root type path) type path h4
  where
    root_or_entry :
        (test : Bool) (type : EntryType) (path : List ℕ) {step : Step}
        → (if test
            then parsed (go_on (record s { offset = s.offset + tar_block }))
            else add_entry reader s header type path)
          ≡ parsed step
        → Moves reader s step
    root_or_entry true type path {step} h =
        subst (Moves reader s) (parsed-inj h)
          (skips (s.offset + tar_block) s.padding (omega arith) below)
    root_or_entry false type path {step} h = add_entry-Moves reader s header type path h

read_padding-Moves :
    (reader : RandomAccessReader) (s : Reading) {step : Step}
    → read_padding reader s ≡ parsed step
    → Moves reader s step
unfolding read_padding
read_padding-Moves reader s h = more_or_done (ltb s.offset reader.size) refl h
  where
    more_or_done :
        (test : Bool) {step : Step}
        → ltb s.offset reader.size ≡ test
        → (if test
            then (read_exact reader s.offset (min (reader.size - s.offset) (64 * tar_block))
                >>= λ block.
                    throw_if (not (is_zero_block block)) invalid
                    >> parsed (go_on (record s { offset = s.offset + length block })))
            else parsed (finished s))
          ≡ parsed step
        → Moves reader s step
    more_or_done true more h =
        let len = min (reader.size - s.offset) (64 * tar_block) in
        let (block, e, h1) = >>=-eq-parsed (read_exact reader s.offset len) _ h in
        let (_, h2) = guarded (not (is_zero_block block)) invalid _ h1 in
        let long = length-read_exact reader s.offset len e in
        let lt = ltb→lt s.offset reader.size more in
        subst (Moves reader s) (parsed-inj h2)
          (skips (s.offset + length block) s.padding (omega arith) lt)
    more_or_done false done h = subst (Moves reader s) (parsed-inj h) ends

read_block-Moves :
    (reader : RandomAccessReader) (s : Reading) {step : Step}
    → read_block reader s ≡ parsed step
    → Moves reader s step
unfolding read_block
read_block-Moves reader s h =
    let (inside, h1) = guarded (ltb reader.size (s.offset + tar_block)) truncated _ h in
    let below : s.offset < reader.size =
      omega (arith, not_ltb→le reader.size (s.offset + tar_block) inside) in
    let (header, _, h2) = >>=-eq-parsed (read_exact reader s.offset tar_block) _ h1 in
    end_or_header (is_zero_block header) header below h2
  where
    end_or_header :
        (test : Bool) (header : List ℕ)
        → s.offset < reader.size
        → {step : Step}
        → (if test
            then throw_if (ltb reader.size (s.offset + tar_block * 2)) truncated
              >> parsed (go_on (record s { offset = s.offset + tar_block; padding = true }))
            else read_header reader s header)
          ≡ parsed step
        → Moves reader s step
    end_or_header true header below h =
        let (_, h1) = guarded (ltb reader.size (s.offset + tar_block * 2)) truncated _ h in
        subst (Moves reader s) (parsed-inj h1)
          (skips (s.offset + tar_block) true (omega arith) below)
    end_or_header false header below h = read_header-Moves reader s header below h

pub read_step-Moves :
    (reader : RandomAccessReader) (s : Reading) {step : Step}
    → read_step reader s ≡ parsed step
    → Moves reader s step
unfolding read_step
read_step-Moves reader s h = either s.padding h
  where
    either :
        (test : Bool) {step : Step}
        → (if test then read_padding reader s else read_block reader s) ≡ parsed step
        → Moves reader s step
    either true h = read_padding-Moves reader s h
    either false h = read_block-Moves reader s h

after-eq-none :
    (next : Reading → Option (Parsed Reading)) (m : Parsed Step)
    → after next m ≡ none
    → (s : Reading) × (m ≡ parsed (go_on s)) × (next s ≡ none)
unfolding after
after-eq-none next (parsed (go_on s)) h = (s, refl, h)
after-eq-none next (parsed (finished s)) h = cc
after-eq-none next (format_error code) h = cc
after-eq-none next range_error h = cc

moved-lt :
    (reader : RandomAccessReader) (s next : Reading)
    → Moves reader s (go_on next)
    → reader.size - next.offset < reader.size - s.offset
unfolding counted
moved-lt reader s _ (skips o p further below) = omega arith
moved-lt reader s _ (adds path dir size added) = omega (arith, added.fits)
moved-lt reader s _ (adds path file size added) = omega (arith, added.fits)

-- With more fuel than there are bytes behind the offset, the loops end.
pub run-returns :
    (fuel : ℕ) (reader : RandomAccessReader) (s : Reading)
    → reader.size - s.offset < fuel
    → run fuel reader s ≢ none
unfolding run
run-returns zero reader s h e = absurd (omega arith)
run-returns (suc fuel) reader s h e =
    let (next, stepped, e1) = after-eq-none (run fuel reader) (read_step reader s) e in
    let less = moved-lt reader s next (read_step-Moves reader s stepped) in
    run-returns fuel reader next (omega arith) e1

-- `readSaveArchive` returns or throws for every reader, whatever it gives: the fuel, one more than the
-- reader's size, does not run out.
pub read_save_archive-returns : (reader : RandomAccessReader) → read_save_archive reader ≢ none
unfolding read_save_archive listed
read_save_archive-returns reader = whole (not (reader.size % tar_block == 0))
  where
    listed-returns : (m : Option (Parsed Reading)) → m ≢ none → listed m ≢ none
    listed-returns none h e = h refl
    listed-returns (some m) h e = cc

    whole :
        (test : Bool)
        → (if test
            then some (format_error invalid)
            else listed (run (suc reader.size) reader start))
          ≢ none
    whole true e = cc
    whole false e =
        listed-returns (run (suc reader.size) reader start)
          (run-returns (suc reader.size) reader start (omega arith)) e
