-- ===== src/Formats/Reader/Refine.antt =====
-- The readers of packages/formats/src/reader.ts as views of the bytes that they stand for.
use nslibrary.Common.{
  ℕ, zero, suc, ◌+◌, ◌-◌, ◌≤◌, ◌<◌, ◌≡◌, refl, sym, ap, ◌∙◌, min, List, [], ◌∷◌, ◌++◌, ltb, leb,
  ◌==◌, if◌then◌else◌, arith, length, take, drop, length-append, length-take, length-drop, take_all,
  take-min, take-append_le, take-append_ge, drop-append_le, drop-append_ge, take-drop-take,
  drop-drop, take_nil, drop_nil, ◌⊎◌, Bool-cases, inl, inr, leb→le, append-nil,
}
use native.Mathlib.Decide.{dec_le}
use nslibrary.Shared.Frame.{max_safe_integer}
use nslibrary.Formats.Binary.{parsed, format_error, truncated}
use nslibrary.Formats.Reader.{
  RandomAccessReader, Part, buffer_reader, total_size, read_parts, read_concat, concat_reader,
  slice_reader, read_exact,
}

-- A reader gives the bytes of a text at every offset, cut where the text ends.
pub record Serves (reader : RandomAccessReader) (content : List ℕ) : Type 0 where
  pub sized : reader.size ≡ length content
  pub reads : (offset len : ℕ) → reader.read offset len ≡ parsed (take len (drop offset content))

-- Each part serves a text of the size that is declared for it.
abbrev pub PartsServe : List Part → List (List ℕ) → Type 0
PartsServe [] [] = Unit {0}
PartsServe (part ∷ parts) (content ∷ contents) =
    Serves part.reader content × (part.size ≡ length content) × PartsServe parts contents
PartsServe _ _ = ⊥

-- The texts of the parts, one after the other.
abbrev pub joined : List (List ℕ) → List ℕ
joined [] = []
joined (content ∷ contents) = content ++ joined contents

pub buffer_reader-Serves : (buffer : List ℕ) → Serves (buffer_reader buffer) buffer
unfolding buffer_reader
buffer_reader-Serves buffer = record { sized = refl; reads = λ offset len. refl }

total_size_lem :
    (parts : List Part) (contents : List (List ℕ))
    → PartsServe parts contents
    → total_size parts ≡ length (joined contents)
unfolding total_size
total_size_lem [] [] h = refl
total_size_lem [] (c ∷ cs) h = absurd h
total_size_lem (p ∷ ps) [] h = absurd h
total_size_lem (p ∷ ps) (c ∷ cs) h =
    omega (arith, h.1, total_size_lem ps cs h.2, length-append c (joined cs))

-- A range that starts in the first text: what it takes there, and the rest from the next one on.
range-append :
    (pos len : ℕ) (xs ys : List ℕ)
    → pos < length xs
    → take len (drop pos (xs ++ ys))
      ≡ take (min len (length xs - pos)) (drop pos xs) ++ take (len - min len (length xs - pos)) ys
range-append pos len xs ys h = elim (dec_le len (length xs - pos)) [
  | yes p ↦
      let k : min len (length xs - pos) ≡ len = omega arith in
      let z : len - len ≡ 0 = omega arith in
      rw (drop-append_le pos xs ys (omega arith), k, z, append-nil)
        (take-append_le len (drop pos xs) ys (omega (arith, length-drop pos xs)))
  | no p ↦
      let k : min len (length xs - pos) ≡ length xs - pos = omega arith in
      rw
        (
          drop-append_le pos xs ys (omega arith),
          k,
          take_all (length xs - pos) (drop pos xs) (omega (arith, length-drop pos xs)),
        )
        (take-append_ge len (drop pos xs) ys (omega (arith, length-drop pos xs))
          ∙ ap (λ n. drop pos xs ++ take (len - n) ys) (length-drop pos xs))
]

-- The loop over the parts reads the range of the joined texts.
read_parts_lem :
    (parts : List Part) (contents : List (List ℕ)) (pos remaining : ℕ)
    → PartsServe parts contents
    → 0 < remaining
    → read_parts parts pos remaining ≡ parsed (take remaining (drop pos (joined contents)))
unfolding read_parts
read_parts_lem [] [] pos remaining h r = rw (drop_nil pos, take_nil remaining)
read_parts_lem [] (c ∷ cs) pos remaining h r = absurd h
read_parts_lem (p ∷ ps) [] pos remaining h r = absurd h
read_parts_lem (p ∷ ps) (c ∷ cs) pos remaining h r = elim (Bool-cases (leb p.size pos)) [
  | inl past ↦
      let le = leb→le p.size pos past in
      let next = read_parts_lem ps cs (pos - p.size) remaining h.2 r in
      rw (past, next, h.1, drop-append_ge pos c (joined cs) (omega (arith, h.1))) refl
  | inr here ↦
      let lt : pos < length c = ground (arith, here, h.1) in
      elim (Bool-cases (remaining - min remaining (p.size - pos) == 0)) [
        | inl done ↦
            let z : remaining - min remaining (length c - pos) ≡ 0 = ground (arith, done, h.1) in
            rw
              (
                here,
                done,
                range-append pos remaining c (joined cs) lt,
                z,
                h.0.reads,
                h.1,
                append-nil,
              )
              refl
        | inr more ↦
            let rest =
              read_parts_lem ps cs 0 (remaining - min remaining (p.size - pos)) h.2
                (ground (arith, more)) in
            rw (here, more, rest, range-append pos remaining c (joined cs) lt, h.0.reads, h.1) refl
      ]
]

-- What a read at an offset past the end, or of no bytes, gives.
empty_range :
    (offset len : ℕ) (content : List ℕ)
    → (len ≤ 0) ⊎ (length content ≤ offset)
    → take len (drop offset content) ≡ []
empty_range offset zero content h = refl
empty_range offset (suc len) content (inl h) = absurd (omega arith)
empty_range offset (suc len) content (inr h) =
    take_all_empty (suc len) (drop offset content) (omega (arith, length-drop offset content))
  where
    take_all_empty : (n : ℕ) (xs : List ℕ) → length xs ≡ 0 → take n xs ≡ []
    take_all_empty n [] h = take_nil n
    take_all_empty n (x ∷ xs) h = absurd (omega arith)

-- A chain of parts, each of which serves its own text, is a reader of all the texts one after the
-- other: at every offset and length, within a part, across the borders of parts, past the end.
pub concat_reader_refines :
    (parts : List Part) (contents : List (List ℕ))
    → PartsServe parts contents
    → Serves (concat_reader parts) (joined contents)
unfolding concat_reader read_concat
concat_reader_refines parts contents h = record {
  sized = total_size_lem parts contents h;
  reads = reads;
}
  where
    total : total_size parts ≡ length (joined contents)
    total = total_size_lem parts contents h

    reads :
        (offset len : ℕ)
        → read_concat parts offset len ≡ parsed (take len (drop offset (joined contents)))
    reads offset len = elim (Bool-cases (leb len 0)) [
      | inl e ↦ rw (e, empty_range offset len (joined contents) (inl (leb→le len 0 e))) refl
      | inr e ↦ elim (Bool-cases (leb (total_size parts) offset)) [
        | inl e' ↦
            rw
              (
                e,
                e',
                empty_range offset len (joined contents)
                    (inr (omega (arith, total, leb→le (total_size parts) offset e'))),
              )
              refl
        | inr e' ↦
            rw
              (
                e,
                e',
                read_parts_lem parts contents offset (min len (total_size parts - offset)) h
                    (ground (arith, e, e')),
              )
              (ap parsed (
                take-min len (total_size parts - offset) (drop offset (joined contents))
                  (omega (arith, total, length-drop offset (joined contents)))))
      ]
    ]

length_range :
    (offset len : ℕ) (content : List ℕ)
    → offset + len ≤ length content
    → length (take len (drop offset content)) ≡ len
length_range offset len content h =
    omega (arith, length-take len (drop offset content), length-drop offset content)

-- `readExact` sees of a reader its size and the range that it asks for, if that lies within.
read_exact_same :
    (r q : RandomAccessReader) (offset len : ℕ)
    → r.size ≡ q.size
    → (offset + len ≤ r.size → r.read offset len ≡ q.read offset len)
    → read_exact r offset len ≡ read_exact q offset len
unfolding read_exact
read_exact_same r q offset len sizes reads = elim (Bool-cases (ltb r.size (offset + len))) [
  | inl e ↦ ground (arith, e, sizes)
  | inr e ↦ rw (sizes, reads (ground (arith, e))) refl
]

-- `readExact` of a reader that serves a text gives the whole range, or throws TRUNCATED when the
-- range does not lie in the text.
pub read_exact_refines :
    (reader : RandomAccessReader) (content : List ℕ) (offset len : ℕ)
    → Serves reader content
    → length content ≤ max_safe_integer
    → read_exact reader offset len ≡ (
        if leb (offset + len) (length content)
        then parsed (take len (drop offset content))
        else format_error truncated)
unfolding read_exact
read_exact_refines reader content offset len s small =
    elim (Bool-cases (leb (offset + len) (length content))) [
      | inl e ↦
          let within = leb→le (offset + len) (length content) e in
          rw (s.reads offset len, length_range offset len content within, e, s.sized)
            (ground (arith, within, small))
      | inr e ↦ rw (s.sized) (ground (arith, e, small))
    ]

slice_made :
    (parent : RandomAccessReader) (start size : ℕ) {window : RandomAccessReader}
    → slice_reader parent start size ≡ parsed window
    → (start + size ≤ parent.size)
      × (window ≡ record { size = size; read = λ offset len. parent.read (start + offset) len })
unfolding slice_reader
slice_made parent start size made = ground (arith, made)

-- A window that could be made reads, by `readExact`, as a buffer of the bytes in the window.
pub slice_reader_refines :
    (parent : RandomAccessReader) (content : List ℕ) (start size offset len : ℕ)
    {window : RandomAccessReader}
    → Serves parent content
    → slice_reader parent start size ≡ parsed window
    → read_exact window offset len
      ≡ read_exact (buffer_reader (take size (drop start content))) offset len
unfolding buffer_reader
slice_reader_refines parent content start size offset len s made =
    let (fits, shape) = slice_made parent start size made in
    let inside = length_range start size content (omega (arith, fits, s.sized)) in
    rw shape (
      read_exact_same _ (buffer_reader (take size (drop start content))) offset len (sym inside)
        λ within.
          s.reads (start + offset) len
          ∙ ap parsed (
              ap (take len) (sym (drop-drop offset start content))
              ∙ sym (take-drop-take offset len size (drop start content) within)))
