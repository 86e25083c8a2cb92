-- ===== src/Formats/Xci/Bounds.antt =====
-- Where the entries lie that packages/formats/src/xci.ts finds, and that its accesses are in bounds.
use nslibrary.Common.{
  ℕ, ◌+◌, ◌≤◌, ◌≡◌, ◌≢◌, subst, not, Option, none, some, List, [], ◌∷◌, arith, ltb, ◌==◌, All,
  Bool-cases, inl, inr,
}
use nslibrary.Common.Text.{codes, same_text}
use nslibrary.Formats.Binary.{parsed, range_error, read_u64, read_magic}
use nslibrary.Formats.Binary.Laws.{
  >>=-eq-range_error, >>=-eq-parsed, if-ne-range_error, if-eq-parsed, parsed-inj,
  parsed-ne-range_error,
}
use nslibrary.Formats.Reader.{RandomAccessReader, read_exact}
use nslibrary.Formats.Reader.Access.{
  read_u64-ne-range_error, length-read_exact, read_exact-ne-range_error,
}
use nslibrary.Formats.Partition.{Hfs0Entry, Partition, parse_hfs0}
use nslibrary.Formats.Partition.Bounds.{IsPlaced, parse_hfs0-IsInside}
use nslibrary.Formats.Partition.Safe.{parse_hfs0-ne-range_error}
use nslibrary.Formats.Xci.{
  Partitions, XciInfo, is_known_partition, set_partition, get_partition, find_card_header,
  read_partitions, require_secure, parse_xci,
}

-- The entry ends within the first `end` bytes.
abbrev pub EndsBy : ℕ → Hfs0Entry → Type 0
EndsBy end e = e.entry.offset + e.entry.size ≤ end

abbrev pub AllEndBy : ℕ → Partition Hfs0Entry → Type 0
AllEndBy end p = All (EndsBy end) p.entries

placed-EndsBy :
    (start end limit : ℕ) (entries : List Hfs0Entry)
    → end ≤ limit
    → All (λ e. IsPlaced start end e.entry) entries
    → All (EndsBy limit) entries
placed-EndsBy start end limit [] h all = tt
placed-EndsBy start end limit (e ∷ es) h all =
    (omega (arith, all.0.1), placed-EndsBy start end limit es h all.1)

parse_hfs0-AllEndBy :
    (reader : RandomAccessReader) (base end limit : ℕ) {p : Partition Hfs0Entry}
    → end ≤ limit
    → parse_hfs0 reader base end ≡ parsed p
    → AllEndBy limit p
parse_hfs0-AllEndBy reader base end limit {p} h e =
    placed-EndsBy (base + p.header_size) end limit p.entries h
      (parse_hfs0-IsInside reader base end e).placed

abbrev KeysEndBy : ℕ → Partitions → Type 0
KeysEndBy end partitions = All (λ row. AllEndBy end row.1) partitions

set_partition-KeysEndBy :
    (end : ℕ) (name : List ℕ) (p : Partition Hfs0Entry) (partitions : Partitions)
    → AllEndBy end p
    → KeysEndBy end partitions
    → KeysEndBy end (set_partition name p partitions)
unfolding set_partition
set_partition-KeysEndBy end name p [] h all = (h, tt)
set_partition-KeysEndBy end name p ((n, q) ∷ rest) h all = elim (Bool-cases (same_text n name)) [
  | inl same ↦ rw same (h, all.1)
  | inr other ↦ rw other (all.0, set_partition-KeysEndBy end name p rest h all.1)
]

some-inj : {A : Type 0} {a b : A} → some a ≡ some b → a ≡ b
some-inj h = cc

get_partition-AllEndBy :
    (end : ℕ) (name : List ℕ) (partitions : Partitions) {p : Partition Hfs0Entry}
    → KeysEndBy end partitions
    → get_partition name partitions ≡ some p
    → AllEndBy end p
unfolding get_partition
get_partition-AllEndBy end name [] all e = cc
get_partition-AllEndBy end name ((n, q) ∷ rest) all e = elim (Bool-cases (same_text n name)) [
  | inl same ↦
      let found : some q ≡ some _ = rw (same, get_partition) at e in
      subst (AllEndBy end) (some-inj found) all.0
  | inr other ↦ get_partition-AllEndBy end name rest all.1 (rw (other, get_partition) at e)
]

read_partitions-KeysEndBy :
    (reader : RandomAccessReader) (entries : List Hfs0Entry) (partitions : Partitions)
    {found : Partitions}
    → All (EndsBy reader.size) entries
    → KeysEndBy reader.size partitions
    → read_partitions reader entries partitions ≡ parsed found
    → KeysEndBy reader.size found
unfolding read_partitions
read_partitions-KeysEndBy reader [] partitions inside all e =
    subst (KeysEndBy reader.size) (parsed-inj e) all
read_partitions-KeysEndBy reader (x ∷ entries) partitions inside all e =
    let skip = λ (b : Partitions) (h : read_partitions reader entries partitions ≡ parsed b).
      read_partitions-KeysEndBy reader entries partitions inside.1 all h in
    if-eq-parsed (KeysEndBy reader.size) (not (is_known_partition x.entry.name)) _ _ e (λ _. skip)
      (λ _ b e1.
        if-eq-parsed (KeysEndBy reader.size) (x.entry.size == 0) _ _ e1 (λ _. skip)
          (λ _ c e2.
            let (p, parsed_p, e3) =
              >>=-eq-parsed (parse_hfs0 reader x.entry.offset (x.entry.offset + x.entry.size)) _
                e2 in
            read_partitions-KeysEndBy reader entries (set_partition x.entry.name p partitions)
              inside.1
              (set_partition-KeysEndBy reader.size x.entry.name p partitions
                (parse_hfs0-AllEndBy reader x.entry.offset (x.entry.offset + x.entry.size)
                  reader.size inside.0 parsed_p)
                all)
              e3))

require_secure-eq-parsed :
    (o : Option (Partition Hfs0Entry)) {p : Partition Hfs0Entry}
    → require_secure o ≡ parsed p
    → o ≡ some p
unfolding require_secure
require_secure-eq-parsed none e = cc
require_secure-eq-parsed (some q) e = cc

-- Every entry of the secure partition that is found ends within the image.
pub parse_xci-AllEndBy :
    (reader : RandomAccessReader) {info : XciInfo}
    → parse_xci reader ≡ parsed info
    → AllEndBy reader.size info.secure
unfolding parse_xci
parse_xci-AllEndBy reader e =
    let (card, _, e1) = >>=-eq-parsed (find_card_header reader (0 ∷ 0x1000 ∷ [])) _ e in
    let (header, _, e2) = >>=-eq-parsed (read_exact reader card 0x140) _ e1 in
    let (root_offset, _, e3) = >>=-eq-parsed (read_u64 header 0x130) _ e2 in
    let (root, at_root, e4) =
      >>=-eq-parsed (parse_hfs0 reader (card + root_offset) reader.size) _ e3 in
    let (partitions, found, e5) = >>=-eq-parsed (read_partitions reader root.entries []) _ e4 in
    let (secure, there, e6) =
      >>=-eq-parsed (require_secure (get_partition (codes "secure") partitions)) _ e5 in
    let root_ends =
      parse_hfs0-AllEndBy reader (card + root_offset) reader.size reader.size (omega arith)
        at_root in
    let ends = read_partitions-KeysEndBy reader root.entries [] root_ends tt found in
    subst (λ (i : XciInfo). AllEndBy reader.size i.secure) (parsed-inj e6)
      (get_partition-AllEndBy reader.size (codes "secure") partitions ends
        (require_secure-eq-parsed _ there))

module _ (reader : RandomAccessReader) (steady : (o l : ℕ) → reader.read o l ≢ range_error) where
  find_card_header-ne-range_error :
      (candidates : List ℕ) → find_card_header reader candidates ≢ range_error
  unfolding find_card_header
  find_card_header-ne-range_error [] = λ e. cc
  find_card_header-ne-range_error (c ∷ candidates) =
      if-ne-range_error (ltb reader.size (c + 0x140)) _ _
        (λ _. find_card_header-ne-range_error candidates)
        (λ _ e.
          let (magic, _, e1) =
            >>=-eq-range_error (read_exact reader (c + 0x100) 4) _ e
              (read_exact-ne-range_error reader (c + 0x100) 4 steady) in
          if-ne-range_error (same_text (read_magic magic 0 4) (codes "HEAD")) _ _
            (λ _. parsed-ne-range_error) (λ _. find_card_header-ne-range_error candidates) e1)

  read_partitions-ne-range_error :
      (entries : List Hfs0Entry) (partitions : Partitions)
      → read_partitions reader entries partitions ≢ range_error
  unfolding read_partitions
  read_partitions-ne-range_error [] partitions = parsed-ne-range_error
  read_partitions-ne-range_error (x ∷ entries) partitions =
      if-ne-range_error (not (is_known_partition x.entry.name)) _ _
        (λ _. read_partitions-ne-range_error entries partitions)
        (λ _.
          if-ne-range_error (x.entry.size == 0) _ _
            (λ _. read_partitions-ne-range_error entries partitions)
            (λ _ e.
              let (p, _, e1) =
                >>=-eq-range_error
                  (parse_hfs0 reader x.entry.offset (x.entry.offset + x.entry.size)) _ e
                  (parse_hfs0-ne-range_error reader steady x.entry.offset
                    (x.entry.offset + x.entry.size)) in
              read_partitions-ne-range_error entries (set_partition x.entry.name p partitions) e1))

  pub parse_xci-ne-range_error : parse_xci reader ≢ range_error
  unfolding parse_xci
  parse_xci-ne-range_error e =
      let (card, _, e1) =
        >>=-eq-range_error (find_card_header reader (0 ∷ 0x1000 ∷ [])) _ e
          (find_card_header-ne-range_error (0 ∷ 0x1000 ∷ [])) in
      let (header, read, e2) =
        >>=-eq-range_error (read_exact reader card 0x140) _ e1
          (read_exact-ne-range_error reader card 0x140 steady) in
      let len = length-read_exact reader card 0x140 read in
      let (root_offset, _, e3) =
        >>=-eq-range_error (read_u64 header 0x130) _ e2
          (read_u64-ne-range_error 0x130 header (omega (arith, len))) in
      let (root, _, e4) =
        >>=-eq-range_error (parse_hfs0 reader (card + root_offset) reader.size) _ e3
          (parse_hfs0-ne-range_error reader steady (card + root_offset) reader.size) in
      let (partitions, _, e5) =
        >>=-eq-range_error (read_partitions reader root.entries []) _ e4
          (read_partitions-ne-range_error root.entries []) in
      let (_, _, e6) =
        >>=-eq-range_error (require_secure (get_partition (codes "secure") partitions)) _ e5
          (require_secure-ne-range_error (get_partition (codes "secure") partitions)) in
      parsed-ne-range_error e6
    where
      require_secure-ne-range_error :
          (o : Option (Partition Hfs0Entry)) → require_secure o ≢ range_error
      require_secure-ne-range_error none = λ e. cc
      require_secure-ne-range_error (some p) = parsed-ne-range_error
