-- ===== src/Formats/SaveArchive/Safe.antt =====
-- What `readSaveArchive` of packages/formats/src/save-archive.ts accepts: the entries' paths stay
-- below the folder they are restored into, and their data lies in the archive.
use nslibrary.Common.{
  ℕ, zero, suc, ◌+◌, ◌%◌, if◌then◌else◌, ◌≤◌, ◌≡◌, ◌≢◌, refl, sym, ap, subst, Bool, true, false,
  not, ◌==◌, Option, none, some, List, [], ◌∷◌, ◌++◌, map, any, All, All-append, All-mono, arith,
  ◌⊎◌, inl, inr,
}
use mathlib.Core.List.{reverse, reverse-cons, reverse-append}
use nslibrary.Common.Text.{same_text}
use nslibrary.Formats.Binary.{Parsed, parsed, format_error, range_error, invalid}
use nslibrary.Formats.Binary.Laws.{guarded, parsed-inj}
use nslibrary.Formats.Reader.{RandomAccessReader}
use nslibrary.Formats.SaveArchive.{
  tar_block, EntryType, file, dir, SaveArchiveEntry, SaveArchiveListing,
}
use nslibrary.Formats.SaveArchive.Walk.{
  Reading, Step, go_on, finished, counted, read_step, after, run, start, is_inside_file, listing_of,
  listed, read_save_archive,
}
use nslibrary.Formats.SaveArchive.Ends.{
  Moves, ends, skips, adds, IsAdded, entry_at, with_entry, read_step-Moves,
}
use nslibrary.Formats.SaveArchive.Plain.{
  IsSafePath, any-eq-false, same_text-ne, has_path_problem-IsSafePath,
}

abbrev pub IsFitting : ℕ → SaveArchiveEntry → Type 0
IsFitting size e = IsSafePath e.path × (e.offset + e.size ≤ size)

abbrev pub AllDistinct : List (List ℕ) → Type 0
AllDistinct [] = Unit {0}
AllDistinct (p ∷ ps) = All (λ other. other ≢ p) ps × AllDistinct ps

-- The number of the files, and the sum of their sizes.
unfoldable pub files_of : List SaveArchiveEntry → ℕ
files_of [] = 0
files_of (e ∷ es) = one e.type + files_of es
  where
    one : EntryType → ℕ
    one file = 1
    one dir = 0

unfoldable pub sizes_of : List SaveArchiveEntry → ℕ
sizes_of [] = 0
sizes_of (e ∷ es) = bytes e.type + sizes_of es
  where
    bytes : EntryType → ℕ
    bytes file = e.size
    bytes dir = 0

-- Adding at the end.
AllDistinct-append :
    (ps : List (List ℕ)) (path : List ℕ)
    → AllDistinct ps
    → All (λ p. p ≢ path) ps
    → AllDistinct (ps ++ (path ∷ []))
AllDistinct-append [] path d h = (tt, tt)
AllDistinct-append (p ∷ ps) path d h = (
  All-append (λ other. other ≢ p) ps (path ∷ []) d.0 ((λ e. h.0 (sym e)), tt),
  AllDistinct-append ps path d.1 h.1,
)

All-append_inv {ℓ κ} :
    {A : Type ℓ} (P : A → Type κ) (xs ys : List A) → All P (xs ++ ys) → All P xs × All P ys
All-append_inv P [] ys h = (tt, h)
All-append_inv P (x ∷ xs) ys h = let (hx, hy) = All-append_inv P xs ys h.1 in ((h.0, hx), hy)

All-reverse {ℓ κ} : {A : Type ℓ} (P : A → Type κ) (xs : List A) → All P (reverse xs) → All P xs
All-reverse P [] h = tt
All-reverse P (x ∷ xs) h =
    let (rest, last) =
      All-append_inv P (reverse xs) (x ∷ []) (subst (All P) (reverse-cons x xs) h) in
    (last.0, All-reverse P xs rest)

-- The paths of the entries.
abbrev pub paths : List SaveArchiveEntry → List (List ℕ)
paths es = map (λ e. e.path) es

paths-append : (es fs : List SaveArchiveEntry) → paths (es ++ fs) ≡ paths es ++ paths fs
paths-append [] fs = refl
paths-append (e ∷ es) fs = ap (◌∷◌ e.path) (paths-append es fs)

files_of-append : (es fs : List SaveArchiveEntry) → files_of (es ++ fs) ≡ files_of es + files_of fs
unfolding files_of
files_of-append [] fs = omega arith
files_of-append (e ∷ es) fs = omega (arith, files_of-append es fs)

sizes_of-append : (es fs : List SaveArchiveEntry) → sizes_of (es ++ fs) ≡ sizes_of es + sizes_of fs
unfolding sizes_of
sizes_of-append [] fs = omega arith
sizes_of-append (e ∷ es) fs = omega (arith, sizes_of-append es fs)

-- What holds between two rounds.
record Reads (size : ℕ) (s : Reading) : Type 0 where
  fitting : All (IsFitting size) s.entries
  distinct : AllDistinct (paths s.entries)
  remembered : s.seen ≡ reverse (paths s.entries)
  files : s.file_count ≡ files_of s.entries
  bytes : s.data_size ≡ sizes_of s.entries

-- A new entry, whatever the counts behind it are.
module _ (reader : RandomAccessReader) (s : Reading) (path : List ℕ) (type : EntryType) (size : ℕ)
    (added : IsAdded reader s path type size) (h : Reads reader.size s) where
  new_entries : List SaveArchiveEntry
  new_entries = s.entries ++ (entry_at s path type size ∷ [])

  new_entries-IsFitting : All (IsFitting reader.size) new_entries
  unfolding new_entries
  new_entries-IsFitting =
      All-append (IsFitting reader.size) s.entries (entry_at s path type size ∷ []) h.fitting
        ((has_path_problem-IsSafePath path added.unproblematic, omega (arith, added.fits)), tt)

  new_entries-AllDistinct : AllDistinct (paths new_entries)
  unfolding new_entries
  new_entries-AllDistinct =
      let unseen =
        All-mono {P = λ p. same_text p path ≡ false} {Q = λ p. p ≢ path} (λ p e. same_text-ne e)
          s.seen (any-eq-false (λ p. same_text p path) s.seen added.unseen) in
      subst AllDistinct (sym (paths-append s.entries (entry_at s path type size ∷ []))) (
        AllDistinct-append (paths s.entries) path h.distinct (
          All-reverse (λ p. p ≢ path) (paths s.entries)
            (subst (All (λ p. p ≢ path)) h.remembered unseen)))

  new_entries-paths : path ∷ s.seen ≡ reverse (paths new_entries)
  unfolding new_entries
  new_entries-paths =
      rw
        (
          paths-append s.entries (entry_at s path type size ∷ []),
          reverse-append (paths s.entries) (path ∷ []),
          h.remembered,
        )
        refl

adds-Reads :
    (reader : RandomAccessReader) (s : Reading) (path : List ℕ) (type : EntryType) (size : ℕ)
    → IsAdded reader s path type size
    → Reads reader.size s
    → Reads reader.size (with_entry s path type size)
unfolding counted files_of sizes_of new_entries
adds-Reads reader s path dir size added h = record {
  fitting = new_entries-IsFitting reader s path dir size added h;
  distinct = new_entries-AllDistinct reader s path dir size added h;
  remembered = new_entries-paths reader s path dir size added h;
  files = omega (arith, h.files, files_of-append s.entries (entry_at s path dir size ∷ []));
  bytes = omega (arith, h.bytes, sizes_of-append s.entries (entry_at s path dir size ∷ []));
}
adds-Reads reader s path file size added h = record {
  fitting = new_entries-IsFitting reader s path file size added h;
  distinct = new_entries-AllDistinct reader s path file size added h;
  remembered = new_entries-paths reader s path file size added h;
  files = omega (arith, h.files, files_of-append s.entries (entry_at s path file size ∷ []));
  bytes = omega (arith, h.bytes, sizes_of-append s.entries (entry_at s path file size ∷ []));
}

moved-Reads :
    (reader : RandomAccessReader) (s next : Reading)
    → Moves reader s (go_on next)
    → Reads reader.size s
    → Reads reader.size next
moved-Reads reader s _ (skips o p further below) h = record {
  fitting = h.fitting;
  distinct = h.distinct;
  remembered = h.remembered;
  files = h.files;
  bytes = h.bytes;
}
moved-Reads reader s _ (adds path type size added) h = adds-Reads reader s path type size added h

finished-same : (reader : RandomAccessReader) (s t : Reading) → Moves reader s (finished t) → s ≡ t
finished-same reader s _ ends = refl

after-eq-parsed :
    (next : Reading → Option (Parsed Reading)) (m : Parsed Step) (t : Reading)
    → after next m ≡ some (parsed t)
    → (m ≡ parsed (finished t))
      ⊎ ((s : Reading) × (m ≡ parsed (go_on s)) × (next s ≡ some (parsed t)))
unfolding after
after-eq-parsed next (parsed (go_on s)) t h = inr (s, refl, h)
after-eq-parsed next (parsed (finished s)) t h = inl (ap (λ r. parsed (finished r)) cc)
after-eq-parsed next (format_error code) t h = cc
after-eq-parsed next range_error t h = cc

run-Reads :
    (fuel : ℕ) (reader : RandomAccessReader) (s t : Reading)
    → run fuel reader s ≡ some (parsed t)
    → Reads reader.size s
    → Reads reader.size t
unfolding run
run-Reads zero reader s t e h = cc
run-Reads (suc fuel) reader s t e h =
    elim (after-eq-parsed (run fuel reader) (read_step reader s) t e) [
      | inl done ↦
          subst (Reads reader.size) (finished-same reader s t (read_step-Moves reader s done)) h
      | inr (next, stepped, rest) ↦
          run-Reads fuel reader next t rest
            (moved-Reads reader s next (read_step-Moves reader s stepped) h)
    ]

start-Reads : (size : ℕ) → Reads size start
unfolding files_of sizes_of
start-Reads size = record {
  fitting = tt;
  distinct = tt;
  remembered = refl;
  files = refl;
  bytes = refl;
}

pub record IsSound (size : ℕ) (listing : SaveArchiveListing) : Type 0 where
  pub fitting : All (IsFitting size) listing.entries
  pub distinct : AllDistinct (paths listing.entries)
  pub files : listing.file_count ≡ files_of listing.entries
  pub bytes : listing.data_size ≡ sizes_of listing.entries
  pub apart : All (λ e. is_inside_file listing.entries e ≡ false) listing.entries

listing_of-IsSound :
    (size : ℕ) (s : Reading) {listing : SaveArchiveListing}
    → Reads size s
    → listing_of s ≡ parsed listing
    → IsSound size listing
unfolding listing_of
listing_of-IsSound size s h e =
    let (apart, e1) = guarded (any (is_inside_file s.entries) s.entries) invalid _ e in
    subst (IsSound size) (parsed-inj e1) (record {
      fitting = h.fitting;
      distinct = h.distinct;
      files = h.files;
      bytes = h.bytes;
      apart = any-eq-false (is_inside_file s.entries) s.entries apart;
    })

listed-eq-parsed :
    (m : Option (Parsed Reading)) {listing : SaveArchiveListing}
    → listed m ≡ some (parsed listing)
    → (s : Reading) × (m ≡ some (parsed s)) × (listing_of s ≡ parsed listing)
unfolding listed
listed-eq-parsed none e = cc
listed-eq-parsed (some (parsed s)) e = (s, refl, cc)
listed-eq-parsed (some (format_error code)) e = cc
listed-eq-parsed (some range_error) e = cc

-- Of a save archive that is accepted, whatever its bytes are, each entry has a path of 1 to 254
-- bytes with no NUL, no backslash and no part that is empty, "." or "..", its data ends within the
-- archive, no two entries have the same path, none is found inside a file, and the listing's counts
-- are the number of its files and the sum of their sizes.
pub read_save_archive-IsSound :
    (reader : RandomAccessReader) {listing : SaveArchiveListing}
    → read_save_archive reader ≡ some (parsed listing)
    → IsSound reader.size listing
unfolding read_save_archive
read_save_archive-IsSound reader {listing} e = whole (not (reader.size % tar_block == 0)) e
  where
    whole :
        (test : Bool)
        → (if test
            then some (format_error invalid)
            else listed (run (suc reader.size) reader start))
          ≡ some (parsed listing)
        → IsSound reader.size listing
    whole true e = cc
    whole false e =
        let (s, ran, e1) = listed-eq-parsed (run (suc reader.size) reader start) e in
        listing_of-IsSound reader.size s
          (run-Reads (suc reader.size) reader start s ran (start-Reads reader.size)) e1
