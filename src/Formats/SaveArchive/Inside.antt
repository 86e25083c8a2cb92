-- ===== src/Formats/SaveArchive/Inside.antt =====
-- The last check of `readSaveArchive` of packages/formats/src/save-archive.ts: no entry of an archive
-- that is accepted stands below another that is a file.
use nslibrary.Common.{
  ℕ, zero, suc, ◌+◌, ◌-◌, ◌<◌, ◌≡◌, ◌≢◌, refl, sym, ap, subst, ◌∙◌, Bool, true, false, ◌==◌, ◌&&◌,
  some, List, [], ◌∷◌, ◌++◌, All, append_assoc, length, take, arith, if◌then◌else◌, length-append,
  take-append_self, append-nil, Bool-cases, inl, inr,
}
use nslibrary.Common.Text.{same_text}
use nslibrary.Formats.Binary.{parsed}
use nslibrary.Formats.Reader.{RandomAccessReader}
use nslibrary.Formats.SaveArchive.{
  file, SaveArchiveEntry, SaveArchiveListing, split_from, components,
}
use nslibrary.Formats.SaveArchive.Walk.{
  join_parts, is_file, is_file_from, any_file_above, is_inside_file, read_save_archive,
}
use nslibrary.Formats.SaveArchive.Plain.{or_false, same_text_self}
use nslibrary.Formats.SaveArchive.Safe.{AllDistinct, paths, read_save_archive-IsSound}

split_from-slash :
    (part path rest : List ℕ)
    → split_from part (path ++ (47 ∷ rest)) ≡ split_from part path ++ components rest
unfolding split_from components
split_from-slash part [] rest = refl
split_from-slash part (c ∷ path) rest = elim (Bool-cases (c == 47)) [
  | inl slash ↦ rw slash (ap (◌∷◌ part) (split_from-slash [] path rest))
  | inr other ↦ rw other (split_from-slash (part ++ (c ∷ [])) path rest)
]

length-split_from : (part path : List ℕ) → 0 < length (split_from part path)
unfolding split_from
length-split_from part [] = omega arith
length-split_from part (c ∷ path) = elim (Bool-cases (c == 47)) [
  | inl slash ↦ rw slash (omega arith)
  | inr other ↦ rw other (length-split_from (part ++ (c ∷ [])) path)
]

join_parts-cons :
    (part : List ℕ) (parts : List (List ℕ))
    → 0 < length parts
    → join_parts (part ∷ parts) ≡ part ++ (47 ∷ join_parts parts)
unfolding join_parts
join_parts-cons part [] h = absurd (omega arith)
join_parts-cons part (next ∷ parts) h = refl

join-split_from : (part path : List ℕ) → join_parts (split_from part path) ≡ part ++ path
unfolding split_from join_parts
join-split_from part [] = sym (append-nil part)
join-split_from part (c ∷ path) = elim (Bool-cases (c == 47)) [
  | inl slash ↦
      let e : c ≡ 47 = ground (arith, slash) in
      rw
        (
          slash,
          join_parts-cons part (split_from [] path) (length-split_from [] path),
          join-split_from [] path,
          e,
        )
        refl
  | inr other ↦ rw other (join-split_from (part ++ (c ∷ [])) path ∙ append_assoc part (c ∷ []) path)
]

and_true : (a : Bool) {b : Bool} → (a && b) ≡ true → (a ≡ true) × (b ≡ true)
and_true true h = (refl, h)
and_true false h = cc

same_text-eq : (a b : List ℕ) → same_text a b ≡ true → a ≡ b
unfolding same_text
same_text-eq [] [] h = refl
same_text-eq [] (c ∷ b) h = cc
same_text-eq (c ∷ a) [] h = cc
same_text-eq (c ∷ a) (d ∷ b) h =
    let (same, rest) = and_true (c == d) h in
    let e : c ≡ d = ground (arith, same) in rw (e, same_text-eq a b rest) refl

-- Entries of other paths do not change what is held.
is_file_from-others :
    (held : Bool) (es : List SaveArchiveEntry) (path : List ℕ)
    → All (λ other. other ≢ path) (paths es)
    → is_file_from held es path ≡ held
unfolding is_file_from
is_file_from-others held [] path h = refl
is_file_from-others held (e ∷ es) path h = elim (Bool-cases (same_text e.path path)) [
  | inl same ↦ absurd (h.0 (same_text-eq e.path path same))
  | inr other ↦ rw other (is_file_from-others held es path h.1)
]

-- The map of the paths holds a file that the entries have.
is_file_from-held :
    (before after : List SaveArchiveEntry) (f : SaveArchiveEntry) (held : Bool)
    → AllDistinct (paths (before ++ (f ∷ after)))
    → f.type ≡ file
    → is_file_from held (before ++ (f ∷ after)) f.path ≡ true
unfolding is_file_from is_file
is_file_from-held [] after f held d e =
    let held_now : (if same_text f.path f.path then is_file f.type else held) ≡ true =
      rw (same_text_self f.path, e) refl in
    subst (λ now. is_file_from now after f.path ≡ true) (sym held_now)
      (is_file_from-others true after f.path d.0)
is_file_from-held (b ∷ before) after f held d e = is_file_from-held before after f _ d.1 e

any_file_above-lt :
    (entries : List SaveArchiveEntry) (parts : List (List ℕ)) (i n k : ℕ)
    → any_file_above entries parts i n ≡ false
    → k < n
    → is_file_from false entries (join_parts (take (i + k) parts)) ≡ false
unfolding any_file_above
any_file_above-lt entries parts i zero k h below = absurd (omega arith)
any_file_above-lt entries parts i (suc n) zero h below =
    let e : i + 0 ≡ i = omega arith in
    rw e (or_false (is_file_from false entries (join_parts (take i parts))) h).0
any_file_above-lt entries parts i (suc n) (suc k) h below =
    let e : i + suc k ≡ suc i + k = omega arith in
    let rest = (or_false (is_file_from false entries (join_parts (take i parts))) h).1 in
    rw e (any_file_above-lt entries parts (suc i) n k rest (omega arith))

length-components : (path : List ℕ) → 0 < length (components path)
unfolding components
length-components path = length-split_from [] path

join-components : (path : List ℕ) → join_parts (components path) ≡ path
unfolding components
join-components path = join-split_from [] path

components-slash :
    (path rest : List ℕ) → components (path ++ (47 ∷ rest)) ≡ components path ++ components rest
unfolding components
components-slash path rest = split_from-slash [] path rest

-- The path of a file is one of those that are looked up for a path below it.
file_above :
    (entries : List SaveArchiveEntry) (path rest : List ℕ)
    → any_file_above entries
        (components (path ++ (47 ∷ rest)))
        1
        (length (components (path ++ (47 ∷ rest))) - 1)
      ≡ false
    → is_file_from false entries path ≡ false
file_above entries path rest apart =
    let n = length (components path) in
    let some_part = length-components path in
    let some_rest = length-components rest in
    let split = components-slash path rest in
    let size : length (components (path ++ (47 ∷ rest))) ≡ n + length (components rest) =
      ap length split ∙ length-append (components path) (components rest) in
    let found =
      any_file_above-lt entries (components (path ++ (47 ∷ rest))) 1
        (length (components (path ++ (47 ∷ rest))) - 1) (n - 1) apart (omega arith) in
    let at : 1 + (n - 1) ≡ n = omega arith in
    let same : join_parts (take (1 + (n - 1)) (components (path ++ (47 ∷ rest)))) ≡ path =
      rw (at, split, take-append_self n (components path) (components rest) refl)
        (join-components path) in
    subst (λ p. is_file_from false entries p ≡ false) same found

-- An entry below a path that is a file would have been found inside it.
below-file :
    (before after : List SaveArchiveEntry) (f e : SaveArchiveEntry) (rest : List ℕ)
    → AllDistinct (paths (before ++ (f ∷ after)))
    → f.type ≡ file
    → is_inside_file (before ++ (f ∷ after)) e ≡ false
    → e.path ≢ f.path ++ (47 ∷ rest)
unfolding is_inside_file
below-file before after f e rest d is_f apart h =
    let entries = before ++ (f ∷ after) in
    let held = is_file_from-held before after f false d is_f in
    let no = file_above entries f.path rest (
      subst (λ p. any_file_above entries (components p) 1 (length (components p) - 1) ≡ false) h
        apart) in
    let clash : true ≡ false = sym held ∙ no in cc

member-All :
    (P : SaveArchiveEntry → Type 0) (before after : List SaveArchiveEntry) (e : SaveArchiveEntry)
    → All P (before ++ (e ∷ after))
    → P e
member-All P [] after e h = h.0
member-All P (b ∷ before) after e h = member-All P before after e h.1

-- Of a save archive that is accepted, no entry has a path that goes on behind the path of a file and
-- a slash. The entries of the listing are written as those before and after the file, and as those
-- before and after the other entry.
pub read_save_archive-apart :
    (reader : RandomAccessReader) (listing : SaveArchiveListing)
    (before after before_e after_e : List SaveArchiveEntry) (f e : SaveArchiveEntry) (rest : List ℕ)
    → read_save_archive reader ≡ some (parsed listing)
    → listing.entries ≡ before ++ (f ∷ after)
    → listing.entries ≡ before_e ++ (e ∷ after_e)
    → f.type ≡ file
    → e.path ≢ f.path ++ (47 ∷ rest)
read_save_archive-apart reader listing before after before_e after_e f e rest read at_f at_e is_f =
    let sound = read_save_archive-IsSound reader {listing = listing} read in
    below-file before after f e rest (subst (λ es. AllDistinct (paths es)) at_f sound.distinct) is_f
      (member-All (λ e. is_inside_file (before ++ (f ∷ after)) e ≡ false) before_e after_e e
        (subst (λ es. All (λ e. is_inside_file (before ++ (f ∷ after)) e ≡ false) es) at_e
          (subst (λ es. All (λ e. is_inside_file es e ≡ false) listing.entries) at_f sound.apart)))
