-- ===== src/Formats/SaveArchive/Runs.antt =====
-- Save archives that are read.
use nslibrary.Common.{
  ℕ, true, false, none, ◌-◌, ◌≡◌, ◌≢◌, refl, List, [], ◌∷◌, ◌++◌, some, length, replicate,
}
use nslibrary.Common.Text.{codes}
use nslibrary.Formats.Binary.{parsed}
use nslibrary.Formats.Reader.{RandomAccessReader, buffer_reader}
use nslibrary.Formats.SaveArchive.{
  file, dir, SaveArchiveEntry, SaveArchiveListing, has_path_problem,
}
use nslibrary.Formats.SaveArchive.Walk.{read_save_archive}
use nslibrary.Formats.SaveArchive.Ends.{read_save_archive-returns}
use nslibrary.Formats.SaveArchive.Safe.{IsSound, read_save_archive-IsSound}
use nslibrary.Formats.SaveArchive.Inside.{read_save_archive-apart}

-- A field of `n` bytes, with zeros behind the text.
abbrev field : ℕ → List ℕ → List ℕ
field n text = text ++ replicate {A = ℕ} (n - length text) 0

abbrev header : List ℕ → List ℕ → List ℕ → List ℕ → List ℕ
header name size checksum flag =
    field 124 name
    ++ field 24 size
    ++ field 8 checksum
    ++ field 101 flag
    ++ field 255 (codes "ustar")

-- A file of three bytes, and a directory whose name goes on where the file's ends.
abbrev archive : RandomAccessReader
archive = buffer_reader (
    header (codes "s") (codes "00000000003") (codes "002745") (codes "0")
    ++ field 512 (7 ∷ 8 ∷ 9 ∷ [])
    ++ header (codes "s2/") (codes "00000000000") (codes "003110") (codes "5")
    ++ field 1024 [])

abbrev save_file : SaveArchiveEntry
save_file = record { path = codes "s"; type = file; size = 3; offset = 512 }

abbrev save_dir : SaveArchiveEntry
save_dir = record { path = codes "s2"; type = dir; size = 0; offset = 1536 }

abbrev save : SaveArchiveListing
save = record { entries = save_file ∷ save_dir ∷ []; file_count = 1; data_size = 3 }

reads_archive : read_save_archive archive ≡ some (parsed save)
unfolding read_save_archive buffer_reader
reads_archive = refl

read_save_archive-IsSound_example : IsSound 2560 save
unfolding buffer_reader
read_save_archive-IsSound_example = read_save_archive-IsSound archive {listing = save} reads_archive

read_save_archive-returns_example : read_save_archive archive ≢ none
read_save_archive-returns_example = read_save_archive-returns archive

read_save_archive-apart_example : save_dir.path ≢ save_file.path ++ (47 ∷ codes "x")
read_save_archive-apart_example =
    read_save_archive-apart archive save [] (save_dir ∷ []) (save_file ∷ []) [] save_file save_dir
      (codes "x") reads_archive refl refl refl

parent : has_path_problem (codes "a/../b") ≡ true
unfolding has_path_problem
parent = refl

deep : has_path_problem (codes "slot1/progress.bin") ≡ false
unfolding has_path_problem
deep = refl
