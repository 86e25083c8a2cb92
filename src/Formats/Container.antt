-- ===== src/Formats/Container.antt =====
-- packages/formats/src/container.ts: the format of a file by its name.
pub mod Entries
mod Runs
use nslibrary.Common.{Bool, Option, none, some, List, [], ◌∷◌, ℕ, ◌==◌, if◌then◌else◌}
use nslibrary.Common.Text.{codes, same_text, to_lower}
use nslibrary.Formats.Binary.{Parsed, parsed, ◌>>=◌}
use nslibrary.Formats.Reader.{RandomAccessReader}
use nslibrary.Formats.Partition.{PartitionEntry, Hfs0Entry, parse_pfs0}
use nslibrary.Formats.Xci.{parse_xci}
use mathlib.Core.List.{map}

pub data ContainerFormat : Type 0 where
  nsp nsz xci xcz : ContainerFormat

pub data LibraryFileFormat : Type 0 where
  container : ContainerFormat → LibraryFileFormat
  nro : LibraryFileFormat

-- `name.slice(name.lastIndexOf("."))`, or none where there is no dot.
unfoldable pub extension_of : List ℕ → Option (List ℕ)
extension_of [] = none
extension_of (c ∷ name) =
    let rest = extension_of name in
    elim rest [ some extension ↦ some extension | none ↦ if c == 46 then some (c ∷ name) else none ]

unfoldable pub format_of_extension : List ℕ → Option LibraryFileFormat
unfolding same_text
format_of_extension extension =
    if same_text extension (codes ".nsp")
    then some (container nsp)
    else if same_text extension (codes ".nsz")
    then some (container nsz)
    else if same_text extension (codes ".xci")
    then some (container xci)
    else if same_text extension (codes ".xcz")
    then some (container xcz)
    else if same_text extension (codes ".nro")
    then some nro
    else none

unfoldable pub format_from_file_name : List ℕ → Option LibraryFileFormat
unfolding extension_of format_of_extension to_lower
format_from_file_name name = elim (extension_of name) [
  | none ↦ none
  | some extension ↦ format_of_extension (to_lower extension)
]

unfoldable pub list_container_entries :
    RandomAccessReader → ContainerFormat → Parsed (List PartitionEntry)
unfolding parse_pfs0 parse_xci
list_container_entries reader nsp = do p ← parse_pfs0 reader 0 reader.size; parsed p.entries
list_container_entries reader nsz = do p ← parse_pfs0 reader 0 reader.size; parsed p.entries
list_container_entries reader xci = do
  x ← parse_xci reader
  parsed (map (λ e. e.entry) x.secure.entries)
list_container_entries reader xcz = do
  x ← parse_xci reader
  parsed (map (λ e. e.entry) x.secure.entries)
