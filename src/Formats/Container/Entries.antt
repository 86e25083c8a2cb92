-- ===== src/Formats/Container/Entries.antt =====
-- What `listContainerEntries` of packages/formats/src/container.ts lists.
use nslibrary.Common.{ℕ, ◌+◌, ◌≤◌, ◌≡◌, ◌≢◌, List, [], ◌∷◌, map, All, subst}
use nslibrary.Formats.Binary.{parsed, range_error, ◌>>=◌}
use nslibrary.Formats.Binary.Laws.{
  >>=-eq-range_error, >>=-eq-parsed, parsed-inj, parsed-ne-range_error,
}
use nslibrary.Formats.Reader.{RandomAccessReader}
use nslibrary.Formats.Partition.{PartitionEntry, Hfs0Entry, parse_pfs0}
use nslibrary.Formats.Partition.Bounds.{IsPlaced, parse_pfs0-IsInside}
use nslibrary.Formats.Partition.Safe.{parse_pfs0-ne-range_error}
use nslibrary.Formats.Xci.{parse_xci}
use nslibrary.Formats.Xci.Bounds.{EndsBy, parse_xci-AllEndBy, parse_xci-ne-range_error}
use nslibrary.Formats.Container.{ContainerFormat, nsp, nsz, xci, xcz, list_container_entries}

abbrev pub LiesIn : ℕ → PartitionEntry → Type 0
LiesIn size e = e.offset + e.size ≤ size

placed-LiesIn :
    (start size : ℕ) (entries : List PartitionEntry)
    → All (IsPlaced start size) entries
    → All (LiesIn size) entries
placed-LiesIn start size [] all = tt
placed-LiesIn start size (e ∷ es) all = (all.0.1, placed-LiesIn start size es all.1)

hfs0-LiesIn :
    (size : ℕ) (entries : List Hfs0Entry)
    → All (EndsBy size) entries
    → All (LiesIn size) (map (λ e. e.entry) entries)
hfs0-LiesIn size [] all = tt
hfs0-LiesIn size (e ∷ es) all = (all.0, hfs0-LiesIn size es all.1)

from_pfs0 :
    (reader : RandomAccessReader) {entries : List PartitionEntry}
    → (parse_pfs0 reader 0 reader.size >>= λ p. parsed p.entries) ≡ parsed entries
    → All (LiesIn reader.size) entries
from_pfs0 reader e =
    let (p, parsed_p, e1) = >>=-eq-parsed (parse_pfs0 reader 0 reader.size) _ e in
    subst (All (LiesIn reader.size)) (parsed-inj e1) (
      placed-LiesIn (0 + p.header_size) reader.size p.entries
        (parse_pfs0-IsInside reader 0 reader.size parsed_p).placed)

from_xci :
    (reader : RandomAccessReader) {entries : List PartitionEntry}
    → (parse_xci reader >>= λ x. parsed (map (λ e. e.entry) x.secure.entries)) ≡ parsed entries
    → All (LiesIn reader.size) entries
from_xci reader e =
    let (x, parsed_x, e1) = >>=-eq-parsed (parse_xci reader) _ e in
    subst (All (LiesIn reader.size)) (parsed-inj e1)
      (hfs0-LiesIn reader.size x.secure.entries (parse_xci-AllEndBy reader parsed_x))

-- Every entry that is listed of a container, of any of the four formats and whatever its bytes are,
-- ends within the file.
pub list_container_entries-LiesIn :
    (reader : RandomAccessReader) (format : ContainerFormat) {entries : List PartitionEntry}
    → list_container_entries reader format ≡ parsed entries
    → All (LiesIn reader.size) entries
unfolding list_container_entries
list_container_entries-LiesIn reader nsp e = from_pfs0 reader e
list_container_entries-LiesIn reader nsz e = from_pfs0 reader e
list_container_entries-LiesIn reader xci e = from_xci reader e
list_container_entries-LiesIn reader xcz e = from_xci reader e

-- Of a reader whose `read` throws no RangeError, listing a container accesses no buffer out of its
-- bounds, whatever the bytes are: it gives entries or a FormatError.
pub list_container_entries-ne-range_error :
    (reader : RandomAccessReader) (format : ContainerFormat)
    → ((o l : ℕ) → reader.read o l ≢ range_error)
    → list_container_entries reader format ≢ range_error
unfolding list_container_entries
list_container_entries-ne-range_error reader nsp steady e =
    let (_, _, e1) =
      >>=-eq-range_error (parse_pfs0 reader 0 reader.size) _ e
        (parse_pfs0-ne-range_error reader steady 0 reader.size) in
    parsed-ne-range_error e1
list_container_entries-ne-range_error reader nsz steady e =
    let (_, _, e1) =
      >>=-eq-range_error (parse_pfs0 reader 0 reader.size) _ e
        (parse_pfs0-ne-range_error reader steady 0 reader.size) in
    parsed-ne-range_error e1
list_container_entries-ne-range_error reader xci steady e =
    let (_, _, e1) =
      >>=-eq-range_error (parse_xci reader) _ e (parse_xci-ne-range_error reader steady) in
    parsed-ne-range_error e1
list_container_entries-ne-range_error reader xcz steady e =
    let (_, _, e1) =
      >>=-eq-range_error (parse_xci reader) _ e (parse_xci-ne-range_error reader steady) in
    parsed-ne-range_error e1
