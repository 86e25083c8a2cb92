-- ===== src/Saves/Upload.antt =====
-- `store` of packages/server/src/saves/service.ts. The digest is a parameter, and `renames` says
-- whether `mkdir` and `rename` succeed for this upload. The temporary file is the bytes that were
-- uploaded, which are gone when the call is over.
use nslibrary.Common.{
  ℕ, ◌+◌, Bool, true, false, ◌&&◌, not, Option, none, some, List, [], ◌∷◌, ◌++◌, map, find?, length,
  ltb, if◌then◌else◌, is_some, or_else, String, str_eq, Result, ok, err, Action, pure, gets, lift,
  or_throw, modify, require, ◌>>=◌, ◌>>◌, payload_too_large, save_invalid, internal,
}
use nslibrary.Common.Text.{trim}
use nslibrary.Common.Maps
use nslibrary.Formats.Binary.{Parsed, parsed, format_error, range_error}
use nslibrary.Formats.Reader.{buffer_reader}
use nslibrary.Formats.SaveArchive.{SaveArchiveListing}
use nslibrary.Formats.SaveArchive.Walk.{read_save_archive}
use nslibrary.Saves.{
  SaveType, SaveOrigin, manual, pre_restore, SaveBackupRow, SaveKey, Saves, key_of, latest_of,
  row_with, delete_row, prune, changed,
}

pub record SaveUploadQuery : Type 0 where
  pub app : String
  pub type : SaveType
  pub user : Option String
  pub user_name : Option (List ℕ)
  pub name : Option (List ℕ)
  pub origin : SaveOrigin
  pub sha256 : String

pub record StoredSave : Type 0 where
  pub row : SaveBackupRow
  pub dup : Bool

-- `text?.trim() || null`
unfoldable pub trimmed : Option (List ℕ) → Option (List ℕ)
unfolding trim
trimmed none = none
trimmed (some text) = not_empty (trim text)
  where
    not_empty : List ℕ → Option (List ℕ)
    not_empty [] = none
    not_empty (c ∷ text) = some (c ∷ text)

-- The bytes of the chunks that came, `none` once there are more than `max`; `bytes` came before.
unfoldable pub meter : ℕ → ℕ → List (List ℕ) → Option (List ℕ)
meter max bytes [] = some []
meter max bytes (chunk ∷ chunks) =
    let rest = meter max (bytes + length chunk) chunks in
    if ltb max (bytes + length chunk) then none else behind rest
  where
    behind : Option (List ℕ) → Option (List ℕ)
    behind none = none
    behind (some more) = some (chunk ++ more)

-- The temporary file is read through library/file-reader.ts, which gives its bytes.
unfoldable pub outcome_of : Option (Parsed SaveArchiveListing) → Result SaveArchiveListing
outcome_of (some (parsed listing)) = ok listing
outcome_of (some (format_error code)) = err save_invalid
outcome_of (some range_error) = err internal
outcome_of none = err internal

unfoldable pub validate : List ℕ → Result SaveArchiveListing
unfolding outcome_of read_save_archive buffer_reader
validate bytes = outcome_of (read_save_archive (buffer_reader bytes))

unfoldable pub too_large : ℕ → Option ℕ → Bool
too_large max none = false
too_large max (some declared) = ltb max declared

unfoldable pub is_manual : SaveOrigin → Bool
is_manual manual = true
is_manual pre_restore = false

-- `mkdir` and `rename(tmp, path)`
unfoldable pub move_archive : Bool → ℕ → List ℕ → Saves → Saves
move_archive true id bytes s = record s { archives = Maps.set id bytes s.archives }
move_archive false id bytes s = s

unfoldable pub set_origin : ℕ → SaveOrigin → Saves → Saves
unfolding row_with
set_origin id origin s = record s {
  rows = map (λ row. if row_with id row then record row { origin = origin } else row) s.rows;
}

-- The same bytes again: the archive is put back where it is missing.
unfoldable pub put_back : Bool → SaveBackupRow → List ℕ → Action Saves (Unit {0})
unfolding move_archive
put_back renames latest bytes s =
    if is_some (Maps.get latest.id s.archives)
    then (ok tt, s)
    else if renames
    then (ok tt, move_archive true latest.id bytes s)
    else (err internal, s)

unfoldable pub promote : SaveKey → SaveBackupRow → Action Saves StoredSave
unfolding set_origin row_with prune changed
promote key latest = do
  modify (set_origin latest.id manual)
  promoted ← gets (λ s. find? (row_with latest.id) s.rows)
  modify (λ s. changed (prune key s).1)
  pure (record { row = or_else promoted latest; dup = true })

unfoldable pub same_bytes :
    Bool → SaveUploadQuery → SaveKey → SaveBackupRow → List ℕ → Action Saves StoredSave
unfolding put_back promote is_manual
same_bytes renames query key latest bytes = do
  put_back renames latest bytes
  if is_manual query.origin && not (is_manual latest.origin)
      then promote key latest
      else pure (record { row = latest; dup = true })

unfoldable pub insert_row : SaveBackupRow → Saves → Saves
insert_row row s = record s { rows = s.rows ++ (row ∷ []); next_id = s.next_id + 1 }

-- A backup that is new. If its archive cannot be moved in place, the row goes again.
unfoldable pub keep_new : Bool → SaveBackupRow → List ℕ → Action Saves StoredSave
unfolding insert_row move_archive delete_row is_manual prune key_of changed
keep_new true row bytes s =
    let placed = move_archive true row.id bytes (insert_row row s) in
    let kept = if is_manual row.origin then (prune (key_of row) placed).1 else placed in
    (ok (record { row = row; dup = false }), changed kept)
keep_new false row bytes s = (err internal, delete_row row.id (insert_row row s))

module _ (sha256 : List ℕ → String) where
  unfoldable pub new_row :
      SaveUploadQuery → ℕ → String → List ℕ → SaveArchiveListing → Saves → SaveBackupRow
  unfolding trimmed
  new_row query device device_name bytes listing s = record {
    id = s.next_id;
    application_id = query.app;
    app_name = trimmed query.name;
    save_type = query.type;
    user_id = query.user;
    user_name = trimmed query.user_name;
    device_id = some device;
    device_name = device_name;
    origin = query.origin;
    size = length bytes;
    data_size = listing.data_size;
    file_count = listing.file_count;
    sha256 = sha256 bytes;
    pinned = false;
    note = none;
    created_at = s.clock;
  }

  unfoldable pub store_behind :
      Option SaveBackupRow
      → Bool
      → SaveUploadQuery
      → SaveKey
      → ℕ
      → String
      → List ℕ
      → SaveArchiveListing
      → Action Saves StoredSave
  unfolding same_bytes keep_new new_row
  store_behind none renames query key device device_name bytes listing s =
      keep_new renames (new_row query device device_name bytes listing s) bytes s
  store_behind (some latest) renames query key device device_name bytes listing s =
      if str_eq latest.sha256 (sha256 bytes)
      then same_bytes renames query key latest bytes s
      else keep_new renames (new_row query device device_name bytes listing s) bytes s

  unfoldable pub store :
      Bool → List (List ℕ) → SaveUploadQuery → ℕ → String → Option ℕ → Action Saves StoredSave
  unfolding too_large meter validate latest_of store_behind require
  store renames body query device device_name declared = do
    max ← gets (λ s. s.max_bytes)
    require (not (too_large max declared)) payload_too_large
    bytes ← or_throw (meter max 0 body) payload_too_large
    require (str_eq (sha256 bytes) query.sha256) save_invalid
    listing ← lift (validate bytes)
    let key : SaveKey = record {
      application_id = query.app;
      save_type = query.type;
      user_id = query.user;
      device_id = some device;
    }
    latest ← gets (latest_of key)
    store_behind latest renames query key device device_name bytes listing
