-- ===== src/Saves/Manage.antt =====
-- The other methods of packages/server/src/saves/service.ts: `list`, `get`, `locate`, `update`,
-- `delete`, `pruneAll`, `toDevice` and `toWeb`.
use nslibrary.Common.{
  ℕ, false, ◌+◌, ◌/◌, Bool, true, Option, none, some, List, [], ◌∷◌, map, find?, filter, any, ltb,
  if◌then◌else◌, String, str_eq, Action, pure, gets, or_throw, modify, ◌>>=◌, ◌>>◌, not_found,
  file_missing, or_else,
}
use nslibrary.Common.Text.{codes}
use nslibrary.Common.Maps.{Map}
use nslibrary.Common.Maps
use nslibrary.Common.Sort.{sort}
use nslibrary.Saves.{
  SaveType, SaveOrigin, SaveBackupRow, SaveKey, Saves, key_of, same_save, same_device, newer,
  row_with, remove, prune, changed,
}
use nslibrary.Saves.Upload.{trimmed}

-- `applicationId ? eq(…) : undefined`: an empty ID is as good as none.
unfoldable pub is_of_app : Option String → SaveBackupRow → Bool
is_of_app none row = true
is_of_app (some app) row = if str_eq app "" then true else str_eq row.application_id app

-- The rows whose save is not among those seen. `saveKeyString` is the same for two rows of the same
-- save, and only for these: an ID is a text of hexadecimal digits and not empty.
unfoldable pub first_of_each : List SaveKey → List SaveBackupRow → List SaveBackupRow
unfolding same_save key_of
first_of_each seen [] = []
first_of_each seen (row ∷ rows) =
    let rest = first_of_each seen rows in
    let others = first_of_each (key_of row ∷ seen) rows in
    if any (λ key. same_save key row) seen then rest else row ∷ others

unfoldable pub list : Option String → Bool → Saves → List SaveBackupRow
unfolding is_of_app first_of_each newer
list app latest s =
    let rows = sort newer (filter (is_of_app app) s.rows) in
    if latest then first_of_each [] rows else rows

unfoldable pub get : ℕ → Action Saves SaveBackupRow
unfolding row_with
get id = do row ← gets (λ s. find? (row_with id) s.rows); or_throw row not_found

-- The row and the bytes of its archive.
unfoldable pub locate : ℕ → Action Saves (SaveBackupRow × List ℕ)
unfolding get
locate id = do
  row ← get id
  archive ← gets (λ s. Maps.get row.id s.archives)
  bytes ← or_throw archive file_missing
  pure (row, bytes)

pub record UpdateSaveBackupRequest : Type 0 where
  pub pinned : Option Bool
  pub note : Option (Option (List ℕ))

unfoldable pub patched : UpdateSaveBackupRequest → SaveBackupRow → SaveBackupRow
unfolding trimmed
patched patch row = record row {
  pinned = or_else patch.pinned row.pinned;
  note = or_else (noted patch.note) row.note;
}
  where
    noted : Option (Option (List ℕ)) → Option (Option (List ℕ))
    noted none = none
    noted (some note) = some (trimmed note)

unfoldable pub update_row : ℕ → UpdateSaveBackupRequest → Saves → Saves
unfolding row_with patched
update_row id patch s = record s {
  rows = map (λ row. if row_with id row then patched patch row else row) s.rows;
}

unfoldable pub update : ℕ → UpdateSaveBackupRequest → Action Saves SaveBackupRow
unfolding get update_row changed
update id patch = do _ ← get id; modify (λ s. changed (update_row id patch s)); get id

unfoldable pub delete : ℕ → Action Saves (Unit {0})
unfolding get remove changed
delete id = do row ← get id; modify (λ s. changed (remove (row ∷ []) s))

-- `for (const key of saves.values()) removed += await this.#prune(key)`
unfoldable pub prune_each : List SaveBackupRow → Saves → ℕ × Saves
unfolding prune key_of
prune_each [] s = (0, s)
prune_each (row ∷ rows) s =
    let one = prune (key_of row) s in let rest = prune_each rows one.1 in (one.0 + rest.0, rest.1)

unfoldable pub prune_all : Saves → ℕ × Saves
unfolding prune_each list changed
prune_all s =
    let (removed, pruned) = prune_each (list none true s) s in
    (removed, if ltb 0 removed then changed pruned else pruned)

pub record DeviceSaveBackup : Type 0 where
  pub id : ℕ
  pub app : String
  pub type : SaveType
  pub user : Option String
  pub user_name : Option (List ℕ)
  pub device : String
  pub mine : Bool
  pub size : ℕ
  pub data_size : ℕ
  pub files : ℕ
  pub sha256 : String
  pub at : ℕ
  pub origin : SaveOrigin
  pub pinned : Bool
  pub note : Option (List ℕ)

-- `row.deviceId !== null ? names.get(row.deviceId) : undefined`
unfoldable pub name_of : Map String → Option ℕ → Option String
name_of names none = none
name_of names (some id) = Maps.get id names

-- `names` are the names of the devices by their ids, as the table `devices` holds them.
unfoldable pub to_device : Map String → List SaveBackupRow → ℕ → List DeviceSaveBackup
unfolding name_of same_device
to_device names rows device_id =
    map
      (λ (row : SaveBackupRow). record {
        id = row.id;
        app = row.application_id;
        type = row.save_type;
        user = row.user_id;
        user_name = row.user_name;
        device = or_else (name_of names row.device_id) row.device_name;
        mine = same_device row.device_id (some device_id);
        size = row.size;
        data_size = row.data_size;
        files = row.file_count;
        sha256 = row.sha256;
        at = row.created_at / 1000;
        origin = row.origin;
        pinned = row.pinned;
        note = row.note;
      })
      rows

pub record SaveBackup : Type 0 where
  pub id : ℕ
  pub application_id : String
  pub name : List ℕ
  pub icon_url : Option String
  pub in_library : Bool
  pub type : SaveType
  pub user_id : Option String
  pub user_name : Option (List ℕ)
  pub device_id : Option ℕ
  pub device_name : String
  pub size : ℕ
  pub data_size : ℕ
  pub file_count : ℕ
  pub sha256 : String
  pub origin : SaveOrigin
  pub pinned : Bool
  pub note : Option (List ℕ)
  pub created_at : ℕ

-- What the library knows of a game.
pub record AppName : Type 0 where
  pub name : List ℕ
  pub icon_url : Option String
  pub in_library : Bool

-- `app?.name ?? row.appName ?? row.applicationId`, `app?.iconUrl ?? null` and
-- `app?.inLibrary ?? false`
unfoldable pub shown_name : Option AppName → SaveBackupRow → List ℕ
shown_name none row = or_else row.app_name (codes row.application_id)
shown_name (some app) row = app.name

unfoldable pub icon_of : Option AppName → Option String
icon_of none = none
icon_of (some app) = app.icon_url

unfoldable pub is_in_library : Option AppName → Bool
is_in_library none = false
is_in_library (some app) = app.in_library

-- `app_names` is the answer of the library for an ID.
unfoldable pub to_web :
    (String → Option AppName) → Map String → List SaveBackupRow → List SaveBackup
unfolding shown_name icon_of is_in_library name_of
to_web app_names names rows =
    map
      (λ (row : SaveBackupRow). record {
        id = row.id;
        application_id = row.application_id;
        name = shown_name (app_names row.application_id) row;
        icon_url = icon_of (app_names row.application_id);
        in_library = is_in_library (app_names row.application_id);
        type = row.save_type;
        user_id = row.user_id;
        user_name = row.user_name;
        device_id = row.device_id;
        device_name = or_else (name_of names row.device_id) row.device_name;
        size = row.size;
        data_size = row.data_size;
        file_count = row.file_count;
        sha256 = row.sha256;
        origin = row.origin;
        pinned = row.pinned;
        note = row.note;
        created_at = row.created_at;
      })
      rows
