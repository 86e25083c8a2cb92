-- ===== src/Saves.antt =====
-- `SaveService` of packages/server/src/saves/service.ts: the backups that consoles upload. The state
-- is the table's rows in the order of their ids, and the archives under `<dataDir>/saves` with
-- their bytes, by the id of their row. A call is one step. `rm` with `force` is taken to succeed.
pub mod Upload
pub mod Manage
pub mod Calls
pub mod Intact
pub mod Archives
pub mod Kept
pub mod Retention
pub mod Restore
mod Runs
use nslibrary.Common.{
  ℕ, ◌+◌, Bool, true, false, ◌&&◌, ◌||◌, not, Option, none, some, List, [], ◌∷◌, filter, map, find?,
  drop, length, ltb, leb, ◌==◌, if◌then◌else◌, String, str_eq,
}
use nslibrary.Common.Maps.{Map}
use nslibrary.Common.Maps
use nslibrary.Common.Sort.{sort}

pub data SaveType : Type 0 where
  account device_save : SaveType

pub data SaveOrigin : Type 0 where
  manual pre_restore : SaveOrigin

pub record SaveBackupRow : Type 0 where
  pub id : ℕ
  pub application_id : String
  pub app_name : Option (List ℕ)
  pub save_type : SaveType
  pub user_id : Option String
  pub user_name : Option (List ℕ)
  pub device_id : Option ℕ
  pub device_name : String
  pub origin : SaveOrigin
  pub size : ℕ
  pub data_size : ℕ
  pub file_count : ℕ
  pub sha256 : String
  pub pinned : Bool
  pub note : Option (List ℕ)
  pub created_at : ℕ

pub record SaveKey : Type 0 where
  pub application_id : String
  pub save_type : SaveType
  pub user_id : Option String
  pub device_id : Option ℕ

-- `keep` and `max_bytes` are the options of the service; `changes` counts the `saves.changed` events.
pub record Saves : Type 0 where
  pub clock : ℕ
  pub keep : ℕ
  pub max_bytes : ℕ
  pub rows : List SaveBackupRow
  pub next_id : ℕ
  pub archives : Map (List ℕ)
  pub changes : ℕ

unfoldable pub key_of : SaveBackupRow → SaveKey
key_of row = record {
  application_id = row.application_id;
  save_type = row.save_type;
  user_id = row.user_id;
  device_id = row.device_id;
}

unfoldable pub same_type : SaveType → SaveType → Bool
same_type account account = true
same_type device_save device_save = true
same_type _ _ = false

unfoldable pub same_origin : SaveOrigin → SaveOrigin → Bool
same_origin manual manual = true
same_origin pre_restore pre_restore = true
same_origin _ _ = false

-- `isNull(column)` or `eq(column, value)`
unfoldable pub same_user : Option String → Option String → Bool
same_user none none = true
same_user (some a) (some b) = str_eq a b
same_user _ _ = false

unfoldable pub same_device : Option ℕ → Option ℕ → Bool
same_device none none = true
same_device (some a) (some b) = a == b
same_device _ _ = false

unfoldable pub same_save : SaveKey → SaveBackupRow → Bool
unfolding same_type same_user same_device
same_save key row =
    str_eq row.application_id key.application_id
    && (same_type row.save_type key.save_type
        && (same_user row.user_id key.user_id && same_device row.device_id key.device_id))

-- ORDER BY created_at DESC, id DESC
unfoldable pub newer : SaveBackupRow → SaveBackupRow → Bool
newer a b = ltb b.created_at a.created_at || (a.created_at == b.created_at && ltb b.id a.id)

unfoldable pub first_of : List SaveBackupRow → Option SaveBackupRow
first_of [] = none
first_of (row ∷ rows) = some row

-- The newest backup of a save.
unfoldable pub latest_of : SaveKey → Saves → Option SaveBackupRow
unfolding same_save newer first_of
latest_of key s = first_of (sort newer (filter (same_save key) s.rows))

unfoldable pub row_with : ℕ → SaveBackupRow → Bool
row_with id row = row.id == id

-- DELETE FROM save_backups WHERE id
unfoldable pub delete_row : ℕ → Saves → Saves
unfolding row_with
delete_row id s = record s { rows = filter (λ row. not (row_with id row)) s.rows }

unfoldable pub remove : List SaveBackupRow → Saves → Saves
unfolding delete_row
remove [] s = s
remove (row ∷ rows) s =
    remove rows (record (delete_row row.id s) { archives = Maps.delete row.id s.archives })

unfoldable pub is_unpinned : SaveKey → SaveOrigin → SaveBackupRow → Bool
unfolding same_save same_origin
is_unpinned key origin row = same_save key row && (same_origin row.origin origin && not row.pinned)

-- `unpinned.slice(keep)`
unfoldable pub excess : SaveKey → SaveOrigin → Saves → List SaveBackupRow
unfolding is_unpinned newer
excess key origin s = drop s.keep (sort newer (filter (is_unpinned key origin) s.rows))

-- The number of backups that were deleted, and the state.
unfoldable pub prune_origin : SaveKey → SaveOrigin → Saves → ℕ × Saves
unfolding excess remove
prune_origin key origin s = (length (excess key origin s), remove (excess key origin s) s)

-- `for (const origin of SAVE_ORIGINS)`
unfoldable pub prune : SaveKey → Saves → ℕ × Saves
unfolding prune_origin
prune key s =
    let one = prune_origin key manual s in
    let two = prune_origin key pre_restore one.1 in
    if leb s.keep 0 then (0, s) else (one.0 + two.0, two.1)

-- `events.publish({ type: "saves.changed" })`
unfoldable pub changed : Saves → Saves
changed s = record s { changes = s.changes + 1 }
