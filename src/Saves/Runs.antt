-- ===== src/Saves/Runs.antt =====
-- Uploads, and the backups that are deleted.
use nslibrary.Common.{
  ℕ, ◌≡◌, refl, arith, true, false, some, none, List, [], ◌∷◌, map, length, replicate, String, err,
  if◌then◌else◌, ◌==◌, payload_too_large,
}
use nslibrary.Common.Maps
use nslibrary.Common.Text.{codes}
use nslibrary.Saves.{SaveBackupRow, SaveOrigin, manual, pre_restore, device_save, Saves, key_of}
use nslibrary.Saves.Upload.{SaveUploadQuery, store}
use nslibrary.Saves.Manage.{prune_all}
use nslibrary.Saves.Calls.{Call, storing, losing, run, empty}
use nslibrary.Saves.Intact.{IsIntact}
use nslibrary.Saves.Kept.{run-empty-IsIntact}
use nslibrary.Saves.Restore.{IsKeeping, store-IsKeeping}

abbrev digest : List ℕ → String
digest bytes = if length bytes == 1024 then "1k" else "other"

-- An archive without entries.
abbrev no_files : List ℕ
no_files = replicate {A = ℕ} 1024 0

abbrev upload : SaveOrigin → SaveUploadQuery
upload origin = record {
  app = "0100000000010000";
  type = device_save;
  user = none;
  user_name = none;
  name = some (codes " Game ");
  origin = origin;
  sha256 = "1k";
}

abbrev sending : SaveOrigin → Call
sending origin = storing true (no_files ∷ []) (upload origin) 3 "Switch" none

-- Before a restore, then by hand with the same bytes, after the archive went missing.
abbrev calls : List Call
calls = sending pre_restore ∷ losing 1 ∷ sending manual ∷ []

run-empty-IsIntact_example : IsIntact digest (run digest calls (empty 5 4096))
run-empty-IsIntact_example = run-empty-IsIntact digest 5 4096 calls

abbrev backup : ℕ → SaveBackupRow
backup id = record {
  id = id;
  application_id = "0100000000010000";
  app_name = some (codes "Game");
  save_type = device_save;
  user_id = none;
  user_name = none;
  device_id = some 3;
  device_name = "Switch";
  origin = manual;
  size = 1024;
  data_size = 0;
  file_count = 0;
  sha256 = "1k";
  pinned = false;
  note = none;
  created_at = 0;
}

-- The second upload gives the backup its origin, and puts its archive back.
promoted : run digest calls (empty 5 4096) ≡ record (empty 5 4096) {
  rows = backup 1 ∷ [];
  next_id = 2;
  archives = (1, no_files) ∷ [];
  changes = 2;
}
unfolding run key_of Maps.get Maps.delete Maps.set
promoted = refl

too_long :
    (store digest true (replicate 2 no_files) (upload manual) 3 "Switch" none (empty 5 1500)).0
    ≡ err payload_too_large
unfolding store
too_long = refl

-- Three backups, of which the second is pinned, and a setting of one.
abbrev three : Saves
three = record (empty 1 4096) {
  rows = backup 1 ∷ record (backup 2) { pinned = true } ∷ backup 3 ∷ [];
  next_id = 4;
}

first_deleted : map (λ row. row.id) (prune_all three).1.rows ≡ 2 ∷ 3 ∷ []
unfolding prune_all
first_deleted = refl

store-IsKeeping_example :
    IsKeeping three (store digest false (no_files ∷ []) (upload pre_restore) 4 "Other" none three).1
store-IsKeeping_example =
    store-IsKeeping digest false (no_files ∷ []) (upload pre_restore) 4 "Other" none three refl
      (omega arith, (omega arith, (omega arith, tt)))
