-- ===== src/Saves/Calls.antt =====
-- A run of packages/server/src/saves/service.ts: the calls of its methods, the change of the setting
-- that `keep` reads, the time that passes, and an archive that someone takes out of the folder.
use nslibrary.Common.{ℕ, Bool, Option, List, [], ◌∷◌, String}
use nslibrary.Common.Maps
use nslibrary.Saves.{Saves}
use nslibrary.Saves.Upload.{SaveUploadQuery, store}
use nslibrary.Saves.Manage.{UpdateSaveBackupRequest, update, delete, prune_all}

pub data Call : Type 0 where
  storing : Bool → List (List ℕ) → SaveUploadQuery → ℕ → String → Option ℕ → Call
  updating : ℕ → UpdateSaveBackupRequest → Call
  deleting : ℕ → Call
  pruning : Call
  keeping : ℕ → Call
  waiting : ℕ → Call
  losing : ℕ → Call

module _ (sha256 : List ℕ → String) where
  unfoldable pub step : Call → Saves → Saves
  unfolding store update delete prune_all
  step (storing renames body query device device_name declared) s =
      (store sha256 renames body query device device_name declared s).1
  step (updating id patch) s = (update id patch s).1
  step (deleting id) s = (delete id s).1
  step pruning s = (prune_all s).1
  step (keeping keep) s = record s { keep = keep }
  step (waiting clock) s = record s { clock = clock }
  step (losing id) s = record s { archives = Maps.delete id s.archives }

  unfoldable pub run : List Call → Saves → Saves
  unfolding step
  run [] s = s
  run (call ∷ calls) s = run calls (step call s)

-- A service that has stored nothing.
abbrev pub empty : ℕ → ℕ → Saves
empty keep max_bytes = record {
  clock = 0;
  keep = keep;
  max_bytes = max_bytes;
  rows = [];
  next_id = 1;
  archives = [];
  changes = 0;
}
