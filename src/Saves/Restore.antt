-- ===== src/Saves/Restore.antt =====
-- The upload that packages/server/src/saves/service.ts gets before a restore.
use nslibrary.Common.{
  ℕ, ◌<◌, ◌≡◌, refl, Bool, true, false, not, ◌==◌, ==_self, Option, none, some, List, [], ◌∷◌, ◌++◌,
  filter, All, arith, String, str_eq, Bool-cases, inl, inr, ◌⊎◌, is_some, payload_too_large,
  save_invalid,
}
use nslibrary.Common.Maps
use nslibrary.Formats.SaveArchive.{SaveArchiveListing}
use nslibrary.Saves.{SaveBackupRow, SaveKey, pre_restore, Saves, row_with, delete_row, changed}
use nslibrary.Saves.Upload.{
  SaveUploadQuery, validate, is_manual, move_archive, put_back, same_bytes, new_row, insert_row,
  keep_new, store_behind, store, meter, too_large,
}
use nslibrary.Saves.Archives.{required, given, lifted}

-- The rows are those of before, or those and one more.
abbrev pub IsKeeping : Saves → Saves → Type 0
IsKeeping before after =
    (after.rows ≡ before.rows) ⊎ ((row : SaveBackupRow) × (after.rows ≡ before.rows ++ (row ∷ [])))

filter-others :
    (row : SaveBackupRow) (rows : List SaveBackupRow)
    → All (λ other. other.id < row.id) rows
    → filter (λ r. not (r.id == row.id)) (rows ++ (row ∷ [])) ≡ rows
filter-others row [] h = rw (==_self row.id) refl
filter-others row (r ∷ rows) h =
    let other : (r.id == row.id) ≡ false = ground (arith, h.0) in
    rw (other, filter-others row rows h.1) refl

keep_new-IsKeeping :
    (renames : Bool) (row : SaveBackupRow) (bytes : List ℕ) (s : Saves)
    → row.origin ≡ pre_restore
    → All (λ other. other.id < row.id) s.rows
    → IsKeeping s (keep_new renames row bytes s).1
unfolding keep_new insert_row move_archive delete_row row_with is_manual changed
keep_new-IsKeeping true row bytes s origin below = inr (row, rw origin refl)
keep_new-IsKeeping false row bytes s origin below = inl (filter-others row s.rows below)

same_bytes-IsKeeping :
    (renames : Bool) (query : SaveUploadQuery) (key : SaveKey) (latest : SaveBackupRow)
    (bytes : List ℕ) (s : Saves)
    → query.origin ≡ pre_restore
    → IsKeeping s (same_bytes renames query key latest bytes s).1
unfolding same_bytes put_back move_archive is_manual
same_bytes-IsKeeping renames query key latest bytes s origin =
    inl (elim (Bool-cases (is_some (Maps.get latest.id s.archives))) [
      | inl there ↦ rw (there, origin) refl
      | inr gone ↦ elim (Bool-cases renames) [
        | inl moved ↦ rw (gone, moved, origin) refl
        | inr failed ↦ rw (gone, failed) refl
      ]
    ])

module _ (sha256 : List ℕ → String) where
  store_behind-IsKeeping :
      (latest : Option SaveBackupRow) (renames : Bool) (query : SaveUploadQuery) (key : SaveKey)
      (device : ℕ) (device_name : String) (bytes : List ℕ) (listing : SaveArchiveListing)
      (s : Saves)
      → query.origin ≡ pre_restore
      → All (λ row. row.id < s.next_id) s.rows
      → IsKeeping s
          (store_behind sha256 latest renames query key device device_name bytes listing s).1
  unfolding store_behind new_row
  store_behind-IsKeeping none renames query key device device_name bytes listing s origin below =
      keep_new-IsKeeping renames (new_row sha256 query device device_name bytes listing s) bytes s
        origin below
  store_behind-IsKeeping (some latest) renames query key device device_name bytes listing s origin
        below =
      elim (Bool-cases (str_eq latest.sha256 (sha256 bytes))) [
        | inl same ↦ rw same (same_bytes-IsKeeping renames query key latest bytes s origin)
        | inr other ↦ rw other (
            keep_new-IsKeeping renames (new_row sha256 query device device_name bytes listing s)
              bytes s origin below)
      ]

-- The upload before a restore deletes nothing, whatever the setting is, so the backup that is being
-- restored stays: where the IDs of the rows are below the next one, the rows afterwards are the same,
-- and in the same order, with at most one new row behind them. This holds whether the upload succeeds
-- or fails, and wherever it fails.
pub store-IsKeeping :
    (sha256 : List ℕ → String) (renames : Bool) (body : List (List ℕ)) (query : SaveUploadQuery)
    (device : ℕ) (device_name : String) (declared : Option ℕ) (s : Saves)
    → query.origin ≡ pre_restore
    → All (λ row. row.id < s.next_id) s.rows
    → IsKeeping s (store sha256 renames body query device device_name declared s).1
unfolding store
store-IsKeeping sha256 renames body query device device_name declared s origin below =
    required (IsKeeping s) (not (too_large s.max_bytes declared)) payload_too_large _ s (inl refl)
      λ _. given (IsKeeping s) (meter s.max_bytes 0 body) payload_too_large _ s (inl refl) λ bytes.
        required (IsKeeping s) (str_eq (sha256 bytes) query.sha256) save_invalid _ s (inl refl) λ _.
          lifted (IsKeeping s) (validate bytes) _ s (inl refl) λ listing valid.
            store_behind-IsKeeping sha256 _ renames query _ device device_name bytes listing s
              origin below
