-- ===== src/Saves/Kept.antt =====
-- A run of packages/server/src/saves/service.ts keeps the archives intact.
use nslibrary.Common.{
  ℕ, ◌≡◌, refl, sym, ap, subst, Bool, true, not, ◌==◌, ltb, Option, none, some, List, [], ◌∷◌,
  filter, All, All-filter, All-mono, arith, String, str_eq, eq_iff, ok, ◌∙◌, Bool-cases, inl, inr,
  payload_too_large, save_invalid, not_found, find?,
}
use nslibrary.Common.Sort.{sort, sort-All}
use nslibrary.Formats.SaveArchive.{SaveArchiveListing}
use nslibrary.Saves.{
  SaveBackupRow, SaveKey, Saves, row_with, prune, latest_of, first_of, same_save, newer, key_of,
}
use nslibrary.Saves.Upload.{
  validate, SaveUploadQuery, new_row, keep_new, store_behind, store, meter, too_large,
}
use nslibrary.Saves.Manage.{
  update, update_row, delete, get, prune_each, prune_all, list, UpdateSaveBackupRequest,
}
use nslibrary.Saves.Calls.{
  Call, storing, updating, deleting, pruning, keeping, waiting, losing, step, run, empty,
}
use nslibrary.Saves.Intact.{Holds, IsIntact, same-id, delete_archive-IsIntact, remove-IsIntact}
use nslibrary.Saves.Archives.{
  required, given, looked, lifted, prune-IsIntact, changed-IsIntact, update_row-IsIntact,
  keep_new-IsIntact, same_bytes-IsIntact,
}

module _ (sha256 : List ℕ → String) where
  -- The bytes whose digest is that of the newest backup, as the archive of its ID.
  latest-fits :
      (key : SaveKey) (latest : SaveBackupRow) (bytes : List ℕ) (listing : SaveArchiveListing)
      (s : Saves)
      → latest_of key s ≡ some latest
      → str_eq latest.sha256 (sha256 bytes) ≡ true
      → validate bytes ≡ ok listing
      → IsIntact sha256 s
      → All (λ row. (latest.id == row.id) ≡ true → Holds sha256 (some bytes) row.sha256) s.rows
  unfolding latest_of
  latest-fits key latest bytes listing s found same valid h =
      let alone =
        first_of-All (λ row. All (λ other. other.id ≡ row.id → other ≡ row) s.rows)
          (sort newer (filter (same_save key) s.rows)) latest
          (sort-All newer (λ row. All (λ other. other.id ≡ row.id → other ≡ row) s.rows)
            (filter (same_save key) s.rows)
            (All-filter (λ row. All (λ other. other.id ≡ row.id → other ≡ row) s.rows)
              (same_save key) s.rows (same-id s.rows h.distinct)))
          found in
      let digest : latest.sha256 ≡ sha256 bytes = (eq_iff latest.sha256 (sha256 bytes)).0 same in
      All-mono {P = λ other. other.id ≡ latest.id → other ≡ latest}
        {Q = λ row. (latest.id == row.id) ≡ true → Holds sha256 (some bytes) row.sha256}
        (λ row is_latest e.
          let one : row ≡ latest = is_latest (ground (arith, e)) in
          (sym digest ∙ ap (λ r. r.sha256) (sym one), (listing, valid)))
        s.rows alone
    where
      first_of-All :
          (P : SaveBackupRow → Type 0) (rows : List SaveBackupRow) (row : SaveBackupRow)
          → All P rows
          → first_of rows ≡ some row
          → P row
      first_of-All P [] row all e = absurd (ground (arith, e))
      first_of-All P (r ∷ rows) row all e = let same : r ≡ row = cc in subst P same all.0

  store_behind-IsIntact :
      (renames : Bool) (query : SaveUploadQuery) (key : SaveKey) (device : ℕ) (device_name : String)
      (bytes : List ℕ) (listing : SaveArchiveListing) (s : Saves)
      → validate bytes ≡ ok listing
      → IsIntact sha256 s
      → IsIntact sha256
          (store_behind sha256
            (latest_of key s)
            renames
            query
            key
            device
            device_name
            bytes
            listing
            s).1
  unfolding store_behind new_row
  store_behind-IsIntact renames query key device device_name bytes listing s valid h =
      whole (latest_of key s) refl
    where
      new :
          IsIntact sha256
            (keep_new renames (new_row sha256 query device device_name bytes listing s) bytes s).1
      new =
          keep_new-IsIntact sha256 renames (new_row sha256 query device device_name bytes listing s)
            bytes s refl (refl, (listing, valid)) h

      whole :
          (o : Option SaveBackupRow)
          → latest_of key s ≡ o
          → IsIntact sha256
              (store_behind sha256 o renames query key device device_name bytes listing s).1
      whole none e = new
      whole (some latest) e = elim (Bool-cases (str_eq latest.sha256 (sha256 bytes))) [
        | inl same ↦ rw same (
            same_bytes-IsIntact sha256 renames query key latest bytes s
              (latest-fits key latest bytes listing s e same valid h) h)
        | inr other ↦ rw other new
      ]

  store-IsIntact :
      (renames : Bool) (body : List (List ℕ)) (query : SaveUploadQuery) (device : ℕ)
      (device_name : String) (declared : Option ℕ) (s : Saves)
      → IsIntact sha256 s
      → IsIntact sha256 (store sha256 renames body query device device_name declared s).1
  unfolding store
  store-IsIntact renames body query device device_name declared s h =
      required (IsIntact sha256) (not (too_large s.max_bytes declared)) payload_too_large _ s h λ _.
        given (IsIntact sha256) (meter s.max_bytes 0 body) payload_too_large _ s h λ bytes.
          required (IsIntact sha256) (str_eq (sha256 bytes) query.sha256) save_invalid _ s h λ _.
            lifted (IsIntact sha256) (validate bytes) _ s h λ listing valid.
              store_behind-IsIntact renames query _ device device_name bytes listing s valid h

  update-IsIntact :
      (id : ℕ) (patch : UpdateSaveBackupRequest) (s : Saves)
      → IsIntact sha256 s
      → IsIntact sha256 (update id patch s).1
  unfolding update get
  update-IsIntact id patch s h =
      let new = changed-IsIntact sha256 _ (update_row-IsIntact sha256 id patch s h) in
      given (IsIntact sha256) (find? (row_with id) s.rows) not_found _ s h λ _.
        looked (IsIntact sha256) (find? (row_with id) (update_row id patch s).rows) not_found _ new

  delete-IsIntact : (id : ℕ) (s : Saves) → IsIntact sha256 s → IsIntact sha256 (delete id s).1
  unfolding delete get
  delete-IsIntact id s h =
      given (IsIntact sha256) (find? (row_with id) s.rows) not_found _ s h
        λ row. changed-IsIntact sha256 _ (remove-IsIntact sha256 (row ∷ []) s h)

  prune_each-IsIntact :
      (rows : List SaveBackupRow) (s : Saves)
      → IsIntact sha256 s
      → IsIntact sha256 (prune_each rows s).1
  unfolding prune_each
  prune_each-IsIntact [] s h = h
  prune_each-IsIntact (row ∷ rows) s h =
      prune_each-IsIntact rows (prune (key_of row) s).1 (prune-IsIntact sha256 (key_of row) s h)

  prune_all-IsIntact : (s : Saves) → IsIntact sha256 s → IsIntact sha256 (prune_all s).1
  unfolding prune_all
  prune_all-IsIntact s h =
      let pruned = prune_each-IsIntact (list none true s) s h in
      elim (Bool-cases (ltb 0 (prune_each (list none true s) s).0)) [
        | inl some_gone ↦ rw some_gone (changed-IsIntact sha256 _ pruned)
        | inr none_gone ↦ rw none_gone pruned
      ]

  step-IsIntact :
      (call : Call) (s : Saves) → IsIntact sha256 s → IsIntact sha256 (step sha256 call s)
  unfolding step
  step-IsIntact (storing renames body query device device_name declared) s h =
      store-IsIntact renames body query device device_name declared s h
  step-IsIntact (updating id patch) s h = update-IsIntact id patch s h
  step-IsIntact (deleting id) s h = delete-IsIntact id s h
  step-IsIntact pruning s h = prune_all-IsIntact s h
  step-IsIntact (keeping keep) s h = record {
    holds = h.holds;
    below = h.below;
    distinct = h.distinct;
  }
  step-IsIntact (waiting clock) s h = record {
    holds = h.holds;
    below = h.below;
    distinct = h.distinct;
  }
  step-IsIntact (losing id) s h = delete_archive-IsIntact sha256 id s h

  run-IsIntact :
      (calls : List Call) (s : Saves) → IsIntact sha256 s → IsIntact sha256 (run sha256 calls s)
  unfolding run
  run-IsIntact [] s h = h
  run-IsIntact (call ∷ calls) s h = run-IsIntact calls (step sha256 call s) (step-IsIntact call s h)

-- Whatever calls are made of a service that starts empty, uploads that fail and archives that are
-- taken away included, and whatever the digest is: each archive in the folder that belongs to a row
-- has that row's digest and is one that `readSaveArchive` accepts, and no two rows have one ID.
pub run-empty-IsIntact :
    (sha256 : List ℕ → String) (keep max_bytes : ℕ) (calls : List Call)
    → IsIntact sha256 (run sha256 calls (empty keep max_bytes))
run-empty-IsIntact sha256 keep max_bytes calls =
    run-IsIntact sha256 calls (empty keep max_bytes)
      (record { holds = tt; below = tt; distinct = tt })
