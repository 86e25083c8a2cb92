-- ===== src/Saves/Archives.antt =====
-- The methods of packages/server/src/saves/service.ts keep the archives intact.
use nslibrary.Common.{
  ℕ, ◌+◌, ◌<◌, ◌≡◌, refl, sym, subst, Bool, true, false, not, ◌&&◌, ◌==◌, leb, Option, none, some,
  List, [], ◌∷◌, ◌++◌, filter, All, All-mono, arith, String, Result, ok, err, ==_self, ◌∙◌,
  if◌then◌else◌, Bool-cases, inl, inr, Action, pure, lift, or_throw, require, ◌>>=◌, ◌>>◌,
  ErrorCode, is_some,
}
use nslibrary.Common.Maps
use nslibrary.Saves.{
  SaveBackupRow, SaveKey, SaveOrigin, manual, pre_restore, Saves, delete_row, row_with, prune,
  prune_origin, changed, excess, key_of,
}
use nslibrary.Saves.Upload.{
  SaveUploadQuery, insert_row, keep_new, move_archive, set_origin, put_back, promote, same_bytes,
  is_manual,
}
use nslibrary.Saves.Manage.{update_row, patched, UpdateSaveBackupRequest}
use nslibrary.Saves.Intact.{
  Holds, IsIntact, delete_row-IsIntact, remove-IsIntact, map_rows-IsIntact, set_archive-IsIntact,
  insert_row-IsIntact,
}

filter-append_last :
    (p : SaveBackupRow → Bool) (row : SaveBackupRow) (rows : List SaveBackupRow)
    → p row ≡ false
    → filter p (rows ++ (row ∷ [])) ≡ filter p rows
filter-append_last p row [] h = rw h refl
filter-append_last p row (r ∷ rows) h = rw (filter-append_last p row rows h) refl

-- What follows a check.
module _ (I : Saves → Type 0) where
  pub required :
      {A : Type 0} (test : Bool) (code : ErrorCode) (next : Action Saves A) (s : Saves)
      → I s
      → (test ≡ true → I (next s).1)
      → I ((require test code >> next) s).1
  unfolding require
  required true code next s h k = k refl
  required false code next s h k = h

  pub given :
      {A B : Type 0} (o : Option A) (code : ErrorCode) (next : A → Action Saves B) (s : Saves)
      → I s
      → ((a : A) → I (next a s).1)
      → I ((or_throw o code >>= next) s).1
  given none code next s h k = h
  given (some a) code next s h k = k a

  pub looked :
      {A : Type 0} (o : Option A) (code : ErrorCode) (s : Saves)
      → I s
      → I (or_throw {A = A} o code s).1
  looked none code s h = h
  looked (some a) code s h = h

  pub lifted :
      {A B : Type 0} (r : Result A) (next : A → Action Saves B) (s : Saves)
      → I s
      → ((a : A) → r ≡ ok a → I (next a s).1)
      → I ((lift r >>= next) s).1
  lifted (ok a) next s h k = k a refl
  lifted (err code) next s h k = h

module _ (sha256 : List ℕ → String) where
  pub prune-IsIntact :
      (key : SaveKey) (s : Saves) → IsIntact sha256 s → IsIntact sha256 (prune key s).1
  unfolding prune prune_origin
  prune-IsIntact key s h = elim (Bool-cases (leb s.keep 0)) [
    | inl all_kept ↦ rw all_kept h
    | inr some_kept ↦ rw some_kept (
        remove-IsIntact sha256 (excess key pre_restore (prune_origin key manual s).1) _
          (remove-IsIntact sha256 (excess key manual s) s h))
  ]

  pub changed-IsIntact : (s : Saves) → IsIntact sha256 s → IsIntact sha256 (changed s)
  unfolding changed
  changed-IsIntact s h = record { holds = h.holds; below = h.below; distinct = h.distinct }

  set_origin-IsIntact :
      (id : ℕ) (origin : SaveOrigin) (s : Saves)
      → IsIntact sha256 s
      → IsIntact sha256 (set_origin id origin s)
  unfolding set_origin
  set_origin-IsIntact id origin s h =
      map_rows-IsIntact sha256
        (λ row. if row_with id row then record row { origin = origin } else row) s
        (λ row. same (row_with id row) row) h
    where
      same :
          (test : Bool) (row : SaveBackupRow)
          → ((if test then record row { origin = origin } else row).id ≡ row.id)
            × ((if test then record row { origin = origin } else row).sha256 ≡ row.sha256)
      same true row = (refl, refl)
      same false row = (refl, refl)

  pub update_row-IsIntact :
      (id : ℕ) (patch : UpdateSaveBackupRequest) (s : Saves)
      → IsIntact sha256 s
      → IsIntact sha256 (update_row id patch s)
  unfolding update_row patched
  update_row-IsIntact id patch s h =
      map_rows-IsIntact sha256 (λ row. if row_with id row then patched patch row else row) s
        (λ row. same (row_with id row) row) h
    where
      same :
          (test : Bool) (row : SaveBackupRow)
          → ((if test then patched patch row else row).id ≡ row.id)
            × ((if test then patched patch row else row).sha256 ≡ row.sha256)
      same true row = (refl, refl)
      same false row = (refl, refl)

  -- Bytes that were accepted, as the archive of a row that is new.
  module _ (row : SaveBackupRow) (bytes : List ℕ) (s : Saves) (new : row.id ≡ s.next_id)
      (fits : Holds sha256 (some bytes) row.sha256) (h : IsIntact sha256 s) where
    elsewhere :
        All (λ other. (row.id == other.id) ≡ true → Holds sha256 (some bytes) other.sha256) s.rows
    elsewhere =
        All-mono {P = λ other. other.id < s.next_id}
          {Q = λ other. (row.id == other.id) ≡ true → Holds sha256 (some bytes) other.sha256}
          (λ other below same. absurd (ground (arith, below, same, new))) s.rows h.below

    placed-IsIntact : IsIntact sha256 (move_archive true row.id bytes (insert_row row s))
    unfolding insert_row move_archive
    placed-IsIntact =
        let own : Holds sha256 (Maps.get row.id (Maps.set row.id bytes s.archives)) row.sha256 =
          subst (λ o. Holds sha256 o row.sha256) (sym (get-own row.id bytes s.archives)) fits in
        insert_row-IsIntact sha256 row (record s { archives = Maps.set row.id bytes s.archives })
          new own (set_archive-IsIntact sha256 row.id bytes s elsewhere h)
      where
        get-own :
            (id : ℕ) (bytes : List ℕ) (m : Maps.Map (List ℕ))
            → Maps.get id (Maps.set id bytes m) ≡ some bytes
        get-own id bytes m = Maps.get-set id id bytes m ∙ rw (==_self id) refl

    refused-IsIntact : IsIntact sha256 (delete_row row.id (insert_row row s))
    unfolding insert_row delete_row row_with
    refused-IsIntact =
        let rows : filter (λ r. not (r.id == row.id)) (s.rows ++ (row ∷ []))
            ≡ filter (λ r. not (r.id == row.id)) s.rows =
          filter-append_last (λ r. not (r.id == row.id)) row s.rows (rw (==_self row.id) refl) in
        let old = delete_row-IsIntact sha256 row.id s h in
        record {
          holds = rw rows old.holds;
          below = rw rows (
              All-mono {P = λ r. r.id < s.next_id} {Q = λ r. r.id < s.next_id + 1}
                (λ r k. omega (arith, k)) (filter (λ r. not (r.id == row.id)) s.rows) old.below);
          distinct = rw rows old.distinct;
        }

  pub keep_new-IsIntact :
      (renames : Bool) (row : SaveBackupRow) (bytes : List ℕ) (s : Saves)
      → row.id ≡ s.next_id
      → Holds sha256 (some bytes) row.sha256
      → IsIntact sha256 s
      → IsIntact sha256 (keep_new renames row bytes s).1
  unfolding keep_new
  keep_new-IsIntact true row bytes s new fits h =
      let placed = placed-IsIntact row bytes s new fits h in
      changed-IsIntact _ (either (is_manual row.origin) placed)
    where
      either :
          (test : Bool) {t : Saves}
          → IsIntact sha256 t
          → IsIntact sha256 (if test then (prune (key_of row) t).1 else t)
      either true {t} k = prune-IsIntact (key_of row) t k
      either false k = k
  keep_new-IsIntact false row bytes s new fits h = refused-IsIntact row bytes s new fits h

  promote-IsIntact :
      (key : SaveKey) (latest : SaveBackupRow) (s : Saves)
      → IsIntact sha256 s
      → IsIntact sha256 (promote key latest s).1
  unfolding promote
  promote-IsIntact key latest s h =
      changed-IsIntact _ (prune-IsIntact key _ (set_origin-IsIntact latest.id manual s h))

  pub same_bytes-IsIntact :
      (renames : Bool) (query : SaveUploadQuery) (key : SaveKey) (latest : SaveBackupRow)
      (bytes : List ℕ) (s : Saves)
      → All (λ row. (latest.id == row.id) ≡ true → Holds sha256 (some bytes) row.sha256) s.rows
      → IsIntact sha256 s
      → IsIntact sha256 (same_bytes renames query key latest bytes s).1
  unfolding same_bytes put_back move_archive
  same_bytes-IsIntact renames query key latest bytes s fits h =
      elim (Bool-cases (is_some (Maps.get latest.id s.archives))) [
        | inl there ↦
            rw there (promoted (is_manual query.origin && not (is_manual latest.origin)) s h)
        | inr gone ↦ elim (Bool-cases renames) [
          | inl moved ↦
              rw (gone, moved)
                (promoted (is_manual query.origin && not (is_manual latest.origin)) _
                  (set_archive-IsIntact sha256 latest.id bytes s fits h))
          | inr failed ↦ rw (gone, failed) h
        ]
      ]
    where
      promoted :
          (test : Bool) (t : Saves)
          → IsIntact sha256 t
          → IsIntact sha256
              ((if test then promote key latest else pure (record { row = latest; dup = true }))
                t).1
      promoted true t k = promote-IsIntact key latest t k
      promoted false t k = k
