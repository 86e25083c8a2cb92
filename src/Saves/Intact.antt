-- ===== src/Saves/Intact.antt =====
-- The archives that packages/server/src/saves/service.ts holds are those of its rows: an operation on
-- the table or the folder leaves each archive with the digest of its row.
use nslibrary.Common.{
  ℕ, ◌+◌, ◌<◌, ◌≡◌, ◌≢◌, refl, sym, subst, Bool, true, false, not, ◌==◌, Option, none, some, List,
  [], ◌∷◌, ◌++◌, map, filter, All, All-filter, All-map, All-append, All-mono, arith, String, ok,
  if◌then◌else◌, Bool-cases, inl, inr,
}
use nslibrary.Common.Maps.{Map, get-delete, get-set}
use nslibrary.Common.Maps
use nslibrary.Formats.SaveArchive.{SaveArchiveListing}
use nslibrary.Saves.{SaveBackupRow, Saves, delete_row, remove, row_with}
use nslibrary.Saves.Upload.{validate, insert_row}

abbrev pub IdsDistinct : List SaveBackupRow → Type 0
IdsDistinct [] = Unit {0}
IdsDistinct (row ∷ rows) = All (λ other. other.id ≢ row.id) rows × IdsDistinct rows

module _ (sha256 : List ℕ → String) where
  -- An archive, where there is one, has this digest and is a save archive.
  abbrev pub Holds : Option (List ℕ) → String → Type 0
  Holds none digest = Unit {0}
  Holds (some bytes) digest =
      (sha256 bytes ≡ digest) × ((listing : SaveArchiveListing) × (validate bytes ≡ ok listing))

  pub record IsIntact (s : Saves) : Type 0 where
    pub holds : All (λ row. Holds (Maps.get row.id s.archives) row.sha256) s.rows
    pub below : All (λ row. row.id < s.next_id) s.rows
    pub distinct : IdsDistinct s.rows

IdsDistinct-filter :
    (p : SaveBackupRow → Bool) (rows : List SaveBackupRow)
    → IdsDistinct rows
    → IdsDistinct (filter p rows)
IdsDistinct-filter p [] d = tt
IdsDistinct-filter p (row ∷ rows) d = elim (Bool-cases (p row)) [
  | inl kept ↦
      rw kept (All-filter (λ other. other.id ≢ row.id) p rows d.0, IdsDistinct-filter p rows d.1)
  | inr gone ↦ rw gone (IdsDistinct-filter p rows d.1)
]

IdsDistinct-map :
    (f : SaveBackupRow → SaveBackupRow) (rows : List SaveBackupRow)
    → ((row : SaveBackupRow) → (f row).id ≡ row.id)
    → IdsDistinct rows
    → IdsDistinct (map f rows)
IdsDistinct-map f [] e d = tt
IdsDistinct-map f (row ∷ rows) e d = (others rows d.0, IdsDistinct-map f rows e d.1)
  where
    others :
        (rows : List SaveBackupRow)
        → All (λ other. other.id ≢ row.id) rows
        → All (λ other. other.id ≢ (f row).id) (map f rows)
    others [] h = tt
    others (o ∷ rows) h = ((λ same. h.0 (omega (arith, e o, e row, same))), others rows h.1)

IdsDistinct-append :
    (rows : List SaveBackupRow) (row : SaveBackupRow)
    → All (λ other. other.id < row.id) rows
    → IdsDistinct rows
    → IdsDistinct (rows ++ (row ∷ []))
IdsDistinct-append [] row h d = (tt, tt)
IdsDistinct-append (o ∷ rows) row h d = (
  All-append (λ other. other.id ≢ o.id) rows (row ∷ []) d.0
      ((λ same. omega (arith, h.0, same)), tt),
  IdsDistinct-append rows row h.1 d.1,
)

-- The rows of one ID are one row.
pub same-id :
    (rows : List SaveBackupRow)
    → IdsDistinct rows
    → All (λ row. All (λ other. other.id ≡ row.id → other ≡ row) rows) rows
same-id [] d = tt
same-id (row ∷ rows) d = (
  (
    (λ _. refl),
    All-mono {P = λ other. other.id ≢ row.id} {Q = λ other. other.id ≡ row.id → other ≡ row}
        (λ other ne e. absurd (ne e)) rows d.0,
  ),
  both rows d.0 (same-id rows d.1),
)
  where
    both :
        (xs : List SaveBackupRow)
        → All (λ other. other.id ≢ row.id) xs
        → All (λ r. All (λ other. other.id ≡ r.id → other ≡ r) rows) xs
        → All (λ r. All (λ other. other.id ≡ r.id → other ≡ r) (row ∷ rows)) xs
    both [] h k = tt
    both (x ∷ xs) h k = (((λ e. absurd (h.0 (sym e))), k.0), both xs h.1 k.1)

module _ (sha256 : List ℕ → String) where
  filter_rows-IsIntact :
      (p : SaveBackupRow → Bool) (s : Saves)
      → IsIntact sha256 s
      → IsIntact sha256 (record s { rows = filter p s.rows })
  filter_rows-IsIntact p s h = record {
    holds =
        All-filter (λ row. Holds sha256 (Maps.get row.id s.archives) row.sha256) p s.rows h.holds;
    below = All-filter (λ row. row.id < s.next_id) p s.rows h.below;
    distinct = IdsDistinct-filter p s.rows h.distinct;
  }

  forgotten :
      (test : Bool) (o : Option (List ℕ)) (digest : String)
      → Holds sha256 o digest
      → Holds sha256 (if test then none else o) digest
  forgotten true o digest h = tt
  forgotten false o digest h = h

  pub delete_archive-IsIntact :
      (id : ℕ) (s : Saves)
      → IsIntact sha256 s
      → IsIntact sha256 (record s { archives = Maps.delete id s.archives })
  delete_archive-IsIntact id s h = record {
    holds =
        All-mono {P = λ row. Holds sha256 (Maps.get row.id s.archives) row.sha256}
          {Q = λ row. Holds sha256 (Maps.get row.id (Maps.delete id s.archives)) row.sha256}
          (λ row k.
            subst (λ o. Holds sha256 o row.sha256) (sym (get-delete id row.id s.archives))
              (forgotten (id == row.id) (Maps.get row.id s.archives) row.sha256 k))
          s.rows h.holds;
    below = h.below;
    distinct = h.distinct;
  }

  pub delete_row-IsIntact :
      (id : ℕ) (s : Saves) → IsIntact sha256 s → IsIntact sha256 (delete_row id s)
  unfolding delete_row
  delete_row-IsIntact id s h = filter_rows-IsIntact (λ row. not (row_with id row)) s h

  pub remove-IsIntact :
      (rows : List SaveBackupRow) (s : Saves) → IsIntact sha256 s → IsIntact sha256 (remove rows s)
  unfolding remove
  remove-IsIntact [] s h = h
  remove-IsIntact (row ∷ rows) s h =
      remove-IsIntact rows
        (record (delete_row row.id s) { archives = Maps.delete row.id s.archives })
        (delete_archive-IsIntact row.id (delete_row row.id s) (delete_row-IsIntact row.id s h))

  -- A change of the rows that leaves their IDs and digests alone.
  pub map_rows-IsIntact :
      (f : SaveBackupRow → SaveBackupRow) (s : Saves)
      → ((row : SaveBackupRow) → ((f row).id ≡ row.id) × ((f row).sha256 ≡ row.sha256))
      → IsIntact sha256 s
      → IsIntact sha256 (record s { rows = map f s.rows })
  map_rows-IsIntact f s e h = record {
    holds =
        All-map (λ row. Holds sha256 (Maps.get row.id s.archives) row.sha256) f s.rows
          (λ row k. let (same, digest) = e row in rw (same, digest) k) h.holds;
    below =
        All-map (λ row. row.id < s.next_id) f s.rows (λ row k. omega (arith, (e row).0, k)) h.below;
    distinct = IdsDistinct-map f s.rows (λ row. (e row).0) h.distinct;
  }

  -- Bytes that have the digest of all rows of an ID become the archive of that ID.
  pub set_archive-IsIntact :
      (id : ℕ) (bytes : List ℕ) (s : Saves)
      → All (λ row. (id == row.id) ≡ true → Holds sha256 (some bytes) row.sha256) s.rows
      → IsIntact sha256 s
      → IsIntact sha256 (record s { archives = Maps.set id bytes s.archives })
  set_archive-IsIntact id bytes s new h = record {
    holds = each s.rows new h.holds;
    below = h.below;
    distinct = h.distinct;
  }
    where
      chosen :
          (test : Bool) (o : Option (List ℕ)) (digest : String)
          → (test ≡ true → Holds sha256 (some bytes) digest)
          → Holds sha256 o digest
          → Holds sha256 (if test then some bytes else o) digest
      chosen true o digest new old = new refl
      chosen false o digest new old = old

      each :
          (rows : List SaveBackupRow)
          → All (λ row. (id == row.id) ≡ true → Holds sha256 (some bytes) row.sha256) rows
          → All (λ row. Holds sha256 (Maps.get row.id s.archives) row.sha256) rows
          → All
              (λ row. Holds sha256 (Maps.get row.id (Maps.set id bytes s.archives)) row.sha256)
              rows
      each [] k old = tt
      each (row ∷ rows) k old = (
        subst (λ o. Holds sha256 o row.sha256) (sym (get-set id row.id bytes s.archives))
            (chosen (id == row.id) (Maps.get row.id s.archives) row.sha256 k.0 old.0),
        each rows k.1 old.1,
      )

  -- A row with a new ID.
  pub insert_row-IsIntact :
      (row : SaveBackupRow) (s : Saves)
      → row.id ≡ s.next_id
      → Holds sha256 (Maps.get row.id s.archives) row.sha256
      → IsIntact sha256 s
      → IsIntact sha256 (insert_row row s)
  unfolding insert_row
  insert_row-IsIntact row s new k h = record {
    holds =
        All-append (λ row. Holds sha256 (Maps.get row.id s.archives) row.sha256) s.rows (row ∷ [])
          h.holds (k, tt);
    below =
        All-append (λ row. row.id < s.next_id + 1) s.rows (row ∷ [])
          (All-mono {P = λ row. row.id < s.next_id} {Q = λ row. row.id < s.next_id + 1}
            (λ row k. omega (arith, k)) s.rows h.below)
          (omega (arith, new), tt);
    distinct =
        IdsDistinct-append s.rows row
          (All-mono {P = λ other. other.id < s.next_id} {Q = λ other. other.id < row.id}
            (λ other k. omega (arith, k, new)) s.rows h.below)
          h.distinct;
  }
