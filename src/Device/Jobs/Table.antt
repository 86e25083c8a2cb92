-- ===== src/Device/Jobs/Table.antt =====
-- The `install_jobs` table of packages/server/src/db/schema.ts under the writes that
-- packages/server/src/device/service.ts makes to it, seen through look-ups by id.
use nslibrary.Common.{
  ℕ, suc, ◌≤◌, ◌<◌, ◌≡◌, refl, Bool, Option, none, some, List, [], ◌∷◌, ◌++◌, arith, ◌≢◌, inl, inr,
  find?, filter, ◌==◌, if◌then◌else◌, Bool-cases,
}
use nslibrary.Device.Rows.{JobRow}
use nslibrary.Device.Service.{job_with, update_job}

-- The row with an id.
abbrev pub find : ℕ → List JobRow → Option JobRow
find id rows = find? (job_with id) rows

abbrev pub map_row : (JobRow → JobRow) → Option JobRow → Option JobRow
map_row f none = none
map_row f (some row) = some (f row)

abbrev pub filter_row : (JobRow → Bool) → Option JobRow → Option JobRow
filter_row p none = none
filter_row p (some row) = if p row then some row else none

-- A write that leaves the id of a row alone.
abbrev pub KeepsId : (JobRow → JobRow) → Type 0
KeepsId f = (row : JobRow) → (f row).id ≡ row.id

pub find-update_job :
    (id j : ℕ) (f : JobRow → JobRow) (rows : List JobRow)
    → KeepsId f
    → find j (update_job id f rows) ≡ (if id == j then map_row f (find j rows) else find j rows)
unfolding update_job
find-update_job id j f [] k = ground arith
find-update_job id j f (row ∷ rows) k = ground (arith, k row, find-update_job id j f rows k)

pub find-id : (id : ℕ) (rows : List JobRow) (row : JobRow) → find id rows ≡ some row → row.id ≡ id
find-id id [] row e = cc
find-id id (x ∷ rows) row e = ground (arith, find-id id rows row)

pub find-append_other :
    (j : ℕ) (rows : List JobRow) (row : JobRow)
    → row.id ≢ j
    → find j (rows ++ row ∷ []) ≡ find j rows
find-append_other j [] row n = ground arith
find-append_other j (x ∷ rows) row n = ground (arith, find-append_other j rows row n)

-- The ids rise along the table, from `lo` on and below `hi`.
abbrev pub Ascending : ℕ → ℕ → List JobRow → Type 0
Ascending lo hi [] = lo ≤ hi
Ascending lo hi (row ∷ rows) = (lo ≤ row.id) × Ascending (suc row.id) hi rows

pub Ascending-le : (lo hi : ℕ) (rows : List JobRow) → Ascending lo hi rows → lo ≤ hi
Ascending-le lo hi [] h = h
Ascending-le lo hi (row ∷ rows) h = omega (arith, Ascending-le (suc row.id) hi rows h.1)

pub Ascending-down :
    (lo lo' hi : ℕ) (rows : List JobRow) → lo' ≤ lo → Ascending lo hi rows → Ascending lo' hi rows
Ascending-down lo lo' hi [] k h = omega arith
Ascending-down lo lo' hi (row ∷ rows) k h = (omega arith, h.1)

pub update_job-Ascending :
    (id lo hi : ℕ) (f : JobRow → JobRow) (rows : List JobRow)
    → KeepsId f
    → Ascending lo hi rows
    → Ascending lo hi (update_job id f rows)
unfolding update_job
update_job-Ascending id lo hi f [] k h = h
update_job-Ascending id lo hi f (row ∷ rows) k h = elim (Bool-cases (row.id == id)) [
  | inl hit ↦ rw (hit, k row) (h.0, update_job-Ascending id (suc row.id) hi f rows k h.1)
  | inr miss ↦ rw miss (h.0, update_job-Ascending id (suc row.id) hi f rows k h.1)
]

pub append-Ascending :
    (lo hi : ℕ) (rows : List JobRow) (row : JobRow)
    → row.id ≡ hi
    → Ascending lo hi rows
    → Ascending lo (suc hi) (rows ++ row ∷ [])
append-Ascending lo hi [] row e h = omega arith
append-Ascending lo hi (x ∷ rows) row e h = (h.0, append-Ascending (suc x.id) hi rows row e h.1)

pub filter-Ascending :
    (lo hi : ℕ) (p : JobRow → Bool) (rows : List JobRow)
    → Ascending lo hi rows
    → Ascending lo hi (filter p rows)
filter-Ascending lo hi p [] h = h
filter-Ascending lo hi p (row ∷ rows) h = elim (Bool-cases (p row)) [
  | inl kept ↦ rw kept (h.0, filter-Ascending (suc row.id) hi p rows h.1)
  | inr gone ↦ rw gone (
      Ascending-down (suc row.id) lo hi (filter p rows) (omega arith)
        (filter-Ascending (suc row.id) hi p rows h.1))
]

-- An id below the table's first is not there.
pub find-below :
    (j lo hi : ℕ) (rows : List JobRow) → Ascending lo hi rows → j < lo → find j rows ≡ none
find-below j lo hi [] h k = refl
find-below j lo hi (row ∷ rows) h k = ground (arith, find-below j (suc row.id) hi rows h.1)

-- Where ids are unique, filtering keeps a row or drops it, and the look-up says which.
pub find-filter :
    (j lo hi : ℕ) (p : JobRow → Bool) (rows : List JobRow)
    → Ascending lo hi rows
    → find j (filter p rows) ≡ filter_row p (find j rows)
find-filter j lo hi p [] h = refl
find-filter j lo hi p (row ∷ rows) h = ground (
  arith,
  find-filter j (suc row.id) hi p rows h.1,
  find-below j (suc row.id) hi (filter p rows) (filter-Ascending (suc row.id) hi p rows h.1),
)
