-- ===== src/Device/Jobs/Listing.antt =====
-- `listJobs` of packages/server/src/device/service.ts: its order, and which rows it leaves out.
use nslibrary.Common.{
  ℕ, ◌≡◌, refl, ap, Bool, true, false, ◌||◌, not, Option, none, some, List, [], ◌∷◌, arith, inl,
  inr, Bool-cases, map, filter, is_some, find?, take,
}
use nslibrary.Common.Sort.{sort, IsSorted, sort-IsSorted, sort-Perm}
use mathlib.Core.List.{Perm}
use nslibrary.Shared.Types.{is_active_job_status}
use nslibrary.Device.Rows.{JobRow}
use nslibrary.Device.Service.{Service, to_web_job, job_with}
use nslibrary.Device.Jobs.Queue.{list_jobs, before_in_queue, keep_finished, rows_of, finished_later}

before_in_queue_asym : (a b : JobRow) → before_in_queue a b ≡ true → before_in_queue b a ≡ false
before_in_queue_asym a b h = ground arith

before_in_queue_trans :
    (a b c : JobRow)
    → before_in_queue a b ≡ true
    → before_in_queue c b ≡ false
    → before_in_queue c a ≡ false
before_in_queue_trans a b c h k = ground arith

abbrev is_active : JobRow → Bool
is_active row = is_active_job_status row.status

filter-or :
    (p q : JobRow → Bool) (rows : List JobRow)
    → filter p (filter (λ (row : JobRow). p row || q row) rows) ≡ filter p rows
filter-or p q [] = refl
filter-or p q (row ∷ rows) = elim (Bool-cases (p row)) [
  | inl yes_ ↦ rw (yes_, yes_) (ap (◌∷◌ row) (filter-or p q rows))
  | inr no_ ↦ elim (Bool-cases (q row)) [
    | inl kept ↦ rw (no_, kept, no_) (filter-or p q rows)
    | inr gone ↦ rw (no_, gone) (filter-or p q rows)
  ]
]

active-kept :
    (limit : Option ℕ) (rows : List JobRow)
    → filter is_active (keep_finished limit rows) ≡ filter is_active rows
unfolding keep_finished
active-kept none rows = refl
active-kept (some n) rows =
    let over = filter (λ (row : JobRow). not (is_active_job_status row.status)) rows in
    filter-or is_active
      (λ row. is_some (find? (job_with row.id) (take n (sort finished_later over)))) rows

-- `listJobs` returns, in the order of their positions and then of their ids, a rearrangement of the
-- rows that are left of the asked ones, and whatever the limit on finished jobs, all active ones are.
pub list_jobs-IsSorted :
    (device limit : Option ℕ) (s : Service)
    → (rows : List JobRow) × (list_jobs device limit s ≡ map to_web_job rows)
      × IsSorted before_in_queue rows
      × Perm rows (keep_finished limit (rows_of device s.jobs))
      × (filter
            (λ (row : JobRow). is_active_job_status row.status)
            (keep_finished limit (rows_of device s.jobs))
          ≡ filter (λ (row : JobRow). is_active_job_status row.status) (rows_of device s.jobs))
unfolding list_jobs
list_jobs-IsSorted device limit s =
    let left = keep_finished limit (rows_of device s.jobs) in
    (
      sort before_in_queue left,
      refl,
      sort-IsSorted before_in_queue before_in_queue_asym before_in_queue_trans left,
      sort-Perm before_in_queue left,
      active-kept limit (rows_of device s.jobs),
    )
