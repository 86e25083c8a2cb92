-- ===== src/Device/Jobs/Management.antt =====
-- The calls of the web pages on the queue, and those that add jobs to it
-- (packages/server/src/device/service.ts): each leaves the table numbered and lets its rows follow.
use nslibrary.Common.{
  ℕ, ◌+◌, ◌≡◌, refl, All, true, false, not, Option, none, some, List, [], ◌∷◌, arith, inl, inr,
  Bool-cases, job_invalid_state, bad_request, ◌&&◌, ◌==◌, any, is_some, find?,
}
use nslibrary.Device.Rows.{JobRow}
use nslibrary.Device.Service.{Service, publish, log_append, update_job, job_with}
use nslibrary.Device.Jobs.{is_queued, is_of, next_position}
use nslibrary.Device.Jobs.Table.{
  find, find-update_job, find-filter, filter_row, Ascending, filter-Ascending,
}
use nslibrary.Device.Jobs.Queue.{
  resume_job, cancel_job, reorder_jobs, purge_finished_jobs, resumed_row, cancelled_row, moved_row,
  place_all, queued_of, is_old,
}
use nslibrary.Device.Jobs.Calls.{
  require_cases, require_job_cases, require_active_device_cases, set_job-bind,
}
use nslibrary.Device.Jobs.History.{
  Follows-open, Follows-refl, IsNumbered, Later, Later-refl, Later-trans, Later-update, Next,
}

pub resume_job-Later : (id : ℕ) (s : Service) → IsNumbered s → Later s (resume_job id s).1
unfolding resume_job publish log_append
resume_job-Later id s n =
    require_job_cases (λ r. Later s r.1) s id _ (λ e. Later-refl s n)
      λ row e.
        require_cases (λ r. Later s r.1) s _ job_invalid_state _ (Later-refl s n)
          λ open_.
            require_active_device_cases (λ r. Later s r.1) s row.device_id _ (λ _. Later-refl s n)
              λ device found active.
                rw
                  (set_job-bind id (resumed_row s.clock (next_position row.device_id s.jobs)) _ s
                    row (λ r. refl) e)
                  (Later-update s _ id (resumed_row s.clock (next_position row.device_id s.jobs))
                    row n (λ r. refl) e (Follows-open row _ (ground arith) (ground arith)) refl
                    refl)

pub cancel_job-Later : (id : ℕ) (s : Service) → IsNumbered s → Later s (cancel_job id s).1
unfolding cancel_job publish log_append
cancel_job-Later id s n =
    require_job_cases (λ r. Later s r.1) s id _ (λ e. Later-refl s n)
      λ row e.
        require_cases (λ r. Later s r.1) s _ job_invalid_state _ (Later-refl s n)
          λ open_. rw (set_job-bind id (cancelled_row s.clock) _ s row (λ r. refl) e) (
            Later-update s _ id (cancelled_row s.clock) row n (λ r. refl) e
              (Follows-open row _ (ground arith) (ground arith)) refl refl)

-- A table in which the job with an id waits in the queue.
abbrev InQueue : List JobRow → ℕ → Type 0
InQueue rows id = (row : JobRow) × (find id rows ≡ some row) × (is_queued row.status ≡ true)

update_job-InQueue :
    (now position id j : ℕ) (rows : List JobRow)
    → InQueue rows j
    → InQueue (update_job id (moved_row now position) rows) j
update_job-InQueue now position id j rows (row, e, q) = elim (Bool-cases (id == j)) [
  | inl hit ↦ (
    moved_row now position row,
    rw (find-update_job id j (moved_row now position) rows (λ r. unfold moved_row in refl), hit, e),
    unfold moved_row in q,
  )
  | inr miss ↦ (
    row,
    rw (find-update_job id j (moved_row now position) rows (λ r. unfold moved_row in refl), miss) e,
    q,
  )
]

All-update_job :
    (now position id : ℕ) (rows : List JobRow) (ids : List ℕ)
    → All (InQueue rows) ids
    → All (InQueue (update_job id (moved_row now position) rows)) ids
All-update_job now position id rows [] h = tt
All-update_job now position id rows (j ∷ ids) h =
    (update_job-InQueue now position id j rows h.0, All-update_job now position id rows ids h.1)

place_all-Later :
    (now position : ℕ) (ids : List ℕ) (s : Service)
    → IsNumbered s
    → All (InQueue s.jobs) ids
    → Later s (record s { jobs = place_all now position ids s.jobs })
unfolding place_all
place_all-Later now position [] s n h = Later-refl s n
place_all-Later now position (id ∷ ids) s n ((row, e, q), h) =
    let f = moved_row now position in
    let t : Service = record s { jobs = update_job id f s.jobs } in
    let first : Later s t =
      Later-update s t id f row n (λ r. unfold moved_row in refl) e
        (Follows-open row _ (unfold moved_row in ground arith) (ground arith)) refl refl in
    Later-trans s t _ first (
      place_all-Later now (position + 1) ids t first.numbers
        (All-update_job now position id s.jobs ids h))

-- The check of `reorderJobs`: every listed id is a job of the console that waits.
is_wrong_list-InQueue :
    (device : ℕ) (ids : List ℕ) (hi : ℕ) (rows : List JobRow)
    → Ascending 0 hi rows
    → any (λ id. not (is_some (find? (job_with id) (queued_of device rows)))) ids ≡ false
    → All (InQueue rows) ids
is_wrong_list-InQueue device [] hi rows n h = tt
is_wrong_list-InQueue device (id ∷ ids) hi rows n h =
    (listed (find id rows) refl, is_wrong_list-InQueue device ids hi rows n (ground arith))
  where
    listed : (o : Option JobRow) → find id rows ≡ o → InQueue rows id
    listed none e = absurd (
        ground (
          arith,
          find-filter id 0 hi (λ (row : JobRow). is_of device row && is_queued row.status) rows n,
        ))
    listed (some row) e = (
      row,
      e,
      ground (
        arith,
        find-filter id 0 hi (λ (row : JobRow). is_of device row && is_queued row.status) rows n,
      ),
    )

pub reorder_jobs-Later :
    (device : ℕ) (ids : List ℕ) (s : Service) → IsNumbered s → Later s (reorder_jobs device ids s).1
unfolding reorder_jobs
reorder_jobs-Later device ids s n =
    require_active_device_cases (λ r. Later s r.1) s device _ (λ _. Later-refl s n)
      λ row found active.
        require_cases (λ r. Later s r.1) s _ bad_request _ (Later-refl s n)
          λ right.
            place_all-Later s.clock 1 ids s n
              (is_wrong_list-InQueue device ids s.next_job s.jobs n (ground arith))

pub purge_finished_jobs-Later :
    (max_age_ms : ℕ) (s : Service) → IsNumbered s → Later s (purge_finished_jobs max_age_ms s).1
unfolding purge_finished_jobs
purge_finished_jobs-Later max_age_ms s n = record {
  numbers = filter-Ascending 0 s.next_job _ s.jobs n;
  counter = omega arith;
  at = λ id h.
      rw (find-filter id 0 s.next_job (λ row. not (is_old s.clock max_age_ms row)) s.jobs n)
        (kept (find id s.jobs));
}
  where
    kept : (o : Option JobRow) → Next o (filter_row (λ row. not (is_old s.clock max_age_ms row)) o)
    kept none = refl
    kept (some row) = elim (Bool-cases (is_old s.clock max_age_ms row)) [
      | inl old ↦ rw old tt
      | inr young ↦ rw young (Follows-refl row)
    ]
