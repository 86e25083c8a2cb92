-- ===== src/Device/Jobs/Queue.antt =====
-- The calls of packages/server/src/device/service.ts by which the web pages manage the queue:
-- `resumeJob`, `cancelJob`, `reorderJobs`, `listJobs` and `purgeFinishedJobs`.
use nslibrary.Common.{
  ℕ, ◌+◌, Bool, false, ◌&&◌, ◌||◌, not, Option, none, some, List, [], ◌∷◌, map, filter, find?, any,
  length, take, ltb, ◌==◌, if◌then◌else◌, or_else, is_some, ok, Action, pure, gets, modify, require,
  ◌>>=◌, ◌>>◌, job_invalid_state, bad_request,
}
use nslibrary.Common.Sort.{sort}
use nslibrary.Shared.Types.{WebJob, queued, cancelled, job_queued, job_cancel, is_active_job_status}
use nslibrary.Device.Rows.{JobRow}
use nslibrary.Device.Service.{
  Service, to_web_job, to_device_job, require_active_device, require_job, set_job, publish,
  log_append,
}
use nslibrary.Device.Jobs.{is_queued, is_finished, is_interrupted, is_of, next_position}
use nslibrary.Device.Service.{update_job, job_with}

unfoldable pub resumed_row : ℕ → ℕ → JobRow → JobRow
resumed_row now position row = record row {
  status = queued;
  error = none;
  completed_at = none;
  updated_at = now;
  position = position;
}

unfoldable pub resume_job : ℕ → Action Service WebJob
unfolding resumed_row
resume_job id = do
  row ← require_job id
  require (is_interrupted row.status) job_invalid_state
  _ ← require_active_device row.device_id
  now ← gets (λ s. s.clock)
  position ← gets (λ s. next_position row.device_id s.jobs)
  updated ← set_job id (resumed_row now position)
  let job = to_web_job updated
  log_append row.device_id (job_queued (to_device_job job))
  publish job false
  pure job

unfoldable pub cancelled_row : ℕ → JobRow → JobRow
cancelled_row now row = record row {
  status = cancelled;
  updated_at = now;
  completed_at = some now;
  error = some "Cancelled";
}

unfoldable pub cancel_job : ℕ → Action Service WebJob
unfolding cancelled_row
cancel_job id = do
  row ← require_job id
  require (not (is_finished row.status)) job_invalid_state
  now ← gets (λ s. s.clock)
  updated ← set_job id (cancelled_row now)
  log_append row.device_id (job_cancel id)
  publish (to_web_job updated) false
  pure (to_web_job updated)

unfoldable pub moved_row : ℕ → ℕ → JobRow → JobRow
moved_row now position row = record row { position = position; updated_at = now }

-- `ids.forEach`, the first of `ids` at `position`.
unfoldable pub place_all : ℕ → ℕ → List ℕ → List JobRow → List JobRow
unfolding moved_row update_job
place_all now position [] rows = rows
place_all now position (id ∷ ids) rows =
    place_all now (position + 1) ids (update_job id (moved_row now position) rows)

abbrev pub queued_of : ℕ → List JobRow → List JobRow
queued_of device rows = filter (λ row. is_of device row && is_queued row.status) rows

-- `ids.length !== queued.length || ids.some((id) => !byId.has(id))`
unfoldable pub is_wrong_list : List ℕ → List JobRow → Bool
is_wrong_list ids rows =
    not (length ids == length rows) || any (λ id. not (is_some (find? (job_with id) rows))) ids

-- a.position - b.position || a.id - b.id
abbrev pub before_in_queue : JobRow → JobRow → Bool
before_in_queue a b = ltb a.position b.position || (a.position == b.position && ltb a.id b.id)

abbrev pub finished_at : JobRow → ℕ
finished_at row = or_else row.completed_at row.updated_at

-- finishedAt(b) - finishedAt(a) || b.id - a.id
abbrev pub finished_later : JobRow → JobRow → Bool
finished_later a b =
    ltb (finished_at b) (finished_at a) || (finished_at a == finished_at b && ltb b.id a.id)

-- The rows that `finishedLimit` leaves.
unfoldable pub keep_finished : Option ℕ → List JobRow → List JobRow
unfolding is_active_job_status
keep_finished none rows = rows
keep_finished (some limit) rows =
    let over = filter (λ (row : JobRow). not (is_active_job_status row.status)) rows in
    let kept = take limit (sort finished_later over) in
    filter
      (λ (row : JobRow). is_active_job_status row.status || is_some (find? (job_with row.id) kept))
      rows

-- A device id of 0 is falsy in JavaScript and lists every job.
unfoldable pub rows_of : Option ℕ → List JobRow → List JobRow
rows_of none rows = rows
rows_of (some device) rows = if device == 0 then rows else filter (is_of device) rows

unfoldable pub list_jobs : Option ℕ → Option ℕ → Service → List WebJob
unfolding keep_finished rows_of
list_jobs device finished_limit s =
    map to_web_job (sort before_in_queue (keep_finished finished_limit (rows_of device s.jobs)))

unfoldable pub reorder_jobs : ℕ → List ℕ → Action Service (List WebJob)
unfolding is_wrong_list
reorder_jobs device ids = do
  _ ← require_active_device device
  wrong ← gets (λ s. is_wrong_list ids (queued_of device s.jobs))
  require (not wrong) bad_request
  modify (λ s. record s { jobs = place_all s.clock 1 ids s.jobs })
  gets (list_jobs (some device) none)

-- Finished, and completed longer than `max_age_ms` ago.
abbrev pub is_old : ℕ → ℕ → JobRow → Bool
is_old now max_age_ms row =
    is_finished row.status
    && elim row.completed_at [ none ↦ false | some t ↦ ltb (t + max_age_ms) now ]

unfoldable pub purge_finished_jobs : ℕ → Action Service ℕ
purge_finished_jobs max_age_ms s = (
  ok (length (filter (is_old s.clock max_age_ms) s.jobs)),
  record s { jobs = filter (λ row. not (is_old s.clock max_age_ms row)) s.jobs },
)
