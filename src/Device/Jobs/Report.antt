-- ===== src/Device/Jobs/Report.antt =====
-- The calls of packages/server/src/device/service.ts that follow an install: `claimJob`, `progress`,
-- `complete`, and those that interrupt a job whose console has gone silent or lost its place.
use nslibrary.Common.{
  ℕ, ◌+◌, Bool, true, false, ◌&&◌, ◌||◌, not, Option, none, some, List, [], ◌∷◌, map, filter,
  length, ltb, String, if◌then◌else◌, or_else, Action, pure, gets, modify, require, ◌>>=◌, ◌>>◌,
  job_invalid_state,
}
use nslibrary.Common.Maps
use nslibrary.Shared.Types.{Job, WebJob, InstallPhase, claimed, running, done, failed, interrupted}
use nslibrary.Device.Rows.{JobRow}
use nslibrary.Device.Service.{Service, to_web_job, to_device_job, job_for_device, set_job, publish}
use nslibrary.Device.Jobs.{
  is_running, is_queued, is_interrupted, is_reportable, is_of, same_phase, progress_min_interval_ms,
}

unfoldable pub claimed_row : ℕ → JobRow → JobRow
claimed_row now row = record row { status = claimed; claimed_at = some now; updated_at = now }

unfoldable pub claim_job : ℕ → ℕ → Action Service Job
unfolding claimed_row
claim_job device id = do
  row ← job_for_device device id
  require (is_queued row.status || is_interrupted row.status) job_invalid_state
  now ← gets (λ s. s.clock)
  updated ← set_job id (claimed_row now)
  publish (to_web_job updated) false
  pure (to_device_job (to_web_job updated))

pub record JobProgressRequest : Type 0 where
  pub phase : InstallPhase
  pub item : Option String
  pub done : ℕ
  pub bps : ℕ

-- The columns that a report sets; a job that was interrupted loses its error and its end.
unfoldable pub progressed_row : ℕ → JobProgressRequest → Bool → JobRow → JobRow
progressed_row now body revived row = record row {
  status = running;
  phase = some body.phase;
  item = body.item;
  bytes_done = body.done;
  bps = some body.bps;
  updated_at = now;
  error = if revived then none else row.error;
  completed_at = if revived then none else row.completed_at;
}

-- `!revived && now - last < PROGRESS_MIN_INTERVAL_MS && row.phase === body.phase`
unfoldable pub too_soon : Service → JobRow → JobProgressRequest → Bool
too_soon s row body =
    not (is_interrupted row.status)
    && ltb s.clock (or_else (Maps.get row.id s.last_progress_at) 0 + progress_min_interval_ms)
    && same_phase row.phase body.phase

unfoldable pub note_progress : ℕ → Action Service Unit
note_progress id =
    modify λ s. record s { last_progress_at = Maps.set id s.clock s.last_progress_at }

unfoldable pub report : ℕ → JobRow → JobProgressRequest → Action Service Unit
unfolding note_progress progressed_row
report id row body = do
  note_progress id
  now ← gets (λ s. s.clock)
  updated ← set_job id (progressed_row now body (is_interrupted row.status))
  publish (to_web_job updated) (not (is_interrupted row.status))

unfoldable pub progress : ℕ → ℕ → JobProgressRequest → Action Service Unit
unfolding too_soon report
progress device id body = do
  row ← job_for_device device id
  require (is_reportable row.status) job_invalid_state
  soon ← gets (λ s. too_soon s row body)
  if soon then pure tt else report id row body

pub record JobCompleteRequest : Type 0 where
  pub ok : Bool
  pub result : Option String
  pub msg : Option String

unfoldable pub completed_row : ℕ → JobCompleteRequest → JobRow → JobRow
completed_row now body row = record row {
  status = if body.ok then done else failed;
  error = if body.ok then none else some (or_else body.msg (or_else body.result "Install failed"));
  updated_at = now;
  completed_at = some now;
  bytes_done = if body.ok then row.size else row.bytes_done;
}

unfoldable pub forget_times : ℕ → Action Service Unit
forget_times id = modify λ s. record s {
  last_progress_at = Maps.delete id s.last_progress_at;
  publisher = record s.publisher { last_event_at = Maps.delete id s.publisher.last_event_at };
}

unfoldable pub complete : ℕ → ℕ → JobCompleteRequest → Action Service WebJob
unfolding completed_row forget_times
complete device id body = do
  row ← job_for_device device id
  require (is_reportable row.status) job_invalid_state
  now ← gets (λ s. s.clock)
  updated ← set_job id (completed_row now body)
  forget_times id
  publish (to_web_job updated) false
  pure (to_web_job updated)

unfoldable pub interrupted_row : ℕ → String → JobRow → JobRow
interrupted_row now message row = record row {
  status = interrupted;
  error = some message;
  updated_at = now;
  completed_at = some now;
}

unfoldable pub interrupt_job : ℕ → String → Action Service Unit
unfolding interrupted_row
interrupt_job id message = do
  now ← gets (λ s. s.clock)
  updated ← set_job id (interrupted_row now message)
  publish (to_web_job updated) false

unfoldable pub interrupt_all : List ℕ → String → Action Service Unit
interrupt_all [] message = pure tt
interrupt_all (id ∷ ids) message = do interrupt_job id message; interrupt_all ids message

unfoldable pub ids_of : (JobRow → Bool) → List JobRow → List ℕ
ids_of p rows = map (λ row. row.id) (filter p rows)

unfoldable pub interrupt_active_jobs : ℕ → String → Action Service Unit
unfolding ids_of
interrupt_active_jobs device message = do
  ids ← gets (λ s. ids_of (λ row. is_of device row && is_running row.status) s.jobs)
  interrupt_all ids message

-- Claimed or running, silent for longer than `max_idle_ms`, and of the device if one is given.
abbrev pub is_stale : ℕ → ℕ → Option ℕ → JobRow → Bool
is_stale now max_idle_ms device row =
    is_running row.status
    && ltb (row.updated_at + max_idle_ms) now
    && elim device [ none ↦ true | some d ↦ is_of d row ]

unfoldable pub interrupt_stale_jobs : ℕ → Option ℕ → Action Service ℕ
unfolding ids_of
interrupt_stale_jobs max_idle_ms device = do
  ids ← gets (λ s. ids_of (is_stale s.clock max_idle_ms device) s.jobs)
  interrupt_all ids "The Switch stopped reporting progress"
  pure (length ids)
