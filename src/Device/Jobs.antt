-- ===== src/Device/Jobs.antt =====
-- The install queue of `DeviceApiService` (packages/server/src/device/service.ts): every call that
-- writes to the `install_jobs` table, and `listJobs`. Request bodies are those that passed the
-- schemas of packages/shared; a speed in bytes per second is a whole number.
pub mod Create
pub mod Report
pub mod Queue
pub mod Table
pub mod Calls
pub mod History
pub mod Reports
pub mod Management
pub mod Creation
pub mod Places
pub mod Lifetime
pub mod Interrupts
pub mod Access
pub mod Order
pub mod Listing
pub mod Returns
mod Runs
use nslibrary.Common.{
  ℕ, zero, suc, ◌+◌, ◌≤◌, Bool, true, false, ◌&&◌, ◌||◌, not, Option, none, some, List, [], ◌∷◌,
  ◌++◌, map, filter, find?, any, length, take, ltb, leb, ◌==◌, max, String, if◌then◌else◌, or_else,
  is_some, Result, ok, err, Action, pure, throw, gets, modify, require, or_throw, ◌>>=◌, ◌>>◌,
  not_found, file_missing, job_invalid_state, bad_request,
}
use nslibrary.Common.Maps
use nslibrary.Common.Sort.{sort}
use nslibrary.Shared.Types.{
  Job, WebJob, InstallTarget, InstallPhase, JobSource, web, switch, JobStatus, queued, claimed,
  running, done, failed, cancelled, interrupted, preflight, ticket, meta, content, commit,
  record_phase, job_queued, job_cancel, is_active_job_status,
}
use nslibrary.Device.Rows.{JobRow, ContentMetaRow, FileRow, RootRow}
use nslibrary.Device.Service.{
  Service, to_web_job, to_device_job, require_active_device, require_job, job_for_device, set_job,
  publish, log_append,
}

abbrev pub progress_min_interval_ms : ℕ
progress_min_interval_ms = 1000

abbrev pub is_queued : JobStatus → Bool
is_queued queued = true
is_queued _ = false

-- `inArray(installJobs.status, ["claimed", "running"])`
abbrev pub is_running : JobStatus → Bool
is_running claimed = true
is_running running = true
is_running _ = false

abbrev pub is_interrupted : JobStatus → Bool
is_interrupted interrupted = true
is_interrupted _ = false

-- `REPORTABLE_JOB_STATUSES`
abbrev pub is_reportable : JobStatus → Bool
is_reportable s = is_running s || is_interrupted s

-- `inArray(installJobs.status, ["done", "failed", "cancelled"])`
abbrev pub is_finished : JobStatus → Bool
is_finished done = true
is_finished failed = true
is_finished cancelled = true
is_finished _ = false

unfoldable pub phase_index : InstallPhase → ℕ
phase_index preflight = 0
phase_index ticket = 1
phase_index meta = 2
phase_index content = 3
phase_index commit = 4
phase_index record_phase = 5

-- `row.phase === body.phase`
unfoldable pub same_phase : Option InstallPhase → InstallPhase → Bool
unfolding phase_index
same_phase none p = false
same_phase (some q) p = phase_index q == phase_index p

abbrev pub is_of : ℕ → JobRow → Bool
is_of device row = row.device_id == device

-- The rows whose positions count for a new job.
abbrev pub holds_place : ℕ → JobRow → Bool
holds_place device row = is_of device row && is_active_job_status row.status

unfoldable pub max_position : ℕ → List JobRow → ℕ
max_position m [] = m
max_position m (row ∷ rows) = max_position (max m row.position) rows

unfoldable pub next_position : ℕ → List JobRow → ℕ
unfolding max_position is_active_job_status
next_position device rows = max_position 0 (filter (holds_place device) rows) + 1
