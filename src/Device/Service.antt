-- ===== src/Device/Service.antt =====
-- The state of `DeviceApiService` (packages/server/src/device/service.ts), and the parts that its
-- calls share: the rows that they require, the views of a job, and writes to one job. `clock` is
-- what `now()` returns during the call; it does not move within one. A table lists its rows in the
-- order of their ids, which is the order in which they were inserted.
use nslibrary.Common.{
  ℕ, Bool, some, List, [], ◌∷◌, ◌++◌, find?, ◌==◌, if◌then◌else◌, is_some, Action, pure, throw,
  modify, or_throw, ◌>>=◌, not_found, device_revoked, job_not_found, forbidden, internal,
}
use nslibrary.Common.Maps.{Map}
use nslibrary.Shared.Types.{Job, WebJob, DeviceEvent, ServerEvent}
use nslibrary.Device.Rows.{
  DeviceRow, JobRow, ContentMetaRow, FileRow, RootRow, PairingCodeRow, DeviceTitleRow,
}
use nslibrary.Device.Log
use nslibrary.Device.Log.{EventLog}
use nslibrary.Device.Publisher.{Publisher, publish_job}

pub record Service : Type 0 where
  pub clock : ℕ
  pub devices : List DeviceRow
  pub next_device : ℕ
  pub device_titles : List DeviceTitleRow
  pub pairing_codes : List PairingCodeRow
  pub next_code : ℕ
  pub jobs : List JobRow
  pub next_job : ℕ
  pub metas : List ContentMetaRow
  pub files : List FileRow
  pub roots : List RootRow
  pub require_usb_pairing : Bool
  pub log : EventLog
  pub publisher : Publisher
  pub last_progress_at : Map ℕ
  pub presence : Map ℕ

unfoldable pub to_web_job : JobRow → WebJob
to_web_job row = record {
  id = row.id;
  device_id = row.device_id;
  content_meta_id = row.content_meta_id;
  file_id = row.file_id;
  title_id = row.title_id;
  version = row.version;
  type = row.type;
  name = row.name;
  size = row.size;
  format = row.format;
  target = row.target;
  source = row.source;
  status = row.status;
  position = row.position;
  phase = row.phase;
  item = row.item;
  bytes_done = row.bytes_done;
  bps = row.bps;
  error = row.error;
  created_at = row.created_at;
  updated_at = row.updated_at;
  completed_at = row.completed_at;
}

unfoldable pub to_device_job : WebJob → Job
to_device_job job = record {
  id = job.id;
  content_meta_id = job.content_meta_id;
  file_id = job.file_id;
  title_id = job.title_id;
  version = job.version;
  type = job.type;
  name = job.name;
  size = job.size;
  format = job.format;
  target = job.target;
  status = job.status;
}

abbrev pub device_with : ℕ → DeviceRow → Bool
device_with id row = row.id == id

abbrev pub job_with : ℕ → JobRow → Bool
job_with id row = row.id == id

-- `UPDATE install_jobs SET … WHERE id = …`
unfoldable pub update_job : ℕ → (JobRow → JobRow) → List JobRow → List JobRow
update_job id f [] = []
update_job id f (row ∷ rows) = (if row.id == id then f row else row) ∷ update_job id f rows

-- The same for a device.
unfoldable pub update_device : ℕ → (DeviceRow → DeviceRow) → List DeviceRow → List DeviceRow
update_device id f [] = []
update_device id f (row ∷ rows) = (if row.id == id then f row else row) ∷ update_device id f rows

unfoldable pub require_device_row : ℕ → Action Service DeviceRow
require_device_row id s = or_throw (find? (device_with id) s.devices) not_found s

unfoldable pub require_active_device : ℕ → Action Service DeviceRow
unfolding require_device_row
require_active_device id = do
  row ← require_device_row id
  if is_some row.revoked_at then throw device_revoked else pure row

unfoldable pub require_job : ℕ → Action Service JobRow
require_job id s = or_throw (find? (job_with id) s.jobs) job_not_found s

unfoldable pub job_for_device : ℕ → ℕ → Action Service JobRow
unfolding require_job
job_for_device device_id job_id = do
  row ← require_job job_id
  if row.device_id == device_id then pure row else throw forbidden

-- `.update(installJobs).set(…).where(eq(id)).returning().get()`; without a row, the `undefined`
-- that it returns makes the next step throw.
unfoldable pub set_job : ℕ → (JobRow → JobRow) → Action Service JobRow
unfolding update_job
set_job id f s =
    let jobs = update_job id f s.jobs in
    or_throw (find? (job_with id) jobs) internal (record s { jobs = jobs })

-- `#publishJob`
unfoldable pub publish : WebJob → Bool → Action Service Unit
publish job throttle =
    modify λ s. record s { publisher = publish_job s.publisher s.clock job throttle }

-- `this.log.append(deviceId, event)`
unfoldable pub log_append : ℕ → DeviceEvent → Action Service Unit
log_append device event = modify λ s. record s { log = Log.append s.log (some device) event }

-- `this.#events.publish(event)` for an event that is not about a job.
unfoldable pub publish_event : ServerEvent → Action Service Unit
publish_event event =
    modify λ s. record s { publisher = record s.publisher { bus = s.publisher.bus ++ event ∷ [] } }
