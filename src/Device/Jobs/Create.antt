-- ===== src/Device/Jobs/Create.antt =====
-- `createJobs`, `createJobFromDevice` and `#insertJob` of packages/server/src/device/service.ts.
use nslibrary.Common.{
  ℕ, suc, ◌+◌, Bool, false, ◌||◌, not, Option, none, some, List, [], ◌∷◌, ◌++◌, find?, ◌==◌,
  if◌then◌else◌, or_else, is_some, Result, ok, err, Action, pure, gets, or_throw, ◌>>=◌, ◌>>◌,
  not_found, file_missing,
}
use nslibrary.Shared.Types.{Job, WebJob, InstallTarget, JobSource, web, switch, queued, job_queued}
use nslibrary.Device.Rows.{JobRow, ContentMetaRow, FileRow, RootRow}
use nslibrary.Device.Service.{
  Service, to_web_job, to_device_job, require_active_device, publish, log_append,
}
use nslibrary.Device.Jobs.{next_position}

-- The row that `#insertJob` adds.
unfoldable pub new_job :
    Service → ℕ → ContentMetaRow → FileRow → InstallTarget → ℕ → JobSource → JobRow
new_job s device m file target position source = record {
  id = s.next_job;
  device_id = device;
  content_meta_id = m.id;
  file_id = file.id;
  title_id = m.title_id;
  version = or_else m.version 0;
  type = m.type;
  name = m.display_name;
  size = file.size;
  format = file.format;
  target = target;
  source = source;
  position = position;
  status = queued;
  phase = none;
  item = none;
  bytes_done = 0;
  bps = none;
  error = none;
  created_at = s.clock;
  updated_at = s.clock;
  claimed_at = none;
  completed_at = none;
}

unfoldable pub add_row : JobRow → Action Service JobRow
add_row row s = (ok row, record s { jobs = s.jobs ++ row ∷ []; next_job = suc s.next_job })

abbrev pub is_enabled : Option RootRow → Bool
is_enabled none = false
is_enabled (some root) = root.enabled

-- The file of a title, if it is in the library and its folder is enabled.
unfoldable pub file_of : Service → ContentMetaRow → Option FileRow
file_of s m = elim (find? (λ (f : FileRow). f.id == m.file_id) s.files) [
  | none ↦ none
  | some file ↦
      if is_some file.missing_since
        || not (is_enabled (find? (λ (r : RootRow). r.id == file.root_id) s.roots))
      then none
      else some file
]

unfoldable pub insert_job : ℕ → ℕ → InstallTarget → ℕ → JobSource → Action Service WebJob
unfolding new_job add_row file_of to_web_job
insert_job device meta_id target position source s =
    (do
      m ← or_throw (find? (λ (m : ContentMetaRow). m.id == meta_id) s.metas) not_found
      file ← or_throw (file_of s m) file_missing
      row ← add_row (new_job s device m file target position source)
      pure (to_web_job row))
      s

-- The loop of `createJobs`, in its transaction.
unfoldable pub insert_all : ℕ → List ℕ → InstallTarget → ℕ → Action Service (List WebJob)
insert_all device [] target position = pure []
insert_all device (meta_id ∷ ids) target position = do
  job ← insert_job device meta_id target position web
  jobs ← insert_all device ids target (position + 1)
  pure (job ∷ jobs)

-- A transaction that throws leaves the tables as they were. The calls that use it write to nothing
-- but tables inside it.
abbrev pub rollback : {A : Type 0} → Service → Result A × Service → Result A × Service
rollback s (ok a, after) = (ok a, after)
rollback s (err e, after) = (err e, s)

unfoldable pub transaction : {A : Type 0} → Action Service A → Action Service A
transaction m s = rollback s (m s)

-- `log.append` and `#publishJob` for a job that was queued.
unfoldable pub announce : ℕ → WebJob → Action Service Unit
announce device job = do log_append device (job_queued (to_device_job job)); publish job false

unfoldable pub announce_all : ℕ → List WebJob → Action Service Unit
announce_all device [] = pure tt
announce_all device (job ∷ jobs) = do announce device job; announce_all device jobs

unfoldable pub create_jobs : ℕ → List ℕ → InstallTarget → Action Service (List WebJob)
unfolding require_active_device
create_jobs device ids target = do
  _ ← require_active_device device
  position ← gets (λ s. next_position device s.jobs)
  jobs ← transaction (insert_all device ids target position)
  announce_all device jobs
  pure jobs

unfoldable pub create_job_from_device : ℕ → ℕ → InstallTarget → Action Service Job
create_job_from_device device meta_id target = do
  position ← gets (λ s. next_position device s.jobs)
  job ← insert_job device meta_id target position switch
  announce device job
  pure (to_device_job job)
