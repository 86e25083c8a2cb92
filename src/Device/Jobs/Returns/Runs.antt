-- ===== src/Device/Jobs/Returns/Runs.antt =====
-- Jobs of packages/server/src/device/service.ts that are made, and one that is claimed again.
use nslibrary.Common.{true, ◌≡◌, refl, some, none, List, [], ◌∷◌, ok, require}
use nslibrary.Shared.Types.{
  WebJob, ContentMetaType, ContainerFormat, InstallTarget, InstallPhase, JobSource, JobStatus,
}
use nslibrary.Device.Rows.{JobRow, FileRow, RootRow}
use nslibrary.Device.Sample.{library, console, title}
use nslibrary.Device.Service.{
  Service, to_web_job, to_device_job, job_for_device, require_job, set_job, update_job, publish,
}
use nslibrary.Device.Publisher.{publish_job, send}
use nslibrary.Device.Jobs.Create.{create_jobs}
use nslibrary.Device.Jobs.Report.{claim_job, claimed_row, progress, JobProgressRequest}
use nslibrary.Device.Jobs.Returns.{create_jobs-returns, titles, Carries, progress-claim_job}

abbrev game : FileRow
game = record {
  id = 5;
  root_id = 6;
  format = ContainerFormat.nsp;
  size = 900;
  missing_since = none;
}

abbrev folder : RootRow
folder = record { id = 6; enabled = true }

create_jobs-returns_example :
    (jobs : List WebJob) × ((create_jobs 1 (3 ∷ 4 ∷ []) InstallTarget.auto library).0 ≡ ok jobs)
    × (titles jobs ≡ 3 ∷ 4 ∷ [])
create_jobs-returns_example =
    create_jobs-returns 1 (3 ∷ 4 ∷ []) InstallTarget.auto library console refl refl (
      (title 3, game, folder, refl, refl, refl, refl, refl),
      ((title 4, game, folder, refl, refl, refl, refl, refl), tt),
    )

abbrev stopped : JobRow
stopped = record {
  id = 1;
  device_id = 1;
  content_meta_id = 3;
  file_id = 5;
  title_id = "0100000000001000";
  version = 0;
  type = ContentMetaType.application;
  name = "Game";
  size = 900;
  format = ContainerFormat.nsp;
  target = InstallTarget.auto;
  source = JobSource.web;
  position = 1;
  status = JobStatus.interrupted;
  phase = none;
  item = none;
  bytes_done = 100;
  bps = none;
  error = some "The Switch stopped reporting progress";
  created_at = 10000;
  updated_at = 10000;
  claimed_at = some 10000;
  completed_at = some 10000;
}

abbrev silent : Service
silent = record library { jobs = stopped ∷ []; next_job = 2 }

abbrev halfway : JobProgressRequest
halfway = record { phase = InstallPhase.content; item = none; done = 450; bps = 100 }

claims_again :
    (claim_job 1 1 silent).0 ≡ ok (to_device_job (to_web_job (claimed_row 10000 stopped)))
unfolding claim_job claimed_row job_for_device require_job set_job update_job publish publish_job
    send require
claims_again = refl

progress-claim_job_example :
    Carries 1 "The Switch stopped reporting progress"
      (progress 1 1 halfway (claim_job 1 1 silent).1).1
progress-claim_job_example =
    progress-claim_job 1 1 silent (to_device_job (to_web_job (claimed_row 10000 stopped))) stopped
      "The Switch stopped reporting progress" halfway claims_again refl refl
