-- ===== src/Device/Publisher/Runs.antt =====
-- A run of the throttle of packages/server/src/device/service.ts, and its theorems at it.
use nslibrary.Common.{ℕ, ◌≡◌, refl, none, some, List, [], ◌∷◌, true}
use nslibrary.Common.Maps
use nslibrary.Shared.Types.{
  WebJob, ContentMetaType, ContainerFormat, InstallTarget, JobSource, JobStatus, job_updated,
}
use nslibrary.Device.Publisher.{idle, publish_job, fire}
use nslibrary.Device.Publisher.Entries.{Step, publishes, step, run, newest, IsSettled, Tracks}
use nslibrary.Device.Publisher.Newest.{run-idle-Tracks, run-fire-IsSettled}

-- Job 7 with `done` bytes installed.
abbrev job_at : ℕ → WebJob
job_at done = record {
  id = 7;
  device_id = 1;
  content_meta_id = 3;
  file_id = 4;
  title_id = "0100000000001000";
  version = 0;
  type = ContentMetaType.application;
  name = "Game";
  size = 900;
  format = ContainerFormat.nsp;
  target = InstallTarget.auto;
  source = JobSource.web;
  status = JobStatus.running;
  position = 1;
  phase = none;
  item = none;
  bytes_done = done;
  bps = none;
  error = none;
  created_at = 0;
  updated_at = 0;
  completed_at = none;
}

-- The first report goes out, the next two wait for one timer, which sends the last of them.
abbrev reports : List Step
reports =
    publishes 1000 (job_at 100) true
    ∷ publishes 1100 (job_at 200) true
    ∷ publishes 1200 (job_at 300) true
    ∷ []

sent_after_timer :
    (fire (run idle reports) 1500 7).bus ≡ job_updated (job_at 100) ∷ job_updated (job_at 300) ∷ []
unfolding run step publish_job fire Maps.get Maps.set Maps.delete
sent_after_timer = refl

run-idle-Tracks_example : Tracks 7 (some (job_at 300)) (run idle reports)
unfolding newest
run-idle-Tracks_example = run-idle-Tracks reports 7

run-fire-IsSettled_example : IsSettled 7 (some (job_at 300)) (fire (run idle reports) 1500 7)
unfolding newest
run-fire-IsSettled_example = run-fire-IsSettled reports 7 1500
