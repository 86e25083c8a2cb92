-- ===== src/Device/Jobs/Order/Runs.antt =====
-- A queue of two jobs of packages/server/src/device/service.ts that is listed and put in order.
use nslibrary.Common.{ℕ, ◌+◌, ◌≡◌, ◌≢◌, refl, arith, none, some, [], ◌∷◌, All, get_elem?, ok}
use nslibrary.Shared.Types.{ContentMetaType, ContainerFormat, InstallTarget, JobSource, JobStatus}
use nslibrary.Device.Rows.{JobRow}
use nslibrary.Device.Sample.{library, console}
use nslibrary.Device.Service.{Service}
use nslibrary.Device.Jobs.Table.{find}
use nslibrary.Device.Jobs.Queue.{list_jobs, reorder_jobs, is_wrong_list}
use nslibrary.Device.Jobs.Order.{reorder_jobs-places, reorder_jobs-accepts_twice}

abbrev waiting : ℕ → JobRow
waiting id = record {
  id = id;
  device_id = 1;
  content_meta_id = 3;
  file_id = 5;
  title_id = "0100000000001000";
  version = 0;
  type = ContentMetaType.application;
  name = "Game";
  size = 900;
  format = ContainerFormat.nsp;
  target = InstallTarget.auto;
  source = JobSource.web;
  position = id;
  status = JobStatus.queued;
  phase = none;
  item = none;
  bytes_done = 0;
  bps = none;
  error = none;
  created_at = 10000;
  updated_at = 10000;
  claimed_at = none;
  completed_at = none;
}

abbrev queue : Service
queue = record library { jobs = waiting 1 ∷ waiting 2 ∷ []; next_job = 3 }

reorder_jobs-places_example :
    let t = (reorder_jobs 1 (2 ∷ 1 ∷ []) queue).1 in
    ((reorder_jobs 1 (2 ∷ 1 ∷ []) queue).0 ≡ ok (list_jobs (some 1) none t))
    × ((k id : ℕ) (row : JobRow)
        → get_elem? (2 ∷ 1 ∷ []) k ≡ some id
        → find id queue.jobs ≡ some row
        → find id t.jobs ≡ some (record row { position = 1 + k; updated_at = queue.clock }))
    × ((j : ℕ) → All (λ (id : ℕ). id ≢ j) (2 ∷ 1 ∷ []) → find j t.jobs ≡ find j queue.jobs)
unfolding is_wrong_list
reorder_jobs-places_example =
    reorder_jobs-places 1 (2 ∷ 1 ∷ []) queue console refl refl refl ((omega arith, tt), (tt, tt))

reorder_jobs-accepts_twice_example :
    let t = (reorder_jobs 1 (1 ∷ 1 ∷ []) queue).1 in
    ((reorder_jobs 1 (1 ∷ 1 ∷ []) queue).0 ≡ ok (list_jobs (some 1) none t))
    × (find 1 t.jobs ≡ some (record (waiting 1) { position = 2; updated_at = 10000 }))
    × (find 2 t.jobs ≡ some (waiting 2))
reorder_jobs-accepts_twice_example =
    reorder_jobs-accepts_twice 1 queue console (waiting 1) (waiting 2) refl refl refl refl refl
      (omega arith)
