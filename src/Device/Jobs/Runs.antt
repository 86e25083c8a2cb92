-- ===== src/Device/Jobs/Runs.antt =====
-- A small library with one console, its queue (packages/server/src/device/service.ts), and the
-- theorems of the queue there.
use nslibrary.Common.{
  ℕ, ◌≡◌, refl, true, Option, none, some, List, [], ◌∷◌, ok, err, ErrorCode, arith, ◌⊎◌,
  job_invalid_state, job_not_found, filter, length, require,
}
use nslibrary.Shared.Types.{
  ContentMetaType, ContainerFormat, InstallTarget, JobSource, JobStatus, InstallPhase,
}
use nslibrary.Device.Rows.{JobRow}
use nslibrary.Device.Log
use nslibrary.Device.Publisher.{publish_job, send}
use nslibrary.Device.Service.{
  Service, to_web_job, to_device_job, require_active_device, require_device_row, log_append,
  publish, job_for_device, require_job, set_job, update_job,
}
use nslibrary.Device.Sample.{library}
use nslibrary.Device.Jobs.{next_position, max_position}
use nslibrary.Device.Jobs.Table.{find}
use nslibrary.Device.Jobs.Create.{
  create_jobs, insert_all, insert_job, new_job, add_row, file_of, transaction, announce_all,
  announce,
}
use nslibrary.Device.Jobs.Report.{
  claim_job, progress, complete, forget_times, JobCompleteRequest, JobProgressRequest,
  completed_row, claimed_row, interrupt_stale_jobs,
}
use nslibrary.Device.Jobs.Calls.{Call, creates, claims, progresses, cancels, clock_is, step, run}
use nslibrary.Device.Jobs.History.{IsNumbered}
use nslibrary.Device.Jobs.Reports.{complete-Later}
use nslibrary.Device.Jobs.Places.{create_jobs-Added, Added}
use nslibrary.Device.Jobs.Lifetime.{run-IsNumbered, run-finished}
use nslibrary.Device.Jobs.Interrupts.{interrupt_stale_jobs-exact, interrupted_if, is_silent}
use nslibrary.Device.Jobs.Access.{claim_job-exclusive, complete-final}

abbrev halfway : JobProgressRequest
halfway = record { phase = InstallPhase.content; item = none; done = 450; bps = 100 }

abbrev success : JobCompleteRequest
success = record { ok = true; result = none; msg = none }

-- Two jobs, the first of them claimed.
abbrev busy_calls : List Call
busy_calls = creates 1 (3 ∷ 4 ∷ []) InstallTarget.auto ∷ claims 1 1 ∷ []

abbrev busy : Service
busy = run library busy_calls

busy-IsNumbered : IsNumbered busy
busy-IsNumbered = (run-IsNumbered library busy_calls (omega arith)).0

-- The job of the first title.
abbrev first : JobStatus → Option ℕ → JobRow
first status claimed_at = record {
  id = 1;
  device_id = 1;
  content_meta_id = 3;
  file_id = 5;
  title_id = "0100000000001000";
  version = 0;
  type = ContentMetaType.application;
  name = "Game";
  size = 900;
  format = ContainerFormat.nsp;
  target = InstallTarget.auto;
  source = JobSource.web;
  position = 1;
  status = status;
  phase = none;
  item = none;
  bytes_done = 0;
  bps = none;
  error = none;
  created_at = 10000;
  updated_at = 10000;
  claimed_at = claimed_at;
  completed_at = none;
}

busy_row : find 1 busy.jobs ≡ some (first JobStatus.claimed (some 10000))
unfolding run step create_jobs insert_all insert_job new_job add_row file_of to_web_job
    require_active_device require_device_row transaction announce_all announce log_append publish
    publish_job send Log.append claim_job claimed_row job_for_device require_job set_job update_job
    next_position to_device_job require max_position
busy_row = refl

-- Its console installs it, and the second one is cancelled.
abbrev later_calls : List Call
later_calls = clock_is 20000 ∷ progresses 1 1 halfway ∷ cancels 2 ∷ claims 1 1 ∷ []

abbrev installed : JobRow
installed = completed_row 10000 success (first JobStatus.claimed (some 10000))

abbrev after : Service
after = (complete 1 1 success busy).1

complete_returns : (complete 1 1 success busy).0 ≡ ok (to_web_job installed)
unfolding run step create_jobs insert_all insert_job new_job add_row file_of to_web_job
    require_active_device require_device_row transaction announce_all announce log_append publish
    publish_job send Log.append claim_job claimed_row job_for_device require_job set_job update_job
    next_position to_device_job require max_position complete completed_row forget_times
complete_returns = refl

after_row : find 1 after.jobs ≡ some installed
unfolding run step create_jobs insert_all insert_job new_job add_row file_of to_web_job
    require_active_device require_device_row transaction announce_all announce log_append publish
    publish_job send Log.append claim_job claimed_row job_for_device require_job set_job update_job
    next_position to_device_job require max_position complete completed_row forget_times
after_row = refl

after-IsNumbered : IsNumbered after
after-IsNumbered = (complete-Later 1 1 success busy busy-IsNumbered).numbers

run-finished_example :
    (find 1 (run after later_calls).jobs ≡ some installed)
    ⊎ (find 1 (run after later_calls).jobs ≡ none)
run-finished_example =
    run-finished after later_calls 1 installed after-IsNumbered after_row
      (unfold completed_row in refl)

complete-final_example :
    let t = run after later_calls in
    (e : ErrorCode) × ((((row : JobRow) × (find 1 busy.jobs ≡ some row)
        × (find 1 t.jobs ≡ some (completed_row busy.clock success row))
        × (e ≡ job_invalid_state)))
      ⊎ ((find 1 t.jobs ≡ none) × (e ≡ job_not_found)))
    × (claim_job 1 1 t ≡ (err e, t))
    × (progress 1 1 halfway t ≡ (err e, t))
    × (complete 1 1 success t ≡ (err e, t))
complete-final_example =
    complete-final busy 1 1 success (to_web_job installed) later_calls halfway success
      busy-IsNumbered complete_returns

-- Both jobs before they are claimed.
abbrev queue : Service
queue = (create_jobs 1 (3 ∷ 4 ∷ []) InstallTarget.auto library).1

abbrev claimed_first : JobRow
claimed_first = first JobStatus.claimed (some 10000)

claim_returns : (claim_job 1 1 queue).0 ≡ ok (to_device_job (to_web_job claimed_first))
unfolding create_jobs insert_all insert_job new_job add_row file_of to_web_job require_active_device
    require_device_row transaction announce_all announce log_append publish publish_job send
    Log.append claim_job claimed_row job_for_device require_job set_job update_job next_position
    to_device_job require max_position
claim_returns = refl

claim_job-exclusive_example :
    claim_job 1 1 (claim_job 1 1 queue).1 ≡ (err job_invalid_state, (claim_job 1 1 queue).1)
claim_job-exclusive_example =
    claim_job-exclusive queue (claim_job 1 1 queue).1 1 1 1
      (to_device_job (to_web_job claimed_first)) claim_returns refl

abbrev silent : Service
silent = record busy { clock = 200000 }

interrupt_stale_jobs-exact_example :
    ((interrupt_stale_jobs 90000 none silent).0
      ≡ ok (length (filter (is_silent 200000 90000 none) busy.jobs)))
    × ((j : ℕ)
        → find j (interrupt_stale_jobs 90000 none silent).1.jobs
          ≡ interrupted_if
              (is_silent 200000 90000 none)
              200000
              "The Switch stopped reporting progress"
              (find j busy.jobs))
interrupt_stale_jobs-exact_example = interrupt_stale_jobs-exact 90000 none silent busy-IsNumbered

create_jobs-Added_example : Added 1 (4 ∷ []) busy (create_jobs 1 (4 ∷ []) InstallTarget.auto busy)
create_jobs-Added_example = create_jobs-Added 1 (4 ∷ []) InstallTarget.auto busy busy-IsNumbered
