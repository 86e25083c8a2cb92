-- ===== src/Device/Jobs/Calls.antt =====
-- The calls that write to the install queue of packages/server/src/device/service.ts as steps of the
-- service, in any order and at any times, and what each does to the table of jobs. A call that
-- throws is a step too.
use nslibrary.Common.{
  ℕ, ◌≡◌, refl, Bool, true, false, Option, some, List, [], ◌∷◌, arith, inl, inr, String,
  Option-cases, Bool-cases, Result, err, Action, require, ◌>>=◌, ◌>>◌, ErrorCode, find?, is_some,
  ◌==◌,
}
use nslibrary.Shared.Types.{InstallTarget}
use nslibrary.Device.Rows.{JobRow, DeviceRow}
use nslibrary.Device.Service.{
  Service, require_device_row, require_active_device, require_job, job_for_device, set_job,
  update_job, device_with,
}
use nslibrary.Device.Jobs.Table.{find, KeepsId, find-update_job}
use nslibrary.Device.Jobs.Create.{create_jobs, create_job_from_device}
use nslibrary.Device.Jobs.Report.{
  JobProgressRequest, JobCompleteRequest, claim_job, progress, complete, interrupt_active_jobs,
  interrupt_stale_jobs,
}
use nslibrary.Device.Jobs.Queue.{resume_job, cancel_job, reorder_jobs, purge_finished_jobs}

pub data Call : Type 0 where
  creates : ℕ → List ℕ → InstallTarget → Call
  creates_from_device : ℕ → ℕ → InstallTarget → Call
  claims : ℕ → ℕ → Call
  progresses : ℕ → ℕ → JobProgressRequest → Call
  completes : ℕ → ℕ → JobCompleteRequest → Call
  interrupts_active : ℕ → String → Call
  interrupts_stale : ℕ → Option ℕ → Call
  resumes : ℕ → Call
  cancels : ℕ → Call
  reorders : ℕ → List ℕ → Call
  purges : ℕ → Call
  clock_is : ℕ → Call

unfoldable pub step : Service → Call → Service
step s (creates device ids target) = (create_jobs device ids target s).1
step s (creates_from_device device id target) = (create_job_from_device device id target s).1
step s (claims device id) = (claim_job device id s).1
step s (progresses device id body) = (progress device id body s).1
step s (completes device id body) = (complete device id body s).1
step s (interrupts_active device message) = (interrupt_active_jobs device message s).1
step s (interrupts_stale max_idle_ms device) = (interrupt_stale_jobs max_idle_ms device s).1
step s (resumes id) = (resume_job id s).1
step s (cancels id) = (cancel_job id s).1
step s (reorders device ids) = (reorder_jobs device ids s).1
step s (purges max_age_ms) = (purge_finished_jobs max_age_ms s).1
step s (clock_is now) = record s { clock = now }

unfoldable pub run : Service → List Call → Service
run s [] = s
run s (c ∷ cs) = run (step s c) cs

module _ {A : Type 0} (P : Result A × Service → Type 0) (s : Service) where
  -- A call that needs a job: it throws and changes nothing, or goes on with the row.
  pub require_job_cases :
      (id : ℕ) (k : JobRow → Action Service A)
      → ((e : ErrorCode) → P (err e, s))
      → ((row : JobRow) → find id s.jobs ≡ some row → P (k row s))
      → P ((require_job id >>= k) s)
  unfolding require_job
  require_job_cases id k throws goes = elim (Option-cases (find id s.jobs)) [
    | inl e ↦ rw e (throws _)
    | inr (row, e) ↦ rw e (goes row e)
  ]

  pub require_cases :
      (test : Bool) (code : ErrorCode) (k : Action Service A)
      → P (err code, s)
      → (test ≡ true → P (k s))
      → P ((require test code >> k) s)
  unfolding require
  require_cases true code k throws goes = goes refl
  require_cases false code k throws goes = throws

  pub job_for_device_cases :
      (device id : ℕ) (k : JobRow → Action Service A)
      → ((e : ErrorCode) → P (err e, s))
      → ((row : JobRow) → find id s.jobs ≡ some row → row.device_id ≡ device → P (k row s))
      → P ((job_for_device device id >>= k) s)
  unfolding job_for_device require_job
  job_for_device_cases device id k throws goes = elim (Option-cases (find id s.jobs)) [
    | inl e ↦ rw e (throws _)
    | inr (row, e) ↦ elim (Bool-cases (row.device_id == device)) [
      | inl own ↦ rw (e, own) (goes row e (ground arith))
      | inr other ↦ rw (e, other) (throws _)
    ]
  ]

  pub require_active_device_cases :
      (device : ℕ) (k : DeviceRow → Action Service A)
      → ((e : ErrorCode) → P (err e, s))
      → ((row : DeviceRow)
          → find? (device_with device) s.devices ≡ some row
          → is_some row.revoked_at ≡ false
          → P (k row s))
      → P ((require_active_device device >>= k) s)
  unfolding require_active_device require_device_row
  require_active_device_cases device k throws goes =
      elim (Option-cases (find? (device_with device) s.devices)) [
        | inl e ↦ rw e (throws _)
        | inr (row, e) ↦ elim (Bool-cases (is_some row.revoked_at)) [
          | inl revoked ↦ rw (e, revoked) (throws _)
          | inr active ↦ rw (e, active) (goes row e active)
        ]
      ]

-- A write to a job that is there gives the new row to what follows.
pub set_job-bind :
    {A : Type 0} (id : ℕ) (f : JobRow → JobRow) (k : JobRow → Action Service A) (s : Service)
    (row : JobRow)
    → KeepsId f
    → find id s.jobs ≡ some row
    → (set_job id f >>= k) s ≡ k (f row) (record s { jobs = update_job id f s.jobs })
unfolding set_job
set_job-bind id f k s row keeps e = rw (find-update_job id id f s.jobs keeps) (ground (arith, e))
