-- ===== src/Device/Jobs/Access.antt =====
-- Who may call `claimJob`, `progress` and `complete` of packages/server/src/device/service.ts, on
-- which jobs, and how often.
use nslibrary.Common.{
  ℕ, ◌≡◌, ◌≢◌, refl, ◌∙◌, Bool, true, false, none, some, List, arith, ◌⊎◌, inl, inr, Bool-cases,
  ◌||◌, ◌==◌, ok, err, Result, ErrorCode, forbidden, job_not_found, job_invalid_state, require,
  if◌then◌else◌,
}
use nslibrary.Shared.Types.{Job, WebJob}
use nslibrary.Device.Rows.{JobRow}
use nslibrary.Device.Service.{Service, update_job, job_for_device, require_job, publish}
use nslibrary.Device.Jobs.{is_finished, is_running, is_queued, is_interrupted, is_reportable}
use nslibrary.Device.Jobs.Table.{find, find-update_job}
use nslibrary.Device.Jobs.Report.{
  claim_job, progress, complete, claimed_row, completed_row, forget_times, JobProgressRequest,
  JobCompleteRequest,
}
use nslibrary.Device.Jobs.Reports.{complete-Later}
use nslibrary.Device.Jobs.History.{IsNumbered}
use nslibrary.Device.Jobs.Lifetime.{run-finished}
use nslibrary.Device.Jobs.Calls.{Call, run, set_job-bind, require_cases, job_for_device_cases}

-- A console that asks about the job of another is told so by all three calls, and a job that is not
-- there is not found; nothing changes.
pub calls-forbidden :
    (s : Service) (device id : ℕ) (row : JobRow) (body : JobProgressRequest)
    (result : JobCompleteRequest)
    → find id s.jobs ≡ some row
    → row.device_id ≢ device
    → (claim_job device id s ≡ (err forbidden, s))
      × (progress device id body s ≡ (err forbidden, s))
      × (complete device id result s ≡ (err forbidden, s))
unfolding claim_job progress complete job_for_device require_job
calls-forbidden s device id row body result e other =
    let no : (row.device_id == device) ≡ false = ground arith in
    (rw (e, no) refl, rw (e, no) refl, rw (e, no) refl)

-- What a call that returned had found, and the row that it wrote.
abbrev pub Wrote : ℕ → ℕ → Service → (JobRow → Bool) → (JobRow → JobRow) → Service → Type 0
Wrote device id s allowed f t =
    (row : JobRow) × (find id s.jobs ≡ some row)
    × (row.device_id ≡ device)
    × (allowed row ≡ true)
    × (find id t.jobs ≡ some (f row))

pub found-update :
    (id : ℕ) (f : JobRow → JobRow) (s : Service) (row : JobRow)
    → ((r : JobRow) → (f r).id ≡ r.id)
    → find id s.jobs ≡ some row
    → find id (update_job id f s.jobs) ≡ some (f row)
found-update id f s row keeps e = find-update_job id id f s.jobs keeps ∙ ground (arith, e)

pub claim_job-Wrote :
    (s : Service) (device id : ℕ) (job : Job)
    → (claim_job device id s).0 ≡ ok job
    → Wrote device id s
        (λ row. is_queued row.status || is_interrupted row.status)
        (claimed_row s.clock)
        (claim_job device id s).1
unfolding claim_job publish
claim_job-Wrote s device id job =
    let P : Result Job × Service → Type 0 = λ r.
      r.0 ≡ ok job
      → Wrote device id s (λ row. is_queued row.status || is_interrupted row.status)
          (claimed_row s.clock) r.1 in
    job_for_device_cases P s device id _ (λ e p. cc)
      λ row e own.
        require_cases P s _ job_invalid_state _ (λ p. cc)
          λ waiting.
            rw (set_job-bind id (claimed_row s.clock) _ s row (λ r. refl) e)
              λ _. (row, e, own, waiting, found-update id (claimed_row s.clock) s row (λ r. refl) e)

complete-Wrote :
    (s : Service) (device id : ℕ) (body : JobCompleteRequest) (job : WebJob)
    → (complete device id body s).0 ≡ ok job
    → Wrote device id s
        (λ row. is_reportable row.status)
        (completed_row s.clock body)
        (complete device id body s).1
unfolding complete publish forget_times
complete-Wrote s device id body job =
    let P : Result WebJob × Service → Type 0 = λ r.
      r.0 ≡ ok job
      → Wrote device id s (λ row. is_reportable row.status) (completed_row s.clock body) r.1 in
    job_for_device_cases P s device id _ (λ e p. cc)
      λ row e own.
        require_cases P s _ job_invalid_state _ (λ p. cc)
          λ reportable. rw (set_job-bind id (completed_row s.clock body) _ s row (λ r. refl) e) λ _.
            (
              row,
              e,
              own,
              reportable,
              found-update id (completed_row s.clock body) s row (λ r. refl) e,
            )

-- What a console is told about a job that it may not touch now.
abbrev pub refusal : ℕ → JobRow → ErrorCode
refusal device row = if row.device_id == device then job_invalid_state else forbidden

-- A job that was claimed is not given out again: as long as its row is the one that the claim left,
-- whatever becomes of the other jobs and the rest of the service, any console
-- that claims it is refused, its own with `JOB_INVALID_STATE` and any other with `FORBIDDEN`, at any
-- time, and nothing changes.
pub claim_job-exclusive :
    (s t : Service) (device other id : ℕ) (job : Job)
    → (claim_job device id s).0 ≡ ok job
    → find id t.jobs ≡ find id (claim_job device id s).1.jobs
    → claim_job other id t ≡ (err (if device == other then job_invalid_state else forbidden), t)
unfolding claim_job job_for_device require_job claimed_row require
claim_job-exclusive s t device other id job first same =
    let (row, _, own, _, there) = claim_job-Wrote s device id job first in
    let now : find id t.jobs ≡ some (claimed_row s.clock row) = same ∙ there in
    elim (Bool-cases (device == other)) [
      | inl hit ↦ rw (now, own, hit) refl
      | inr miss ↦ rw (now, own, miss) refl
    ]

completed-finished :
    (now : ℕ) (body : JobCompleteRequest) (row : JobRow)
    → is_finished (completed_row now body row).status ≡ true
unfolding completed_row
completed-finished now body row = elim (Bool-cases body.ok) [
  | inl good ↦ rw good refl
  | inr bad ↦ rw bad refl
]

refused-finished :
    (t : Service) (device id : ℕ) (row : JobRow) (body : JobProgressRequest)
    (result : JobCompleteRequest)
    → find id t.jobs ≡ some row
    → row.device_id ≡ device
    → is_finished row.status ≡ true
    → (claim_job device id t ≡ (err job_invalid_state, t))
      × (progress device id body t ≡ (err job_invalid_state, t))
      × (complete device id result t ≡ (err job_invalid_state, t))
unfolding claim_job progress complete job_for_device require_job require
refused-finished t device id row body result e own ended =
    let mine : (row.device_id == device) ≡ true = ground arith in
    let waiting : (is_queued row.status || is_interrupted row.status) ≡ false = ground arith in
    let reportable : (is_running row.status || is_interrupted row.status) ≡ false = ground arith in
    (rw (e, mine, waiting) refl, rw (e, mine, reportable) refl, rw (e, mine, reportable) refl)

missing :
    (t : Service) (device id : ℕ) (body : JobProgressRequest) (result : JobCompleteRequest)
    → find id t.jobs ≡ none
    → (claim_job device id t ≡ (err job_not_found, t))
      × (progress device id body t ≡ (err job_not_found, t))
      × (complete device id result t ≡ (err job_not_found, t))
unfolding claim_job progress complete job_for_device require_job
missing t device id body result e = (rw e refl, rw e refl, rw e refl)

-- A job ends once. Where the ids of the jobs are unique and the console of a job has completed it,
-- then whatever calls follow, its row stays the one that the completion wrote until it is purged,
-- and claiming it, reporting on it or completing it again is refused and changes nothing.
pub complete-final :
    (s : Service) (device id : ℕ) (result : JobCompleteRequest) (job : WebJob) (cs : List Call)
    (body : JobProgressRequest) (again : JobCompleteRequest)
    → IsNumbered s
    → (complete device id result s).0 ≡ ok job
    → let t = run (complete device id result s).1 cs in
      (e : ErrorCode) × ((((row : JobRow) × (find id s.jobs ≡ some row)
          × (find id t.jobs ≡ some (completed_row s.clock result row))
          × (e ≡ job_invalid_state)))
        ⊎ ((find id t.jobs ≡ none) × (e ≡ job_not_found)))
      × (claim_job device id t ≡ (err e, t))
      × (progress device id body t ≡ (err e, t))
      × (complete device id again t ≡ (err e, t))
complete-final s device id result job cs body again n returned =
    let (row, e, own, _, there) = complete-Wrote s device id result job returned in
    let u = (complete device id result s).1 in
    let t = run u cs in
    let ended = completed-finished s.clock result row in
    elim (run-finished u cs id (completed_row s.clock result row)
      (complete-Later device id result s n).numbers there ended) [
        | inl kept ↦
            let no =
              refused-finished t device id (completed_row s.clock result row) body again kept
                (unfold completed_row in own) ended in
            (job_invalid_state, inl (row, e, kept, refl), no.0, no.1, no.2)
        | inr gone ↦
            let no = missing t device id body again gone in
            (job_not_found, inr (gone, refl), no.0, no.1, no.2)
      ]
