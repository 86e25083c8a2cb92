-- ===== src/Device/Jobs/Reports.antt =====
-- The calls of a console on its jobs (packages/server/src/device/service.ts): each leaves the table
-- numbered and lets its rows follow.
use nslibrary.Common.{
  ℕ, suc, ◌≡◌, ◌≤◌, ◌∙◌, refl, ok, All, Bool, true, false, Option, some, List, [], ◌∷◌, arith, inl,
  inr, String, Bool-cases, job_invalid_state, ◌==◌,
}
use nslibrary.Device.Rows.{JobRow}
use nslibrary.Device.Service.{Service, publish, update_job}
use nslibrary.Device.Jobs.{is_finished, is_reportable}
use nslibrary.Device.Jobs.Table.{find, find-update_job, Ascending}
use nslibrary.Device.Jobs.Report.{
  JobProgressRequest, JobCompleteRequest, claim_job, progress, complete, interrupt_active_jobs,
  interrupt_stale_jobs, interrupt_job, interrupt_all, claimed_row, completed_row, progressed_row,
  interrupted_row, report, forget_times, note_progress, too_soon, ids_of, is_stale,
}
use nslibrary.Device.Jobs.Calls.{require_cases, job_for_device_cases, set_job-bind}
use nslibrary.Device.Jobs.History.{
  Follows-open, IsNumbered, Later, Later-refl, Later-trans, Later-update,
}

pub claim_job-Later :
    (device id : ℕ) (s : Service) → IsNumbered s → Later s (claim_job device id s).1
unfolding claim_job publish
claim_job-Later device id s n =
    job_for_device_cases (λ r. Later s r.1) s device id _ (λ e. Later-refl s n)
      λ row e own.
        require_cases (λ r. Later s r.1) s _ job_invalid_state _ (Later-refl s n)
          λ open_. rw (set_job-bind id (claimed_row s.clock) _ s row (λ r. refl) e) (
            Later-update s _ id (claimed_row s.clock) row n (λ r. refl) e
              (Follows-open row _ (ground arith) (ground arith)) refl refl)

report-Later :
    (id : ℕ) (row : JobRow) (body : JobProgressRequest) (s : Service)
    → IsNumbered s
    → find id s.jobs ≡ some row
    → is_reportable row.status ≡ true
    → Later s (report id row body s).1
unfolding report publish progressed_row
report-Later id row body s n e open_ =
    rw (set_job-bind id (progressed_row s.clock body _) _ (note_progress id s).1 row (λ r. refl) e)
      (Later-update s _ id (progressed_row s.clock body _) row n (λ r. refl) e
        (Follows-open row _ (ground arith) (ground arith)) refl refl)

pub progress-Later :
    (device id : ℕ) (body : JobProgressRequest) (s : Service)
    → IsNumbered s
    → Later s (progress device id body s).1
unfolding progress
progress-Later device id body s n =
    job_for_device_cases (λ r. Later s r.1) s device id _ (λ e. Later-refl s n)
      λ row e own.
        require_cases (λ r. Later s r.1) s _ job_invalid_state _ (Later-refl s n)
          λ open_. elim (Bool-cases (too_soon s row body)) [
            | inl soon ↦ rw soon (Later-refl s n)
            | inr due ↦ rw due (report-Later id row body s n e open_)
          ]

pub complete-Later :
    (device id : ℕ) (body : JobCompleteRequest) (s : Service)
    → IsNumbered s
    → Later s (complete device id body s).1
unfolding complete publish forget_times
complete-Later device id body s n =
    job_for_device_cases (λ r. Later s r.1) s device id _ (λ e. Later-refl s n)
      λ row e own.
        require_cases (λ r. Later s r.1) s _ job_invalid_state _ (Later-refl s n)
          λ open_. rw (set_job-bind id (completed_row s.clock body) _ s row (λ r. refl) e) (
            Later-update s _ id (completed_row s.clock body) row n (λ r. refl) e
              (Follows-open row _ (ground arith) (ground arith)) refl refl)

-- A job that is in the table and has not ended.
abbrev pub IsOpen : Service → ℕ → Type 0
IsOpen s id = (row : JobRow) × (find id s.jobs ≡ some row) × (is_finished row.status ≡ false)

-- `interrupt_job` writes the row, and tells the web pages.
pub interrupt_job-jobs :
    (id : ℕ) (message : String) (s : Service)
    → IsOpen s id
    → ((interrupt_job id message s).1.jobs ≡ update_job id (interrupted_row s.clock message) s.jobs)
      × ((interrupt_job id message s).1.next_job ≡ s.next_job)
      × ((interrupt_job id message s).1.clock ≡ s.clock)
      × ((interrupt_job id message s).0 ≡ ok tt)
unfolding interrupt_job publish
interrupt_job-jobs id message s (row, e, open_) =
    rw (set_job-bind id (interrupted_row s.clock message) _ s row (λ r. refl) e)
      (refl, refl, refl, refl)

interrupt_job-Later :
    (id : ℕ) (message : String) (s : Service)
    → IsNumbered s
    → IsOpen s id
    → Later s (interrupt_job id message s).1
unfolding interrupted_row
interrupt_job-Later id message s n (row, e, open_) =
    let (jobs, counter, _, _) = interrupt_job-jobs id message s (row, e, open_) in
    Later-update s _ id (interrupted_row s.clock message) row n (λ r. refl) e
      (Follows-open row _ (ground arith) open_) jobs counter

pub interrupt_job-IsOpen :
    (id j : ℕ) (message : String) (s : Service)
    → IsOpen s id
    → IsOpen s j
    → IsOpen (interrupt_job id message s).1 j
unfolding interrupted_row
interrupt_job-IsOpen id j message s o (row, e, open_) =
    let (jobs, _, _, _) = interrupt_job-jobs id message s o in
    elim (Bool-cases (id == j)) [
      | inl hit ↦ (
        interrupted_row s.clock message row,
        rw (
          jobs,
          find-update_job id j (interrupted_row s.clock message) s.jobs (λ r. refl),
          hit,
          e,
        ),
        refl,
      )
      | inr miss ↦ (
        row,
        rw (jobs, find-update_job id j (interrupted_row s.clock message) s.jobs (λ r. refl), miss)
            e,
        open_,
      )
    ]

pub All-interrupt_job :
    (id : ℕ) (message : String) (s : Service) (ids : List ℕ)
    → IsOpen s id
    → All (IsOpen s) ids
    → All (IsOpen (interrupt_job id message s).1) ids
All-interrupt_job id message s [] o h = tt
All-interrupt_job id message s (j ∷ ids) o h =
    (interrupt_job-IsOpen id j message s o h.0, All-interrupt_job id message s ids o h.1)

-- The loop interrupts one job after the other.
pub interrupt_all-cons :
    (id : ℕ) (ids : List ℕ) (message : String) (s : Service)
    → IsOpen s id
    → interrupt_all (id ∷ ids) message s ≡ interrupt_all ids message (interrupt_job id message s).1
unfolding interrupt_all
interrupt_all-cons id ids message s o =
    let (_, _, _, returns) = interrupt_job-jobs id message s o in rw returns

pub interrupt_all-Later :
    (ids : List ℕ) (message : String) (s : Service)
    → IsNumbered s
    → All (IsOpen s) ids
    → Later s (interrupt_all ids message s).1
interrupt_all-Later [] message s n h = unfold interrupt_all in Later-refl s n
interrupt_all-Later (id ∷ ids) message s n h =
    let first = interrupt_job-Later id message s n h.0 in
    rw (interrupt_all-cons id ids message s h.0) (
      Later-trans s _ _ first (
        interrupt_all-Later ids message (interrupt_job id message s).1 first.numbers
          (All-interrupt_job id message s ids h.0 h.1)))

-- The ids that a `SELECT … WHERE` finds, if it asks for jobs that have not ended.
pub ids_of-IsOpen :
    (p : JobRow → Bool) (s : Service) (rows : List JobRow) (lo : ℕ)
    → ((row : JobRow) → p row ≡ true → is_finished row.status ≡ false)
    → Ascending lo s.next_job rows
    → ((id : ℕ) → lo ≤ id → find id s.jobs ≡ find id rows)
    → All (IsOpen s) (ids_of p rows)
unfolding ids_of
ids_of-IsOpen p s [] lo h n same = tt
ids_of-IsOpen p s (row ∷ rows) lo h n same =
    let rest =
      ids_of-IsOpen p s rows (suc row.id) h n.1
        (λ id k. same id (omega (arith, n.0)) ∙ ground arith) in
    elim (Bool-cases (p row)) [
      | inl kept ↦ rw kept ((row, same row.id n.0 ∙ ground arith, h row kept), rest)
      | inr gone ↦ rw gone rest
    ]

pub interrupt_active_jobs-Later :
    (device : ℕ) (message : String) (s : Service)
    → IsNumbered s
    → Later s (interrupt_active_jobs device message s).1
unfolding interrupt_active_jobs
interrupt_active_jobs-Later device message s n =
    interrupt_all-Later _ message s n
      (ids_of-IsOpen _ s s.jobs 0 (λ row e. ground arith) n (λ id h. refl))

pub interrupt_all-returns :
    (ids : List ℕ) (message : String) (s : Service)
    → All (IsOpen s) ids
    → (interrupt_all ids message s).0 ≡ ok tt
interrupt_all-returns [] message s h = unfold interrupt_all in refl
interrupt_all-returns (id ∷ ids) message s h = rw (interrupt_all-cons id ids message s h.0) (
    interrupt_all-returns ids message (interrupt_job id message s).1
      (All-interrupt_job id message s ids h.0 h.1))

pub interrupt_stale_jobs-Later :
    (max_idle_ms : ℕ) (device : Option ℕ) (s : Service)
    → IsNumbered s
    → Later s (interrupt_stale_jobs max_idle_ms device s).1
unfolding interrupt_stale_jobs
interrupt_stale_jobs-Later max_idle_ms device s n =
    let p = is_stale s.clock max_idle_ms device in
    let open_ = ids_of-IsOpen p s s.jobs 0 (λ row e. ground arith) n (λ id h. refl) in
    rw (interrupt_all-returns (ids_of p s.jobs) "The Switch stopped reporting progress" s open_)
      (interrupt_all-Later (ids_of p s.jobs) _ s n open_)
