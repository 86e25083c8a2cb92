-- ===== src/Device/Jobs/Returns.antt =====
-- That `createJobs` of packages/server/src/device/service.ts returns when it can, and what an
-- interrupted job that is claimed again keeps.
mod Runs
use nslibrary.Common.{
  ℕ, ◌+◌, ◌≡◌, refl, ap, subst, ◌∙◌, Bool, true, false, Option, none, some, List, [], ◌∷◌, arith,
  All, length, map, find?, is_some, ◌==◌, ok, err, String, job_invalid_state, Result, inl, inr,
  Bool-cases, ◌>>=◌, ◌>>◌, and_then, pure, Action, ◌++◌, suc,
}
use nslibrary.Shared.Types.{InstallTarget, Job, WebJob, JobSource, web}
use nslibrary.Device.Rows.{DeviceRow, ContentMetaRow, FileRow, JobRow, RootRow}
use nslibrary.Device.Service.{
  Service, publish, device_with, require_active_device, require_device_row, to_web_job,
}
use nslibrary.Device.Jobs.{next_position, is_running, is_interrupted}
use nslibrary.Device.Jobs.Table.{find}
use nslibrary.Device.Jobs.Report.{
  claim_job, progress, claimed_row, progressed_row, report, note_progress, too_soon,
  JobProgressRequest,
}
use nslibrary.Device.Jobs.Calls.{job_for_device_cases, require_cases, set_job-bind}
use nslibrary.Device.Jobs.Access.{claim_job-Wrote, found-update}
use nslibrary.Device.Jobs.Create.{
  create_jobs, insert_all, insert_job, new_job, add_row, file_of, transaction, announce_all,
  rollback,
}
use nslibrary.Device.Jobs.Creation.{announce_all-jobs}

-- The title with an id is in the library, and so is its file, in a folder that is enabled.
abbrev pub IsAvailable : Service → ℕ → Type 0
IsAvailable s id =
    (m : ContentMetaRow) × (file : FileRow) × (root : RootRow) × (find?
        (λ (r : ContentMetaRow). r.id == id) s.metas
      ≡ some m)
    × (find? (λ (f : FileRow). f.id == m.file_id) s.files ≡ some file)
    × (file.missing_since ≡ none)
    × (find? (λ (r : RootRow). r.id == file.root_id) s.roots ≡ some root)
    × (root.enabled ≡ true)

there-file_of :
    (s : Service) (m : ContentMetaRow) (file : FileRow) (root : RootRow)
    → find? (λ (f : FileRow). f.id == m.file_id) s.files ≡ some file
    → file.missing_since ≡ none
    → find? (λ (r : RootRow). r.id == file.root_id) s.roots ≡ some root
    → root.enabled ≡ true
    → file_of s m ≡ some file
unfolding file_of
there-file_of s m file root found here folder enabled =
    rw (found, here, folder, enabled, file_of) refl

find_meta-same :
    (id : ℕ) (metas : List ContentMetaRow) (m : ContentMetaRow)
    → find? (λ (r : ContentMetaRow). r.id == id) metas ≡ some m
    → m.id ≡ id
find_meta-same id [] m e = cc
find_meta-same id (r ∷ metas) m e = ground (arith, find_meta-same id metas m)

-- The titles of jobs.
abbrev pub titles : List WebJob → List ℕ
titles jobs = map (λ (job : WebJob). job.content_meta_id) jobs

then_ok :
    {A B : Type 0} (r : Result A × Service) (k : A → Action Service B) (a : A)
    → r.0 ≡ ok a
    → (and_then r k).0 ≡ (k a r.1).0
then_ok (ok b, t) k a e = let same : b ≡ a = ground (arith, e) in ap (λ x. (k x t).0) same
then_ok (err c, t) k a e = cc

rollback-ok :
    {A : Type 0} (s : Service) (r : Result A × Service) (a : A)
    → r.0 ≡ ok a
    → (rollback s r).0 ≡ ok a
rollback-ok s (ok b, t) a e = e
rollback-ok s (err c, t) a e = cc

insert_all-returns :
    (device : ℕ) (ids : List ℕ) (target : InstallTarget) (position : ℕ) (s : Service)
    → All (IsAvailable s) ids
    → (jobs : List WebJob) × ((insert_all device ids target position s).0 ≡ ok jobs)
      × (titles jobs ≡ ids)
unfolding insert_all insert_job add_row new_job to_web_job
insert_all-returns device [] target position s h = ([], refl, refl)
insert_all-returns device (id ∷ ids) target position s
      ((m, file, root, e, found, here, folder, enabled), h) =
    let f = there-file_of s m file root found here folder enabled in
    let row = new_job s device m file target position web in
    let (jobs, returns, size) =
      insert_all-returns device ids target (position + 1)
        (record s { jobs = s.jobs ++ row ∷ []; next_job = suc s.next_job }) h in
    (
      to_web_job row ∷ jobs,
      rw (e, f)
          (then_ok
            (insert_all device ids target (position + 1)
              (record s { jobs = s.jobs ++ row ∷ []; next_job = suc s.next_job }))
            (λ jobs'. pure (to_web_job row ∷ jobs')) jobs returns),
      ap (◌∷◌ m.id) size ∙ ap (λ (x : ℕ). x ∷ ids) (find_meta-same id s.metas m e),
    )

announced :
    (device : ℕ) (jobs : List WebJob) (t : Service)
    → ((announce_all device jobs >> pure jobs) t).0 ≡ ok jobs
announced device jobs t =
    then_ok (announce_all device jobs t) (λ _. pure jobs) tt (announce_all-jobs device jobs t).2

-- For an active console and titles that are all in the library, each with a file that is not missing
-- and a folder that is enabled, `createJobs` returns: one job for each title, in the order of the
-- request.
pub create_jobs-returns :
    (device : ℕ) (ids : List ℕ) (target : InstallTarget) (s : Service) (console : DeviceRow)
    → find? (device_with device) s.devices ≡ some console
    → is_some console.revoked_at ≡ false
    → All (IsAvailable s) ids
    → (jobs : List WebJob) × ((create_jobs device ids target s).0 ≡ ok jobs) × (titles jobs ≡ ids)
unfolding create_jobs require_active_device require_device_row transaction
create_jobs-returns device ids target s console e active h =
    let (jobs, returns, size) =
      insert_all-returns device ids target (next_position device s.jobs) s h in
    let made = insert_all device ids target (next_position device s.jobs) s in
    (
      jobs,
      rw (e, active)
          (then_ok (rollback s made) (λ all. announce_all device all >> pure all) jobs
              (rollback-ok s made jobs returns)
            ∙ announced device jobs (rollback s made).1),
      size,
    )

-- A job that is claimed or running and carries an error.
abbrev pub Carries : ℕ → String → Service → Type 0
Carries id text t =
    (row : JobRow) × (find id t.jobs ≡ some row)
    × (is_running row.status ≡ true)
    × (row.error ≡ some text)

report-Carries :
    (id : ℕ) (text : String) (row : JobRow) (body : JobProgressRequest) (t : Service)
    → find id t.jobs ≡ some row
    → is_running row.status ≡ true
    → row.error ≡ some text
    → Carries id text (report id row body t).1
unfolding report publish progressed_row
report-Carries id text row body t e going wrong =
    let new : is_interrupted row.status ≡ false = ground (arith, going) in
    rw (set_job-bind id (progressed_row t.clock body _) _ (note_progress id t).1 row (λ r. refl) e)
      (
        progressed_row t.clock body (is_interrupted row.status) row,
        found-update id (progressed_row t.clock body (is_interrupted row.status)) t row (λ r. refl)
            e,
        refl,
        rw new wrong,
      )

progress-Carries :
    (device id : ℕ) (text : String) (body : JobProgressRequest) (t : Service)
    → Carries id text t
    → Carries id text (progress device id body t).1
unfolding progress
progress-Carries device id text body t (row, e, going, wrong) =
    let P : Result Unit × Service → Type 0 = λ r. Carries id text r.1 in
    let same : Carries id text t = (row, e, going, wrong) in
    job_for_device_cases P t device id _ (λ c. same)
      λ r there own. require_cases P t _ job_invalid_state _ same λ reportable.
        let one : row ≡ r = ground (arith, e, there) in
        elim (Bool-cases (too_soon t r body)) [
          | inl soon ↦ rw soon same
          | inr due ↦ rw due (
              report-Carries id text r body t there
                (subst (λ (x : JobRow). is_running x.status ≡ true) one going)
                (subst (λ (x : JobRow). x.error ≡ some text) one wrong))
        ]

-- A console claims a job that carries an error, as one that was interrupted does, and reports on it:
-- the job is claimed or running again, and still carries the error.
pub progress-claim_job :
    (device id : ℕ) (s : Service) (job : Job) (row : JobRow) (text : String)
    (body : JobProgressRequest)
    → (claim_job device id s).0 ≡ ok job
    → find id s.jobs ≡ some row
    → row.error ≡ some text
    → Carries id text (progress device id body (claim_job device id s).1).1
unfolding claimed_row
progress-claim_job device id s job row text body returned e wrong =
    let (old, e', own, waiting, there) = claim_job-Wrote s device id job returned in
    let same : row ≡ old = ground (arith, e, e') in
    progress-Carries device id text body (claim_job device id s).1
      (claimed_row s.clock old, there, refl, subst (λ (x : JobRow). x.error ≡ some text) same wrong)
