-- ===== src/Device/Jobs/Creation.antt =====
-- The calls that add jobs to the queue of packages/server/src/device/service.ts: each leaves the
-- table numbered and lets its rows follow, and `createJobs` adds all of its jobs or none.
use nslibrary.Common.{
  ℕ, suc, ◌+◌, ◌≡◌, refl, ◌∙◌, sym, ok, err, some, List, [], ◌∷◌, ◌++◌, arith, ◌⊎◌, inl, inr,
  Option-cases, map, ErrorCode, Result, Action, find?, ◌==◌, append-nil, append_assoc, length,
  and_then, pure, ◌>>=◌, ◌>>◌,
}
use nslibrary.Shared.Types.{InstallTarget, JobSource, WebJob, web, switch, queued}
use nslibrary.Device.Rows.{JobRow, ContentMetaRow, FileRow}
use nslibrary.Device.Service.{Service, publish, log_append, to_web_job, to_device_job}
use nslibrary.Device.Jobs.{next_position}
use nslibrary.Device.Jobs.Table.{find, find-append_other, append-Ascending}
use nslibrary.Device.Jobs.Create.{
  new_job, file_of, insert_job, insert_all, transaction, rollback, announce, announce_all,
  create_jobs, create_job_from_device,
}
use nslibrary.Device.Jobs.Calls.{require_active_device_cases}
use nslibrary.Device.Jobs.History.{
  IsNumbered, Later, Later-refl, Later-trans, Later-same, Next-refl,
}

-- The service with one more job.
abbrev pub with_job : Service → JobRow → Service
with_job s row = record s { jobs = s.jobs ++ row ∷ []; next_job = suc s.next_job }

find_meta-id :
    (id : ℕ) (metas : List ContentMetaRow) (m : ContentMetaRow)
    → find? (λ (m : ContentMetaRow). m.id == id) metas ≡ some m
    → m.id ≡ id
find_meta-id id [] m e = cc
find_meta-id id (x ∷ metas) m e = ground (arith, find_meta-id id metas m)

-- `insert_job` throws and changes nothing, or adds a row for a title and a file of the library.
pub insert_job_cases :
    (P : Result WebJob × Service → Type 0) (device meta_id : ℕ) (target : InstallTarget)
    (position : ℕ) (source : JobSource) (s : Service)
    → ((e : ErrorCode) → P (err e, s))
    → ((m : ContentMetaRow) (file : FileRow)
        → m.id ≡ meta_id
        → file_of s m ≡ some file
        → let row = new_job s device m file target position source in
          P (ok (to_web_job row), with_job s row))
    → P (insert_job device meta_id target position source s)
unfolding insert_job
insert_job_cases P device meta_id target position source s throws goes =
    elim (Option-cases (find? (λ (m : ContentMetaRow). m.id == meta_id) s.metas)) [
      | inl e ↦ rw e (throws _)
      | inr (m, e) ↦ elim (Option-cases (file_of s m)) [
        | inl f ↦ rw (e, f) (throws _)
        | inr (file, f) ↦ rw (e, f) (goes m file (find_meta-id meta_id s.metas m e) f)
      ]
    ]

with_job-Later :
    (s : Service) (row : JobRow) → IsNumbered s → row.id ≡ s.next_job → Later s (with_job s row)
with_job-Later s row n e = record {
  numbers = append-Ascending 0 s.next_job s.jobs row e n;
  counter = omega arith;
  at = λ id h. rw (find-append_other id s.jobs row (ground arith)) (Next-refl (find id s.jobs));
}

insert_job-Later :
    (device meta_id : ℕ) (target : InstallTarget) (position : ℕ) (source : JobSource) (s : Service)
    → IsNumbered s
    → Later s (insert_job device meta_id target position source s).1
insert_job-Later device meta_id target position source s n =
    insert_job_cases (λ r. Later s r.1) device meta_id target position source s
      (λ e. Later-refl s n) (λ m file own f. with_job-Later s _ n (unfold new_job in refl))

-- `announce` writes no job.
announce-Later :
    (device : ℕ) (job : WebJob) (s : Service) → IsNumbered s → Later s (announce device job s).1
unfolding announce publish log_append
announce-Later device job s n = Later-same s _ n refl refl

pub announce_all-jobs :
    (device : ℕ) (jobs : List WebJob) (s : Service)
    → ((announce_all device jobs s).1.jobs ≡ s.jobs)
      × ((announce_all device jobs s).1.next_job ≡ s.next_job)
      × ((announce_all device jobs s).0 ≡ ok tt)
unfolding announce_all announce publish log_append
announce_all-jobs device [] s = (refl, refl, refl)
announce_all-jobs device (job ∷ jobs) s = announce_all-jobs device jobs (announce device job s).1

pub create_job_from_device-Later :
    (device meta_id : ℕ) (target : InstallTarget) (s : Service)
    → IsNumbered s
    → Later s (create_job_from_device device meta_id target s).1
unfolding create_job_from_device announce publish log_append
create_job_from_device-Later device meta_id target s n =
    insert_job_cases
      (λ r. Later s (and_then r (λ job. announce device job >> pure (to_device_job job))).1) device
      meta_id target (next_position device s.jobs) switch s (λ e. Later-refl s n)
      (λ m file own f.
        let row = new_job s device m file target (next_position device s.jobs) switch in
        let added = with_job-Later s row n (unfold new_job in refl) in
        Later-trans s (with_job s row) _ added
          (Later-same (with_job s row) _ added.numbers refl refl))

-- The rows that `createJobs` adds for a list of titles: one for each, in order, for the console, in
-- the queue, with ids from `id` on and positions from `position` on.
abbrev pub IsBatch : ℕ → ℕ → ℕ → List ℕ → List JobRow → Type 0
IsBatch device id position [] [] = Unit {0}
IsBatch device id position [] (row ∷ rows) = ⊥
IsBatch device id position (m ∷ ms) [] = ⊥
IsBatch device id position (m ∷ ms) (row ∷ rows) =
    (row.device_id ≡ device)
    × (row.id ≡ id)
    × (row.position ≡ position)
    × (row.content_meta_id ≡ m)
    × (row.status ≡ queued)
    × IsBatch device (suc id) (position + 1) ms rows

abbrev pub with_jobs : Service → List JobRow → Service
with_jobs s rows = record s { jobs = s.jobs ++ rows; next_job = s.next_job + length rows }

abbrev pub Fails : {A : Type 0} → Result A → Type 0
Fails r = (e : ErrorCode) × (r ≡ err e)

and_then-err :
    {A B : Type 0} (m : Result A × Service) (k : A → Action Service B) (e : ErrorCode)
    → m.0 ≡ err e
    → (and_then m k).0 ≡ err e
and_then-err (ok a, s) k e h = cc
and_then-err (err c, s) k e h = cc

pub insert_all-Outcome :
    (device : ℕ) (ids : List ℕ) (target : InstallTarget) (position : ℕ) (s : Service)
    → Fails (insert_all device ids target position s).0
      ⊎ ((rows : List JobRow) × (insert_all device ids target position s
            ≡ (ok (map to_web_job rows), with_jobs s rows))
          × IsBatch device s.next_job position ids rows)
unfolding insert_all
insert_all-Outcome device [] target position s = inr ([], ground (arith, append-nil s.jobs), tt)
insert_all-Outcome device (meta_id ∷ ids) target position s =
    insert_job_cases
      (λ r.
        let all =
          and_then r
            (λ job. insert_all device ids target (position + 1) >>= λ jobs. pure (job ∷ jobs)) in
        Fails all.0
        ⊎ ((rows : List JobRow) × (all ≡ (ok (map to_web_job rows), with_jobs s rows))
            × IsBatch device s.next_job position (meta_id ∷ ids) rows))
      device meta_id target position web s (λ e. inl (e, refl))
      λ m file own f.
        let row = new_job s device m file target position web in
        elim (insert_all-Outcome device ids target (position + 1) (with_job s row)) [
          | inl (e, fails) ↦ inl (e, and_then-err _ _ e fails)
          | inr (rows, returns, batch) ↦ inr (
            row ∷ rows,
            rw returns (more row rows),
            unfold new_job in (refl, refl, refl, own, refl, batch),
          )
        ]
  where
    more :
        (row : JobRow) (rows : List JobRow)
        → ◌≡◌ {A = Result (List WebJob) × Service}
            (ok (to_web_job row ∷ map to_web_job rows), with_jobs (with_job s row) rows)
            (ok (map to_web_job (row ∷ rows)), with_jobs s (row ∷ rows))
    more row rows = ground (arith, append_assoc s.jobs (row ∷ []) rows)

-- The two ways in which `createJobs` ends: it threw and the service is as it was, or it added a batch
-- of rows and returned them.
abbrev pub Outcome : ℕ → List ℕ → Service → Result (List WebJob) × Service → Type 0
Outcome device ids s r =
    (Fails r.0 × (r.1 ≡ s))
    ⊎ ((rows : List JobRow) × (r.0 ≡ ok (map to_web_job rows))
        × (r.1.jobs ≡ s.jobs ++ rows)
        × (r.1.next_job ≡ s.next_job + length rows)
        × IsBatch device s.next_job (next_position device s.jobs) ids rows)

rollback-err :
    {A : Type 0} (s : Service) (m : Result A × Service) (e : ErrorCode)
    → m.0 ≡ err e
    → rollback s m ≡ (err e, s)
rollback-err s (ok a, t) e h = cc
rollback-err s (err c, t) e h = ground arith

announced-Outcome :
    (device : ℕ) (ids : List ℕ) (s t : Service) (jobs : List WebJob)
    → Outcome device ids s (ok jobs, t)
    → Outcome device ids s (and_then (announce_all device jobs t) (λ _. pure jobs))
announced-Outcome device ids s t jobs (inl ((e, h), same)) = cc
announced-Outcome device ids s t jobs (inr (rows, returns, table, counter, batch)) =
    let (j, n, r) = announce_all-jobs device jobs t in
    inr (rows, rw r returns, rw r (j ∙ table), rw r (n ∙ counter), batch)

-- `createJobs` ends in one of these two ways, on any table.
pub create_jobs-Outcome :
    (device : ℕ) (ids : List ℕ) (target : InstallTarget) (s : Service)
    → Outcome device ids s (create_jobs device ids target s)
unfolding create_jobs transaction
create_jobs-Outcome device ids target s =
    require_active_device_cases (Outcome device ids s) s device _ (λ e. inl ((e, refl), refl))
      λ row found active.
        elim (insert_all-Outcome device ids target (next_position device s.jobs) s) [
          | inl (e, fails) ↦
              rw
                (rollback-err s (insert_all device ids target (next_position device s.jobs) s) e
                  fails)
                (inl ((e, refl), refl))
          | inr (rows, returns, batch) ↦ rw returns (
              announced-Outcome device ids s (with_jobs s rows) (map to_web_job rows)
                (inr (rows, refl, refl, refl, batch)))
        ]

batch-Later :
    (device position : ℕ) (ids : List ℕ) (s : Service) (rows : List JobRow)
    → IsNumbered s
    → IsBatch device s.next_job position ids rows
    → Later s (with_jobs s rows)
batch-Later device position [] s [] n b = Later-same s _ n (append-nil s.jobs) (omega arith)
batch-Later device position [] s (row ∷ rows) n b = absurd b
batch-Later device position (m ∷ ms) s [] n b = absurd b
batch-Later device position (m ∷ ms) s (row ∷ rows) n (_, id, _, _, _, b) =
    let added = with_job-Later s row n id in
    let rest = batch-Later device (position + 1) ms (with_job s row) rows added.numbers b in
    Later-trans s (with_job s row) _ added (
      Later-trans (with_job s row) _ _ rest
        (Later-same _ _ rest.numbers (sym (append_assoc s.jobs (row ∷ []) rows)) (omega arith)))

pub create_jobs-Later :
    (device : ℕ) (ids : List ℕ) (target : InstallTarget) (s : Service)
    → IsNumbered s
    → Later s (create_jobs device ids target s).1
create_jobs-Later device ids target s n = elim (create_jobs-Outcome device ids target s) [
  | inl (fails, same) ↦ rw same (Later-refl s n)
  | inr (rows, returns, table, counter, batch) ↦
      let added = batch-Later device _ ids s rows n batch in
      Later-trans s (with_jobs s rows) _ added
        (Later-same (with_jobs s rows) _ added.numbers table counter)
]
