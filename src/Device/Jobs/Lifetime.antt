-- ===== src/Device/Jobs/Lifetime.antt =====
-- The life of an install job of packages/server/src/device/service.ts, over any calls.
use nslibrary.Common.{
  ℕ, ◌<◌, ◌≤◌, ◌≡◌, refl, ◌∙◌, ap, suc, subst, Bool-cases, Option-cases, ◌==◌, true, none, some,
  List, [], ◌∷◌, arith, ◌⊎◌, inl, inr,
}
use nslibrary.Device.Rows.{JobRow}
use nslibrary.Device.Service.{Service}
use nslibrary.Device.Jobs.{is_finished}
use nslibrary.Device.Jobs.Table.{find, Ascending, Ascending-le}
use nslibrary.Device.Jobs.Calls.{
  Call, creates, creates_from_device, claims, progresses, completes, interrupts_active,
  interrupts_stale, resumes, cancels, reorders, purges, clock_is, step, run,
}
use nslibrary.Device.Jobs.History.{
  IsSame, Follows, Next, IsNumbered, Later, Later-refl, Later-trans, Later-same,
}
use nslibrary.Device.Jobs.Reports.{
  claim_job-Later, progress-Later, complete-Later, interrupt_active_jobs-Later,
  interrupt_stale_jobs-Later,
}
use nslibrary.Device.Jobs.Management.{
  resume_job-Later, cancel_job-Later, reorder_jobs-Later, purge_finished_jobs-Later,
}
use nslibrary.Device.Jobs.Creation.{create_jobs-Later, create_job_from_device-Later}

step-Later : (s : Service) (c : Call) → IsNumbered s → Later s (step s c)
unfolding step
step-Later s (creates device ids target) n = create_jobs-Later device ids target s n
step-Later s (creates_from_device device id target) n =
    create_job_from_device-Later device id target s n
step-Later s (claims device id) n = claim_job-Later device id s n
step-Later s (progresses device id body) n = progress-Later device id body s n
step-Later s (completes device id body) n = complete-Later device id body s n
step-Later s (interrupts_active device message) n = interrupt_active_jobs-Later device message s n
step-Later s (interrupts_stale max_idle_ms device) n =
    interrupt_stale_jobs-Later max_idle_ms device s n
step-Later s (resumes id) n = resume_job-Later id s n
step-Later s (cancels id) n = cancel_job-Later id s n
step-Later s (reorders device ids) n = reorder_jobs-Later device ids s n
step-Later s (purges max_age_ms) n = purge_finished_jobs-Later max_age_ms s n
step-Later s (clock_is now) n = Later-same s _ n refl refl

run-Later : (s : Service) (cs : List Call) → IsNumbered s → Later s (run s cs)
unfolding run
run-Later s [] n = Later-refl s n
run-Later s (c ∷ cs) n =
    let first = step-Later s c n in
    Later-trans s (step s c) _ first (run-Later (step s c) cs first.numbers)

-- Where the ids of the jobs rise along the table and are below the next one to be handed out, this
-- stays so whatever calls are made, and the next one never falls: an id is given to one job only.
pub run-IsNumbered :
    (s : Service) (cs : List Call)
    → IsNumbered s
    → IsNumbered (run s cs) × (s.next_job ≤ (run s cs).next_job)
run-IsNumbered s cs n = let l = run-Later s cs n in (l.numbers, l.counter)

found-Next :
    (id : ℕ) (s t : Service) (row : JobRow)
    → Later s t
    → id < s.next_job
    → find id s.jobs ≡ some row
    → Next (some row) (find id t.jobs)
found-Next id s t row l h e = rw e at (l.at id h)

find-lt :
    (id lo hi : ℕ) (rows : List JobRow) (row : JobRow)
    → Ascending lo hi rows
    → find id rows ≡ some row
    → id < hi
find-lt id lo hi [] row n e = cc
find-lt id lo hi (x ∷ rows) row n e = elim (Bool-cases (x.id == id)) [
  | inl hit ↦ let top : suc x.id ≤ hi = Ascending-le (suc x.id) hi rows n.1 in ground arith
  | inr miss ↦ find-lt id (suc x.id) hi rows row n.1 (ground arith)
]

-- Where the ids of the jobs are unique, a job that has ended (done, failed or cancelled) is the same
-- row after any calls, unless it was purged: no call reopens it or changes a column of it.
pub run-finished :
    (s : Service) (cs : List Call) (id : ℕ) (row : JobRow)
    → IsNumbered s
    → find id s.jobs ≡ some row
    → is_finished row.status ≡ true
    → (find id (run s cs).jobs ≡ some row) ⊎ (find id (run s cs).jobs ≡ none)
run-finished s cs id row n e f =
    let next =
      found-Next id s (run s cs) row (run-Later s cs n) (find-lt id 0 s.next_job s.jobs row n e)
        e in
    elim (Option-cases (find id (run s cs).jobs)) [
      | inl gone ↦ inr gone
      | inr (b, there) ↦
          let follows : Follows row b = subst (Next (some row)) there next in
          inl (there ∙ ap some (follows.frozen f))
    ]

-- Where the ids of the jobs are unique, a job that is still there after any calls is for the console,
-- title, file and target that it was made for.
pub run-IsSame :
    (s : Service) (cs : List Call) (id : ℕ) (a b : JobRow)
    → IsNumbered s
    → find id s.jobs ≡ some a
    → find id (run s cs).jobs ≡ some b
    → IsSame a b
run-IsSame s cs id a b n e f =
    let next =
      found-Next id s (run s cs) a (run-Later s cs n) (find-lt id 0 s.next_job s.jobs a n e) e in
    let follows : Follows a b = subst (Next (some a)) f next in follows.same
