-- ===== src/Device/Jobs/Places.antt =====
-- The ids and the places that `createJobs` of packages/server/src/device/service.ts gives.
use nslibrary.Common.{
  any, max, filter-same, Bool-cases, leb, ap, ℕ, suc, ◌+◌, ◌≤◌, ◌<◌, ◌≡◌, refl, ok, List, [], ◌∷◌,
  ◌++◌, arith, ◌⊎◌, inl, inr, map, All, Result, length, Bool, true, false, ◌&&◌, ◌==◌, filter,
}
use nslibrary.Shared.Types.{InstallTarget, WebJob, JobStatus, is_active_job_status}
use nslibrary.Device.Rows.{JobRow}
use nslibrary.Device.Service.{Service, to_web_job}
use nslibrary.Device.Jobs.{next_position, max_position, holds_place}
use nslibrary.Device.Jobs.Table.{Ascending, Ascending-le}
use nslibrary.Device.Jobs.Create.{create_jobs}
use nslibrary.Device.Jobs.History.{IsNumbered}
use nslibrary.Device.Jobs.Creation.{Fails, IsBatch, create_jobs-Outcome}

-- A job that waits, that the console has taken over, or that it installs.
abbrev pub in_queue : JobStatus → Bool
in_queue JobStatus.queued = true
in_queue JobStatus.claimed = true
in_queue JobStatus.running = true
in_queue JobStatus.done = false
in_queue JobStatus.failed = false
in_queue JobStatus.cancelled = false
in_queue JobStatus.interrupted = false

in_queue-same : (status : JobStatus) → is_active_job_status status ≡ in_queue status
unfolding is_active_job_status
in_queue-same JobStatus.queued = refl
in_queue-same JobStatus.claimed = refl
in_queue-same JobStatus.running = refl
in_queue-same JobStatus.done = refl
in_queue-same JobStatus.failed = refl
in_queue-same JobStatus.cancelled = refl
in_queue-same JobStatus.interrupted = refl

abbrev pub waits_for : ℕ → JobRow → Bool
waits_for device row = (row.device_id == device) && in_queue row.status

-- The places in the queue that jobs of a console have.
abbrev pub places : ℕ → List JobRow → List ℕ
places device rows = map (λ (row : JobRow). row.position) (filter (waits_for device) rows)

-- A place behind all that are taken, and next to the last of them or the first of all.
abbrev pub IsFirstFree : List ℕ → ℕ → Type 0
IsFirstFree taken place =
    All (λ q. q < place) taken × ((place ≡ 1) ⊎ (any (λ q. q + 1 == place) taken ≡ true))

-- `max_position` is at least each of the positions, and one of them or the least.
max_position-bound :
    (m : ℕ) (rows : List JobRow)
    → (m ≤ max_position m rows)
      × All (λ q. q < max_position m rows + 1) (map (λ (row : JobRow). row.position) rows)
unfolding max_position
max_position-bound m [] = (omega arith, tt)
max_position-bound m (row ∷ rows) =
    let (least, others) = max_position-bound (max m row.position) rows in
    (omega (arith, least), (omega (arith, least), others))

max_position-among :
    (m : ℕ) (rows : List JobRow)
    → (max_position m rows ≡ m)
      ⊎ (any (λ q. q + 1 == max_position m rows + 1) (map (λ (row : JobRow). row.position) rows)
          ≡ true)
unfolding max_position
max_position-among m [] = inl refl
max_position-among m (row ∷ rows) = elim (max_position-among (max m row.position) rows) [
  | inr there ↦ inr (ground (arith, there))
  | inl same ↦ elim (Bool-cases (leb row.position m)) [
    | inl low ↦ inl (ground (arith, same, low))
    | inr high ↦ inr (ground (arith, same, high))
  ]
]

pub holds_place-waits_for :
    (device : ℕ) (rows : List JobRow)
    → filter (holds_place device) rows ≡ filter (waits_for device) rows
holds_place-waits_for device rows =
    filter-same (holds_place device) (waits_for device) rows
      (λ row. ap (λ b. (row.device_id == device) && b) (in_queue-same row.status))

next_position-IsFirstFree :
    (device : ℕ) (rows : List JobRow) → IsFirstFree (places device rows) (next_position device rows)
unfolding next_position
next_position-IsFirstFree device rows =
    let same = holds_place-waits_for device rows in
    let here = filter (waits_for device) rows in
    rw same (
      (max_position-bound 0 here).1,
      elim (max_position-among 0 here) [ inl e ↦ inl (omega (arith, e)) | inr e ↦ inr e ],
    )

-- The ids of the table are below its counter.
Ascending-lt :
    (lo hi : ℕ) (rows : List JobRow)
    → Ascending lo hi rows
    → All (λ (row : JobRow). row.id < hi) rows
Ascending-lt lo hi [] h = tt
Ascending-lt lo hi (row ∷ rows) h =
    (Ascending-le (suc row.id) hi rows h.1, Ascending-lt (suc row.id) hi rows h.1)

-- The two ends of `createJobs`: it threw and changed nothing, or it added a batch of rows behind the
-- table, whose ids are above all ids before, and whose places begin at the first that is free.
abbrev pub Added : ℕ → List ℕ → Service → Result (List WebJob) × Service → Type 0
Added device ids s r =
    (Fails r.0 × (r.1 ≡ s))
    ⊎ ((rows : List JobRow) × (place : ℕ) × (r.0 ≡ ok (map to_web_job rows))
        × (r.1.jobs ≡ s.jobs ++ rows)
        × (r.1.next_job ≡ s.next_job + length rows)
        × IsBatch device s.next_job place ids rows
        × All (λ (row : JobRow). row.id < s.next_job) s.jobs
        × IsFirstFree (places device s.jobs) place)

-- On a table whose ids rise and are below the counter, `createJobs` throws and changes nothing, or
-- adds one job for each title, in the order of the list, and returns them: waiting, for that console,
-- with ids that rise by one and are above every id in the table, and with positions that rise by one
-- from the first free place: it is behind every waiting, claimed or running job of the console, and
-- it is 1 or directly behind one of them.
pub create_jobs-Added :
    (device : ℕ) (ids : List ℕ) (target : InstallTarget) (s : Service)
    → IsNumbered s
    → Added device ids s (create_jobs device ids target s)
create_jobs-Added device ids target s n = elim (create_jobs-Outcome device ids target s) [
  | inl fails ↦ inl fails
  | inr (rows, returns, table, counter, batch) ↦ inr (
    rows,
    next_position device s.jobs,
    returns,
    table,
    counter,
    batch,
    Ascending-lt 0 s.next_job s.jobs n,
    next_position-IsFirstFree device s.jobs,
  )
]
