-- ===== src/Device/Jobs/Interrupts.antt =====
-- What `interruptActiveJobs` and `interruptStaleJobs` of packages/server/src/device/service.ts do to
-- each job: exactly the chosen ones are interrupted.
use nslibrary.Common.{
  ℕ, suc, ◌≡◌, refl, ap, ◌∙◌, Bool, true, false, ◌&&◌, ◌||◌, Option, none, some, List, [], ◌∷◌,
  arith, inl, inr, All, Bool-cases, filter-same, ◌+◌, ltb, ◌==◌, if◌then◌else◌, String, filter,
  length, length-map, ok, Result, is_some,
}
use nslibrary.Shared.Types.{JobStatus}
use nslibrary.Device.Rows.{JobRow}
use nslibrary.Device.Service.{Service}
use nslibrary.Device.Jobs.{is_running, is_of}
use nslibrary.Device.Jobs.Table.{find, find-update_job, find-below, filter_row, map_row, Ascending}
use nslibrary.Device.Jobs.Report.{
  interrupt_active_jobs, interrupt_stale_jobs, interrupt_job, interrupt_all, interrupted_row,
  ids_of, is_stale,
}
use nslibrary.Device.Jobs.Reports.{
  IsOpen, interrupt_job-jobs, All-interrupt_job, interrupt_all-cons, interrupt_all-returns,
  ids_of-IsOpen,
}
use nslibrary.Device.Jobs.History.{IsNumbered}

pub contains : ℕ → List ℕ → Bool
contains j [] = false
contains j (id ∷ ids) = let rest = contains j ids in (id == j) || rest

-- A job that stopped at this moment with a message, all else as it was.
abbrev pub stopped_row : ℕ → String → JobRow → JobRow
stopped_row now message row = record row {
  status = JobStatus.interrupted;
  error = some message;
  updated_at = now;
  completed_at = some now;
}

-- The device has the job in hand: it has claimed it and has not ended it.
abbrev pub in_hand : JobStatus → Bool
in_hand JobStatus.queued = false
in_hand JobStatus.claimed = true
in_hand JobStatus.running = true
in_hand JobStatus.done = false
in_hand JobStatus.failed = false
in_hand JobStatus.cancelled = false
in_hand JobStatus.interrupted = false

-- The job is that of this device, where one is given.
abbrev pub is_theirs : Option ℕ → JobRow → Bool
is_theirs none row = true
is_theirs (some device) row = row.device_id == device

-- In hand, and last touched more than `max_idle_ms` before `now`.
abbrev pub is_silent : ℕ → ℕ → Option ℕ → JobRow → Bool
is_silent now max_idle_ms device row =
    in_hand row.status && (ltb (row.updated_at + max_idle_ms) now && is_theirs device row)

-- A row that a test chooses, stopped; any other as it is.
abbrev pub interrupted_if : (JobRow → Bool) → ℕ → String → Option JobRow → Option JobRow
interrupted_if p now message none = none
interrupted_if p now message (some row) = some (if p row then stopped_row now message row else row)

-- Interrupting twice at one time is interrupting once.
twice :
    (now : ℕ) (message : String) (o : Option JobRow)
    → map_row (interrupted_row now message) (map_row (interrupted_row now message) o)
      ≡ map_row (interrupted_row now message) o
unfolding interrupted_row
twice now message none = refl
twice now message (some row) = refl

either :
    (b c : Bool) (f : JobRow → JobRow) (o : Option JobRow)
    → map_row f (map_row f o) ≡ map_row f o
    → (if c then map_row f (if b then map_row f o else o) else (if b then map_row f o else o))
      ≡ (if b || c then map_row f o else o)
either true true f o e = e
either true false f o e = refl
either false true f o e = refl
either false false f o e = refl

find-interrupt_all :
    (ids : List ℕ) (message : String) (s : Service) (j : ℕ)
    → All (IsOpen s) ids
    → find j (interrupt_all ids message s).1.jobs ≡ (
        if contains j ids
        then map_row (interrupted_row s.clock message) (find j s.jobs)
        else find j s.jobs)
unfolding contains
find-interrupt_all [] message s j h = unfold interrupt_all in refl
find-interrupt_all (id ∷ ids) message s j h =
    let t = (interrupt_job id message s).1 in
    let (jobs, _, clock, _) = interrupt_job-jobs id message s h.0 in
    let f = interrupted_row s.clock message in
    let at_j : find j t.jobs ≡ (if id == j then map_row f (find j s.jobs) else find j s.jobs) =
      ap (find j) jobs ∙ find-update_job id j f s.jobs (λ r. unfold interrupted_row in refl) in
    let rest : find j (interrupt_all ids message t).1.jobs
        ≡ (if contains j ids then map_row f (find j t.jobs) else find j t.jobs) =
      rw clock at
        (find-interrupt_all ids message t j (All-interrupt_job id message s ids h.0 h.1)) in
    ap (λ (r : Result Unit × Service). find j r.1.jobs) (interrupt_all-cons id ids message s h.0)
    ∙ rest
    ∙ ap (λ o. if contains j ids then map_row f o else o) at_j
    ∙ either (id == j) (contains j ids) f (find j s.jobs) (twice s.clock message (find j s.jobs))

contains-ids_of :
    (j lo hi : ℕ) (p : JobRow → Bool) (rows : List JobRow)
    → Ascending lo hi rows
    → contains j (ids_of p rows) ≡ is_some (filter_row p (find j rows))
unfolding contains ids_of
contains-ids_of j lo hi p [] h = refl
contains-ids_of j lo hi p (row ∷ rows) h = elim (Bool-cases (row.id == j)) [
  | inl hit ↦ elim (Bool-cases (p row)) [
    | inl chosen ↦ rw (chosen, hit, chosen) refl
    | inr kept ↦
        rw (kept, hit, kept)
          (rw (find-below j (suc row.id) hi rows h.1 (ground arith)) at
            (contains-ids_of j (suc row.id) hi p rows h.1))
  ]
  | inr miss ↦ elim (Bool-cases (p row)) [
    | inl chosen ↦ rw (chosen, miss) (contains-ids_of j (suc row.id) hi p rows h.1)
    | inr kept ↦ rw (kept, miss) (contains-ids_of j (suc row.id) hi p rows h.1)
  ]
]

chosen_row :
    (p : JobRow → Bool) (now : ℕ) (message : String) (o : Option JobRow)
    → (if is_some (filter_row p o) then map_row (interrupted_row now message) o else o)
      ≡ interrupted_if p now message o
unfolding interrupted_row
chosen_row p now message none = refl
chosen_row p now message (some row) = elim (Bool-cases (p row)) [
  | inl chosen ↦ rw chosen refl
  | inr kept ↦ rw kept refl
]

find-interrupt_chosen :
    (p : JobRow → Bool) (message : String) (s : Service) (j : ℕ)
    → IsNumbered s
    → All (IsOpen s) (ids_of p s.jobs)
    → find j (interrupt_all (ids_of p s.jobs) message s).1.jobs
      ≡ interrupted_if p s.clock message (find j s.jobs)
find-interrupt_chosen p message s j n open_ =
    find-interrupt_all (ids_of p s.jobs) message s j open_
    ∙ ap
        (λ c.
          if c then map_row (interrupted_row s.clock message) (find j s.jobs) else find j s.jobs)
        (contains-ids_of j 0 s.next_job p s.jobs n)
    ∙ chosen_row p s.clock message (find j s.jobs)

running_in_hand : (status : JobStatus) → is_running status ≡ in_hand status
running_in_hand JobStatus.queued = refl
running_in_hand JobStatus.claimed = refl
running_in_hand JobStatus.running = refl
running_in_hand JobStatus.done = refl
running_in_hand JobStatus.failed = refl
running_in_hand JobStatus.cancelled = refl
running_in_hand JobStatus.interrupted = refl

stale-is_silent :
    (now max_idle_ms : ℕ) (device : Option ℕ) (row : JobRow)
    → is_stale now max_idle_ms device row ≡ is_silent now max_idle_ms device row
stale-is_silent now max_idle_ms none row = rw (running_in_hand row.status) (ground arith)
stale-is_silent now max_idle_ms (some d) row = rw (running_in_hand row.status) (ground arith)

-- Tests that agree choose the same rows.
interrupted_if-same :
    (p q : JobRow → Bool) (now : ℕ) (message : String)
    → ((row : JobRow) → p row ≡ q row)
    → (o : Option JobRow) → interrupted_if p now message o ≡ interrupted_if q now message o
interrupted_if-same p q now message same none = refl
interrupted_if-same p q now message same (some row) =
    ap (λ b. some (if b then stopped_row now message row else row)) (same row)

-- Where the ids of the jobs are unique, `interruptActiveJobs` returns and interrupts exactly the
-- claimed and the running jobs of the device: each of them now has the message as its error and ends
-- at this moment, and any other job is as it was.
pub interrupt_active_jobs-exact :
    (device : ℕ) (message : String) (s : Service)
    → IsNumbered s
    → ((interrupt_active_jobs device message s).0 ≡ ok tt)
      × ((j : ℕ)
          → find j (interrupt_active_jobs device message s).1.jobs
            ≡ interrupted_if
                (λ row. is_theirs (some device) row && in_hand row.status)
                s.clock
                message
                (find j s.jobs))
unfolding interrupt_active_jobs
interrupt_active_jobs-exact device message s n =
    let p : JobRow → Bool = λ row. is_of device row && is_running row.status in
    let open_ = ids_of-IsOpen p s s.jobs 0 (λ row e. ground arith) n (λ id h. refl) in
    (
      interrupt_all-returns (ids_of p s.jobs) message s open_,
      λ j.
          find-interrupt_chosen p message s j n open_
          ∙ interrupted_if-same p (λ row. is_theirs (some device) row && in_hand row.status) s.clock
              message (λ row. ap (λ b. is_of device row && b) (running_in_hand row.status))
              (find j s.jobs),
    )

-- Where the ids of the jobs are unique, `interruptStaleJobs` interrupts exactly the claimed and the
-- running jobs (of the device, if one is given) that were last touched longer ago than the idle
-- time: each has the status interrupted, the message as its error and this moment as the time of its
-- last change and of its end, and is otherwise as it was. It leaves every other job as it was, and
-- returns how many it interrupted.
pub interrupt_stale_jobs-exact :
    (max_idle_ms : ℕ) (device : Option ℕ) (s : Service)
    → IsNumbered s
    → ((interrupt_stale_jobs max_idle_ms device s).0
        ≡ ok (length (filter (is_silent s.clock max_idle_ms device) s.jobs)))
      × ((j : ℕ)
          → find j (interrupt_stale_jobs max_idle_ms device s).1.jobs
            ≡ interrupted_if
                (is_silent s.clock max_idle_ms device)
                s.clock
                "The Switch stopped reporting progress"
                (find j s.jobs))
unfolding interrupt_stale_jobs ids_of
interrupt_stale_jobs-exact max_idle_ms device s n =
    let p = is_stale s.clock max_idle_ms device in
    let message : String = "The Switch stopped reporting progress" in
    let open_ : All (IsOpen s) (ids_of p s.jobs) =
      ids_of-IsOpen p s s.jobs 0 (λ row e. ground arith) n (λ id h. refl) in
    let returns : (interrupt_all (ids_of p s.jobs) message s).0 ≡ ok tt =
      interrupt_all-returns (ids_of p s.jobs) message s open_ in
    rw returns (
      ap ok (
          length-map (λ (row : JobRow). row.id) (filter p s.jobs)
          ∙ ap length (
              filter-same p (is_silent s.clock max_idle_ms device) s.jobs
                (stale-is_silent s.clock max_idle_ms device))),
      λ j.
          find-interrupt_chosen p message s j n open_
          ∙ interrupted_if-same p (is_silent s.clock max_idle_ms device) s.clock message
              (stale-is_silent s.clock max_idle_ms device) (find j s.jobs),
    )
