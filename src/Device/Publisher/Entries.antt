-- ===== src/Device/Publisher/Entries.antt =====
-- What `send` and the timers of packages/server/src/device/service.ts do to the entries of one job:
-- its last event on the bus, its timer and the state that is kept for the timer.
use nslibrary.Common.{
  ℕ, ◌≡◌, refl, subst, Bool, true, Option, none, some, List, [], ◌∷◌, ◌++◌, arith, ◌≢◌, ◌⊎◌, inl,
  inr, ◌==◌, if◌then◌else◌, is_some, or_else, Bool-cases,
}
use nslibrary.Common.Maps
use nslibrary.Common.Maps.{Map, map_laws, get-set, get-delete, get-empty}
use nslibrary.Shared.Types.{
  WebJob, ServerEvent, job_updated, device_paired, device_online, device_offline, device_updated,
}
use nslibrary.Device.Publisher.{Publisher, send, set_timer, publish_job, fire, next_event_at}

pub data Step : Type 0 where
  publishes : ℕ → WebJob → Bool → Step
  fires : ℕ → ℕ → Step

unfoldable pub step : Publisher → Step → Publisher
step p (publishes now job throttle) = publish_job p now job throttle
step p (fires now id) = fire p now id

unfoldable pub run : Publisher → List Step → Publisher
run p [] = p
run p (s ∷ ss) = run (step p s) ss

abbrev pub if_same : ℕ → WebJob → Option WebJob → Option WebJob
if_same id job o = if job.id == id then some job else o

-- The state of a job with which `publish_job` was called last; `o` if it was not called for it.
unfoldable pub newest : ℕ → Option WebJob → List Step → Option WebJob
newest id o [] = o
newest id o (publishes now job throttle ∷ ss) = newest id (if_same id job o) ss
newest id o (fires now j ∷ ss) = newest id o ss

-- The job that the last event for `id` carries.
unfoldable pub last_sent : ℕ → Option WebJob → List ServerEvent → Option WebJob
last_sent id o [] = o
last_sent id o (job_updated job ∷ es) = last_sent id (if_same id job o) es
last_sent id o (e ∷ es) = last_sent id o es

last_sent-append :
    (id : ℕ) (o : Option WebJob) (es : List ServerEvent) (job : WebJob)
    → last_sent id o (es ++ job_updated job ∷ []) ≡ if_same id job (last_sent id o es)
unfolding last_sent
last_sent-append id o [] job = refl
last_sent-append id o (job_updated j ∷ es) job = last_sent-append id (if_same id j o) es job
last_sent-append id o (device_paired d n ∷ es) job = last_sent-append id o es job
last_sent-append id o (device_online d ∷ es) job = last_sent-append id o es job
last_sent-append id o (device_offline d ∷ es) job = last_sent-append id o es job
last_sent-append id o (device_updated d ∷ es) job = last_sent-append id o es job

-- `newest` is on the bus, and no timer is set.
pub record IsSettled (id : ℕ) (wanted : Option WebJob) (p : Publisher) : Type 0 where
  pub no_timer : Maps.get id p.pending ≡ none
  pub nothing_kept : Maps.get id p.latest ≡ none
  pub sent : last_sent id none p.bus ≡ wanted

-- A timer is set, and it will send `newest`.
pub record IsWaiting (id : ℕ) (wanted : Option WebJob) (p : Publisher) : Type 0 where
  pub timer : is_some (Maps.get id p.pending) ≡ true
  pub kept : Maps.get id p.latest ≡ wanted
  pub known : is_some wanted ≡ true

-- A timer is filed under the number of its job.
abbrev pub IsFiled : Publisher → Type 0
IsFiled p = (id due : ℕ) (job : WebJob) → Maps.get id p.pending ≡ some (due, job) → job.id ≡ id

-- A state that is tracked for a number is the state of a job with that number.
abbrev pub Owns : ℕ → Option WebJob → Type 0
Owns id o = (job : WebJob) → o ≡ some job → job.id ≡ id

abbrev pub Tracks : ℕ → Option WebJob → Publisher → Type 0
Tracks id wanted p = IsSettled id wanted p ⊎ IsWaiting id wanted p

-- What `send` leaves of a job's entries: nothing of the sent job, all of the others.
pub send-latest :
    (p : Publisher) (now : ℕ) (job : WebJob) (id : ℕ)
    → Maps.get id (send p now job).latest ≡ (if job.id == id then none else Maps.get id p.latest)
unfolding send
send-latest p now job id = get-delete job.id id p.latest

pub send-pending :
    (p : Publisher) (now : ℕ) (job : WebJob) (id : ℕ)
    → Maps.get id (send p now job).pending ≡ (if job.id == id then none else Maps.get id p.pending)
unfolding send
send-pending p now job id = get-delete job.id id p.pending

pub send-last_sent :
    (p : Publisher) (now : ℕ) (job : WebJob) (id : ℕ)
    → last_sent id none (send p now job).bus
      ≡ if_same id (or_else (Maps.get job.id p.latest) job) (last_sent id none p.bus)
unfolding send
send-last_sent p now job id = last_sent-append id none p.bus _

pub send-Tracks :
    (id : ℕ) (wanted : Option WebJob) (p : Publisher) (now : ℕ) (job kept : WebJob)
    → Maps.get job.id p.latest ≡ some kept
    → kept.id ≡ job.id
    → (job.id ≡ id → some kept ≡ wanted)
    → (job.id ≢ id → Tracks id wanted p)
    → Tracks id wanted (send p now job)
send-Tracks id wanted p now job kept e own same other = elim (Bool-cases (job.id == id)) [
  | inl hit ↦ inl (record {
    no_timer = ground (arith, send-pending p now job id);
    nothing_kept = ground (arith, send-latest p now job id);
    sent = ground (arith, send-last_sent p now job id, same (ground arith));
  })
  | inr miss ↦ elim (other (ground arith)) [
    | inl s ↦ inl (record {
      no_timer = ground (arith, send-pending p now job id);
      nothing_kept = ground (arith, send-latest p now job id);
      sent = ground (arith, send-last_sent p now job id);
    })
    | inr w ↦ inr (record {
      timer = ground (arith, send-pending p now job id);
      kept = ground (arith, send-latest p now job id);
      known = w.known;
    })
  ]
]

-- The publisher with the newest state noted, before anything is sent.
abbrev pub noted : Publisher → WebJob → Publisher
noted p job = record p { latest = Maps.set job.id job p.latest }

noted-Tracks_other :
    (id : ℕ) (wanted : Option WebJob) (p : Publisher) (job : WebJob)
    → job.id ≢ id
    → Tracks id wanted p
    → Tracks id wanted (noted p job)
noted-Tracks_other id wanted p job miss (inl s) = inl (record {
  no_timer = s.no_timer;
  nothing_kept = ground (arith, get-set job.id id job p.latest, s.nothing_kept);
  sent = s.sent;
})
noted-Tracks_other id wanted p job miss (inr w) = inr (record {
  timer = w.timer;
  kept = ground (arith, get-set job.id id job p.latest, w.kept);
  known = w.known;
})

pub send-noted-Tracks :
    (id : ℕ) (wanted : Option WebJob) (p : Publisher) (now : ℕ) (job : WebJob)
    → Tracks id wanted p
    → Tracks id (if_same id job wanted) (send (noted p job) now job)
send-noted-Tracks id wanted p now job t =
    send-Tracks id (if_same id job wanted) (noted p job) now job job
      (ground (arith, get-set job.id job.id job p.latest)) refl (λ e. ground arith)
      (λ miss.
        subst (λ o. Tracks id o (noted p job)) (ground arith)
          (noted-Tracks_other id wanted p job miss t))

set_timer-same :
    (p : Publisher) (job : WebJob)
    → ((set_timer p job).latest ≡ p.latest) × ((set_timer p job).bus ≡ p.bus)
unfolding set_timer
set_timer-same p job = ground arith

set_timer-timer :
    (p : Publisher) (job : WebJob) → is_some (Maps.get job.id (set_timer p job).pending) ≡ true
unfolding set_timer
set_timer-timer p job =
    ground (arith, get-set job.id job.id (next_event_at p job.id, job) p.pending)

set_timer-pending_other :
    (p : Publisher) (job : WebJob) (id : ℕ)
    → job.id ≢ id
    → Maps.get id (set_timer p job).pending ≡ Maps.get id p.pending
unfolding set_timer
set_timer-pending_other p job id miss =
    ground (arith, get-set job.id id (next_event_at p job.id, job) p.pending)

pub set_timer-Tracks :
    (id : ℕ) (wanted : Option WebJob) (p : Publisher) (job : WebJob)
    → Tracks id wanted p
    → Tracks id (if_same id job wanted) (set_timer (noted p job) job)
set_timer-Tracks id wanted p job t = elim (Bool-cases (job.id == id)) [
  | inl hit ↦ inr (record {
    timer = ground (arith, set_timer-timer (noted p job) job);
    kept = ground (arith, set_timer-same (noted p job) job, get-set job.id id job p.latest);
    known = ground arith;
  })
  | inr miss ↦ elim (noted-Tracks_other id wanted p job (ground arith) t) [
    | inl s ↦ inl (record {
      no_timer = ground (arith, set_timer-pending_other (noted p job) job id);
      nothing_kept = ground (arith, set_timer-same (noted p job) job);
      sent = ground (arith, set_timer-same (noted p job) job);
    })
    | inr w ↦ inr (record {
      timer = ground (arith, set_timer-pending_other (noted p job) job id);
      kept = ground (arith, set_timer-same (noted p job) job);
      known = ground arith;
    })
  ]
]
