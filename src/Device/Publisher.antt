-- ===== src/Device/Publisher.antt =====
-- `#publishJob` of packages/server/src/device/service.ts, its timers and `close`: how often the web
-- pages are told of a job. `pending` holds, for a job whose event waits for a timer, the time at
-- which the timer is due and the job that the timer's function was made with. `bus` lists the events
-- published so far, oldest first (packages/server/src/events.ts).
pub mod Entries
pub mod Newest
mod Runs
use nslibrary.Common.{
  ℕ, ◌+◌, Bool, true, false, not, Option, none, some, List, [], ◌∷◌, ◌++◌, leb, if◌then◌else◌,
  or_else, is_some,
}
use nslibrary.Common.Maps
use nslibrary.Common.Maps.{Map}
use nslibrary.Shared.Types.{WebJob, ServerEvent, job_updated}

pub record Publisher : Type 0 where
  pub latest : Map WebJob
  pub pending : Map (ℕ × WebJob)
  pub last_event_at : Map ℕ
  pub bus : List ServerEvent

abbrev pub idle : Publisher
idle = record { latest = []; pending = []; last_event_at = []; bus = [] }

abbrev pub job_event_min_interval_ms : ℕ
job_event_min_interval_ms = 500

-- The inner `publish`: it sends the newest state of the job, whatever state it was made with.
-- `clearTimeout` of a pending timer is part of it, since the timer is dropped here.
unfoldable pub send : Publisher → ℕ → WebJob → Publisher
send p now job = record {
  latest = Maps.delete job.id p.latest;
  pending = Maps.delete job.id p.pending;
  last_event_at = Maps.set job.id now p.last_event_at;
  bus = p.bus ++ job_updated (or_else (Maps.get job.id p.latest) job) ∷ [];
}

-- When the next throttled event of a job may go out.
pub next_event_at : Publisher → ℕ → ℕ
next_event_at p id = or_else (Maps.get id p.last_event_at) 0 + job_event_min_interval_ms

pub set_timer : Publisher → WebJob → Publisher
unfolding next_event_at
set_timer p job =
    if is_some (Maps.get job.id p.pending)
    then p
    else record p { pending = Maps.set job.id (next_event_at p job.id, job) p.pending }

unfoldable pub publish_job : Publisher → ℕ → WebJob → Bool → Publisher
unfolding send set_timer next_event_at
publish_job p now job throttle =
    let noted : Publisher = record p { latest = Maps.set job.id job p.latest } in
    if not throttle
    then send noted now job
    else if leb (next_event_at p job.id) now
    then send noted now job
    else set_timer noted job

-- The timer of a job runs out.
unfoldable pub fire : Publisher → ℕ → ℕ → Publisher
unfolding send
fire p now id = elim (Maps.get id p.pending) [ none ↦ p | some (due, job) ↦ send p now job ]

unfoldable pub close : Publisher → Publisher
close p = record p { pending = []; latest = [] }
