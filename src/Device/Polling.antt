-- ===== src/Device/Polling.antt =====
-- `pollEvents`, `#resyncEvents`, `addWaiter` and `removeWaiter` of
-- packages/server/src/device/service.ts. `catalog_rev` is what `#catalogRev()` returns, and `key`
-- numbers the promise. A poll that sleeps is answered by the log later; then `end_poll` is what its
-- `finally` does.
pub mod Presence
pub mod Resync
mod Runs
use nslibrary.Common.{
  ℕ, ◌+◌, ◌-◌, ◌*◌, Bool, true, false, ◌&&◌, ◌||◌, not, Option, none, some, List, [], ◌∷◌, ◌++◌,
  map, filter, ltb, leb, ◌==◌, or_else, if◌then◌else◌, Result, ok, err, Action, bad_request,
}
use nslibrary.Common.Maps
use nslibrary.Shared.Types.{
  WebJob, DeviceEvent, job_queued, catalog, device_online, device_offline, JobStatus, queued,
}
use nslibrary.Device.Log
use nslibrary.Device.Log.{EventLog, EventsResponse, LoggedEvent, is_for}
use nslibrary.Device.Service.{Service, to_device_job}
use nslibrary.Device.Jobs.{is_queued, is_interrupted}
use nslibrary.Device.Jobs.Queue.{list_jobs}

-- The count of open polls of a console.
abbrev pub polls_of : ℕ → Service → ℕ
polls_of device s = or_else (Maps.get device s.presence) 0

unfoldable pub add_waiter : ℕ → Service → Service
add_waiter device s = record s {
  presence = Maps.set device (polls_of device s + 1) s.presence;
  publisher = record s.publisher {
    bus =
        if polls_of device s == 0
        then s.publisher.bus ++ device_online device ∷ []
        else s.publisher.bus;
  };
}

unfoldable pub remove_waiter : ℕ → Service → Service
remove_waiter device s =
    if leb (polls_of device s) 1
    then record s {
      presence = Maps.delete device s.presence;
      publisher = record s.publisher { bus = s.publisher.bus ++ device_offline device ∷ [] };
    }
    else record s { presence = Maps.set device (polls_of device s - 1) s.presence }

-- A job as it is offered again.
abbrev pub queued_again : WebJob → DeviceEvent
queued_again job = job_queued (to_device_job (record job { status = queued }))

abbrev pub is_offered : WebJob → Bool
is_offered job = is_queued job.status || is_interrupted job.status

unfoldable pub resync_events : ℕ → ℕ → Service → List DeviceEvent
unfolding list_jobs
resync_events catalog_rev device s =
    map queued_again (filter is_offered (list_jobs (some device) none s))
    ++ catalog catalog_rev ∷ []

-- The cursor of the query: missing, no whole number, or a number.
pub data Cursor : Type 0 where
  no_cursor : Cursor
  bad_cursor : Cursor
  at_cursor : ℕ → Cursor

-- `cursor < oldest.id - 1 && cursor !== 0`, for the oldest entry that the console may see.
abbrev pub has_gap : ℕ → List LoggedEvent → Bool
has_gap cursor [] = false
has_gap cursor (oldest ∷ entries) = ltb cursor (oldest.id - 1) && not (cursor == 0)

-- The cursor is past the log's end, or before what the console may see of it.
unfoldable pub is_lost : ℕ → ℕ → EventLog → Bool
is_lost device cursor log =
    ltb (Log.head log) cursor || has_gap cursor (filter (is_for device) log.events)

unfoldable pub resync : ℕ → ℕ → Service → EventsResponse
unfolding resync_events
resync catalog_rev device s = record {
  cursor = Log.head s.log;
  ev = resync_events catalog_rev device s;
}

-- `log.wait` on the service; `none` if the poll sleeps.
abbrev pub wait_on : ℕ → ℕ → ℕ → ℕ → Bool → Service → Option EventsResponse × Service
wait_on key device cursor wait_ms aborted s =
    let (answer, log) = Log.wait s.log key device cursor wait_ms aborted in
    (answer, record s { log = log })

-- `removeWaiter` at once if the poll was answered at once.
abbrev pub end_if_answered : ℕ → Option EventsResponse × Service → Option EventsResponse × Service
end_if_answered device (none, s) = (none, s)
end_if_answered device (some r, s) = (some r, remove_waiter device s)

unfoldable pub poll_at : ℕ → ℕ → ℕ → ℕ → ℕ → Bool → Service → Option EventsResponse × Service
unfolding is_lost resync add_waiter remove_waiter
poll_at catalog_rev key device cursor wait_ms aborted s =
    if is_lost device cursor s.log
    then (some (resync catalog_rev device s), s)
    else if leb wait_ms 0
    then wait_on key device cursor wait_ms aborted s
    else end_if_answered device (wait_on key device cursor wait_ms aborted (add_waiter device s))

-- `wait` seconds, 25 if the query does not say.
unfoldable pub poll_events :
    ℕ → ℕ → ℕ → Cursor → Option ℕ → Bool → Action Service (Option EventsResponse)
unfolding poll_at
poll_events catalog_rev key device no_cursor wait aborted s =
    (ok (some (resync catalog_rev device s)), s)
poll_events catalog_rev key device bad_cursor wait aborted s = (err bad_request, s)
poll_events catalog_rev key device (at_cursor cursor) wait aborted s =
    let (answer, t) = poll_at catalog_rev key device cursor (or_else wait 25 * 1000) aborted s in
    (ok answer, t)

-- A poll that slept has been answered.
unfoldable pub end_poll : ℕ → Service → Service
unfolding remove_waiter
end_poll device s = remove_waiter device s
