-- ===== src/Device/Log.antt =====
-- packages/server/src/device/events.ts: the event log in memory and the long polls that wait on it.
-- A promise is a waiter with a number of its own, `key`; `resolved` lists the answers given so far,
-- oldest first. A timeout and an abort both come as `expire`.
pub mod Numbering
pub mod Delivery
pub mod Waiting
mod Runs
use nslibrary.Common.{
  ℕ, zero, suc, ◌+◌, ◌-◌, Bool, true, false, ◌&&◌, ◌||◌, not, Option, none, some, List, [], ◌∷◌,
  ◌++◌, map, ltb, leb, ◌==◌, if◌then◌else◌, or_else, length, drop, last?, filter,
}
use nslibrary.Shared.Types.{DeviceEvent}

-- `device_id` is `none` for an event that every console sees.
pub record LoggedEvent : Type 0 where
  pub id : ℕ
  pub device_id : Option ℕ
  pub event : DeviceEvent

pub record Waiter : Type 0 where
  pub key : ℕ
  pub device_id : ℕ
  pub after_id : ℕ

pub record EventsResponse : Type 0 where
  pub cursor : ℕ
  pub ev : List DeviceEvent

pub record EventLog : Type 0 where
  pub next_id : ℕ
  pub events : List LoggedEvent
  pub waiters : List Waiter
  pub resolved : List (ℕ × EventsResponse)

abbrev pub max_events : ℕ
max_events = 2000

abbrev pub empty : EventLog
empty = record { next_id = 1; events = []; waiters = []; resolved = [] }

-- `entry.deviceId === null || entry.deviceId === deviceId`
abbrev pub is_for : ℕ → LoggedEvent → Bool
is_for device e = elim e.device_id [ none ↦ true | some d ↦ d == device ]

-- The id of the last entry, or the cursor that the client came with.
pub last_id : List LoggedEvent → ℕ → ℕ
last_id entries fallback = elim (last? entries) [ none ↦ fallback | some e ↦ e.id ]

pub to_response : List LoggedEvent → ℕ → EventsResponse
unfolding last_id
to_response entries fallback = record {
  cursor = last_id entries fallback;
  ev = map (λ e. e.event) entries;
}

unfoldable pub head : EventLog → ℕ
head log = log.next_id - 1

abbrev pub is_after : ℕ → ℕ → LoggedEvent → Bool
is_after device cursor e = ltb cursor e.id && is_for device e

unfoldable pub since : EventLog → ℕ → ℕ → List LoggedEvent
since log device cursor = filter (is_after device cursor) log.events

-- The test with which `append` finds the waiters that its entry wakes.
abbrev pub wakes : LoggedEvent → Waiter → Bool
wakes entry w = is_after w.device_id w.after_id entry

pub answer : LoggedEvent → Waiter → ℕ × EventsResponse
unfolding to_response
answer entry w = (w.key, to_response (entry ∷ []) w.after_id)

-- `events.splice(0, events.length - MAX_EVENTS)`, when there are more than that.
pub trim : List LoggedEvent → List LoggedEvent
trim events =
    if ltb max_events (length events) then drop (length events - max_events) events else events

unfoldable pub append : EventLog → Option ℕ → DeviceEvent → EventLog
unfolding trim answer
append log device event =
    let entry : LoggedEvent = record { id = log.next_id; device_id = device; event = event } in
    record {
      next_id = suc log.next_id;
      events = trim (log.events ++ entry ∷ []);
      waiters = filter (λ w. not (wakes entry w)) log.waiters;
      resolved = log.resolved ++ map (answer entry) (filter (wakes entry) log.waiters);
    }

-- What `wait` does before it sleeps; `none` if it sleeps, and then the waiter is in the log.
unfoldable pub wait : EventLog → ℕ → ℕ → ℕ → ℕ → Bool → Option EventsResponse × EventLog
unfolding since to_response
wait log key device cursor wait_ms aborted =
    let existing = since log device cursor in
    let waiter : Waiter = record { key = key; device_id = device; after_id = cursor } in
    if ltb 0 (length existing) || leb wait_ms 0
    then (some (to_response existing cursor), log)
    else if aborted
    then (some (to_response [] cursor), log)
    else (none, record log { waiters = log.waiters ++ waiter ∷ [] })

-- The timer or the abort signal of one waiter: `finish([])`.
unfoldable pub expire : EventLog → ℕ → EventLog
unfolding to_response
expire log key = record log {
  waiters = filter (λ w. not (w.key == key)) log.waiters;
  resolved =
      log.resolved
      ++ map (λ w. (w.key, to_response [] w.after_id)) (filter (λ w. w.key == key) log.waiters);
}
