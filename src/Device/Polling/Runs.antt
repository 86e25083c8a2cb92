-- ===== src/Device/Polling/Runs.antt =====
-- Polls of packages/server/src/device/service.ts in a small library, and their theorems there.
use nslibrary.Common.{◌≡◌, refl, arith, true, false, none, some, List, [], ◌∷◌, ok}
use nslibrary.Common.Maps
use nslibrary.Shared.Types.{job_cancel}
use nslibrary.Device.Log
use nslibrary.Device.Log.{EventLog, EventsResponse, LoggedEvent}
use nslibrary.Device.Sample.{library}
use nslibrary.Device.Service.{Service}
use nslibrary.Device.Polling.{poll_events, at_cursor}
use nslibrary.Device.Polling.Presence.{
  Change, opens, ends, changes, open_polls, last_told, IsTold, changes-IsTold,
}
use nslibrary.Device.Polling.Resync.{NoCancel, is_cancel, poll_events-loses_cancel}

-- Two polls of one console overlap, and another console polls too.
abbrev polls : List Change
polls = opens 1 ∷ opens 2 ∷ opens 1 ∷ ends 1 ∷ ends 2 ∷ []

changes-IsTold_example : IsTold 1 (open_polls 1 0 polls) (changes library polls)
unfolding Maps.get last_told
changes-IsTold_example = changes-IsTold 1 0 library polls (refl, refl)

abbrev cancellation : LoggedEvent
cancellation = record { id = 3; device_id = some 1; event = job_cancel 8 }

-- Console 1 last heard that the log ended at 1; then came an event for console 2, and one for it.
abbrev busy_log : EventLog
busy_log = record {
  next_id = 4;
  events =
      record { id = 1; device_id = some 2; event = job_cancel 6 }
      ∷ record { id = 2; device_id = some 2; event = job_cancel 7 }
      ∷ cancellation
      ∷ [];
  waiters = [];
  resolved = [];
}

abbrev busy : Service
busy = record library { log = busy_log }

poll_events-loses_cancel_example :
    ((later : List LoggedEvent) × (Log.since busy.log 1 1 ≡ cancellation ∷ later))
    × (is_cancel (job_cancel 8) ≡ true)
    × (r : EventsResponse) × (poll_events 0 5 1 (at_cursor 1) none false busy ≡ (ok (some r), busy))
    × (r.cursor ≡ Log.head busy.log)
    × NoCancel r.ev
unfolding Log.head
poll_events-loses_cancel_example =
    poll_events-loses_cancel 0 5 1 1 8 none false busy cancellation [] refl refl (omega arith)
      (omega arith) (omega arith)
