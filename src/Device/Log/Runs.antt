-- ===== src/Device/Log/Runs.antt =====
-- Runs of the event log of packages/server/src/device/events.ts, and its theorems at these inputs.
use nslibrary.Common.{
  ℕ, ◌≡◌, refl, Option, none, some, List, [], ◌∷◌, ◌++◌, false, arith, All, take, map,
}
use nslibrary.Shared.Types.{DeviceEvent, job_cancel, catalog}
use nslibrary.Device.Log.{EventLog, Waiter, empty, append, wait, expire, since, to_response}
use nslibrary.Device.Log.Numbering.{Call, appends, waits, expires, step, run, run-empty-IsNumbered}
use nslibrary.Device.Log.Delivery.{append_all, since-to_response}
use nslibrary.Device.Log.Waiting.{HasNoNews, run-empty-HasNoNews}

-- Console 1 waits from the start; an event for console 2 does not wake it, its own does.
abbrev calls : List Call
calls =
    waits 7 1 0 25000 false
    ∷ appends (some 2) (job_cancel 3)
    ∷ waits 8 2 1 25000 false
    ∷ appends (some 1) (job_cancel 4)
    ∷ expires 8
    ∷ []

answers :
    (run empty calls).resolved
    ≡ (7, record { cursor = 2; ev = job_cancel 4 ∷ [] }) ∷ (8, record { cursor = 1; ev = [] }) ∷ []
unfolding run step append wait expire
answers = refl

-- Console 1 still sleeps, and the event in the log is for console 2.
abbrev asleep : List Call
asleep = take 3 calls

sleeper : map (λ (w : Waiter). w.key) (run empty asleep).waiters ≡ 7 ∷ 8 ∷ []
unfolding run step append wait expire
sleeper = refl

run-empty-HasNoNews_example : All (HasNoNews (run empty asleep)) (run empty asleep).waiters
run-empty-HasNoNews_example = run-empty-HasNoNews asleep

abbrev old : List Call
old = appends none (catalog 1) ∷ appends (some 2) (job_cancel 3) ∷ []

abbrev seen : EventLog
seen = run empty old

abbrev news : List (Option ℕ × DeviceEvent)
news = (some 1, job_cancel 4) ∷ (some 2, job_cancel 5) ∷ (none, catalog 2) ∷ []

since-to_response_example :
    since (append_all seen news) 1 0 ≡ since seen 1 0 ++ since (append_all seen news) 1 1
unfolding run step append since to_response
since-to_response_example =
    since-to_response seen 1 0 news (run-empty-IsNumbered old) (omega arith) (omega arith)

abbrev polls : List Call
polls = waits 7 1 0 25000 false ∷ waits 8 2 0 25000 false ∷ []

abbrev waiting : EventLog
waiting = run empty polls
