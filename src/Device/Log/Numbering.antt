-- ===== src/Device/Log/Numbering.antt =====
-- The ids in the event log of packages/server/src/device/events.ts: they run without a gap up to
-- `head`, and the log never grows past its limit.
use nslibrary.Common.{
  ℕ, zero, suc, ◌+◌, ◌-◌, ◌≤◌, ◌≡◌, refl, Bool, Option, List, [], ◌∷◌, ◌++◌, arith, Bool-cases, ltb,
  ltb→lt, inl, inr, length, length-drop, drop,
}
use native.Mathlib.Nat.{add-zero, add-suc, suc-add}
use nslibrary.Shared.Types.{DeviceEvent}
use nslibrary.Device.Log.{LoggedEvent, EventLog, max_events, empty, trim, append, wait, expire}

-- The ids of a list are a, a + 1, …, b - 1.
abbrev pub Run : ℕ → List LoggedEvent → ℕ → Type 0
Run a [] b = a ≡ b
Run a (e ∷ es) b = (e.id ≡ a) × Run (suc a) es b

pub Run-length : (a b : ℕ) (es : List LoggedEvent) → Run a es b → b ≡ a + length es
Run-length a b [] h = omega arith
Run-length a b (e ∷ es) h = omega (arith, Run-length (suc a) b es h.1)

pub Run-append :
    (a b : ℕ) (es : List LoggedEvent) (e : LoggedEvent)
    → e.id ≡ b
    → Run a es b
    → Run a (es ++ e ∷ []) (suc b)
Run-append a b [] e h r = omega arith
Run-append a b (x ∷ es) e h r = (r.0, Run-append (suc a) b es e h r.1)

Run-drop :
    (n a b : ℕ) (es : List LoggedEvent) → n ≤ length es → Run a es b → Run (a + n) (drop n es) b
Run-drop zero a b es h r = rw add-zero r
Run-drop (suc n) a b [] h r = absurd (omega arith)
Run-drop (suc n) a b (e ∷ es) h r =
    rw (add-suc, ← suc-add) (Run-drop n (suc a) b es (omega arith) r.1)

-- The log holds the last events, numbered without a gap up to `head`, at most `max_events` of them.
pub record IsNumbered (log : EventLog) : Type 0 where
  pub first : ℕ
  pub positive : 1 ≤ first
  pub numbers : Run first log.events log.next_id
  pub bounded : length log.events ≤ max_events

pub empty-IsNumbered : IsNumbered empty
empty-IsNumbered = record {
  first = 1;
  positive = omega arith;
  numbers = refl;
  bounded = omega arith;
}

trim-Run :
    (a b : ℕ) (es : List LoggedEvent)
    → Run a es b
    → Run (a + (length es - max_events)) (trim es) b × (length (trim es) ≤ max_events)
unfolding trim
trim-Run a b es r = elim (Bool-cases (ltb max_events (length es))) [
  | inl more ↦ rw more (
    Run-drop (length es - max_events) a b es (omega arith) r,
    omega (arith, length-drop (length es - max_events) es, ltb→lt _ _ more),
  )
  | inr fits ↦
      let few : length es ≤ max_events = ground arith in
      let none_dropped : length es - max_events ≡ 0 = omega arith in
      rw (fits, none_dropped, add-zero) (r, few)
]

pub append-IsNumbered :
    (log : EventLog) (device : Option ℕ) (event : DeviceEvent)
    → IsNumbered log
    → IsNumbered (append log device event)
unfolding append
append-IsNumbered log device event v =
    let entry : LoggedEvent = record { id = log.next_id; device_id = device; event = event } in
    let all = log.events ++ entry ∷ [] in
    let t =
      trim-Run v.first (suc log.next_id) all (Run-append _ _ log.events entry refl v.numbers) in
    record {
      first = v.first + (length all - max_events);
      positive = omega (arith, v.positive);
      numbers = t.0;
      bounded = t.1;
    }

-- A call on the log: `append`, `wait`, or the end of a wait.
pub data Call : Type 0 where
  appends : Option ℕ → DeviceEvent → Call
  waits : ℕ → ℕ → ℕ → ℕ → Bool → Call
  expires : ℕ → Call

unfoldable pub step : EventLog → Call → EventLog
step log (appends device event) = append log device event
step log (waits key device cursor wait_ms aborted) = (wait log key device cursor wait_ms aborted).1
step log (expires key) = expire log key

unfoldable pub run : EventLog → List Call → EventLog
run log [] = log
run log (c ∷ cs) = run (step log c) cs

wait-events :
    (log : EventLog) (key device cursor wait_ms : ℕ) (aborted : Bool)
    → ((wait log key device cursor wait_ms aborted).1.events ≡ log.events)
      × ((wait log key device cursor wait_ms aborted).1.next_id ≡ log.next_id)
unfolding wait
wait-events log key device cursor wait_ms aborted = ground arith

-- Calls of `wait` and their ends leave the numbering alone.
same-IsNumbered :
    (log after : EventLog)
    → after.events ≡ log.events
    → after.next_id ≡ log.next_id
    → IsNumbered log
    → IsNumbered after
same-IsNumbered log after e n v = record {
  first = v.first;
  positive = v.positive;
  numbers = rw (e, n) v.numbers;
  bounded = rw e v.bounded;
}

step-IsNumbered : (log : EventLog) (c : Call) → IsNumbered log → IsNumbered (step log c)
unfolding step expire
step-IsNumbered log (appends device event) v = append-IsNumbered log device event v
step-IsNumbered log (waits key device cursor wait_ms aborted) v =
    let (e, n) = wait-events log key device cursor wait_ms aborted in same-IsNumbered log _ e n v
step-IsNumbered log (expires key) v = same-IsNumbered log _ refl refl v

run-IsNumbered : (log : EventLog) (cs : List Call) → IsNumbered log → IsNumbered (run log cs)
unfolding run
run-IsNumbered log [] v = v
run-IsNumbered log (c ∷ cs) v = run-IsNumbered (step log c) cs (step-IsNumbered log c v)

-- After any calls on a new log its events are numbered without a gap up to `head`, and there are at
-- most 2000 of them.
pub run-empty-IsNumbered : (cs : List Call) → IsNumbered (run empty cs)
run-empty-IsNumbered cs = run-IsNumbered empty cs empty-IsNumbered
