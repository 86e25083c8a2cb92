-- ===== src/Device/Log/Waiting.antt =====
-- The long polls that sleep on the log of packages/server/src/device/events.ts: none sleeps while an
-- event is there for it, and one that an event wakes is given what a new poll would give it.
use nslibrary.Common.{
  ℕ, zero, suc, ◌-◌, ◌≤◌, ◌≡◌, refl, sym, ◌∙◌, ap, map, Bool, true, false, Option, List, [], ◌∷◌,
  ◌++◌, arith, Bool-cases, ltb, inl, inr, length, length-append, drop, All, All-mono, not_ltb→le,
  ◌⊎◌, ◌≢◌, none, some, All-append, All-filter, filter, not, leb, ◌||◌, ◌==◌,
}
use mathlib.Core.Path.{ap₂}
use nslibrary.Shared.Types.{DeviceEvent}
use nslibrary.Device.Log.{
  LoggedEvent, EventLog, EventsResponse, Waiter, max_events, empty, trim, append, wait, expire,
  since, is_after, wakes, answer, to_response,
}
use nslibrary.Device.Log.Numbering.{Call, appends, waits, expires, step, run}
use nslibrary.Device.Log.Delivery.{filter-append}

-- The console that sleeps has nothing to read.
abbrev Sleeps : EventLog → Waiter → Type 0
Sleeps log w = since log w.device_id w.after_id ≡ []

abbrev pub IsAwake : EventLog → Type 0
IsAwake log = All (Sleeps log) log.waiters

-- An event for one console alone, which is another.
abbrev pub IsForOther : ℕ → Option ℕ → Type 0
IsForOther device none = ⊥
IsForOther device (some other) = other ≢ device

-- Not a single event of the log is news for the waiter: each is one that its cursor has passed, or
-- is for another console.
abbrev pub HasNoNews : EventLog → Waiter → Type 0
HasNoNews log w =
    All (λ (e : LoggedEvent). (e.id ≤ w.after_id) ⊎ IsForOther w.device_id e.device_id) log.events

filter-drop_nil :
    (p : LoggedEvent → Bool) (n : ℕ) (es : List LoggedEvent)
    → filter p es ≡ []
    → filter p (drop n es) ≡ []
filter-drop_nil p zero es h = h
filter-drop_nil p (suc n) [] h = h
filter-drop_nil p (suc n) (e ∷ es) h = filter-drop_nil p n es (ground arith)

filter-trim_nil :
    (p : LoggedEvent → Bool) (es : List LoggedEvent) → filter p es ≡ [] → filter p (trim es) ≡ []
unfolding trim
filter-trim_nil p es h = elim (Bool-cases (ltb max_events (length es))) [
  | inl more ↦ rw more (filter-drop_nil p (length es - max_events) es h)
  | inr fits ↦ rw fits h
]

append-Sleeps :
    (log : EventLog) (to : Option ℕ) (event : DeviceEvent) (w : Waiter)
    → Sleeps log w
    → wakes (record { id = log.next_id; device_id = to; event = event }) w ≡ false
    → Sleeps (append log to event) w
unfolding since append
append-Sleeps log to event w h n =
    let entry : LoggedEvent = record { id = log.next_id; device_id = to; event = event } in
    filter-trim_nil (is_after w.device_id w.after_id) (log.events ++ entry ∷ [])
      (filter-append (is_after w.device_id w.after_id) log.events (entry ∷ []) ∙ rw (h, n))

append-IsAwake_from :
    (log : EventLog) (to : Option ℕ) (event : DeviceEvent) (ws : List Waiter)
    → All (Sleeps log) ws
    → All (Sleeps (append log to event)) (
        filter (λ w. not (wakes (record { id = log.next_id; device_id = to; event = event }) w)) ws)
append-IsAwake_from log to event [] h = tt
append-IsAwake_from log to event (w ∷ ws) h =
    elim (Bool-cases (wakes (record { id = log.next_id; device_id = to; event = event }) w)) [
      | inl yes_ ↦ rw yes_ (append-IsAwake_from log to event ws h.1)
      | inr no_ ↦
          rw no_ (append-Sleeps log to event w h.0 no_, append-IsAwake_from log to event ws h.1)
    ]

append-IsAwake :
    (log : EventLog) (to : Option ℕ) (event : DeviceEvent)
    → IsAwake log
    → All (Sleeps (append log to event)) (append log to event).waiters
unfolding append
append-IsAwake log to event h = append-IsAwake_from log to event log.waiters h

wait-IsAwake :
    (log : EventLog) (key device cursor wait_ms : ℕ) (aborted : Bool)
    → IsAwake log
    → IsAwake (wait log key device cursor wait_ms aborted).1
unfolding wait since
wait-IsAwake log key device cursor wait_ms aborted h =
    elim (Bool-cases (ltb 0 (length (since log device cursor)) || leb wait_ms 0)) [
      | inl ready ↦ rw ready h
      | inr not_ready ↦ elim (Bool-cases aborted) [
        | inl cancelled ↦ rw (not_ready, cancelled) h
        | inr live ↦
            rw (not_ready, live)
              (All-append (Sleeps log) log.waiters
                (record { key = key; device_id = device; after_id = cursor } ∷ []) h
                (nothing_new (since log device cursor) not_ready, tt))
      ]
    ]
  where
    nothing_new : (es : List LoggedEvent) → (ltb 0 (length es) || leb wait_ms 0) ≡ false → es ≡ []
    nothing_new [] e = refl
    nothing_new (x ∷ es) e = ground arith

expire-IsAwake : (log : EventLog) (key : ℕ) → IsAwake log → IsAwake (expire log key)
unfolding expire since
expire-IsAwake log key h = All-filter (Sleeps log) (λ w. not (w.key == key)) log.waiters h

step-IsAwake : (log : EventLog) (c : Call) → IsAwake log → IsAwake (step log c)
unfolding step
step-IsAwake log (appends to event) h = append-IsAwake log to event h
step-IsAwake log (waits key device cursor wait_ms aborted) h =
    wait-IsAwake log key device cursor wait_ms aborted h
step-IsAwake log (expires key) h = expire-IsAwake log key h

run-IsAwake : (log : EventLog) (cs : List Call) → IsAwake log → IsAwake (run log cs)
unfolding run
run-IsAwake log [] h = h
run-IsAwake log (c ∷ cs) h = run-IsAwake (step log c) cs (step-IsAwake log c h)

old_or_other :
    (device cursor : ℕ) (e : LoggedEvent)
    → is_after device cursor e ≡ false
    → (e.id ≤ cursor) ⊎ IsForOther device e.device_id
old_or_other device cursor e h = elim (Bool-cases (ltb cursor e.id)) [
  | inl new ↦ inr (other e.device_id (rw new at h))
  | inr old ↦ inl (not_ltb→le cursor e.id old)
]
  where
    other :
        (o : Option ℕ)
        → (elim o [ none ↦ true | some d ↦ d == device ]) ≡ false
        → IsForOther device o
    other none k = cc
    other (some d) k = λ e. ground (arith, k, e)

Sleeps-HasNoNews : (log : EventLog) (w : Waiter) → Sleeps log w → HasNoNews log w
unfolding since
Sleeps-HasNoNews log w h =
    All-mono {P = λ e. is_after w.device_id w.after_id e ≡ false}
      {Q = λ e. (e.id ≤ w.after_id) ⊎ IsForOther w.device_id e.device_id}
      (old_or_other w.device_id w.after_id) log.events
      (filter-nil (is_after w.device_id w.after_id) log.events h)
  where
    filter-nil :
        (p : LoggedEvent → Bool) (es : List LoggedEvent)
        → filter p es ≡ []
        → All (λ e. p e ≡ false) es
    filter-nil p [] e = tt
    filter-nil p (x ∷ es) e = ground (arith, filter-nil p es)

-- After any calls on a new log, none of the consoles that sleep sleeps over an event: every event
-- that the log holds is one that the console's cursor has passed, or is for another console alone.
pub run-empty-HasNoNews : (cs : List Call) → All (HasNoNews (run empty cs)) (run empty cs).waiters
run-empty-HasNoNews cs =
    All-mono {P = Sleeps (run empty cs)} {Q = HasNoNews (run empty cs)}
      (Sleeps-HasNoNews (run empty cs)) (run empty cs).waiters (run-IsAwake empty cs tt)

filter-drop_last :
    (p : LoggedEvent → Bool) (n : ℕ) (es : List LoggedEvent) (e : LoggedEvent)
    → n ≤ length es
    → filter p es ≡ []
    → p e ≡ true
    → filter p (drop n (es ++ e ∷ [])) ≡ e ∷ []
filter-drop_last p zero es e l h k = filter-append p es (e ∷ []) ∙ rw (h, k)
filter-drop_last p (suc n) [] e l h k = absurd (omega arith)
filter-drop_last p (suc n) (x ∷ es) e l h k =
    filter-drop_last p n es e (omega arith) (ground arith) k

-- Trimming keeps the newest entry.
filter-trim_last :
    (p : LoggedEvent → Bool) (es : List LoggedEvent) (e : LoggedEvent)
    → filter p es ≡ []
    → p e ≡ true
    → filter p (trim (es ++ e ∷ [])) ≡ e ∷ []
unfolding trim
filter-trim_last p es e h k = elim (Bool-cases (ltb max_events (length (es ++ e ∷ [])))) [
  | inl more ↦ rw more (
      filter-drop_last p (length (es ++ e ∷ []) - max_events) es e
        (omega (arith, length-append es (e ∷ []))) h k)
  | inr fits ↦ rw fits (filter-drop_last p 0 es e (omega arith) h k)
]

-- What a poll of the waiter's console would answer now.
abbrev pub poll_answer : EventLog → Waiter → ℕ × EventsResponse
poll_answer log w = (w.key, to_response (since log w.device_id w.after_id) w.after_id)

answers_from :
    (log : EventLog) (to : Option ℕ) (event : DeviceEvent) (ws : List Waiter)
    → All (Sleeps log) ws
    → let entry : LoggedEvent = record { id = log.next_id; device_id = to; event = event } in
      map (answer entry) (filter (wakes entry) ws)
      ≡ map (poll_answer (append log to event)) (filter (wakes entry) ws)
unfolding answer
answers_from log to event [] h = refl
answers_from log to event (w ∷ ws) h =
    let entry : LoggedEvent = record { id = log.next_id; device_id = to; event = event } in
    elim (Bool-cases (wakes entry w)) [
      | inl woken ↦ rw woken (
          ap₂ (λ (x : ℕ × EventsResponse) (xs : List (ℕ × EventsResponse)). x ∷ xs)
            (ap (λ (es : List LoggedEvent). (w.key, to_response es w.after_id)) (sym (seen woken)))
            (answers_from log to event ws h.1))
      | inr asleep ↦ rw asleep (answers_from log to event ws h.1)
    ]
  where
    seen :
        wakes (record { id = log.next_id; device_id = to; event = event }) w ≡ true
        → since (append log to event) w.device_id w.after_id
          ≡ record { id = log.next_id; device_id = to; event = event } ∷ []
    seen woken =
        unfold since append in
        filter-trim_last (is_after w.device_id w.after_id) log.events
          (record { id = log.next_id; device_id = to; event = event }) h.0 woken

-- If no waiter sleeps over an event, `append` gives each waiter that its event wakes, and those
-- alone, what a poll from the waiter's cursor would answer after the append.
pub append-poll_answer :
    (log : EventLog) (to : Option ℕ) (event : DeviceEvent)
    → IsAwake log
    → (append log to event).resolved
      ≡ log.resolved
        ++ map (poll_answer (append log to event)) (
            filter (wakes (record { id = log.next_id; device_id = to; event = event })) log.waiters)
unfolding append
append-poll_answer log to event h = ap (◌++◌ log.resolved) (answers_from log to event log.waiters h)
