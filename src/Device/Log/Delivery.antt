-- ===== src/Device/Log/Delivery.antt =====
-- What a polling console receives from the log of packages/server/src/device/events.ts: each of its
-- events once and in order, as long as none that it has not seen was trimmed.
use nslibrary.Common.{
  ℕ, zero, suc, ◌+◌, ◌-◌, ◌≤◌, ◌<◌, ◌≡◌, refl, sym, subst, ap, ◌∙◌, Bool, true, false, Option, List,
  [], ◌∷◌, ◌++◌, arith, Bool-cases, ltb, ltb→lt, inl, inr, length, drop, filter, append-nil,
  append_assoc,
}
use nslibrary.Shared.Types.{DeviceEvent}
use nslibrary.Device.Log.{
  LoggedEvent, EventLog, max_events, trim, append, since, is_after, last_id, to_response,
}
use nslibrary.Device.Log.Numbering.{Run, IsNumbered, Run-append, append-IsNumbered, Run-length}

pub filter-append {ℓ} :
    {A : Type ℓ} (p : A → Bool) (xs ys : List A) → filter p (xs ++ ys) ≡ filter p xs ++ filter p ys
filter-append p [] ys = refl
filter-append p (x ∷ xs) ys = ground (arith, filter-append p xs ys)

-- Dropping events that the cursor is past changes nothing.
since-drop :
    (n device cursor a b : ℕ) (es : List LoggedEvent)
    → Run a es b
    → a + n ≤ suc cursor
    → filter (is_after device cursor) (drop n es) ≡ filter (is_after device cursor) es
since-drop zero device cursor a b es r h = refl
since-drop (suc n) device cursor a b [] r h = refl
since-drop (suc n) device cursor a b (e ∷ es) r h =
    ground (arith, since-drop n device cursor (suc a) b es r.1)

since-trim :
    (device cursor a b : ℕ) (es : List LoggedEvent)
    → Run a es b
    → b ≤ suc cursor + max_events
    → filter (is_after device cursor) (trim es) ≡ filter (is_after device cursor) es
unfolding trim
since-trim device cursor a b es r h = elim (Bool-cases (ltb max_events (length es))) [
  | inl more ↦ rw more (
      since-drop (length es - max_events) device cursor a b es r
        (omega (arith, Run-length a b es r, ltb→lt _ _ more)))
  | inr fits ↦ rw fits
]

-- One more event: `since` gains it if the console sees it and has not passed it.
since-append :
    (log : EventLog) (device cursor : ℕ) (to : Option ℕ) (event : DeviceEvent)
    → IsNumbered log
    → log.next_id ≤ cursor + max_events
    → since (append log to event) device cursor
      ≡ since log device cursor
        ++ filter
            (is_after device cursor)
            (record { id = log.next_id; device_id = to; event = event } ∷ [])
unfolding since append
since-append log device cursor to event v h =
    let entry : LoggedEvent = record { id = log.next_id; device_id = to; event = event } in
    since-trim device cursor v.first (suc log.next_id) (log.events ++ entry ∷ [])
      (Run-append _ _ log.events entry refl v.numbers) (omega arith)
    ∙ filter-append (is_after device cursor) log.events (entry ∷ [])

unfoldable pub append_all : EventLog → List (Option ℕ × DeviceEvent) → EventLog
append_all log [] = log
append_all log ((to, event) ∷ rest) = append_all (append log to event) rest

-- The entries that `append_all` makes of a list of events, the first numbered `id`.
pub entries_from : ℕ → List (Option ℕ × DeviceEvent) → List LoggedEvent
entries_from id [] = []
entries_from id ((to, event) ∷ rest) =
    record { id = id; device_id = to; event = event } ∷ entries_from (suc id) rest

since-append_all :
    (log : EventLog) (device cursor : ℕ) (es : List (Option ℕ × DeviceEvent))
    → IsNumbered log
    → log.next_id + length es ≤ suc cursor + max_events
    → since (append_all log es) device cursor
      ≡ since log device cursor ++ filter (is_after device cursor) (entries_from log.next_id es)
unfolding append_all entries_from append
since-append_all log device cursor [] v h = sym (append-nil _)
since-append_all log device cursor ((to, event) ∷ rest) v h =
    since-append_all (append log to event) device cursor rest (append-IsNumbered log to event v)
      (unfold append in omega arith)
    ∙ ap (λ l. l ++ filter (is_after device cursor) (entries_from (suc log.next_id) rest))
        (since-append log device cursor to event v (omega arith))
    ∙ append_assoc (since log device cursor)
        (filter (is_after device cursor)
          (record { id = log.next_id; device_id = to; event = event } ∷ []))
        (filter (is_after device cursor) (entries_from (suc log.next_id) rest))
    ∙ ap (◌++◌ (since log device cursor)) (
        sym (
          filter-append (is_after device cursor)
            (record { id = log.next_id; device_id = to; event = event } ∷ [])
            (entries_from (suc log.next_id) rest)))

-- A cursor that `to_response` returns lies past every entry that it was given.
last_id-cons :
    (e : LoggedEvent) (es : List LoggedEvent) (c : ℕ) → last_id (e ∷ es) c ≡ last_id es e.id
unfolding last_id
last_id-cons e [] c = refl
last_id-cons e (x ∷ es) c = last_id-fallback x es c e.id
  where
    last_id-fallback :
        (x : LoggedEvent) (es : List LoggedEvent) (c d : ℕ)
        → last_id (x ∷ es) c ≡ last_id (x ∷ es) d
    last_id-fallback x [] c d = refl
    last_id-fallback x (y ∷ es) c d = last_id-fallback y es c d

-- Two cursors that lie before a list see the same of it.
filter-before :
    (device c d a b : ℕ) (es : List LoggedEvent)
    → Run a es b
    → c < a
    → d < a
    → filter (is_after device c) es ≡ filter (is_after device d) es
filter-before device c d a b [] r h k = refl
filter-before device c d a b (e ∷ es) r h k =
    ground (arith, filter-before device c d (suc a) b es r.1)

last_id-skip :
    (device c : ℕ) (e : LoggedEvent) (es : List LoggedEvent)
    → is_after device c e ≡ false
    → last_id (filter (is_after device c) (e ∷ es)) c ≡ last_id (filter (is_after device c) es) c
last_id-skip device c e es h = rw h

last_id-see :
    (device c a b : ℕ) (e : LoggedEvent) (es : List LoggedEvent)
    → Run a (e ∷ es) b
    → is_after device c e ≡ true
    → last_id (filter (is_after device c) (e ∷ es)) c
      ≡ last_id (filter (is_after device e.id) es) e.id
last_id-see device c a b e es r h = rw h (
    last_id-cons e (filter (is_after device c) es) c
    ∙ ap (λ l. last_id l e.id)
        (filter-before device c e.id (suc a) b es r.1 (ground arith) (ground arith)))

last_id-ge :
    (device c a b : ℕ) (es : List LoggedEvent)
    → Run a es b
    → c ≤ last_id (filter (is_after device c) es) c
last_id-ge device c a b [] r = unfold last_id in omega arith
last_id-ge device c a b (e ∷ es) r = elim (Bool-cases (is_after device c e)) [
  | inl see ↦ rw (last_id-see device c a b e es r see) (
      let later : e.id ≤ last_id (filter (is_after device e.id) es) e.id =
        last_id-ge device e.id (suc a) b es r.1 in
      ground arith)
  | inr skip ↦ rw (last_id-skip device c e es skip) (last_id-ge device c (suc a) b es r.1)
]

filter-past :
    (device l : ℕ) (e : LoggedEvent) (es : List LoggedEvent)
    → is_after device l e ≡ false
    → filter (is_after device l) es ≡ []
    → filter (is_after device l) (e ∷ es) ≡ []
filter-past device l e es h k = rw h k

Run-le : (a b : ℕ) (es : List LoggedEvent) → Run a es b → a ≤ b
Run-le a b es r = omega (arith, Run-length a b es r)

last_id-lt :
    (device c a b : ℕ) (es : List LoggedEvent)
    → Run a es b
    → c < b
    → last_id (filter (is_after device c) es) c < b
last_id-lt device c a b [] r h = unfold last_id in h
last_id-lt device c a b (e ∷ es) r h = elim (Bool-cases (is_after device c e)) [
  | inl see ↦
      rw (last_id-see device c a b e es r see)
        (last_id-lt device e.id (suc a) b es r.1 (omega (arith, Run-le (suc a) b es r.1, r.0)))
  | inr skip ↦ rw (last_id-skip device c e es skip) (last_id-lt device c (suc a) b es r.1 h)
]

-- Nothing is left after the cursor that a response carries.
filter-last_id :
    (device c a b : ℕ) (es : List LoggedEvent)
    → Run a es b
    → filter (is_after device (last_id (filter (is_after device c) es) c)) es ≡ []
filter-last_id device c a b [] r = refl
filter-last_id device c a b (e ∷ es) r = elim (Bool-cases (is_after device c e)) [
  | inl see ↦
      let l = last_id (filter (is_after device e.id) es) e.id in
      let later : e.id ≤ l = last_id-ge device e.id (suc a) b es r.1 in
      subst (λ k. filter (is_after device k) (e ∷ es) ≡ [])
        (sym (last_id-see device c a b e es r see))
        (filter-past device l e es (ground arith) (filter-last_id device e.id (suc a) b es r.1))
  | inr skip ↦
      let l = last_id (filter (is_after device c) es) c in
      let later : c ≤ l = last_id-ge device c (suc a) b es r.1 in
      subst (λ k. filter (is_after device k) (e ∷ es) ≡ []) (sym (last_id-skip device c e es skip))
        (filter-past device l e es (ground arith) (filter-last_id device c (suc a) b es r.1))
]

entries_from-Run :
    (b : ℕ) (es : List (Option ℕ × DeviceEvent)) → Run b (entries_from b es) (b + length es)
unfolding entries_from
entries_from-Run b [] = omega arith
entries_from-Run b (x ∷ es) = (
  refl,
  subst (Run (suc b) (entries_from (suc b) es)) (omega arith) (entries_from-Run (suc b) es),
)

-- The new entries lie after the cursor of the response to the old ones, if the cursor was not past
-- the end of the log.
entries_after :
    (device c a b : ℕ) (old : List LoggedEvent) (es : List (Option ℕ × DeviceEvent))
    → Run a old b
    → c < b
    → filter (is_after device c) (entries_from b es)
      ≡ filter (is_after device (last_id (filter (is_after device c) old) c)) (entries_from b es)
entries_after device c a b old es r h =
    filter-before device c (last_id (filter (is_after device c) old) c) b (b + length es)
      (entries_from b es) (entries_from-Run b es) h (last_id-lt device c a b old r h)

-- A console that polled with `cursor` and polls again with the cursor of the response receives, over
-- the two polls, what one poll with the first cursor would have given it in the end: its events
-- once each and in order, whatever was appended in between, if its cursor was not past the end of
-- the log and no more than `max_events` events lie between it and the new end.
pub since-to_response :
    (log : EventLog) (device cursor : ℕ) (es : List (Option ℕ × DeviceEvent))
    → IsNumbered log
    → cursor < log.next_id
    → log.next_id + length es ≤ suc cursor + max_events
    → since (append_all log es) device cursor
      ≡ since log device cursor
        ++ since (append_all log es) device (to_response (since log device cursor) cursor).cursor
unfolding since to_response
since-to_response log device cursor es v seen h =
    let l = last_id (filter (is_after device cursor) log.events) cursor in
    let later : cursor ≤ l = last_id-ge device cursor v.first log.next_id log.events v.numbers in
    let news = entries_from log.next_id es in
    since-append_all log device cursor es v h
    ∙ ap (◌++◌ (since log device cursor))
        (entries_after device cursor v.first log.next_id log.events es v.numbers seen)
    ∙ ap (◌++◌ (since log device cursor)) (
        sym (
          since-append_all log device l es v (omega arith)
          ∙ ap (λ (t : List LoggedEvent). t ++ filter (is_after device l) news)
              (filter-last_id device cursor v.first log.next_id log.events v.numbers)))
