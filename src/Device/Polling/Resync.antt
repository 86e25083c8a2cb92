-- ===== src/Device/Polling/Resync.antt =====
-- When `pollEvents` of packages/server/src/device/service.ts answers with the queue instead of the
-- events of the log.
use nslibrary.Common.{
  ℕ, ◌+◌, ◌-◌, ◌<◌, ◌≤◌, ◌≡◌, refl, ap, Bool, true, false, ◌&&◌, not, Option, none, some, List, [],
  ◌∷◌, ◌++◌, arith, All, map, filter, ltb, ok, ◌∙◌, inl, inr, Bool-cases, ◌==◌,
}
use nslibrary.Shared.Types.{DeviceEvent, job_cancel, catalog, WebJob}
use nslibrary.Device.Log
use nslibrary.Device.Log.{EventsResponse, LoggedEvent, is_for, is_after}
use nslibrary.Device.Service.{Service}
use nslibrary.Device.Jobs.Queue.{list_jobs}
use nslibrary.Device.Polling.{
  poll_events, at_cursor, poll_at, is_lost, resync, resync_events, queued_again, is_offered,
}

abbrev pub is_cancel : DeviceEvent → Bool
is_cancel (job_cancel id) = true
is_cancel _ = false

abbrev pub NoCancel : List DeviceEvent → Type 0
NoCancel es = All (λ e. is_cancel e ≡ false) es

offers-NoCancel :
    (jobs : List WebJob) (rev : ℕ) → NoCancel (map queued_again jobs ++ catalog rev ∷ [])
offers-NoCancel [] rev = (refl, tt)
offers-NoCancel (job ∷ jobs) rev = (refl, offers-NoCancel jobs rev)

due :
    (device cursor : ℕ) (es : List LoggedEvent)
    → filter (is_after device cursor) es
      ≡ filter (λ (e : LoggedEvent). ltb cursor e.id) (filter (is_for device) es)
due device cursor [] = refl
due device cursor (e ∷ es) = elim (Bool-cases (is_for device e)) [
  | inl yes_ ↦ elim (Bool-cases (ltb cursor e.id)) [
    | inl new ↦ rw (yes_, new) (ap (◌∷◌ e) (due device cursor es))
    | inr old ↦ rw (yes_, old) (due device cursor es)
  ]
  | inr no_ ↦ elim (Bool-cases (ltb cursor e.id)) [
    | inl new ↦ rw (new, no_) (due device cursor es)
    | inr old ↦ rw (no_, old) (due device cursor es)
  ]
]

-- A console whose cursor is in the log, and whose first visible entry is a cancellation, but not the
-- entry right after the cursor (those between are for other consoles): the cancellation is the first
-- event that it is due, and it is answered with a resync, which moves its cursor to the end of the log
-- and has no cancellation among its events.
pub poll_events-loses_cancel :
    (rev key device cursor id : ℕ) (wait : Option ℕ) (aborted : Bool) (s : Service)
    (first : LoggedEvent) (rest : List LoggedEvent)
    → filter (is_for device) s.log.events ≡ first ∷ rest
    → first.event ≡ job_cancel id
    → 0 < cursor
    → cursor + 1 < first.id
    → cursor ≤ Log.head s.log
    → ((later : List LoggedEvent) × (Log.since s.log device cursor ≡ first ∷ later))
      × (is_cancel first.event ≡ true)
      × (r : EventsResponse) × (poll_events rev key device (at_cursor cursor) wait aborted s
          ≡ (ok (some r), s))
      × (r.cursor ≡ Log.head s.log)
      × NoCancel r.ev
unfolding poll_events poll_at is_lost resync resync_events Log.since
poll_events-loses_cancel rev key device cursor id wait aborted s first rest visible cancelled
      positive gap inside =
    let gap_there : (ltb cursor (first.id - 1) && not (cursor == 0)) ≡ true = ground arith in
    let not_past : ltb (Log.head s.log) cursor ≡ false = ground arith in
    let new : ltb cursor first.id ≡ true = ground arith in
    (
      (
        filter (λ (e : LoggedEvent). ltb cursor e.id) rest,
        due device cursor s.log.events
            ∙ ap (filter (λ (e : LoggedEvent). ltb cursor e.id)) visible
            ∙ rw new refl,
      ),
      rw cancelled refl,
      resync rev device s,
      rw (not_past, visible, gap_there) refl,
      refl,
      offers-NoCancel (filter is_offered (list_jobs (some device) none s)) rev,
    )
