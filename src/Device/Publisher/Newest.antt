-- ===== src/Device/Publisher/Newest.antt =====
-- No state of a job is lost by the throttle of packages/server/src/device/service.ts: the last event
-- for a job carries its newest state, or a timer is pending that will send it.
use nslibrary.Common.{
  ℕ, ◌≡◌, refl, sym, ap, ◌∙◌, Bool, true, false, Option, none, List, [], ◌∷◌, arith, Option-cases,
  leb, inl, inr, is_some, Bool-cases,
}
use nslibrary.Common.Maps
use nslibrary.Common.Maps.{Map, map_laws, get-set, get-delete, get-empty}
use nslibrary.Shared.Types.{WebJob}
use nslibrary.Device.Publisher.{Publisher, idle, send, set_timer, publish_job, fire, next_event_at}
use nslibrary.Device.Publisher.Entries.{
  Step, publishes, fires, step, run, newest, if_same, last_sent, IsSettled, IsFiled, Owns, Tracks,
  noted, send-pending, send-Tracks, send-noted-Tracks, set_timer-Tracks,
}

publish_job-Tracks :
    (id : ℕ) (wanted : Option WebJob) (p : Publisher) (now : ℕ) (job : WebJob) (throttle : Bool)
    → Tracks id wanted p
    → Tracks id (if_same id job wanted) (publish_job p now job throttle)
unfolding publish_job
publish_job-Tracks id wanted p now job false t = send-noted-Tracks id wanted p now job t
publish_job-Tracks id wanted p now job true t =
    elim (Bool-cases (leb (next_event_at p job.id) now)) [
      | inl due ↦ rw due (send-noted-Tracks id wanted p now job t)
      | inr early ↦ rw early (set_timer-Tracks id wanted p job t)
    ]

-- The newest states, for every number, and what the publisher keeps of them.
record IsTracking (w : ℕ → Option WebJob) (p : Publisher) : Type 0 where
  tracks : (id : ℕ) → Tracks id (w id) p
  owns : (id : ℕ) → Owns id (w id)
  filed : IsFiled p

fire_due-Tracks :
    (id : ℕ) (w : ℕ → Option WebJob) (p : Publisher) (now j : ℕ) (job : WebJob)
    → IsTracking w p
    → job.id ≡ j
    → is_some (Maps.get j p.pending) ≡ true
    → Tracks id (w id) (send p now job)
fire_due-Tracks id w p now j job v own due = elim (v.tracks j) [
  | inl s ↦ absurd (ground (arith, s.no_timer))
  | inr k ↦ elim (Option-cases (w j)) [
    | inl none_ ↦ absurd (ground (arith, k.known))
    | inr (newest_, e) ↦
        let own_newest : newest_.id ≡ j = v.owns j newest_ e in
        send-Tracks id (w id) p now job newest_ (rw own (k.kept ∙ e)) (own_newest ∙ sym own)
          (λ same. sym e ∙ ap w (sym own ∙ same)) (λ _. v.tracks id)
  ]
]

fire-Tracks :
    (id : ℕ) (w : ℕ → Option WebJob) (p : Publisher) (now j : ℕ)
    → IsTracking w p
    → Tracks id (w id) (fire p now j)
unfolding fire
fire-Tracks id w p now j v = elim (Option-cases (Maps.get j p.pending)) [
  | inl e ↦ rw (e, fire) (v.tracks id)
  | inr ((due, job), e) ↦
      rw (e, fire) (fire_due-Tracks id w p now j job v (v.filed j due job e) (rw e))
]

send-IsFiled : (p : Publisher) (now : ℕ) (job : WebJob) → IsFiled p → IsFiled (send p now job)
send-IsFiled p now job filed id due k e = ground (arith, send-pending p now job id, filed id due k)

set_timer-IsFiled : (p : Publisher) (job : WebJob) → IsFiled p → IsFiled (set_timer p job)
unfolding set_timer
set_timer-IsFiled p job filed id due k e =
    ground (arith, get-set job.id id (next_event_at p job.id, job) p.pending, filed id due k)

publish_job-IsFiled :
    (p : Publisher) (now : ℕ) (job : WebJob) (throttle : Bool)
    → IsFiled p
    → IsFiled (publish_job p now job throttle)
unfolding publish_job
publish_job-IsFiled p now job false filed = send-IsFiled (noted p job) now job filed
publish_job-IsFiled p now job true filed = elim (Bool-cases (leb (next_event_at p job.id) now)) [
  | inl due ↦ rw due (send-IsFiled (noted p job) now job filed)
  | inr early ↦ rw early (set_timer-IsFiled (noted p job) job filed)
]

fire-IsFiled : (p : Publisher) (now j : ℕ) → IsFiled p → IsFiled (fire p now j)
unfolding fire
fire-IsFiled p now j filed = elim (Option-cases (Maps.get j p.pending)) [
  | inl e ↦ rw (e, fire) filed
  | inr ((due, job), e) ↦ rw (e, fire) (send-IsFiled p now job filed)
]

publish_job-IsTracking :
    (w : ℕ → Option WebJob) (p : Publisher) (now : ℕ) (job : WebJob) (throttle : Bool)
    → IsTracking w p
    → IsTracking (λ id. if_same id job (w id)) (publish_job p now job throttle)
publish_job-IsTracking w p now job throttle v = record {
  tracks = λ id. publish_job-Tracks id (w id) p now job throttle (v.tracks id);
  owns = λ id k e. ground (arith, v.owns id k);
  filed = publish_job-IsFiled p now job throttle v.filed;
}

fire-IsTracking :
    (w : ℕ → Option WebJob) (p : Publisher) (now j : ℕ)
    → IsTracking w p
    → IsTracking w (fire p now j)
fire-IsTracking w p now j v = record {
  tracks = λ id. fire-Tracks id w p now j v;
  owns = v.owns;
  filed = fire-IsFiled p now j v.filed;
}

run-IsTracking :
    (w : ℕ → Option WebJob) (p : Publisher) (ss : List Step)
    → IsTracking w p
    → IsTracking (λ id. newest id (w id) ss) (run p ss)
unfolding run step newest
run-IsTracking w p [] v = v
run-IsTracking w p (publishes now job throttle ∷ ss) v =
    run-IsTracking (λ i. if_same i job (w i)) (publish_job p now job throttle) ss
      (publish_job-IsTracking w p now job throttle v)
run-IsTracking w p (fires now j ∷ ss) v =
    run-IsTracking w (fire p now j) ss (fire-IsTracking w p now j v)

idle-IsTracking : IsTracking (λ id. none) idle
unfolding last_sent
idle-IsTracking = record {
  tracks = λ id. inl (record { no_timer = get-empty id; nothing_kept = get-empty id; sent = refl });
  owns = λ id k e. cc;
  filed = λ id due k e. cc (get-empty {V = ℕ × WebJob} id);
}

run-idle-IsTracking : (ss : List Step) → IsTracking (λ id. newest id none ss) (run idle ss)
run-idle-IsTracking ss = run-IsTracking (λ _. none) idle ss idle-IsTracking

-- After any calls of `publish_job` and any timers that ran out, in whatever order and at whatever
-- times, for each job: no timer is pending and the last event on the bus for the job carries the
-- state that it was last published with (or there is no event, if it never was), or a timer is
-- pending and the state that it will send is that one.
pub run-idle-Tracks : (ss : List Step) (id : ℕ) → Tracks id (newest id none ss) (run idle ss)
run-idle-Tracks ss id = (run-idle-IsTracking ss).tracks id

fire-pending :
    (id : ℕ) (p : Publisher) (now : ℕ) → IsFiled p → Maps.get id (fire p now id).pending ≡ none
unfolding fire
fire-pending id p now filed = elim (Option-cases (Maps.get id p.pending)) [
  | inl e ↦ rw (e, fire) e
  | inr ((due, job), e) ↦
      rw (e, fire) (ground (arith, send-pending p now job id, filed id due job e))
]

fire-IsSettled :
    (id : ℕ) (w : ℕ → Option WebJob) (p : Publisher) (now : ℕ)
    → IsTracking w p
    → IsSettled id (w id) (fire p now id)
fire-IsSettled id w p now v = elim (fire-Tracks id w p now id v) [
  | inl s ↦ s
  | inr k ↦ absurd (ground (arith, k.timer, fire-pending id p now v.filed))
]

-- After any such history, once a job's timer has run out (or if none was set) the last event on the
-- bus for the job carries the state that it was last published with, and no timer is left.
pub run-fire-IsSettled :
    (ss : List Step) (id now : ℕ) → IsSettled id (newest id none ss) (fire (run idle ss) now id)
run-fire-IsSettled ss id now = fire-IsSettled id _ (run idle ss) now (run-idle-IsTracking ss)
