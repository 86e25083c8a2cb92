-- ===== src/Library/Verify/Final.antt =====
-- A verification that was cancelled in packages/server/src/library/verify-service.ts.
use nslibrary.Common.{
  ℕ, ◌-◌, ◌<◌, ◌≡◌, refl, sym, subst, Bool, true, false, ◌==◌, ==_self, ◌⊎◌, leb, Option, none,
  some, List, [], ◌∷◌, arith, if◌then◌else◌, Bool-cases, inl, inr,
}
use nslibrary.Common.Maps.{Map, get-set}
use nslibrary.Common.Maps
use nslibrary.Library.Verify.{
  VerifyMode, queued, cancelled, running, done, failed, VerifyTaskState, FileStatus, unknown,
  missing, present, VerifyTask, Entry, Job, Verifying, is_active, is_active_entry, trim_finished,
  publish, changed_entry, update, finish,
}
use nslibrary.Library.Verify.Events.{
  new_entry, enqueue, entry_of, begin, start, start_behind, cancel_found, next_of, count_quietly,
  progress_of, end_of, abort, cancel_entry, with_task, cancel, is_aborted, abort_all, close,
  take_next, counted, progress, Outcome, verified, broken, settle, end_job, Event, starting,
  cancelling, closing, taking, progressing, ending, waiting, happen, run,
  progress_event_interval_ms,
}

module _ {R : Type 0} where
  abbrev pub IsStopped : Option (Entry R) → Type 0
  IsStopped none = ⊥
  IsStopped (some e) = (e.aborted ≡ true) × (e.task.state ≡ cancelled)

  -- The entry of this number is there, aborted and cancelled.
  abbrev pub HasStopped : ℕ → Verifying R → Type 0
  HasStopped id s = IsStopped (Maps.get id s.entries) × (id < s.next_entry)

  -- An entry that takes the place of another.
  set-IsStopped :
      (k j : ℕ) (v : Entry R) (m : Map (Entry R))
      → (IsStopped (Maps.get k m) → IsStopped (some v))
      → IsStopped (Maps.get j m)
      → IsStopped (Maps.get j (Maps.set k v m))
  set-IsStopped k j v m new old = subst IsStopped (sym (get-set k j v m)) (either (k == j) refl)
    where
      either : (test : Bool) → (k == j) ≡ test → IsStopped (if test then some v else Maps.get j m)
      either true same =
          let e : j ≡ k = ground (arith, same) in new (subst (λ i. IsStopped (Maps.get i m)) e old)
      either false other = old

  update-HasStopped :
      (id j : ℕ) (o : Option (Entry R)) (patch : VerifyTask R → VerifyTask R) (s : Verifying R)
      → Maps.get id s.entries ≡ o
      → ((e : Entry R) → o ≡ some e → IsStopped (some e) → (patch e.task).state ≡ cancelled)
      → HasStopped j s
      → HasStopped j (update id o patch s)
  unfolding update publish changed_entry
  update-HasStopped id j none patch s at keeps h = h
  update-HasStopped id j (some e) patch s at keeps h = (
    set-IsStopped id j (changed_entry patch s.clock e) s.entries
        (λ old. let stopped = subst IsStopped at old in (stopped.0, keeps e refl stopped)) h.0,
    h.1,
  )

  finish-HasStopped :
      (id j : ℕ) (patch : VerifyTask R → VerifyTask R) (s : Verifying R)
      → ((e : Entry R)
          → Maps.get id s.entries ≡ some e
          → IsStopped (some e)
          → (patch e.task).state ≡ cancelled)
      → HasStopped j s
      → HasStopped j (finish id patch s)
  unfolding finish trim_finished
  finish-HasStopped id j patch s keeps h =
      update-HasStopped id j (Maps.get id s.entries) patch s refl keeps h

  abort-HasStopped :
      (id j : ℕ) (o : Option (Entry R)) (s : Verifying R)
      → Maps.get id s.entries ≡ o
      → HasStopped j s
      → HasStopped j (abort id o s)
  unfolding abort
  abort-HasStopped id j none s at h = h
  abort-HasStopped id j (some e) s at h = (
    set-IsStopped id j (record e { aborted = true }) s.entries
        (λ old. (refl, (subst IsStopped at old).1)) h.0,
    h.1,
  )

  abort_all-HasStopped :
      (j : ℕ) (tasks : Map ℕ) (s : Verifying R) → HasStopped j s → HasStopped j (abort_all tasks s)
  unfolding abort_all
  abort_all-HasStopped j [] s h = h
  abort_all-HasStopped j ((file_id, id) ∷ tasks) s h =
      abort_all-HasStopped j tasks (abort id (Maps.get id s.entries) s)
        (abort-HasStopped id j (Maps.get id s.entries) s refl h)

  cancel_entry-HasStopped :
      (id j : ℕ) (s : Verifying R) → HasStopped j s → HasStopped j (cancel_entry id s)
  unfolding cancel_entry
  cancel_entry-HasStopped id j s h =
      finish-HasStopped id j (λ task. record task { state = cancelled }) _ (λ e at stopped. refl)
        (abort-HasStopped id j (Maps.get id s.entries) s refl h)

  -- A new entry has a new number.
  enqueue-HasStopped :
      (file_id j : ℕ) (mode : VerifyMode) (s : Verifying R)
      → HasStopped j s
      → HasStopped j (enqueue file_id mode s)
  unfolding enqueue publish trim_finished
  enqueue-HasStopped file_id j mode s h =
      let other : (s.next_entry == j) ≡ false = ground (arith, h.1) in
      (
        subst IsStopped (sym (get-set s.next_entry j (new_entry file_id mode s.clock) s.entries)) (
            subst
              (λ test.
                IsStopped
                  (if test then some (new_entry file_id mode s.clock) else Maps.get j s.entries))
              (sym other) h.0),
        omega (arith, h.1),
      )

  begin-HasStopped :
      (status : FileStatus) (file_id j : ℕ) (mode : VerifyMode) (s : Verifying R)
      → HasStopped j s
      → HasStopped j (begin status file_id mode s).1
  unfolding begin
  begin-HasStopped unknown file_id j mode s h = h
  begin-HasStopped missing file_id j mode s h = h
  begin-HasStopped present file_id j mode s h = enqueue-HasStopped file_id j mode s h

  start_behind-HasStopped :
      (o : Option (Entry R)) (status : FileStatus) (file_id j : ℕ) (mode : VerifyMode)
      (s : Verifying R)
      → HasStopped j s
      → HasStopped j (start_behind o status file_id mode s).1
  unfolding start_behind
  start_behind-HasStopped none status file_id j mode s h =
      begin-HasStopped status file_id j mode s h
  start_behind-HasStopped (some e) status file_id j mode s h =
      elim (Bool-cases (is_active e.task.state)) [
        | inl active ↦ rw active h
        | inr over ↦ rw over (begin-HasStopped status file_id j mode s h)
      ]

  with_task-same : (o : Option (Entry R)) (s : Verifying R) → (with_task o s).1 ≡ s
  unfolding with_task
  with_task-same none s = refl
  with_task-same (some e) s = refl

  cancel_found-HasStopped :
      (o : Option ℕ) (j : ℕ) (s : Verifying R) → HasStopped j s → HasStopped j (cancel_found o s).1
  unfolding cancel_found
  cancel_found-HasStopped none j s h = h
  cancel_found-HasStopped (some id) j s h =
      elim (Bool-cases (is_active_entry (Maps.get id s.entries))) [
        | inl active ↦ rw active (
            subst (HasStopped j)
              (sym (with_task-same (Maps.get id (cancel_entry id s).entries) (cancel_entry id s)))
              (cancel_entry-HasStopped id j s h))
        | inr over ↦
            rw over (subst (HasStopped j) (sym (with_task-same (Maps.get id s.entries) s)) h)
      ]

  -- An entry that is not aborted has not stopped.
  going :
      (o : Option (Entry R)) (e : Entry R)
      → is_aborted o ≡ false
      → o ≡ some e
      → IsStopped (some e)
      → ⊥
  unfolding is_aborted
  going none e free at stopped = cc
  going (some d) e free at stopped =
      let same : d ≡ e = cc in
      let yes : d.aborted ≡ true = subst (λ (x : Entry R). x.aborted ≡ true) (sym same) stopped.0 in
      cc

  next_of-HasStopped :
      (job : Option (Job R)) (queue : List ℕ) (j : ℕ) (s : Verifying R)
      → HasStopped j s
      → HasStopped j (next_of job queue s)
  unfolding next_of
  next_of-HasStopped (some job) queue j s h = h
  next_of-HasStopped none [] j s h = h
  next_of-HasStopped none (id ∷ queue) j s h =
      elim (Bool-cases (is_aborted (Maps.get id s.entries))) [
        | inl aborted ↦ rw aborted h
        | inr free ↦ rw free (
            update-HasStopped id j (Maps.get id s.entries) (λ task. record task { state = running })
              (record s { queue = queue; job = some (record { entry = id; last_event = 0 }) }) refl
              (λ e at stopped. absurd (going (Maps.get id s.entries) e free at stopped)) h)
      ]

  count_quietly-HasStopped :
      (id j : ℕ) (o : Option (Entry R)) (bytes total : ℕ) (s : Verifying R)
      → Maps.get id s.entries ≡ o
      → HasStopped j s
      → HasStopped j (count_quietly id o bytes total s)
  unfolding count_quietly
  count_quietly-HasStopped id j none bytes total s at h = h
  count_quietly-HasStopped id j (some e) bytes total s at h = (
    set-IsStopped id j (changed_entry (counted bytes total) s.clock e) s.entries
        (λ old. subst IsStopped at old) h.0,
    h.1,
  )

  progress_of-HasStopped :
      (job : Option (Job R)) (bytes total real j : ℕ) (s : Verifying R)
      → HasStopped j s
      → HasStopped j (progress_of job bytes total real s)
  unfolding progress_of
  progress_of-HasStopped none bytes total real j s h = h
  progress_of-HasStopped (some job) bytes total real j s h =
      elim (Bool-cases (leb progress_event_interval_ms (real - job.last_event))) [
        | inl due ↦ rw due (
            update-HasStopped job.entry j (Maps.get job.entry s.entries) (counted bytes total) s
              refl (λ e at stopped. stopped.1) h)
        | inr soon ↦ rw soon (
            count_quietly-HasStopped job.entry j (Maps.get job.entry s.entries) bytes total s refl
              h)
      ]

  settle-HasStopped :
      (id j : ℕ) (outcome : Outcome R) (s : Verifying R)
      → is_aborted (Maps.get id s.entries) ≡ false
      → HasStopped j s
      → HasStopped j (settle id outcome s)
  unfolding settle
  settle-HasStopped id j (verified result) s free h =
      finish-HasStopped id j (λ task. record task { state = done; result = some result }) s
        (λ e at stopped. absurd (going (Maps.get id s.entries) e free at stopped)) h
  settle-HasStopped id j (broken error) s free h =
      finish-HasStopped id j (λ task. record task { state = failed; error = some error }) s
        (λ e at stopped. absurd (going (Maps.get id s.entries) e free at stopped)) h

  end_of-HasStopped :
      (job : Option (Job R)) (outcome : Outcome R) (j : ℕ) (s : Verifying R)
      → HasStopped j s
      → HasStopped j (end_of job outcome s)
  unfolding end_of
  end_of-HasStopped none outcome j s h = h
  end_of-HasStopped (some job) outcome j s h =
      elim (Bool-cases (is_aborted (Maps.get job.entry s.entries))) [
        | inl aborted ↦ rw aborted h
        | inr free ↦
            rw free (settle-HasStopped job.entry j outcome (record s { job = none }) free h)
      ]

  happen-HasStopped :
      (event : Event R) (j : ℕ) (s : Verifying R) → HasStopped j s → HasStopped j (happen event s)
  unfolding happen start cancel take_next progress end_job close
  happen-HasStopped (starting status file_id mode) j s h =
      start_behind-HasStopped (entry_of (Maps.get file_id s.tasks) s) status file_id j mode s h
  happen-HasStopped (cancelling file_id) j s h =
      cancel_found-HasStopped (Maps.get file_id s.tasks) j s h
  happen-HasStopped closing j s h = abort_all-HasStopped j s.tasks s h
  happen-HasStopped taking j s h = next_of-HasStopped s.job s.queue j s h
  happen-HasStopped (progressing bytes total real) j s h =
      progress_of-HasStopped s.job bytes total real j s h
  happen-HasStopped (ending outcome) j s h = end_of-HasStopped s.job outcome j s h
  happen-HasStopped (waiting clock) j s h = h

-- An entry that is aborted and cancelled stays so, whatever happens.
run-HasStopped :
    {R : Type 0} (events : List (Event R)) (id : ℕ) (s : Verifying R)
    → HasStopped id s
    → HasStopped id (run events s)
unfolding run
run-HasStopped [] id s h = h
run-HasStopped (event ∷ events) id s h =
    run-HasStopped events id (happen event s) (happen-HasStopped event id s h)

is_active_state :
    (state : VerifyTaskState) → (state ≡ queued) ⊎ (state ≡ running) → is_active state ≡ true
unfolding is_active
is_active_state state (inl e) = rw e refl
is_active_state state (inr e) = rw e refl

module _ {R : Type 0} where
  set_here : (k : ℕ) (v : Entry R) (m : Map (Entry R)) → Maps.get k (Maps.set k v m) ≡ some v
  set_here k v m = rw (get-set k k v m, ==_self k) refl

  -- What `cancel` leaves of an entry: it is aborted, and its task is cancelled.
  cancel_entry-stops :
      (id : ℕ) (s : Verifying R) (e : Entry R)
      → Maps.get id s.entries ≡ some e
      → id < s.next_entry
      → HasStopped id (cancel_entry id s)
  unfolding cancel_entry abort finish update trim_finished publish changed_entry
  cancel_entry-stops id s e at below =
      rw (at, set_here id (record e { aborted = true }) s.entries)
        (subst IsStopped (sym (set_here id _ _)) (refl, refl), below)

  cancel-HasStopped :
      (file_id id : ℕ) (s : Verifying R) (e : Entry R)
      → Maps.get file_id s.tasks ≡ some id
      → Maps.get id s.entries ≡ some e
      → (e.task.state ≡ queued) ⊎ (e.task.state ≡ running)
      → id < s.next_entry
      → HasStopped id (cancel file_id s).1
  unfolding cancel cancel_found
  cancel-HasStopped file_id id s e task at state below =
      let active : is_active_entry (Maps.get id s.entries) ≡ true =
        rw at (unfold is_active_entry in is_active_state e.task.state state) in
      rw (task, active)
        (subst (HasStopped id)
          (sym (with_task-same (Maps.get id (cancel_entry id s).entries) (cancel_entry id s)))
          (cancel_entry-stops id s e at below))

-- A verification that is cancelled while it is in the queue or running stays cancelled: whatever
-- calls, rounds of the queue, progress reports and results follow, its entry is aborted and its task
-- cancelled, also when its result comes late, its file is queued again, or the service closes. The
-- entry is the one that the map has for the file, and its number is one that was given out.
pub run-cancel :
    {R : Type 0} (events : List (Event R)) (file_id id : ℕ) (s : Verifying R) (e : Entry R)
    → Maps.get file_id s.tasks ≡ some id
    → Maps.get id s.entries ≡ some e
    → (e.task.state ≡ queued) ⊎ (e.task.state ≡ running)
    → id < s.next_entry
    → IsStopped (Maps.get id (run events (cancel file_id s).1).entries)
run-cancel events file_id id s e task at state below =
    (run-HasStopped events id (cancel file_id s).1
      (cancel-HasStopped file_id id s e task at state below)).0
