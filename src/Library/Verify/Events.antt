-- ===== src/Library/Verify/Events.antt =====
-- What happens to packages/server/src/library/verify-service.ts: its methods, and the rounds of the
-- task that the queue runs.
use nslibrary.Common.{
  ℕ, ◌+◌, ◌-◌, Bool, true, false, Option, none, some, List, [], ◌∷◌, ◌++◌, leb, if◌then◌else◌,
  String, Result, ok, err, not_found, file_missing,
}
use nslibrary.Common.Maps.{Map}
use nslibrary.Common.Maps
use nslibrary.Library.Verify.{
  VerifyMode, queued, running, done, failed, cancelled, FileStatus, unknown, missing, present,
  VerifyTask, Entry, Job, Verifying, is_active, is_active_entry, trim_finished, publish,
  changed_entry, update, finish,
}

abbrev pub progress_event_interval_ms : ℕ
progress_event_interval_ms = 500

-- `#verify` is over: with a result, or with an error.
pub data Outcome (R : Type 0) : Type 0 where
  verified : R → Outcome R
  broken : String → Outcome R

module _ {R : Type 0} where
  unfoldable pub new_entry : ℕ → VerifyMode → ℕ → Entry R
  new_entry file_id mode now = record {
    task = record {
      file_id = file_id;
      mode = mode;
      state = queued;
      bytes_done = 0;
      bytes_total = 0;
      result = none;
      error = none;
      started_at = now;
      updated_at = now;
    };
    aborted = false;
  }

  unfoldable pub enqueue : ℕ → VerifyMode → Verifying R → Verifying R
  unfolding new_entry trim_finished publish
  enqueue file_id mode s =
      let e = new_entry file_id mode s.clock in
      let added = trim_finished (record s {
        entries = Maps.set s.next_entry e s.entries;
        next_entry = s.next_entry + 1;
        tasks = Maps.set file_id s.next_entry (Maps.delete file_id s.tasks);
      }) in
      record (publish e added) { queue = added.queue ++ (s.next_entry ∷ []) }

  -- The entry that the map has for a file.
  unfoldable pub entry_of : Option ℕ → Verifying R → Option (Entry R)
  entry_of none s = none
  entry_of (some id) s = Maps.get id s.entries

  unfoldable pub begin :
      FileStatus → ℕ → VerifyMode → Verifying R → Result (VerifyTask R) × Verifying R
  unfolding enqueue new_entry
  begin unknown file_id mode s = (err not_found, s)
  begin missing file_id mode s = (err file_missing, s)
  begin present file_id mode s = (ok (new_entry file_id mode s.clock).task, enqueue file_id mode s)

  unfoldable pub start_behind :
      Option (Entry R)
      → FileStatus
      → ℕ
      → VerifyMode
      → Verifying R
      → Result (VerifyTask R) × Verifying R
  unfolding is_active begin
  start_behind none status file_id mode s = begin status file_id mode s
  start_behind (some e) status file_id mode s =
      if is_active e.task.state then (ok e.task, s) else begin status file_id mode s

  unfoldable pub start :
      FileStatus → ℕ → VerifyMode → Verifying R → Result (VerifyTask R) × Verifying R
  unfolding entry_of start_behind
  start status file_id mode s =
      start_behind (entry_of (Maps.get file_id s.tasks) s) status file_id mode s

  unfoldable pub abort : ℕ → Option (Entry R) → Verifying R → Verifying R
  abort id none s = s
  abort id (some e) s = record s { entries = Maps.set id (record e { aborted = true }) s.entries }

  unfoldable pub cancel_entry : ℕ → Verifying R → Verifying R
  unfolding abort finish
  cancel_entry id s =
      finish id (λ task. record task { state = cancelled }) (abort id (Maps.get id s.entries) s)

  -- A state with the task that an entry has in it.
  unfoldable pub with_task : Option (Entry R) → Verifying R → Result (VerifyTask R) × Verifying R
  with_task none s = (err not_found, s)
  with_task (some e) s = (ok e.task, s)

  unfoldable pub cancel_found : Option ℕ → Verifying R → Result (VerifyTask R) × Verifying R
  unfolding is_active_entry cancel_entry with_task
  cancel_found none s = (err not_found, s)
  cancel_found (some id) s =
      let over = cancel_entry id s in
      if is_active_entry (Maps.get id s.entries)
      then with_task (Maps.get id over.entries) over
      else with_task (Maps.get id s.entries) s

  unfoldable pub cancel : ℕ → Verifying R → Result (VerifyTask R) × Verifying R
  unfolding cancel_found
  cancel file_id s = cancel_found (Maps.get file_id s.tasks) s

  unfoldable pub is_aborted : Option (Entry R) → Bool
  is_aborted none = false
  is_aborted (some e) = e.aborted

  unfoldable pub abort_all : Map ℕ → Verifying R → Verifying R
  unfolding abort
  abort_all [] s = s
  abort_all ((file_id, id) ∷ tasks) s = abort_all tasks (abort id (Maps.get id s.entries) s)

  unfoldable pub close : Verifying R → Verifying R
  unfolding abort_all
  close s = record (abort_all s.tasks s) { queue = [] }

  -- The queue starts what it holds first, where nothing runs: an aborted entry is over at once.
  unfoldable pub next_of : Option (Job R) → List ℕ → Verifying R → Verifying R
  unfolding is_aborted update
  next_of (some job) queue s = s
  next_of none [] s = s
  next_of none (id ∷ queue) s =
      if is_aborted (Maps.get id s.entries)
      then record s { queue = queue }
      else update id (Maps.get id s.entries) (λ task. record task { state = running })
          (record s { queue = queue; job = some (record { entry = id; last_event = 0 }) })

  unfoldable pub take_next : Verifying R → Verifying R
  unfolding next_of
  take_next s = next_of s.job s.queue s

  unfoldable pub counted : ℕ → ℕ → VerifyTask R → VerifyTask R
  counted bytes total task = record task { bytes_done = bytes; bytes_total = total }

  unfoldable pub count_quietly : ℕ → Option (Entry R) → ℕ → ℕ → Verifying R → Verifying R
  unfolding changed_entry counted
  count_quietly id none bytes total s = s
  count_quietly id (some e) bytes total s = record s {
    entries = Maps.set id (changed_entry (counted bytes total) s.clock e) s.entries;
  }

  -- `onProgress`: `real` is what `Date.now()` returns, which need not be the service's clock.
  unfoldable pub progress_of : Option (Job R) → ℕ → ℕ → ℕ → Verifying R → Verifying R
  unfolding counted update count_quietly
  progress_of none bytes total real s = s
  progress_of (some job) bytes total real s =
      if leb progress_event_interval_ms (real - job.last_event)
      then record (update job.entry (Maps.get job.entry s.entries) (counted bytes total) s) {
        job = some (record job { last_event = real });
      }
      else count_quietly job.entry (Maps.get job.entry s.entries) bytes total s

  unfoldable pub progress : ℕ → ℕ → ℕ → Verifying R → Verifying R
  unfolding progress_of
  progress bytes total real s = progress_of s.job bytes total real s

  unfoldable pub settle : ℕ → Outcome R → Verifying R → Verifying R
  unfolding finish
  settle id (verified result) s =
      let over = finish id (λ task. record task { state = done; result = some result }) s in
      record over { library_changes = over.library_changes + 1 }
  settle id (broken error) s =
      finish id (λ task. record task { state = failed; error = some error }) s

  unfoldable pub end_of : Option (Job R) → Outcome R → Verifying R → Verifying R
  unfolding is_aborted settle
  end_of none outcome s = s
  end_of (some job) outcome s =
      if is_aborted (Maps.get job.entry s.entries)
      then record s { job = none }
      else settle job.entry outcome (record s { job = none })

  unfoldable pub end_job : Outcome R → Verifying R → Verifying R
  unfolding end_of
  end_job outcome s = end_of s.job outcome s

pub data Event (R : Type 0) : Type 0 where
  starting : FileStatus → ℕ → VerifyMode → Event R
  cancelling : ℕ → Event R
  closing : Event R
  taking : Event R
  progressing : ℕ → ℕ → ℕ → Event R
  ending : Outcome R → Event R
  waiting : ℕ → Event R

module _ {R : Type 0} where
  unfoldable pub happen : Event R → Verifying R → Verifying R
  unfolding start cancel close take_next progress end_job
  happen (starting status file_id mode) s = (start status file_id mode s).1
  happen (cancelling file_id) s = (cancel file_id s).1
  happen closing s = close s
  happen taking s = take_next s
  happen (progressing bytes total real) s = progress bytes total real s
  happen (ending outcome) s = end_job outcome s
  happen (waiting clock) s = record s { clock = clock }

  unfoldable pub run : List (Event R) → Verifying R → Verifying R
  unfolding happen
  run [] s = s
  run (event ∷ events) s = run events (happen event s)
