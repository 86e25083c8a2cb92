-- ===== src/Library/Verify/Runs.antt =====
-- Verifications that are queued, run and cancelled.
use nslibrary.Common.{ℕ, ◌≡◌, ◌<◌, refl, some, inr, arith, none, false, List, [], ◌∷◌, map}
use nslibrary.Common.Maps
use nslibrary.Library.Verify.{
  VerifyTask, VerifyTaskState, quick, queued, running, done, cancelled, present, Verifying, Entry,
}
use nslibrary.Library.Verify.Events.{
  Event, verified, starting, taking, progressing, ending, run, cancel,
}
use nslibrary.Library.Verify.Final.{IsStopped, run-cancel}

abbrev idle : Verifying ℕ
idle = record {
  clock = 1000;
  entries = [];
  next_entry = 0;
  tasks = [];
  queue = [];
  job = none;
  published = [];
  library_changes = 0;
}

-- The states in the order in which they were published.
abbrev states : Verifying ℕ → List VerifyTaskState
states s = map (λ (task : VerifyTask ℕ). task.state) s.published

one_file :
    states (run (starting present 7 quick ∷ taking ∷ ending (verified 5) ∷ []) idle)
    ≡ queued ∷ running ∷ done ∷ []
unfolding run Maps.get Maps.set Maps.delete
one_file = refl

-- The file while it is read.
abbrev reading : Verifying ℕ
unfolding run Maps.get Maps.set Maps.delete
reading = run (starting present 7 quick ∷ taking ∷ []) idle

-- The file is queued again while the old round still reports, and that round ends.
abbrev late : List (Event ℕ)
late = starting present 7 quick ∷ progressing 1 2 9000 ∷ ending (verified 5) ∷ taking ∷ []

abbrev first_entry : Entry ℕ
first_entry = record {
  task = record {
    file_id = 7;
    mode = quick;
    state = running;
    bytes_done = 0;
    bytes_total = 0;
    result = none;
    error = none;
    started_at = 1000;
    updated_at = 1000;
  };
  aborted = false;
}

file_is_known : Maps.get 7 reading.tasks ≡ some 0
unfolding run reading Maps.get Maps.set Maps.delete
file_is_known = refl

entry_is_known : Maps.get 0 reading.entries ≡ some first_entry
unfolding run reading Maps.get Maps.set Maps.delete
entry_is_known = refl

given_out : 0 < reading.next_entry
unfolding run reading Maps.get Maps.set Maps.delete
given_out = omega arith

run-cancel_example : IsStopped (Maps.get 0 (run late (cancel 7 reading).1).entries)
run-cancel_example =
    run-cancel late 7 0 reading first_entry file_is_known entry_is_known (inr refl) given_out

-- The report of the round that was cancelled is published behind that of the new task.
late_report :
    states (run late (cancel 7 reading).1)
    ≡ queued ∷ running ∷ cancelled ∷ queued ∷ cancelled ∷ running ∷ []
unfolding run reading cancel Maps.get Maps.set Maps.delete
late_report = refl
