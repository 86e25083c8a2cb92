-- ===== src/Library/Verify.antt =====
-- `VerifyService` of packages/server/src/library/verify-service.ts. Entries are shared objects: the
-- map of tasks and the queue hold their numbers, and an entry that the map has dropped lives on in
-- the queue. The queue is p-queue with a concurrency of 1, which runs what was added in its order;
-- a task is taken to start after the call that adds it.
-- `R` is the result of a verification, and `FileStatus` what the repository says of a file.
pub mod Events
pub mod Final
mod Runs
use nslibrary.Common.{
  ℕ, ◌+◌, ◌-◌, Bool, true, false, ◌||◌, not, Option, none, some, List, [], ◌∷◌, ◌++◌, map, filter,
  length, leb, if◌then◌else◌, String, Result, ok, err, Action, not_found, file_missing,
}
use nslibrary.Common.Maps.{Map}
use nslibrary.Common.Maps

abbrev pub max_finished_tasks : ℕ
max_finished_tasks = 200

pub data VerifyMode : Type 0 where
  quick full : VerifyMode

pub data VerifyTaskState : Type 0 where
  queued running done failed cancelled : VerifyTaskState

pub data FileStatus : Type 0 where
  unknown missing present : FileStatus

module _ (R : Type 0) where
  pub record VerifyTask : Type 0 where
    pub file_id : ℕ
    pub mode : VerifyMode
    pub state : VerifyTaskState
    pub bytes_done : ℕ
    pub bytes_total : ℕ
    pub result : Option R
    pub error : Option String
    pub started_at : ℕ
    pub updated_at : ℕ

  pub record Entry : Type 0 where
    pub task : VerifyTask
    pub aborted : Bool

  -- The entry that runs, with the time of its last progress event.
  pub record Job : Type 0 where
    pub entry : ℕ
    pub last_event : ℕ

  pub record Verifying : Type 0 where
    pub clock : ℕ
    pub entries : Map Entry
    pub next_entry : ℕ
    pub tasks : Map ℕ
    pub queue : List ℕ
    pub job : Option Job
    pub published : List VerifyTask
    pub library_changes : ℕ

unfoldable pub is_active : VerifyTaskState → Bool
is_active queued = true
is_active running = true
is_active done = false
is_active failed = false
is_active cancelled = false

module _ {R : Type 0} where
  unfoldable pub is_active_entry : Option (Entry R) → Bool
  unfolding is_active
  is_active_entry none = false
  is_active_entry (some e) = is_active e.task.state

  -- Whether the map's entry of a number is finished.
  unfoldable pub is_finished : Map (Entry R) → ℕ × ℕ → Bool
  unfolding is_active_entry
  is_finished entries (file_id, entry) = not (is_active_entry (Maps.get entry entries))

  -- The loop of `#trimFinished`, with the number of finished tasks that are left.
  unfoldable pub trim : Map (Entry R) → ℕ → Map ℕ → Map ℕ
  unfolding is_finished
  trim entries finished [] = []
  trim entries finished (t ∷ tasks) =
      let fewer = trim entries (finished - 1) tasks in
      let rest = trim entries finished tasks in
      if leb finished max_finished_tasks
      then t ∷ tasks
      else if not (is_finished entries t)
      then t ∷ rest
      else fewer

  unfoldable pub trim_finished : Verifying R → Verifying R
  unfolding trim
  trim_finished s = record s {
    tasks = trim s.entries (length (filter (is_finished s.entries) s.tasks)) s.tasks;
  }

  unfoldable pub publish : Entry R → Verifying R → Verifying R
  publish e s = record s { published = s.published ++ (e.task ∷ []) }

  unfoldable pub changed_entry : (VerifyTask R → VerifyTask R) → ℕ → Entry R → Entry R
  changed_entry patch now e = record e { task = record (patch e.task) { updated_at = now } }

  -- `entry.task = …` and `#publish(entry)`
  unfoldable pub update :
      ℕ → Option (Entry R) → (VerifyTask R → VerifyTask R) → Verifying R → Verifying R
  unfolding changed_entry publish
  update id none patch s = s
  update id (some e) patch s =
      publish (changed_entry patch s.clock e)
        (record s { entries = Maps.set id (changed_entry patch s.clock e) s.entries })

  unfoldable pub finish : ℕ → (VerifyTask R → VerifyTask R) → Verifying R → Verifying R
  unfolding update trim_finished
  finish id patch s = trim_finished (update id (Maps.get id s.entries) patch s)
