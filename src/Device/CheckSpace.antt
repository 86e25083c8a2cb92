-- ===== src/Device/CheckSpace.antt =====
-- `checkSpace` of packages/server/src/device/service.ts, which gives `planSpace` what the tables say.
pub mod Answer
pub mod Tables
pub mod Whole
mod Runs
use nslibrary.Common.{
  ℕ, ◌+◌, Bool, true, false, ◌&&◌, ◌||◌, not, Option, none, some, List, [], ◌∷◌, map, filter, find?,
  any, all, length, ◌==◌, or_else, is_some, String, str_eq, if◌then◌else◌, Result, ok, err, Action,
  pure, throw, gets, or_throw, lift, ◌>>=◌, not_found,
}
use nslibrary.Common.Sort.{sort}
use nslibrary.Shared.Types.{ContentMetaType, Storage, InstallTarget}
use nslibrary.Device.Rows.{DeviceRow, JobRow, ContentMetaRow, FileRow, DeviceTitleRow}
use nslibrary.Device.Service.{Service, require_device_row}
use nslibrary.Device.Jobs.{holds_place}
use nslibrary.Device.Jobs.Queue.{before_in_queue}
use nslibrary.Device.Space.{
  ReportedSpace, SpaceDemand, Placement, SpacePlan, PerStorage, at, plan_space,
}

pub record StorageUse : Type 0 where
  pub free : ℕ
  pub total : ℕ
  pub queued : ℕ
  pub batch : ℕ

pub record SpaceCheckItem : Type 0 where
  pub content_meta_id : ℕ
  pub title_id : String
  pub type : ContentMetaType
  pub version : Option ℕ
  pub name : String
  pub bytes : ℕ
  pub estimated : Bool
  pub storage : Option Storage
  pub fits : Bool
  pub installed : Bool

pub record SpaceCheck : Type 0 where
  pub device_id : ℕ
  pub target : InstallTarget
  pub known : Bool
  pub sd : Option StorageUse
  pub nand : Option StorageUse
  pub items : List SpaceCheckItem
  pub queued_jobs : ℕ
  pub fits : Bool

-- Free and total bytes of a storage; the total is the free bytes if it is not there.
abbrev pub reported : Option ℕ → Option ℕ → Option (ℕ × ℕ)
reported none total = none
reported (some free) total = some (free, or_else total free)

unfoldable pub space_of : DeviceRow → ReportedSpace
space_of row = record {
  sd = reported row.sd_free row.sd_total;
  nand = reported row.nand_free row.nand_total;
}

-- The install size of the title that a job is for, if the title is still there.
abbrev pub size_in : Option ContentMetaRow → Option ℕ
size_in none = none
size_in (some m) = m.install_size

abbrev pub meta_of : Service → ℕ → Option ContentMetaRow
meta_of s id = find? (λ (m : ContentMetaRow). m.id == id) s.metas

unfoldable pub demand_of : Service → JobRow → SpaceDemand
demand_of s job = record {
  bytes = or_else (size_in (meta_of s job.content_meta_id)) job.size;
  target = job.target;
}

-- The jobs that wait or run, in the order of the queue.
unfoldable pub pending_jobs : ℕ → Service → List JobRow
pending_jobs device s = sort before_in_queue (filter (holds_place device) s.jobs)

-- A title with its file: the inner join.
pub record Item : Type 0 where
  pub title : ContentMetaRow
  pub file_size : ℕ

abbrev pub with_file : ContentMetaRow → Option FileRow → Option Item
with_file m none = none
with_file m (some file) = some (record { title = m; file_size = file.size })

abbrev pub joined : Service → Option ContentMetaRow → Option Item
joined s none = none
joined s (some m) = with_file m (find? (λ (f : FileRow). f.id == m.file_id) s.files)

abbrev pub cons_item : Option Item → Option (List Item) → Option (List Item)
cons_item none items = none
cons_item (some item) none = none
cons_item (some item) (some items) = some (item ∷ items)

-- The items of the ids, in their order; `none` if one is not in the library.
unfoldable pub items_of : Service → List ℕ → Option (List Item)
items_of s [] = some []
items_of s (id ∷ ids) = cons_item (joined s (meta_of s id)) (items_of s ids)

abbrev pub bytes_of : Item → ℕ
bytes_of item = or_else item.title.install_size item.file_size

-- The console has the title with this version (0 if it is not known).
unfoldable pub is_installed : ℕ → Service → ContentMetaRow → Bool
is_installed device s m =
    any
      (λ (t : DeviceTitleRow).
        (t.device_id == device)
        && str_eq t.title_id m.title_id
        && (t.version == or_else m.version 0))
      s.device_titles

abbrev pub fixed_storage : InstallTarget → Option Storage
fixed_storage InstallTarget.auto = none
fixed_storage InstallTarget.sd = some Storage.sd
fixed_storage InstallTarget.nand = some Storage.nand

abbrev pub no_placement : Placement
no_placement = record { storage = none; fits = false }

unfoldable pub check_item : ℕ → Service → InstallTarget → Bool → Item → Placement → SpaceCheckItem
unfolding is_installed
check_item device s target known item placement = record {
  content_meta_id = item.title.id;
  title_id = item.title.title_id;
  type = item.title.type;
  version = item.title.version;
  name = item.title.display_name;
  bytes = bytes_of item;
  estimated = not (is_some item.title.install_size);
  storage = if known then placement.storage else fixed_storage target;
  fits = if known then placement.fits else true;
  installed = is_installed device s item.title;
}

-- `plan.placements[index] ?? { storage: null, fits: false }`
unfoldable pub check_items :
    ℕ → Service → InstallTarget → Bool → List Item → List Placement → List SpaceCheckItem
unfolding check_item
check_items device s target known [] placements = []
check_items device s target known (item ∷ items) [] =
    check_item device s target known item no_placement ∷ check_items device s target known items []
check_items device s target known (item ∷ items) (p ∷ ps) =
    check_item device s target known item p ∷ check_items device s target known items ps

abbrev pub use_of : Option (ℕ × ℕ) → ℕ → ℕ → Option StorageUse
use_of none queued batch = none
use_of (some (free, total)) queued batch =
    some (record { free = free; total = total; queued = queued; batch = batch })

unfoldable pub plan_of : DeviceRow → Service → List Item → InstallTarget → SpacePlan
unfolding space_of pending_jobs demand_of
plan_of row s items target =
    plan_space (space_of row) (map (demand_of s) (pending_jobs row.id s))
      (map (λ (item : Item). record { bytes = bytes_of item; target = target }) items)

-- The answer for a console that was found; `row.id` is `deviceId`.
unfoldable pub answer_of : DeviceRow → Service → List Item → InstallTarget → SpaceCheck
unfolding plan_of check_items
answer_of row s items target =
    let plan = plan_of row s items target in
    let space = space_of row in
    let known = is_some space.sd || is_some space.nand in
    record {
      device_id = row.id;
      target = target;
      known = known;
      sd = use_of space.sd plan.queued.sd plan.batch.sd;
      nand = use_of space.nand plan.queued.nand plan.batch.nand;
      items = check_items row.id s target known items plan.placements;
      queued_jobs = length (pending_jobs row.id s);
      fits = not known || all (λ (p : Placement). p.fits) plan.placements;
    }

unfoldable pub check_space : ℕ → List ℕ → InstallTarget → Action Service SpaceCheck
unfolding answer_of items_of
check_space device ids target = do
  row ← require_device_row device
  found ← gets (λ s. items_of s ids)
  items ← or_throw found not_found
  gets (λ s. answer_of row s items target)
