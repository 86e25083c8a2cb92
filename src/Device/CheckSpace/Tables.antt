-- ===== src/Device/CheckSpace/Tables.antt =====
-- The answer of `checkSpace` of packages/server/src/device/service.ts against the tables.
use nslibrary.Common.{
  ℕ, ◌+◌, ◌≤◌, ◌≡◌, refl, sym, ap, subst, Bool, ◌||◌, Option, none, some, List, [], ◌∷◌, inl, inr,
  Option-cases, map, find?, length, is_some, ◌==◌, filter, or_else, if◌then◌else◌,
}
use mathlib.Core.List.{Perm}
use nslibrary.Shared.Types.{InstallTarget}
use nslibrary.Device.Rows.{DeviceRow, ContentMetaRow, FileRow, JobRow}
use nslibrary.Device.Service.{Service, device_with}
use nslibrary.Device.Jobs.Places.{waits_for}
use nslibrary.Device.Space.{Placement, SpaceDemand, free_of}
use nslibrary.Device.Space.Capacity.{Within, fitted_bytes}
use nslibrary.Device.Space.Targets.{AllJustified, minus}
use nslibrary.Device.CheckSpace.{
  SpaceCheck, SpaceCheckItem, StorageUse, Item, check_items, check_item, no_placement, reported,
  items_of, use_of, joined, meta_of, reported,
}
use nslibrary.Device.CheckSpace.Answer.{all_fit}

-- What is shown of a storage is there exactly if the console reported it; the free bytes are those
-- that it reported, and they hold what the storage is used for.
abbrev pub IsShown : Option ℕ → Option StorageUse → Type 0
IsShown none none = Unit {0}
IsShown none (some u) = ⊥
IsShown (some free) none = ⊥
IsShown (some free) (some u) = (u.free ≡ free) × (u.queued + u.batch ≤ free)

abbrev pub batch_in : Option StorageUse → ℕ
batch_in none = 0
batch_in (some u) = u.batch

abbrev pub queued_in : Option StorageUse → ℕ
queued_in none = 0
queued_in (some u) = u.queued

-- The item is the title of this id, with the bytes of its install or else of its file.
abbrev pub IsItemOf : Service → ℕ → SpaceCheckItem → Type 0
IsItemOf s id i =
    (m : ContentMetaRow) × (file : FileRow) × (find? (λ (m : ContentMetaRow). m.id == id) s.metas
      ≡ some m)
    × (find? (λ (f : FileRow). f.id == m.file_id) s.files ≡ some file)
    × (i.content_meta_id ≡ m.id)
    × (i.bytes ≡ or_else m.install_size file.size)

abbrev pub AreItemsOf : Service → List ℕ → List SpaceCheckItem → Type 0
AreItemsOf s [] [] = Unit {0}
AreItemsOf s [] (i ∷ items) = ⊥
AreItemsOf s (id ∷ ids) [] = ⊥
AreItemsOf s (id ∷ ids) (i ∷ items) = IsItemOf s id i × AreItemsOf s ids items

-- The bytes of the items that fit.
abbrev pub fitting : List SpaceCheckItem → ℕ
fitting [] = 0
fitting (i ∷ items) = if i.fits then i.bytes + fitting items else fitting items

-- The bytes that a job takes: those of its title's install, if they are known, or else its own.
abbrev pub size_with : Option ContentMetaRow → ℕ → ℕ
size_with none size = size
size_with (some m) size = or_else m.install_size size

abbrev pub job_demand : Service → JobRow → SpaceDemand
job_demand s job = record {
  bytes = size_with (find? (λ (m : ContentMetaRow). m.id == job.content_meta_id) s.metas) job.size;
  target = job.target;
}

-- The answer, by the row of the console, the titles, and the jobs that wait or run.
pub record IsAnswer (s : Service) (device : ℕ) (ids : List ℕ) (a : SpaceCheck) : Type 0 where
  pub row : DeviceRow
  pub found : find? (device_with device) s.devices ≡ some row
  pub sd : IsShown row.sd_free a.sd
  pub nand : IsShown row.nand_free a.nand
  pub known : a.known ≡ (is_some row.sd_free || is_some row.nand_free)
  pub items : AreItemsOf s ids a.items
  pub batch : batch_in a.sd + batch_in a.nand ≡ (if a.known then fitting a.items else 0)
  pub jobs : List JobRow
  pub pending : Perm jobs (filter (waits_for row.id) s.jobs)
  pub count : a.queued_jobs ≡ length jobs
  pub placements : List Placement
  pub justified :
      AllJustified
        (record {
          sd = minus row.sd_free (queued_in a.sd);
          nand = minus row.nand_free (queued_in a.nand);
        })
        (map (job_demand s) jobs)
        placements
  pub queued : queued_in a.sd + queued_in a.nand ≡ fitted_bytes (map (job_demand s) jobs) placements
  pub fits : a.fits ≡ all_fit a.items

pub use_of-IsShown :
    (free total : Option ℕ) (queued batch : ℕ)
    → Within (free_of (reported free total)) queued batch
    → IsShown free (use_of (reported free total) queued batch)
      × (queued_in (use_of (reported free total) queued batch) ≡ queued)
      × (batch_in (use_of (reported free total) queued batch) ≡ batch)
use_of-IsShown none total queued batch h = (tt, sym h.0, sym h.1)
use_of-IsShown (some free) total queued batch h = ((refl, h), refl, refl)

pub free_of-reported : (free total : Option ℕ) → free_of (reported free total) ≡ free
free_of-reported none total = refl
free_of-reported (some free) total = refl

pub is_some-reported : (free total : Option ℕ) → is_some (reported free total) ≡ is_some free
is_some-reported none total = refl
is_some-reported (some free) total = refl

some_inj : {A : Type 0} {a b : A} → some a ≡ some b → a ≡ b
some_inj e = cc

-- The join of a title with its file.
joined-tables :
    (s : Service) (o : Option ContentMetaRow) (item : Item)
    → joined s o ≡ some item
    → (file : FileRow) × (o ≡ some item.title)
      × (find? (λ (f : FileRow). f.id == item.title.file_id) s.files ≡ some file)
      × (item.file_size ≡ file.size)
joined-tables s none item e = cc
joined-tables s (some m) item e =
    elim (Option-cases (find? (λ (f : FileRow). f.id == m.file_id) s.files)) [
      | inl gone ↦ let no : none ≡ some item = rw gone at e in cc
      | inr (file, there) ↦
          let same : some (record { title = m; file_size = file.size }) ≡ some item =
            rw there at e in
          subst
            (λ (i : Item).
              (f : FileRow) × (some m ≡ some i.title)
              × (find? (λ (f : FileRow). f.id == i.title.file_id) s.files ≡ some f)
              × (i.file_size ≡ f.size))
            (some_inj same) (file, refl, there, refl)
    ]

check_item-IsItemOf :
    (s : Service) (device id : ℕ) (target : InstallTarget) (known : Bool) (item : Item)
    (p : Placement)
    → joined s (meta_of s id) ≡ some item
    → IsItemOf s id (check_item device s target known item p)
unfolding check_item
check_item-IsItemOf s device id target known item p e =
    let (file, title, there, size) = joined-tables s (meta_of s id) item e in
    (item.title, file, title, there, refl, ap (or_else item.title.install_size) size)

check_items-AreItemsOf :
    (s : Service) (device : ℕ) (target : InstallTarget) (known : Bool) (id : ℕ) (ids : List ℕ)
    (item : Item) (rest : List Item) (ps : List Placement)
    → joined s (meta_of s id) ≡ some item
    → ((qs : List Placement) → AreItemsOf s ids (check_items device s target known rest qs))
    → AreItemsOf s (id ∷ ids) (check_items device s target known (item ∷ rest) ps)
unfolding check_items
check_items-AreItemsOf s device target known id ids item rest [] there others =
    (check_item-IsItemOf s device id target known item no_placement there, others [])
check_items-AreItemsOf s device target known id ids item rest (p ∷ ps) there others =
    (check_item-IsItemOf s device id target known item p there, others ps)

pub items-AreItemsOf :
    (s : Service) (device : ℕ) (target : InstallTarget) (known : Bool) (ids : List ℕ)
    (items : List Item) (ps : List Placement)
    → items_of s ids ≡ some items
    → AreItemsOf s ids (check_items device s target known items ps)
unfolding items_of
items-AreItemsOf s device target known [] items ps e =
    let same : ◌≡◌ {A = Option (List Item)} (some []) (some items) = unfold items_of in e in
    subst (λ (l : List Item). AreItemsOf s [] (check_items device s target known l ps))
      (some_inj same) (unfold check_items in tt)
items-AreItemsOf s device target known (id ∷ ids) items ps e =
    elim (Option-cases (joined s (meta_of s id))) [
      | inl gone ↦ let no : none ≡ some items = rw gone at e in cc
      | inr (item, there) ↦ elim (Option-cases (items_of s ids)) [
        | inl gone ↦ let no : none ≡ some items = rw (there, gone) at e in cc
        | inr (rest, others) ↦
            let found : some (item ∷ rest) ≡ some items = rw (there, others) at e in
            subst
              (λ (l : List Item). AreItemsOf s (id ∷ ids) (check_items device s target known l ps))
              (some_inj found)
              (check_items-AreItemsOf s device target known id ids item rest ps there
                (λ qs. items-AreItemsOf s device target known ids rest qs others))
      ]
    ]
