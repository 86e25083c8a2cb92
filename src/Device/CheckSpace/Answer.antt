-- ===== src/Device/CheckSpace/Answer.antt =====
-- The verdict of `checkSpace` of packages/server/src/device/service.ts on a batch.
use nslibrary.Common.{
  ℕ, ◌+◌, ◌≤◌, ◌≡◌, refl, sym, ap, subst, ◌∙◌, Bool, true, false, ◌&&◌, ◌||◌, not, Option, none,
  some, List, [], ◌∷◌, arith, inl, inr, Option-cases, map, find?, all, length, length-map, is_some,
  ◌==◌,
}
use nslibrary.Shared.Types.{InstallTarget}
use nslibrary.Device.Rows.{DeviceRow, ContentMetaRow, FileRow}
use nslibrary.Device.Service.{Service}
use nslibrary.Device.Space.{Placement, plan_space, SpaceDemand, free_of}
use nslibrary.Device.Space.Capacity.{Within, plan_space-Within, plan_space-fitted_bytes}
use nslibrary.Device.CheckSpace.{
  SpaceCheckItem, StorageUse, Item, answer_of, plan_of, check_items, check_item, items_of, space_of,
  use_of, bytes_of, demand_of, pending_jobs, joined, meta_of,
}

-- What a storage is used for is in its free bytes.
abbrev pub UseFits : Option StorageUse → Type 0
UseFits none = Unit {0}
UseFits (some u) = u.queued + u.batch ≤ u.free

-- The verdict on the batch is that on its items.
abbrev pub all_fit : List SpaceCheckItem → Bool
all_fit items = all (λ (i : SpaceCheckItem). i.fits) items

items-fit :
    (device : ℕ) (s : Service) (target : InstallTarget) (known : Bool) (items : List Item)
    (ps : List Placement)
    → length ps ≡ length items
    → all_fit (check_items device s target known items ps)
      ≡ (not known || all (λ (p : Placement). p.fits) ps)
unfolding check_items check_item
items-fit device s target known [] [] e = ground arith
items-fit device s target known [] (p ∷ ps) e = absurd (omega (arith, e))
items-fit device s target known (i ∷ items) [] e = absurd (omega (arith, e))
items-fit device s target true (i ∷ items) (p ∷ ps) e =
    ap (λ b. p.fits && b) (items-fit device s target true items ps (omega (arith, e)))
items-fit device s target false (i ∷ items) (p ∷ ps) e =
    items-fit device s target false items ps (omega (arith, e))

items-length :
    (device : ℕ) (s : Service) (target : InstallTarget) (known : Bool) (items : List Item)
    (ps : List Placement)
    → map (λ (i : SpaceCheckItem). i.content_meta_id) (check_items device s target known items ps)
      ≡ map (λ (i : Item). i.title.id) items
unfolding check_items check_item
items-length device s target known [] ps = refl
items-length device s target known (i ∷ items) [] =
    ap (◌∷◌ i.title.id) (items-length device s target known items [])
items-length device s target known (i ∷ items) (p ∷ ps) =
    ap (◌∷◌ i.title.id) (items-length device s target known items ps)

find-meta :
    (id : ℕ) (metas : List ContentMetaRow) (m : ContentMetaRow)
    → find? (λ (r : ContentMetaRow). r.id == id) metas ≡ some m
    → m.id ≡ id
find-meta id [] m e = cc
find-meta id (r ∷ rows) m e = ground (arith, find-meta id rows m)

joined-id :
    (s : Service) (id : ℕ) (o : Option ContentMetaRow) (item : Item)
    → ((m : ContentMetaRow) → o ≡ some m → m.id ≡ id)
    → joined s o ≡ some item
    → item.title.id ≡ id
joined-id s id none item h e = cc
joined-id s id (some m) item h e =
    elim (Option-cases (find? (λ (f : FileRow). f.id == m.file_id) s.files)) [
      | inl gone ↦ let no : none ≡ some item = rw gone at e in cc
      | inr (file, there) ↦
          let same : some (record { title = m; file_size = file.size }) ≡ some item =
            rw there at e in
          let title : m.id ≡ item.title.id = ground (arith, same) in sym title ∙ h m refl
    ]

items-ids :
    (s : Service) (ids : List ℕ) (items : List Item)
    → items_of s ids ≡ some items
    → map (λ (i : Item). i.title.id) items ≡ ids
unfolding items_of
items-ids s [] items e =
    let same : ◌≡◌ {A = List Item} [] items = ground (arith, e) in
    subst (λ (l : List Item). map (λ (i : Item). i.title.id) l ≡ []) same refl
items-ids s (id ∷ ids) items e = elim (Option-cases (joined s (meta_of s id))) [
  | inl gone ↦ let no : none ≡ some items = rw gone at e in cc
  | inr (item, there) ↦ elim (Option-cases (items_of s ids)) [
    | inl gone ↦ let no : none ≡ some items = rw (there, gone) at e in cc
    | inr (rest, others) ↦
        let found : some (item ∷ rest) ≡ some items = rw (there, others) at e in
        let same : item ∷ rest ≡ items = ground (arith, found) in
        let first : item.title.id ≡ id =
          joined-id s id (meta_of s id) item (λ m. find-meta id s.metas m) there in
        subst (λ (l : List Item). map (λ (i : Item). i.title.id) l ≡ id ∷ ids) same
          (rw first (ap (◌∷◌ id) (items-ids s ids rest others)))
  ]
]

use-fits :
    (o : Option (ℕ × ℕ)) (queued batch : ℕ)
    → Within (free_of o) queued batch
    → UseFits (use_of o queued batch)
use-fits none queued batch w = tt
use-fits (some (free, total)) queued batch w = w

-- What the answer says, whatever the items are.
pub answer-facts :
    (row : DeviceRow) (s : Service) (items : List Item) (target : InstallTarget)
    → UseFits (answer_of row s items target).sd
      × UseFits (answer_of row s items target).nand
      × (map (λ (i : SpaceCheckItem). i.content_meta_id) (answer_of row s items target).items
          ≡ map (λ (i : Item). i.title.id) items)
      × ((answer_of row s items target).fits ≡ all_fit (answer_of row s items target).items)
unfolding answer_of plan_of
answer-facts row s items target =
    let batch : List SpaceDemand =
      map (λ (item : Item). record { bytes = bytes_of item; target = target }) items in
    let pending : List SpaceDemand = map (demand_of s) (pending_jobs row.id s) in
    let plan = plan_space (space_of row) pending batch in
    let known = is_some (space_of row).sd || is_some (space_of row).nand in
    let (sd, nand) = plan_space-Within (space_of row) pending batch in
    let placed : length plan.placements ≡ length items =
      (plan_space-fitted_bytes (space_of row) pending batch).0
      ∙ length-map (λ (item : Item). record { bytes = bytes_of item; target = target }) items in
    (
      use-fits (space_of row).sd plan.queued.sd plan.batch.sd sd,
      use-fits (space_of row).nand plan.queued.nand plan.batch.nand nand,
      items-length row.id s target known items plan.placements,
      sym (items-fit row.id s target known items plan.placements placed),
    )
