-- ===== src/Device/Jobs/Order.antt =====
-- `reorderJobs` of packages/server/src/device/service.ts: the places that it gives.
mod Runs
use nslibrary.Common.{
  ℕ, zero, suc, ◌+◌, ◌≡◌, ◌≢◌, refl, sym, ap, subst, ◌∙◌, Bool, true, false, ◌&&◌, ◌||◌, not,
  Option, none, some, List, [], ◌∷◌, arith, inl, inr, Bool-cases, Option-cases, ◌==◌, if◌then◌else◌,
  All, find?, any, length, filter, map, is_some, get_elem?, Result, ok, err, bad_request, ◌>>=◌,
  ◌>>◌, require,
}
use nslibrary.Shared.Types.{WebJob}
use nslibrary.Device.Rows.{JobRow, DeviceRow}
use nslibrary.Device.Service.{
  Service, update_job, job_with, device_with, require_active_device, require_device_row,
}
use nslibrary.Device.Jobs.Table.{find, find-update_job, map_row}
use nslibrary.Device.Jobs.Queue.{
  place_all, moved_row, queued_of, is_wrong_list, reorder_jobs, list_jobs,
}

abbrev pub Distinct : List ℕ → Type 0
Distinct [] = Unit {0}
Distinct (id ∷ ids) = All (λ (other : ℕ). other ≢ id) ids × Distinct ids

place_all-other :
    (now position j : ℕ) (ids : List ℕ) (rows : List JobRow)
    → All (λ (id : ℕ). id ≢ j) ids
    → find j (place_all now position ids rows) ≡ find j rows
unfolding place_all moved_row
place_all-other now position j [] rows h = refl
place_all-other now position j (id ∷ ids) rows h =
    let miss : (id == j) ≡ false = ground (arith, h.0) in
    place_all-other now (position + 1) j ids (update_job id (moved_row now position) rows) h.1
    ∙ find-update_job id j (moved_row now position) rows (λ r. refl)
    ∙ rw miss refl

All-get_elem? :
    (P : ℕ → Type 0) (ids : List ℕ) (k id : ℕ) → All P ids → get_elem? ids k ≡ some id → P id
All-get_elem? P [] k id h e = cc
All-get_elem? P (i ∷ ids) zero id h e = subst P (ground (arith, e)) h.0
All-get_elem? P (i ∷ ids) (suc k) id h e = All-get_elem? P ids k id h.1 e

place_all-at :
    (now position k id : ℕ) (ids : List ℕ) (rows : List JobRow) (row : JobRow)
    → Distinct ids
    → get_elem? ids k ≡ some id
    → find id rows ≡ some row
    → find id (place_all now position ids rows) ≡ some (moved_row now (position + k) row)
unfolding place_all moved_row
place_all-at now position k id [] rows row d e f = cc
place_all-at now position zero id (i ∷ ids) rows row d e f =
    let same : i ≡ id = ground (arith, e) in
    let hit : (i == id) ≡ true = ground (arith, same) in
    place_all-other now (position + 1) id ids (update_job i (moved_row now position) rows)
      (subst (λ j. All (λ (o : ℕ). o ≢ j) ids) same d.0)
    ∙ find-update_job i id (moved_row now position) rows (λ r. refl)
    ∙ rw (hit, f) (ap (λ p. some (moved_row now p row)) (omega arith))
place_all-at now position (suc k) id (i ∷ ids) rows row d e f =
    let other : id ≢ i = All-get_elem? (λ o. o ≢ i) ids k id d.0 e in
    let miss : (i == id) ≡ false = ground (arith, other) in
    let kept : find id (update_job i (moved_row now position) rows) ≡ some row =
      find-update_job i id (moved_row now position) rows (λ r. refl) ∙ rw miss f in
    place_all-at now (position + 1) k id ids (update_job i (moved_row now position) rows) row d.1 e
      kept
    ∙ ap (λ p. some (moved_row now p row)) (omega arith)

-- What `reorderJobs` does once its checks have passed.
reordered :
    (device : ℕ) (ids : List ℕ) (s : Service) (row : DeviceRow)
    → find? (device_with device) s.devices ≡ some row
    → is_some row.revoked_at ≡ false
    → is_wrong_list ids (queued_of device s.jobs) ≡ false
    → let t : Service = record s { jobs = place_all s.clock 1 ids s.jobs } in
      reorder_jobs device ids s ≡ (ok (list_jobs (some device) none t), t)
unfolding reorder_jobs require_active_device require_device_row require
reordered device ids s row e active right = rw (e, active, right) refl

-- For an active console and a list that the checks of `reorderJobs` accept, without an id twice: the
-- call returns; the job that the list has at each place has that place, counted from 1, as its
-- position and the time as that of its last change, and is otherwise as it was;
-- and a job that is not in the list is as it was.
pub reorder_jobs-places :
    (device : ℕ) (ids : List ℕ) (s : Service) (console : DeviceRow)
    → find? (device_with device) s.devices ≡ some console
    → is_some console.revoked_at ≡ false
    → is_wrong_list ids (queued_of device s.jobs) ≡ false
    → Distinct ids
    → let t = (reorder_jobs device ids s).1 in
      ((reorder_jobs device ids s).0 ≡ ok (list_jobs (some device) none t))
      × ((k id : ℕ) (row : JobRow)
          → get_elem? ids k ≡ some id
          → find id s.jobs ≡ some row
          → find id t.jobs ≡ some (record row { position = 1 + k; updated_at = s.clock }))
      × ((j : ℕ) → All (λ (id : ℕ). id ≢ j) ids → find j t.jobs ≡ find j s.jobs)
unfolding moved_row
reorder_jobs-places device ids s console e active right d =
    rw (reordered device ids s console e active right) (
      refl,
      λ k id row at there. place_all-at s.clock 1 k id ids s.jobs row d at there,
      λ j absent. place_all-other s.clock 1 j ids s.jobs absent,
    )

placed_twice :
    (now : ℕ) (rows : List JobRow) (a : JobRow)
    → find a.id rows ≡ some a
    → find a.id (place_all now 1 (a.id ∷ a.id ∷ []) rows) ≡ some (moved_row now 2 a)
unfolding place_all moved_row
placed_twice now rows a e =
    let hit : (a.id == a.id) ≡ true = ground arith in
    let first : find a.id (update_job a.id (moved_row now 1) rows) ≡ some (moved_row now 1 a) =
      find-update_job a.id a.id (moved_row now 1) rows (λ r. refl) ∙ rw (hit, e) refl in
    find-update_job a.id a.id (moved_row now 2) (update_job a.id (moved_row now 1) rows) (λ r. refl)
    ∙ rw (hit, first) refl

twice-accepted : (a b : JobRow) → is_wrong_list (a.id ∷ a.id ∷ []) (a ∷ b ∷ []) ≡ false
unfolding is_wrong_list
twice-accepted a b = ground arith

-- If exactly two jobs are queued for an active console, `reorderJobs` accepts the list that names the
-- first of them twice: it returns, the first one gets the second place, and the other one, which the
-- list does not name, keeps its old place.
pub reorder_jobs-accepts_twice :
    (device : ℕ) (s : Service) (console : DeviceRow) (a b : JobRow)
    → find? (device_with device) s.devices ≡ some console
    → is_some console.revoked_at ≡ false
    → queued_of device s.jobs ≡ a ∷ b ∷ []
    → find a.id s.jobs ≡ some a
    → find b.id s.jobs ≡ some b
    → a.id ≢ b.id
    → let t = (reorder_jobs device (a.id ∷ a.id ∷ []) s).1 in
      ((reorder_jobs device (a.id ∷ a.id ∷ []) s).0 ≡ ok (list_jobs (some device) none t))
      × (find a.id t.jobs ≡ some (record a { position = 2; updated_at = s.clock }))
      × (find b.id t.jobs ≡ some b)
unfolding moved_row
reorder_jobs-accepts_twice device s console a b e active two fa fb n =
    let right : is_wrong_list (a.id ∷ a.id ∷ []) (queued_of device s.jobs) ≡ false =
      rw two (twice-accepted a b) in
    rw (reordered device (a.id ∷ a.id ∷ []) s console e active right) (
      refl,
      placed_twice s.clock s.jobs a fa,
      place_all-other s.clock 1 b.id (a.id ∷ a.id ∷ []) s.jobs (n, (n, tt)) ∙ fb,
    )
