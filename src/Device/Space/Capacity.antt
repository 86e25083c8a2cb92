-- ===== src/Device/Space/Capacity.antt =====
-- The plan of packages/server/src/device/space.ts never gives away more than the console reported,
-- and its tallies count exactly the installs that fit.
use nslibrary.Common.{
  ℕ, ◌+◌, ◌≤◌, ◌≡◌, refl, Option, none, some, List, [], ◌∷◌, arith, if◌then◌else◌, length, ap, suc,
}
use nslibrary.Device.Space.{
  ReportedSpace, SpaceDemand, Placement, PerStorage, Room, zeros, free_of, free_space, place,
  place_all, plan_space,
}

-- What one storage had when the loop began is what is left and what was given away.
abbrev pub Accounts : Option ℕ → Option ℕ → ℕ → Type 0
Accounts none left given = (left ≡ none) × (given ≡ 0)
Accounts (some free) none given = ⊥
Accounts (some free) (some left) given = left + given ≡ free

pub record IsBalanced (start : PerStorage (Option ℕ)) (r : Room) : Type 0 where
  pub sd : Accounts start.sd r.left.sd r.into.sd
  pub nand : Accounts start.nand r.left.nand r.into.nand

place-IsBalanced :
    (start : PerStorage (Option ℕ)) (r : Room) (d : SpaceDemand)
    → IsBalanced start r
    → IsBalanced start (place r d).1
unfolding place
place-IsBalanced start r d h = ground arith

pub place_all-IsBalanced :
    (start : PerStorage (Option ℕ)) (r : Room) (ds : List SpaceDemand)
    → IsBalanced start r
    → IsBalanced start (place_all r ds).1
unfolding place_all
place_all-IsBalanced start r [] h = h
place_all-IsBalanced start r (d ∷ ds) h =
    place_all-IsBalanced start (place r d).1 ds (place-IsBalanced start r d h)

pub start-IsBalanced :
    (left : PerStorage (Option ℕ)) → IsBalanced left (record { left = left; into = zeros })
start-IsBalanced left = ground arith

-- What the pending installs and the batch take together fits what the console reported.
abbrev pub Within : Option ℕ → ℕ → ℕ → Type 0
Within none queued batch = (queued ≡ 0) × (batch ≡ 0)
Within (some free) queued batch = queued + batch ≤ free

within :
    (start middle end : Option ℕ) (queued batch : ℕ)
    → Accounts start middle queued
    → Accounts middle end batch
    → Within start queued batch
within none middle end queued batch a b = ground arith
within (some free) none end queued batch a b = absurd a
within (some free) (some l) none queued batch a b = absurd b
within (some free) (some l) (some k) queued batch a b = omega arith

-- For each storage, the bytes that the plan takes for the pending installs and for the batch are
-- together at most the free bytes that the console reported, and none where it reported nothing.
pub plan_space-Within :
    (space : ReportedSpace) (pending batch : List SpaceDemand)
    → Within
        (free_of space.sd)
        (plan_space space pending batch).queued.sd
        (plan_space space pending batch).batch.sd
      × Within
          (free_of space.nand)
          (plan_space space pending batch).queued.nand
          (plan_space space pending batch).batch.nand
unfolding plan_space
plan_space-Within space pending batch =
    let first : Room = (place_all (record { left = free_space space; into = zeros }) pending).1 in
    let second : Room = (place_all (record { left = first.left; into = zeros }) batch).1 in
    let a = place_all-IsBalanced (free_space space) _ pending (start-IsBalanced _) in
    let b = place_all-IsBalanced first.left _ batch (start-IsBalanced _) in
    (
      within (free_of space.sd) first.left.sd second.left.sd _ _ a.sd b.sd,
      within (free_of space.nand) first.left.nand second.left.nand _ _ a.nand b.nand,
    )

-- The bytes of the demands whose placements say that they fit.
unfoldable pub fitted_bytes : List SpaceDemand → List Placement → ℕ
fitted_bytes [] ps = 0
fitted_bytes (d ∷ ds) [] = 0
fitted_bytes (d ∷ ds) (p ∷ ps) =
    let rest = fitted_bytes ds ps in if p.fits then d.bytes + rest else rest

place_takes :
    (r : Room) (d : SpaceDemand)
    → (place r d).1.into.sd + (place r d).1.into.nand
      ≡ r.into.sd + r.into.nand + (if (place r d).0.fits then d.bytes else 0)
unfolding place
place_takes r d = ground arith

pub place_all_takes :
    (r : Room) (ds : List SpaceDemand)
    → (place_all r ds).1.into.sd + (place_all r ds).1.into.nand
      ≡ r.into.sd + r.into.nand + fitted_bytes ds (place_all r ds).0
unfolding place_all fitted_bytes
place_all_takes r [] = omega arith
place_all_takes r (d ∷ ds) = ground (arith, place_takes r d, place_all_takes (place r d).1 ds)

place_all-length : (r : Room) (ds : List SpaceDemand) → length (place_all r ds).0 ≡ length ds
unfolding place_all
place_all-length r [] = refl
place_all-length r (d ∷ ds) = ap suc (place_all-length (place r d).1 ds)

-- The batch has as many placements as items, and the bytes that it takes from the two storages are
-- those of the items whose placement, at the same place in the list, says that it fits.
pub plan_space-fitted_bytes :
    (space : ReportedSpace) (pending batch : List SpaceDemand)
    → (length (plan_space space pending batch).placements ≡ length batch)
      × ((plan_space space pending batch).batch.sd + (plan_space space pending batch).batch.nand
          ≡ fitted_bytes batch (plan_space space pending batch).placements)
unfolding plan_space
plan_space-fitted_bytes space pending batch =
    let first : Room = (place_all (record { left = free_space space; into = zeros }) pending).1 in
    let start : Room = record { left = first.left; into = zeros } in
    (place_all-length start batch, omega (arith, place_all_takes start batch))
