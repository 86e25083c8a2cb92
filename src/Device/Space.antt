-- ===== src/Device/Space.antt =====
-- packages/server/src/device/space.ts: whether the installs that wait for a console, and those
-- about to be sent, fit the free space that it reported. `left` is what the loop has not yet given
-- away, `none` where the console reported nothing.
pub mod Capacity
pub mod Targets
mod Runs
use nslibrary.Common.{
  ℕ, ◌+◌, ◌-◌, Bool, true, false, Option, none, some, List, [], ◌∷◌, leb, or_else, if◌then◌else◌,
}
use nslibrary.Shared.Types.{Storage, InstallTarget}

-- [free bytes, total bytes]
pub record ReportedSpace : Type 0 where
  pub sd : Option (ℕ × ℕ)
  pub nand : Option (ℕ × ℕ)

pub record SpaceDemand : Type 0 where
  pub bytes : ℕ
  pub target : InstallTarget

pub record Placement : Type 0 where
  pub storage : Option Storage
  pub fits : Bool

-- Record<Storage, A>
pub record PerStorage (A : Type 0) : Type 0 where
  pub sd : A
  pub nand : A

module _ {A : Type 0} where
  abbrev pub at : Storage → PerStorage A → A
  at Storage.sd r = r.sd
  at Storage.nand r = r.nand

  abbrev pub put : Storage → A → PerStorage A → PerStorage A
  put Storage.sd a r = record r { sd = a }
  put Storage.nand a r = record r { nand = a }

pub record SpacePlan : Type 0 where
  pub queued : PerStorage ℕ
  pub batch : PerStorage ℕ
  pub placements : List Placement

-- The two variables that `place` changes: `left`, and the tally that it was called with.
pub record Room : Type 0 where
  pub left : PerStorage (Option ℕ)
  pub into : PerStorage ℕ

pub fits_in : ℕ → Option ℕ → Bool
fits_in bytes none = false
fits_in bytes (some free) = leb bytes free

-- `room(storage)`
pub room : Room → SpaceDemand → Storage → Bool
unfolding fits_in
room r demand storage = fits_in demand.bytes (at storage r.left)

-- `take(storage)`
pub take_room : Room → SpaceDemand → Storage → Placement × Room
take_room r demand storage = (
  record { storage = some storage; fits = true },
  record {
    left = put storage (some (or_else (at storage r.left) 0 - demand.bytes)) r.left;
    into = put storage (at storage r.into + demand.bytes) r.into;
  },
)

abbrev pub no_room : Option Storage → Placement
no_room storage = record { storage = storage; fits = false }

-- An install with a fixed target. It names its storage unless the console never reported it.
pub place_on : Room → SpaceDemand → Storage → Placement × Room
unfolding room take_room
place_on r demand storage =
    if room r demand storage
    then take_room r demand storage
    else (no_room (elim (at storage r.left) [ none ↦ none | some free ↦ some storage ]), r)

pub place_auto : Room → SpaceDemand → Placement × Room
unfolding room take_room
place_auto r demand =
    if room r demand Storage.sd
    then take_room r demand Storage.sd
    else if room r demand Storage.nand
    then take_room r demand Storage.nand
    else (no_room none, r)

pub dispatch : InstallTarget → Room → SpaceDemand → Placement × Room
unfolding place_on place_auto
dispatch InstallTarget.auto r demand = place_auto r demand
dispatch InstallTarget.sd r demand = place_on r demand Storage.sd
dispatch InstallTarget.nand r demand = place_on r demand Storage.nand

pub place : Room → SpaceDemand → Placement × Room
unfolding dispatch
place r demand = dispatch demand.target r demand

-- `demands.map((demand) => place(demand, into))`
pub place_all : Room → List SpaceDemand → List Placement × Room
unfolding place
place_all r [] = ([], r)
place_all r (demand ∷ rest) =
    let (p, r') = place r demand in let (ps, r'') = place_all r' rest in (p ∷ ps, r'')

abbrev pub zeros : PerStorage ℕ
zeros = record { sd = 0; nand = 0 }

abbrev pub free_of : Option (ℕ × ℕ) → Option ℕ
free_of none = none
free_of (some (free, total)) = some free

abbrev pub free_space : ReportedSpace → PerStorage (Option ℕ)
free_space space = record { sd = free_of space.sd; nand = free_of space.nand }

pub plan_space : ReportedSpace → List SpaceDemand → List SpaceDemand → SpacePlan
unfolding place_all
plan_space space pending batch =
    let (_, first) = place_all (record { left = free_space space; into = zeros }) pending in
    let (placements, second) = place_all (record { left = first.left; into = zeros }) batch in
    record { queued = first.into; batch = second.into; placements = placements }
