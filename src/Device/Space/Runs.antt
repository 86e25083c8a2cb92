-- ===== src/Device/Space/Runs.antt =====
-- Runs of the planner of packages/server/src/device/space.ts, and its theorems at these inputs.
use nslibrary.Common.{ℕ, ◌≡◌, refl, true, some, List, [], ◌∷◌}
use nslibrary.Shared.Types.{Storage, InstallTarget}
use nslibrary.Device.Space.{ReportedSpace, SpaceDemand, no_room, place, place_all, plan_space}
use nslibrary.Device.Space.Capacity.{Within, plan_space-Within}
use nslibrary.Device.Space.Targets.{AllJustified, left_after, plan_space-AllJustified}

abbrev space : ReportedSpace
space = record { sd = some (100, 128); nand = some (40, 64) }

abbrev demand : ℕ → InstallTarget → SpaceDemand
demand bytes target = record { bytes = bytes; target = target }

abbrev pending : List SpaceDemand
pending = demand 30 InstallTarget.auto ∷ demand 200 InstallTarget.sd ∷ []

abbrev batch : List SpaceDemand
batch =
    demand 60 InstallTarget.auto
    ∷ demand 20 InstallTarget.auto
    ∷ demand 30 InstallTarget.sd
    ∷ demand 10 InstallTarget.nand
    ∷ []

placements_of_batch :
    (plan_space space pending batch).placements
    ≡ record { storage = some Storage.sd; fits = true }
      ∷ record { storage = some Storage.nand; fits = true }
      ∷ no_room (some Storage.sd)
      ∷ record { storage = some Storage.nand; fits = true }
      ∷ []
unfolding plan_space place_all place
placements_of_batch = refl

plan_space-Within_example : Within (some 100) 30 60 × Within (some 40) 0 30
unfolding plan_space place_all place
plan_space-Within_example = plan_space-Within space pending batch

plan_space-AllJustified_example :
    AllJustified
      (left_after space (plan_space space pending batch))
      batch
      (plan_space space pending batch).placements
plan_space-AllJustified_example = plan_space-AllJustified space pending batch
